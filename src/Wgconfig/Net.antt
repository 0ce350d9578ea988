-- ===== src/Wgconfig/Net.antt =====
-- What internal/wgconfig/parse.go takes from the packages `net`, `encoding/json` and `os`.
use wgctrl_go.Base.{ℕ, Bool, List, Option, Text}
use wgctrl_go.Base.Result.{Result}
use wgctrl_go.Types.{Ip, IpNet}

-- An error of the resolver: a `net.DNSError` with three of its fields, or another one.
pub record DnsError : Type 0 where
  pub is_not_found : Bool
  pub is_temporary : Bool
  pub is_timeout : Bool

pub data LookupError : Type 0 where
  dns : DnsError → LookupError
  other : LookupError

pub record Net : Type 0 where
  -- `net.ParseIP`
  pub parse_ip : Text → Option Ip
  -- `net.ParseCIDR`
  pub parse_cidr : Text → Option (Ip × IpNet)
  -- `net.SplitHostPort`
  pub split_host_port : Text → Option (Text × Text)
  -- `net.LookupPort("udp", …)`
  pub lookup_port : Text → Option ℕ
  -- what the resolver answers for a host at its first, second, … lookup
  pub lookup_ips : Text → ℕ → Result LookupError (List Ip)
  -- `os.LookupEnv("WG_ENDPOINT_RESOLUTION_RETRIES")`
  pub retries_variable : Option Text
  -- `json.Unmarshal` into a string
  pub unquote : Text → Option Text
