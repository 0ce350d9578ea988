-- ===== src/Wgapi/Json.antt =====
-- internal/wgapi/json.go: devices and configurations as they stand in JSON. A member that is left
-- out when it is empty has the zero value.
use wgctrl_go.Base.{
  ℕ, suc, ◌-◌, ◌*◌, ◌%◌, ◌^◌, Bool, true, not, List, [], ◌∷◌, map, Option, none, some, Text, ltb,
  if◌then◌else◌,
}
use wgctrl_go.Base.Int.{ℤ, pos, negsuc, is_zero}
use wgctrl_go.Base.Result.{Result, ok, err, map_err, ◌>>=◌}
use wgctrl_go.Std.Strings.{trim_space}
use wgctrl_go.Types.{Key, Ip, IpNet, UdpAddr, UnixTime, second, device_type_string}
use wgctrl_go.Types
use wgctrl_go.Types.Keys.{KeyError, parse_key, key_string}
use wgctrl_go.Wgconfig.Encode.{Printer, format_endpoint, whole_seconds}

pub record Peer : Type 0 where
  pub name : Text
  pub public_key : Text
  pub preshared_key : Text
  pub has_preshared_key : Bool
  pub endpoint : Text
  pub has_endpoint : Bool
  pub persistent_keepalive_seconds : ℤ
  pub last_handshake_time : Text
  pub receive_bytes : ℤ
  pub transmit_bytes : ℤ
  pub allowed_ips : List Text
  pub protocol_version : ℤ

pub record Device : Type 0 where
  pub name : Text
  pub type : Text
  pub private_key : Text
  pub has_private_key : Bool
  pub public_key : Text
  pub has_public_key : Bool
  pub listen_port : ℤ
  pub has_listen_port : Bool
  pub firewall_mark : ℤ
  pub has_firewall_mark : Bool
  pub peers : List Peer

-- The printing functions of package net, and `Time.Format` with RFC 3339 in UTC.
pub record Formats : Type 0 where
  pub printer : Printer
  pub rfc3339 : UnixTime → Text

abbrev pub text_or_empty : Option Text → Text
text_or_empty none = []
text_or_empty (some t) = t

abbrev pub endpoint_text : Formats → Bool → Option UdpAddr → Text
endpoint_text out true (some a) = format_endpoint out.printer a
endpoint_text out _ _ = []

abbrev pub time_text : Formats → Option UnixTime → Text
time_text out none = []
time_text out (some t) = out.rfc3339 t

-- `peerToJSON`
unfoldable pub peer_to_json : Formats → Bool → Types.Peer → Peer
unfolding key_string format_endpoint
peer_to_json out hide p = record {
  name = text_or_empty p.name;
  public_key = key_string p.public_key;
  preshared_key = if not hide then key_string p.preshared_key else [];
  has_preshared_key = p.has_preshared_key;
  endpoint = endpoint_text out p.has_endpoint p.endpoint;
  has_endpoint = p.has_endpoint;
  persistent_keepalive_seconds =
      if not (is_zero p.persistent_keepalive_interval)
      then whole_seconds p.persistent_keepalive_interval
      else pos 0;
  last_handshake_time = time_text out p.last_handshake_time;
  receive_bytes = p.receive_bytes;
  transmit_bytes = p.transmit_bytes;
  allowed_ips = map out.printer.net_string p.allowed_ips;
  protocol_version = p.protocol_version;
}

-- `deviceToJSON`
unfoldable pub device_to_json : Formats → Bool → Types.Device → Device
unfolding peer_to_json device_type_string key_string
device_to_json out hide d = record {
  name = d.name;
  type = device_type_string d.type;
  private_key = if not hide then key_string d.private_key else [];
  has_private_key = d.has_private_key;
  public_key = key_string d.public_key;
  has_public_key = d.has_public_key;
  listen_port = d.listen_port;
  has_listen_port = d.has_listen_port;
  firewall_mark = d.firewall_mark;
  has_firewall_mark = d.has_firewall_mark;
  peers = map (peer_to_json out hide) d.peers;
}

pub record PeerConfig : Type 0 where
  pub name : Option Text
  pub public_key : Text
  pub remove : Bool
  pub update_only : Bool
  pub preshared_key : Option Text
  pub endpoint : Option Text
  pub persistent_keepalive_seconds : Option ℤ
  pub replace_allowed_ips : Bool
  pub allowed_ips : List Text

pub record Config : Type 0 where
  pub private_key : Option Text
  pub listen_port : Option ℤ
  pub firewall_mark : Option ℤ
  pub replace_peers : Bool
  pub peers : List PeerConfig

-- `net.ResolveUDPAddr("udp", …)` and `net.ParseCIDR`.
pub record Net : Type 0 where
  pub resolve_udp_addr : Text → Option UdpAddr
  pub parse_cidr : Text → Option (Ip × IpNet)

pub data ConfigError : Type 0 where
  bad_private_key bad_public_key bad_preshared_key : KeyError → ConfigError
  bad_endpoint bad_allowed_ips : Text → ConfigError
  in_peer : ℕ → ConfigError → ConfigError

-- A pointer that is set is converted; the other stays nil.
unfoldable pub convert {ℓ κ ι} :
    {E : Type ℓ} {A : Type κ} {B : Type ι} → (A → Result E B) → Option A → Result E (Option B)
convert f none = ok none
convert f (some a) = do b ← f a; ok (some b)

abbrev pub or_failed {ℓ κ} : {A : Type ℓ} {E : Type κ} → E → Option A → Result E A
or_failed e none = err e
or_failed e (some a) = ok a

-- 64 bits as a signed number.
abbrev pub signed : ℕ → ℤ
signed m = if ltb m (2 ^ 63) then pos m else negsuc (2 ^ 64 - 1 - m)

-- `time.Duration(n) * time.Second`, which wraps around at 64 bits.
unfoldable pub times_second : ℤ → ℤ
times_second (pos n) = signed ((n * second) % 2 ^ 64)
times_second (negsuc n) = signed ((2 ^ 64 - (suc n * second) % 2 ^ 64) % 2 ^ 64)

abbrev pub network_of : Ip × IpNet → IpNet
network_of x = x.1

-- The loop over `p.AllowedIPs`.
unfoldable pub parse_networks : Net → List Text → Result ConfigError (List IpNet)
unfolding trim_space
parse_networks net [] = ok []
parse_networks net (cidr ∷ cidrs) = do
  x ← or_failed (bad_allowed_ips cidr) (net.parse_cidr (trim_space cidr))
  ns ← parse_networks net cidrs
  ok (network_of x ∷ ns)

abbrev pub resolve : Net → Text → Result ConfigError UdpAddr
resolve net text = or_failed (bad_endpoint text) (net.resolve_udp_addr text)

abbrev pub seconds_of : Option ℤ → Option ℤ
seconds_of none = none
seconds_of (some n) = some (times_second n)

-- `ParsePeerConfig`
unfoldable pub parse_peer_config : Net → PeerConfig → Result ConfigError Types.PeerConfig
unfolding parse_key convert parse_networks times_second
parse_peer_config net p = do
  key ← map_err bad_public_key (parse_key p.public_key)
  psk ← convert (λ t. map_err bad_preshared_key (parse_key t)) p.preshared_key
  addr ← convert (resolve net) p.endpoint
  ns ← parse_networks net p.allowed_ips
  ok (record {
    name = p.name;
    public_key = key;
    remove = p.remove;
    update_only = p.update_only;
    preshared_key = psk;
    endpoint = addr;
    persistent_keepalive_interval = seconds_of p.persistent_keepalive_seconds;
    replace_allowed_ips = p.replace_allowed_ips;
    allowed_ips = ns;
    allowed_ip_operations = [];
  })

-- The loop over `c.Peers`, from the peer numbered `i` on.
unfoldable pub parse_peers : Net → ℕ → List PeerConfig → Result ConfigError (List Types.PeerConfig)
unfolding parse_peer_config
parse_peers net i [] = ok []
parse_peers net i (p ∷ ps) = do
  pc ← map_err (in_peer i) (parse_peer_config net p)
  pcs ← parse_peers net (suc i) ps
  ok (pc ∷ pcs)

-- `ParseConfig`
unfoldable pub parse_config : Net → Config → Result ConfigError Types.Config
unfolding parse_key convert parse_peers
parse_config net c = do
  key ← convert (λ t. map_err bad_private_key (parse_key t)) c.private_key
  peers ← parse_peers net 0 c.peers
  ok (record {
    private_key = key;
    listen_port = c.listen_port;
    firewall_mark = c.firewall_mark;
    replace_peers = c.replace_peers;
    peers = peers;
  })
