-- ===== src/Wgconfig/Encode.antt =====
-- internal/wgconfig/encode.go, into a buffer whose writes do not fail.
use wgctrl_go.Base.{
  zero, suc, ◌/◌, Bool, true, false, not, ◌||◌, List, [], ◌∷◌, ◌++◌, map, Option, none, some, Text,
  codes, is_empty, length, ◌==◌, if◌then◌else◌,
}
use wgctrl_go.Base.Int.{ℤ, pos, negsuc, is_zero}
use wgctrl_go.Base.Result.{Result, ok, err, ◌>>=◌}
use wgctrl_go.Std.Strings.{join}
use wgctrl_go.Std.Strconv.{format_int, format_int_hex}
use wgctrl_go.Types.{Ip, IpNet, UdpAddr, Peer, Device, second}
use wgctrl_go.Types.Keys.{key_string}
use wgctrl_go.Wgconfig.Fields.{validate_peer_name, is_ipv4}

-- `IP.String`, `IPNet.String`, `net.JoinHostPort` and `json.Marshal` of a string.
pub record Printer : Type 0 where
  pub ip_string : Ip → Text
  pub net_string : IpNet → Text
  pub join_host_port : Text → Text → Text
  pub quote : Text → Text

-- The error of a name that is not valid.
pub data EncodeError : Type 0 where
  invalid_name : Text → EncodeError

abbrev pub line : Text → Text → Text
line label value = label ++ (value ++ 10 ∷ [])

-- A line that is written under a condition.
abbrev pub line_if : Bool → Text → Text → Text
line_if c label value = if c then line label value else []

-- `formatEndpoint`
unfoldable pub format_endpoint : Printer → UdpAddr → Text
unfolding format_int
format_endpoint out a =
    let host = out.ip_string a.ip ++ (if not (is_empty a.zone) then b'%' ∷ a.zone else []) in
    out.join_host_port host (format_int a.port)

-- `ip.To4() != nil || ip.To16() != nil`
abbrev is_address : Ip → Bool
is_address ip = is_ipv4 ip || length ip == 4 || length ip == 16

abbrev endpoint_line : Printer → Option UdpAddr → Text
endpoint_line out none = []
endpoint_line out (some a) = line_if (is_address a.ip) (codes "Endpoint = ") (format_endpoint out a)

-- `int64(d / time.Second)`, which rounds towards 0.
abbrev pub whole_seconds : ℤ → ℤ
whole_seconds (pos n) = pos (n / second)
whole_seconds (negsuc n) = elim (suc n / second) [ zero ↦ pos 0 | suc m ↦ negsuc m ]

-- The line of a name, or its error.
abbrev pub name_line : Printer → Option Text → Result EncodeError Text
name_line out none = ok []
name_line out (some name) =
    if is_empty name
    then ok []
    else if validate_peer_name name
    then ok (line (codes "# wgctrl-peer-name = ") (out.quote name))
    else err (invalid_name name)

-- The lines of a peer behind that of its name.
unfoldable pub peer_lines : Printer → Peer → Text
unfolding key_string join format_endpoint is_ipv4
peer_lines out p =
    line (codes "PublicKey = ") (key_string p.public_key)
    ++ (line_if p.has_preshared_key (codes "PresharedKey = ") (key_string p.preshared_key)
        ++ (line_if (not (is_empty p.allowed_ips)) (codes "AllowedIPs = ")
              (join (codes ", ") (map out.net_string p.allowed_ips))
            ++ ((if p.has_endpoint then endpoint_line out p.endpoint else [])
                ++ line_if (not (is_zero p.persistent_keepalive_interval))
                    (codes "PersistentKeepalive = ")
                    (format_int (whole_seconds p.persistent_keepalive_interval)))))

-- `encodePeer`
unfoldable pub encode_peer : Printer → Peer → Result EncodeError Text
unfolding peer_lines validate_peer_name
encode_peer out p = do
  name ← name_line out p.name
  ok (codes "[Peer]\n" ++ (name ++ peer_lines out p))

-- The loop over the peers, with an empty line in front of each but the first.
unfoldable pub encode_peers : Printer → Bool → List Peer → Result EncodeError Text
unfolding encode_peer
encode_peers out first [] = ok []
encode_peers out first (p ∷ ps) = do
  text ← encode_peer out p
  rest ← encode_peers out false ps
  ok ((if first then [] else 10 ∷ []) ++ (text ++ rest))

-- `encode` up to the peers.
unfoldable pub interface_lines : Device → Text
unfolding format_int format_int_hex key_string
interface_lines d =
    codes "[Interface]\n"
    ++ (line_if (not (is_zero d.listen_port)) (codes "ListenPort = ") (format_int d.listen_port)
        ++ (line_if (not (is_zero d.firewall_mark)) (codes "FwMark = 0x")
              (format_int_hex d.firewall_mark)
            ++ (line_if d.has_private_key (codes "PrivateKey = ") (key_string d.private_key)
                ++ 10 ∷ [])))

-- `encode`, which is `Encode`
unfoldable pub encode : Printer → Device → Result EncodeError Text
unfolding interface_lines encode_peers
encode out d = do peers ← encode_peers out true d.peers; ok (interface_lines d ++ peers)
