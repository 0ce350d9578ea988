-- ===== src/Wgquick/Encode.antt =====
-- internal/wgquick/strip.go, into a buffer whose writes do not fail.
use wgctrl_go.Base.{
  Bool, not, ◌||◌, List, [], ◌∷◌, ◌++◌, map, Option, none, some, Text, codes, is_empty,
  if◌then◌else◌,
}
use wgctrl_go.Base.Int.{ℤ, is_zero, is_positive}
use wgctrl_go.Std.Strings.{join}
use wgctrl_go.Std.Strconv.{format_int}
use wgctrl_go.Types.{Ip, IpNet, UdpAddr, Duration}
use wgctrl_go.Types.Keys.{key_string}
use wgctrl_go.Wgquick.Config.{PeerConfig, Config}
use wgctrl_go.Wgquick.Lines.{is_none}

-- `IP.String`, `IPNet.String`, `UDPAddr.String`, and `int(d.Seconds())`, which goes through a float.
pub record Printer : Type 0 where
  pub ip_string : Ip → Text
  pub net_string : IpNet → Text
  pub address_string : UdpAddr → Text
  pub whole_seconds : Duration → ℤ

abbrev pub line : Text → Text → Text
line label value = label ++ (value ++ 10 ∷ [])

abbrev pub line_of {ℓ} : {A : Type ℓ} → Text → (A → Text) → Option A → Text
line_of label show none = []
line_of label show (some a) = line label (show a)

abbrev pub line_if : Bool → Text → Text → Text
line_if c label value = if c then line label value else []

abbrev pub concat_map {ℓ} : {A : Type ℓ} → (A → Text) → List A → Text
concat_map f [] = []
concat_map f (a ∷ as') = f a ++ concat_map f as'

-- `writeInterfaceCrypto`
unfoldable pub write_interface_crypto : Config → Text
unfolding key_string format_int
write_interface_crypto c =
    line_of (codes "PrivateKey = ") key_string c.private_key
    ++ (line_of (codes "ListenPort = ") format_int c.listen_port
        ++ line_of (codes "FwMark = ") format_int c.firewall_mark)

-- `writeIPNetList`, which is called for lists that are not empty.
unfoldable pub write_ip_net_list : Printer → Text → List IpNet → Text
unfolding join
write_ip_net_list out label ns =
    line_if (not (is_empty ns)) label (join (codes ", ") (map out.net_string ns))

abbrev pub keepalive_text : Printer → Duration → Text
keepalive_text out d = if is_zero d then codes "off" else format_int (out.whole_seconds d)

-- `writePeer`
unfoldable pub write_peer : Printer → PeerConfig → Text
unfolding key_string write_ip_net_list
write_peer out p =
    codes "\n[Peer]\n"
    ++ (line (codes "PublicKey = ") (key_string p.public_key)
        ++ (line_of (codes "PresharedKey = ") key_string p.preshared_key
            ++ (write_ip_net_list out (codes "AllowedIPs = ") p.allowed_ips
                ++ (line_of (codes "Endpoint = ") out.address_string p.endpoint
                    ++ line_of (codes "PersistentKeepalive = ") (keepalive_text out)
                        p.persistent_keepalive))))

abbrev pub has_interface : Config → Bool
has_interface c =
    not (is_none c.private_key) || not (is_none c.listen_port) || not (is_none c.firewall_mark)

-- `Strip`
unfoldable pub strip : Printer → Config → Text
unfolding write_interface_crypto write_peer
strip out c =
    (if has_interface c then codes "[Interface]\n" ++ write_interface_crypto c else [])
    ++ concat_map (write_peer out) c.peers

-- The fields of a network that `Encode` writes.
unfoldable pub write_network : Printer → Config → Text
unfolding write_ip_net_list format_int join
write_network out c =
    write_ip_net_list out (codes "Address = ") c.addresses
    ++ (line_if (not (is_empty c.dns)) (codes "DNS = ")
          (join (codes ", ") (map out.ip_string c.dns))
        ++ (line_if (is_positive c.mtu) (codes "MTU = ") (format_int c.mtu)
            ++ (line_if (not (is_empty c.table)) (codes "Table = ") c.table
                ++ (concat_map (line (codes "PreUp = ")) c.pre_up
                    ++ (concat_map (line (codes "PostUp = ")) c.post_up
                        ++ (concat_map (line (codes "PreDown = ")) c.pre_down
                            ++ (concat_map (line (codes "PostDown = ")) c.post_down
                                ++ line_if c.save_config (codes "SaveConfig = ")
                                    (codes "true"))))))))

-- `Encode`
unfoldable pub encode : Printer → Config → Text
unfolding write_interface_crypto write_network write_peer
encode out c =
    codes "[Interface]\n"
    ++ (write_interface_crypto c ++ (write_network out c ++ concat_map (write_peer out) c.peers))
