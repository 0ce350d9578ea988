-- ===== src/Wgcli/Show.antt =====
-- `Pretty` of internal/wgcli/format.go, into a buffer whose writes do not fail.
use wgctrl_go.Base.{
  ℕ, Bool, true, false, not, ◌||◌, List, [], ◌∷◌, ◌++◌, map, Option, none, some, Text, codes,
  is_empty, length, ◌==◌, if◌then◌else◌,
}
use wgctrl_go.Base.Int.{is_zero}
use wgctrl_go.Std.Strings.{join, cut_last}
use wgctrl_go.Std.Strconv.{format_int, format_int_hex}
use wgctrl_go.Std.Sort.{sort_stable}
use wgctrl_go.Types.{Key, Ip, IpNet, UdpAddr, UnixTime, Duration, Peer, Device}
use wgctrl_go.Types.Keys.{key_string}
use wgctrl_go.Wgconfig.Fields.{is_ipv4}
use wgctrl_go.Wgcli.Durations.{
  ansi_reset, ansi_green, ansi_yellow, ansi_cyan, ansi_bold, styled, bold, duration_text, ago,
  byte_count,
}

-- `IPNet.String`, `UDPAddr.String`, `now.Sub` in nanoseconds, `Time.After`, and two decimals of a quotient.
pub record Texts : Type 0 where
  pub net_string : IpNet → Text
  pub address_string : UdpAddr → Text
  pub since : UnixTime → Duration
  pub after : UnixTime → UnixTime → Bool
  pub decimals : ℕ → ℕ → Text

-- `  label: value`
abbrev pub entry : Bool → Text → Text → Text
entry color label value = codes "  " ++ (bold color label ++ (codes ": " ++ (value ++ 10 ∷ [])))

abbrev pub entry_if : Bool → Bool → Text → Text → Text
entry_if c color label value = if c then entry color label value else []

-- `displayKey`
unfoldable pub display_key : Key → Bool → Text
unfolding key_string
display_key k show = if show then key_string k else codes "(hidden)"

-- The order of the peers: the latest handshake first, and none last.
unfoldable pub is_later : Texts → Option UnixTime → Option UnixTime → Bool
is_later out none b = false
is_later out (some a) none = true
is_later out (some a) (some b) = out.after a b

-- `prettyAllowedIPs`
abbrev pub colored_network : Bool → Option (Text × Text) → Text → Text
colored_network true (some (address, bits)) value =
    address ++ (styled true ansi_cyan (b'/' ∷ []) ++ bits)
colored_network _ _ value = value

unfoldable pub pretty_allowed_ips : Texts → List IpNet → Bool → Text
unfolding join cut_last styled
pretty_allowed_ips out ips color =
    if is_empty ips
    then codes "(none)"
    else join (codes ", ")
        (map (λ n. colored_network color (cut_last b'/' (out.net_string n)) (out.net_string n)) ips)

abbrev pub is_address : Ip → Bool
is_address ip = is_ipv4 ip || length ip == 4 || length ip == 16

abbrev pub name_entry : Bool → Option Text → Text
name_entry color none = []
name_entry color (some name) = entry_if (not (is_empty name)) color (codes "name") name

abbrev pub endpoint_entry : Texts → Bool → Option UdpAddr → Text
endpoint_entry out color none = []
endpoint_entry out color (some a) =
    entry_if (is_address a.ip) color (codes "endpoint") (out.address_string a)

abbrev pub handshake_entry : Texts → Bool → Option UnixTime → Text
handshake_entry out color none = []
handshake_entry out color (some t) =
    entry color (codes "latest handshake") (ago (out.since t) color)

-- One round of the loop over the peers, behind its empty line.
unfoldable pub pretty_peer : Texts → Bool → Bool → Peer → Text
unfolding styled display_key key_string pretty_allowed_ips ago byte_count duration_text is_ipv4
pretty_peer out show_keys color p =
    styled color (ansi_yellow ++ ansi_bold) (codes "peer")
    ++ (codes ": "
        ++ (styled color ansi_yellow (key_string p.public_key)
            ++ (10 ∷ name_entry color p.name
                ++ (entry_if p.has_preshared_key color (codes "preshared key")
                      (display_key p.preshared_key show_keys)
                    ++ (endpoint_entry out color p.endpoint
                        ++ (entry color (codes "allowed ips")
                              (pretty_allowed_ips out p.allowed_ips color)
                            ++ (handshake_entry out color p.last_handshake_time
                                ++ (entry_if
                                      (not (is_zero p.receive_bytes)
                                        || not (is_zero p.transmit_bytes))
                                      color (codes "transfer")
                                      (byte_count out.decimals p.receive_bytes color
                                        ++ (codes " received, "
                                            ++ (byte_count out.decimals p.transmit_bytes color
                                                ++ codes " sent")))
                                    ++ entry_if (not (is_zero p.persistent_keepalive_interval))
                                        color (codes "persistent keepalive")
                                        (codes "every "
                                          ++ duration_text p.persistent_keepalive_interval
                                              color)))))))))

-- The peers, with an empty line between two.
unfoldable pub pretty_peers : Texts → Bool → Bool → List Peer → Text
unfolding pretty_peer
pretty_peers out show_keys color [] = []
pretty_peers out show_keys color (p ∷ ps) =
    10 ∷ pretty_peer out show_keys color p ++ pretty_peers out show_keys color ps

-- The lines of the device itself.
unfoldable pub pretty_interface : Bool → Bool → Device → Text
unfolding styled display_key key_string format_int format_int_hex
pretty_interface show_keys color d =
    (if color then ansi_reset else [])
    ++ (styled color (ansi_green ++ ansi_bold) (codes "interface")
        ++ (codes ": "
            ++ (styled color ansi_green d.name
                ++ (10
                      ∷ entry_if d.has_public_key color (codes "public key")
                          (key_string d.public_key)
                    ++ (entry_if d.has_private_key color (codes "private key")
                          (display_key d.private_key show_keys)
                        ++ (entry_if (not (is_zero d.listen_port)) color (codes "listening port")
                              (format_int d.listen_port)
                            ++ entry_if (not (is_zero d.firewall_mark)) color (codes "fwmark")
                                (codes "0x" ++ format_int_hex d.firewall_mark)))))))

abbrev pub by_handshake : Texts → Peer → Peer → Bool
by_handshake out p q = is_later out p.last_handshake_time q.last_handshake_time

-- `Pretty`
unfoldable pub pretty : Texts → Device → Bool → Bool → Text
unfolding pretty_interface pretty_peers sort_stable is_later
pretty out d show_keys color =
    pretty_interface show_keys color d
    ++ pretty_peers out show_keys color (sort_stable (by_handshake out) d.peers)
