-- ===== src/Wgcli/Fields.antt =====
-- `Field` and `dump` of internal/wgcli/format.go, into a buffer whose writes do not fail.
use wgctrl_go.Base.{
  Bool, true, false, not, List, [], ◌∷◌, ◌++◌, map, Option, none, some, Text, codes, equal,
  is_empty, if◌then◌else◌,
}
use wgctrl_go.Base.Int.{ℤ, pos, is_zero}
use wgctrl_go.Std.Strings.{join}
use wgctrl_go.Std.Strconv.{format_int, format_int_hex}
use wgctrl_go.Types.{Key, IpNet, UdpAddr, UnixTime, Peer, Device}
use wgctrl_go.Types.Keys.{key_string}
use wgctrl_go.Wgconfig.Encode.{whole_seconds}
use wgctrl_go.Wgcli.Durations.{non_negative}
use wgctrl_go.Wgcli.Show.{Texts, is_address}

-- `displayKeyValue`
unfoldable pub display_key_value : Key → Bool → Text
unfolding key_string
display_key_value k present = if present then key_string k else codes "(none)"

-- `joinedAllowedIPs`
unfoldable pub joined_allowed_ips : Texts → List IpNet → Text → Text
unfolding join
joined_allowed_ips out ips separator =
    if is_empty ips then codes "(none)" else join separator (map out.net_string ips)

abbrev pub endpoint_or_none : Texts → Option UdpAddr → Text
endpoint_or_none out none = codes "(none)"
endpoint_or_none out (some a) = if is_address a.ip then out.address_string a else codes "(none)"

-- `handshakeSeconds`
abbrev pub handshake_seconds : Option UnixTime → ℤ
handshake_seconds none = pos 0
handshake_seconds (some t) = t.sec

abbrev pub keepalive_value : Peer → Text
keepalive_value p =
    if not (is_zero p.persistent_keepalive_interval)
    then format_int (whole_seconds p.persistent_keepalive_interval)
    else codes "off"

abbrev pub mark_value : Device → Text
mark_value d =
    if not (is_zero d.firewall_mark)
    then codes "0x" ++ format_int_hex d.firewall_mark
    else codes "off"

-- A line of columns.
abbrev pub columns : List Text → Text
columns values = join (9 ∷ []) values ++ 10 ∷ []

-- The column of the interface, if there is one.
abbrev pub prefix : Bool → Device → List Text
prefix true d = d.name ∷ []
prefix false d = []

-- A line for every peer.
unfoldable pub peer_lines : (Peer → List Text) → Bool → Device → List Peer → Text
unfolding join
peer_lines values with_interface d [] = []
peer_lines values with_interface d (p ∷ ps) =
    columns (prefix with_interface d ++ values p) ++ peer_lines values with_interface d ps

abbrev pub dump_peer : Texts → Peer → List Text
dump_peer out p =
    key_string p.public_key
    ∷ display_key_value p.preshared_key p.has_preshared_key
    ∷ endpoint_or_none out p.endpoint
    ∷ joined_allowed_ips out p.allowed_ips (codes ",")
    ∷ format_int (handshake_seconds p.last_handshake_time)
    ∷ format_int (pos (non_negative p.receive_bytes))
    ∷ format_int (pos (non_negative p.transmit_bytes))
    ∷ keepalive_value p
    ∷ []

abbrev pub dump_interface : Device → List Text
dump_interface d =
    display_key_value d.private_key d.has_private_key
    ∷ display_key_value d.public_key d.has_public_key
    ∷ format_int d.listen_port
    ∷ mark_value d
    ∷ []

-- `dump`
unfoldable pub dump : Texts → Device → Bool → Text
unfolding peer_lines display_key_value joined_allowed_ips
dump out d with_interface =
    columns (prefix with_interface d ++ dump_interface d)
    ++ peer_lines (dump_peer out) with_interface d d.peers

-- The columns of a peer for a field that has a line for each, behind its key.
unfoldable pub peer_field : Texts → Text → Option (Peer → List Text)
unfolding display_key_value joined_allowed_ips
peer_field out f =
    if equal f (codes "peers")
    then some (λ (p : Peer). [])
    else if equal f (codes "preshared-keys")
    then some (λ (p : Peer). display_key_value p.preshared_key p.has_preshared_key ∷ [])
    else if equal f (codes "endpoints")
    then some (λ (p : Peer). endpoint_or_none out p.endpoint ∷ [])
    else if equal f (codes "allowed-ips")
    then some (λ (p : Peer). joined_allowed_ips out p.allowed_ips (codes " ") ∷ [])
    else if equal f (codes "latest-handshakes")
    then some (λ (p : Peer). format_int (handshake_seconds p.last_handshake_time) ∷ [])
    else if equal f (codes "transfer")
    then some (λ (p : Peer).
      format_int (pos (non_negative p.receive_bytes))
      ∷ format_int (pos (non_negative p.transmit_bytes))
      ∷ [])
    else if equal f (codes "persistent-keepalive")
    then some (λ (p : Peer). keepalive_value p ∷ [])
    else none

-- The value of a field of the device itself.
unfoldable pub device_field : Text → Device → Option Text
unfolding display_key_value
device_field f d =
    if equal f (codes "public-key")
    then some (display_key_value d.public_key d.has_public_key)
    else if equal f (codes "private-key")
    then some (display_key_value d.private_key d.has_private_key)
    else if equal f (codes "listen-port")
    then some (format_int d.listen_port)
    else if equal f (codes "fwmark")
    then some (mark_value d)
    else none

abbrev pub peer_output : Bool → Device → Option (Peer → List Text) → Option Text
peer_output with_interface d none = none
peer_output with_interface d (some values) =
    some (peer_lines (λ (p : Peer). key_string p.public_key ∷ values p) with_interface d d.peers)

abbrev pub device_output : Texts → Text → Bool → Device → Option Text → Option Text
device_output out f with_interface d (some value) =
    some (columns (prefix with_interface d ++ value ∷ []))
device_output out f with_interface d none = peer_output with_interface d (peer_field out f)

-- `Field`; `none` is its error.
unfoldable pub field : Texts → Device → Text → Bool → Option Text
unfolding device_field peer_field peer_lines dump
field out d f with_interface =
    if equal f (codes "dump")
    then some (dump out d with_interface)
    else device_output out f with_interface d (device_field f d)
