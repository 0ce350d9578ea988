-- ===== src/Wgquick/Parse.antt =====
-- `Parse` of internal/wgquick/parse.go.
use wgctrl_go.Base.{
  ℕ, ◌*◌, List, [], ◌∷◌, ◌++◌, Option, none, some, Text, codes, equal, is_empty, ltb, if◌then◌else◌,
}
use wgctrl_go.Base.Int.{pos}
use wgctrl_go.Base.Result.{Result, ok, err}
use wgctrl_go.Std.Strings.{trim_space, before, split, cut_prefix}
use wgctrl_go.Std.Strconv.{parse_uint, parse_bool}
use wgctrl_go.Std.Scanner.{ScanError}
use wgctrl_go.Types.{Key, Ip, IpNet, UdpAddr, second}
use wgctrl_go.Types.Keys.{KeyError}
use wgctrl_go.Types.Keys
use wgctrl_go.Wgquick.Config.{PeerConfig, Config}

-- `net.ParseIP`, `net.ParseCIDR` and `net.ResolveUDPAddr("udp", …)`.
pub record Net : Type 0 where
  pub parse_ip : Text → Option Ip
  pub parse_cidr : Text → Option (Ip × IpNet)
  pub resolve_udp_addr : Text → Option UdpAddr

pub data LineError : Type 0 where
  invalid_line outside_section : LineError
  unknown_section unknown_interface_field unknown_peer_field bad_field : Text → LineError

pub data ParseError : Type 0 where
  at_line : ℕ → LineError → ParseError
  read_failed : ScanError → ParseError
  missing_public_key : ℕ → ParseError
  no_usable_configuration : ParseError

-- `cleanLine`
unfoldable pub clean_line : Text → Text
unfolding trim_space before
clean_line line = trim_space (before b'#' (trim_space line))

abbrev pub at_most : ℕ → Option ℕ → Option ℕ
at_most max none = none
at_most max (some n) = if ltb max n then none else some n

-- `parseUint`
unfoldable pub parse_number : ℕ → Text → Option ℕ
unfolding parse_uint
parse_number max value = at_most max (parse_uint 10 64 value)

abbrev pub parse_mark : Text → Option Text → Option Text → Option ℕ
parse_mark value (some digits) upper = parse_uint 16 32 digits
parse_mark value none (some digits) = parse_uint 16 32 digits
parse_mark value none none = parse_uint 10 32 value

-- `parseFwmark`
unfoldable pub parse_fwmark : Text → Option ℕ
unfolding parse_uint cut_prefix
parse_fwmark value =
    if equal value (codes "off")
    then some 0
    else parse_mark value (cut_prefix value (codes "0x")) (cut_prefix value (codes "0X"))

abbrev pub cons_option {ℓ} : {A : Type ℓ} → Option A → Option (List A) → Option (List A)
cons_option none rest = none
cons_option (some a) none = none
cons_option (some a) (some rest) = some (a ∷ rest)

-- The loop of `parseAddresses`, `parseNetworks` and `parseIPs`, which skips empty parts.
unfoldable pub parse_parts {ℓ} : {A : Type ℓ} → (Text → Option A) → List Text → Option (List A)
unfolding trim_space
parse_parts parse_part [] = some []
parse_parts parse_part (part ∷ parts) =
    let rest = parse_parts parse_part parts in
    let p = trim_space part in if is_empty p then rest else cons_option (parse_part p) rest

-- An address keeps its host bits, a network does not.
abbrev pub address_of : Option (Ip × IpNet) → Option IpNet
address_of none = none
address_of (some (ip, n)) = some (record { ip = ip; mask = n.mask })

abbrev pub network_of : Option (Ip × IpNet) → Option IpNet
network_of none = none
network_of (some (ip, n)) = some n

unfoldable pub parse_addresses : Net → Text → Option (List IpNet)
unfolding parse_parts split
parse_addresses net value = parse_parts (λ p. address_of (net.parse_cidr p)) (split b',' value)

unfoldable pub parse_networks : Net → Text → Option (List IpNet)
unfolding parse_parts split
parse_networks net value = parse_parts (λ p. network_of (net.parse_cidr p)) (split b',' value)

unfoldable pub parse_ips : Net → Text → Option (List Ip)
unfolding parse_parts split
parse_ips net value = parse_parts net.parse_ip (split b',' value)

abbrev pub in_seconds : Option ℕ → Option ℕ
in_seconds none = none
in_seconds (some n) = some (n * second)

-- `parseKeepalive`
unfoldable pub parse_keepalive : Text → Option ℕ
unfolding parse_number
parse_keepalive value =
    if equal value (codes "off") then some 0 else in_seconds (parse_number 65535 value)

abbrev pub key_of : Result KeyError Key → Option Key
key_of (ok k) = some k
key_of (err e) = none

unfoldable pub parse_key : Text → Option Key
unfolding Keys.parse_key
parse_key value = key_of (Keys.parse_key value)

-- A value that was read changes what the field belongs to; otherwise there is the error.
unfoldable pub with_value {ℓ κ} :
    {A : Type ℓ} {S : Type κ} → Text → Option A → (A → S) → Result LineError S
with_value field none change = err (bad_field field)
with_value field (some v) change = ok (change v)

-- `parseInterface`
unfoldable pub parse_interface : Net → Config → Text → Text → Result LineError Config
parse_interface net cfg key value =
    if equal key (codes "privatekey")
    then with_value key (parse_key value) (λ k. record cfg { private_key = some k })
    else if equal key (codes "listenport")
    then with_value key (parse_number 65535 value) (λ n. record cfg { listen_port = some (pos n) })
    else if equal key (codes "fwmark")
    then with_value key (parse_fwmark value) (λ n. record cfg { firewall_mark = some (pos n) })
    else if equal key (codes "address")
    then with_value key (parse_addresses net value)
        (λ as'. record cfg { addresses = cfg.addresses ++ as' })
    else if equal key (codes "dns")
    then with_value key (parse_ips net value) (λ ips. record cfg { dns = cfg.dns ++ ips })
    else if equal key (codes "mtu")
    then with_value key (parse_number 65535 value) (λ n. record cfg { mtu = pos n })
    else if equal key (codes "table")
    then ok (record cfg { table = value })
    else if equal key (codes "preup")
    then ok (record cfg { pre_up = cfg.pre_up ++ value ∷ [] })
    else if equal key (codes "postup")
    then ok (record cfg { post_up = cfg.post_up ++ value ∷ [] })
    else if equal key (codes "predown")
    then ok (record cfg { pre_down = cfg.pre_down ++ value ∷ [] })
    else if equal key (codes "postdown")
    then ok (record cfg { post_down = cfg.post_down ++ value ∷ [] })
    else if equal key (codes "saveconfig")
    then with_value key (parse_bool value) (λ b. record cfg { save_config = b })
    else err (unknown_interface_field key)

-- `parsePeer`
unfoldable pub parse_peer : Net → PeerConfig → Text → Text → Result LineError PeerConfig
parse_peer net p key value =
    if equal key (codes "publickey")
    then with_value key (parse_key value) (λ k. record p { public_key = k })
    else if equal key (codes "presharedkey")
    then with_value key (parse_key value) (λ k. record p { preshared_key = some k })
    else if equal key (codes "allowedips")
    then with_value key (parse_networks net value)
        (λ ns. record p { allowed_ips = p.allowed_ips ++ ns })
    else if equal key (codes "endpoint")
    then with_value key (net.resolve_udp_addr value) (λ a. record p { endpoint = some a })
    else if equal key (codes "persistentkeepalive")
    then with_value key (parse_keepalive value)
        (λ d. record p { persistent_keepalive = some (pos d) })
    else err (unknown_peer_field key)
