-- ===== src/Wguser/Parse.antt =====
-- `parseDevice` and `deviceParser` of internal/wguser/parse.go.
use wgctrl_go.Base.{
  ℕ, suc, ◌-◌, ◌*◌, ◌%◌, ◌^◌, Bool, true, false, ◌&&◌, List, [], ◌∷◌, ◌++◌, Option, none, some,
  Text, codes, equal, get_elem?, set, ltb, leb, ◌==◌, if◌then◌else◌,
}
use wgctrl_go.Base.Int.{ℤ, pos, negsuc, is_zero, is_positive}
use wgctrl_go.Base.Result.{Result, ok, err, ◌>>=◌}
use wgctrl_go.Std.Strings.{split}
use wgctrl_go.Std.Strconv.{parse_int}
use wgctrl_go.Std.Hex
use wgctrl_go.Std.Scanner.{Reader, ScanError, scan}
use wgctrl_go.Types.{Key, IpNet, UdpAddr, Peer, Device, unknown, zero_key, second}
use wgctrl_go.Types.Keys.{KeyError, new_key}

pub data UserError : Type 0 where
  errno : ℤ → UserError
  bad_hex bad_int bad_address bad_network bad_pair : UserError
  bad_key : KeyError → UserError
  read_failed : ScanError → UserError

-- `net.ResolveUDPAddr("udp", …)`, the network that `net.ParseCIDR` returns, and `Key.PublicKey`.
pub record Outside : Type 0 where
  pub resolve_udp_addr : Text → Option UdpAddr
  pub parse_cidr : Text → Option IpNet
  pub public_key : Key → Key

-- `deviceParser`
pub record DeviceParser : Type 0 where
  pub d : Device
  pub error : Option UserError
  pub parse_peers : Bool
  pub peers : ℕ
  pub hs_sec : ℤ
  pub hs_nano : ℤ

abbrev pub start : DeviceParser
start = record {
  d = record {
    name = [];
    type = unknown;
    private_key = zero_key;
    has_private_key = false;
    public_key = zero_key;
    has_public_key = false;
    listen_port = pos 0;
    has_listen_port = false;
    firewall_mark = pos 0;
    has_firewall_mark = false;
    peers = [];
  };
  error = none;
  parse_peers = false;
  peers = 0;
  hs_sec = pos 0;
  hs_nano = pos 0;
}

-- What `parseKey`, `parseInt`, `parseInt64`, `parseAddr` and `parseCIDR` share: behind an error they
-- return the zero value, and they keep the first error.
unfoldable pub keep_error {ℓ} :
    {A : Type ℓ} → A → Result UserError A → Option UserError → A × Option UserError
keep_error zero_value r (some e) = (zero_value, some e)
keep_error zero_value (ok v) none = (v, none)
keep_error zero_value (err e) none = (zero_value, some e)

abbrev pub or_err {ℓ} : {A : Type ℓ} → UserError → Option A → Result UserError A
or_err e none = err e
or_err e (some a) = ok a

abbrev pub key_of_bytes : Option (List ℕ) → Result UserError Key
key_of_bytes none = err bad_hex
key_of_bytes (some b) = elim (new_key b) [ ok k ↦ ok k | err e ↦ err (bad_key e) ]

unfoldable pub parse_key : Text → Option UserError → Key × Option UserError
unfolding keep_error new_key
parse_key s e = keep_error zero_key (key_of_bytes (Hex.decode s)) e

-- `parseInt` and `parseInt64`, which agree where an `int` has 64 bits.
unfoldable pub parse_number : Text → Option UserError → ℤ × Option UserError
unfolding keep_error
parse_number s e = keep_error (pos 0) (or_err bad_int (parse_int s)) e

abbrev pub address : Option UdpAddr → Result UserError (Option UdpAddr)
address none = err bad_address
address (some a) = ok (some a)

unfoldable pub parse_addr : Outside → Text → Option UserError → Option UdpAddr × Option UserError
unfolding keep_error
parse_addr outside s e = keep_error none (address (outside.resolve_udp_addr s)) e

abbrev pub network : Option IpNet → Result UserError (Option IpNet)
network none = err bad_network
network (some n) = ok (some n)

unfoldable pub parse_cidr : Outside → Text → Option UserError → Option IpNet × Option UserError
unfolding keep_error
parse_cidr outside s e = keep_error none (network (outside.parse_cidr s)) e

-- `time.Duration(v) * time.Second` in 64 bits.
unfoldable pub seconds : ℤ → ℤ
seconds (pos n) =
    let m = n * second % 2 ^ 64 in if ltb m (2 ^ 63) then pos m else negsuc (2 ^ 64 - 1 - m)
seconds (negsuc n) =
    let m = suc n * second % 2 ^ 64 in
    if m == 0 then pos 0 else if leb m (2 ^ 63) then negsuc (m - 1) else pos (2 ^ 64 - m)

-- A peer without a field but its key.
abbrev pub new_peer : Key → Peer
new_peer key = record {
  name = none;
  public_key = key;
  preshared_key = zero_key;
  has_preshared_key = false;
  endpoint = none;
  has_endpoint = false;
  persistent_keepalive_interval = pos 0;
  has_persistent_keepalive_interval = false;
  last_handshake_time = none;
  receive_bytes = pos 0;
  transmit_bytes = pos 0;
  allowed_ips = [];
  protocol_version = pos 0;
}

abbrev pub add_network : Option IpNet → Peer → Peer
add_network none p = p
add_network (some n) p = record p { allowed_ips = p.allowed_ips ++ n ∷ [] }

-- What one pair changes: the peer, the error and the two numbers of the last handshake.
pub record Change : Type 0 where
  pub peer : Peer
  pub error : Option UserError
  pub hs_sec : ℤ
  pub hs_nano : ℤ

-- The switch of `peerParse`, for the current peer `p`.
unfoldable pub peer_change : Outside → Text → Text → Peer → DeviceParser → Change
unfolding parse_key parse_number parse_addr parse_cidr seconds equal
peer_change outside key value p dp =
    let same : Change = record {
      peer = p;
      error = dp.error;
      hs_sec = dp.hs_sec;
      hs_nano = dp.hs_nano;
    } in
    let k = parse_key value dp.error in
    let n = parse_number value dp.error in
    let a = parse_addr outside value dp.error in
    let c = parse_cidr outside value dp.error in
    if equal key (codes "preshared_key")
    then record same {
      peer = record p { preshared_key = k.0; has_preshared_key = true };
      error = k.1;
    }
    else if equal key (codes "endpoint")
    then record same { peer = record p { endpoint = a.0; has_endpoint = true }; error = a.1 }
    else if equal key (codes "last_handshake_time_sec")
    then record same { error = n.1; hs_sec = n.0 }
    else if equal key (codes "last_handshake_time_nsec")
    then record same {
      peer =
          if is_positive dp.hs_sec && is_positive n.0
          then record p { last_handshake_time = some (record { sec = dp.hs_sec; nsec = n.0 }) }
          else p;
      error = n.1;
      hs_nano = n.0;
    }
    else if equal key (codes "tx_bytes")
    then record same { peer = record p { transmit_bytes = n.0 }; error = n.1 }
    else if equal key (codes "rx_bytes")
    then record same { peer = record p { receive_bytes = n.0 }; error = n.1 }
    else if equal key (codes "persistent_keepalive_interval")
    then record same {
      peer = record p {
        persistent_keepalive_interval = seconds n.0;
        has_persistent_keepalive_interval = true;
      };
      error = n.1;
    }
    else if equal key (codes "allowed_ip")
    then record same { peer = add_network c.0 p; error = c.1 }
    else if equal key (codes "protocol_version")
    then record same { peer = record p { protocol_version = n.0 }; error = n.1 }
    else same

abbrev pub put_change : Change → DeviceParser → DeviceParser
put_change c dp = record dp {
  d = record dp.d { peers = set dp.d.peers (dp.peers - 1) c.peer };
  error = c.error;
  hs_sec = c.hs_sec;
  hs_nano = c.hs_nano;
}

-- The index of `curPeer`; `none` is the panic of one out of range.
abbrev pub cur_peer : DeviceParser → Option Peer
cur_peer dp = if dp.peers == 0 then none else get_elem? dp.d.peers (dp.peers - 1)

abbrev pub with_peer : Outside → Text → Text → DeviceParser → Option Peer → Option DeviceParser
with_peer outside key value dp none = none
with_peer outside key value dp (some p) = some (put_change (peer_change outside key value p dp) dp)

-- `peerParse`
unfoldable pub peer_parse : Outside → Text → Text → DeviceParser → Option DeviceParser
unfolding peer_change
peer_parse outside key value dp = with_peer outside key value dp (cur_peer dp)

-- The fields of the device.
unfoldable pub device_parse : Text → Text → DeviceParser → DeviceParser
unfolding parse_key parse_number equal
device_parse key value dp =
    let k = parse_key value dp.error in
    let n = parse_number value dp.error in
    if equal key (codes "private_key")
    then record dp { d = record dp.d { private_key = k.0; has_private_key = true }; error = k.1 }
    else if equal key (codes "listen_port")
    then record dp { d = record dp.d { listen_port = n.0; has_listen_port = true }; error = n.1 }
    else if equal key (codes "fwmark")
    then record dp {
      d = record dp.d { firewall_mark = n.0; has_firewall_mark = true };
      error = n.1;
    }
    else dp

-- The fields behind the first switch of `Parse`.
abbrev pub parse_field : Outside → Text → Text → DeviceParser → Option DeviceParser
parse_field outside key value dp =
    if dp.parse_peers then peer_parse outside key value dp else some (device_parse key value dp)

-- The case "public_key".
abbrev pub enter_peer : Text → DeviceParser → DeviceParser
enter_peer value dp =
    let k = parse_key value dp.error in
    record dp {
      d = record dp.d { peers = dp.d.peers ++ new_peer k.0 ∷ [] };
      error = k.1;
      parse_peers = true;
      peers = suc dp.peers;
    }

-- `deviceParser.Parse`
unfoldable pub parse : Outside → Text → Text → DeviceParser → Option DeviceParser
unfolding peer_parse device_parse
parse outside key value dp =
    let n = parse_number value dp.error in
    if equal key (codes "errno")
    then (if is_zero n.0
        then parse_field outside key value (record dp { error = n.1 })
        else some (record dp { error = some (errno n.0) }))
    else if equal key (codes "public_key")
    then some (enter_peer value dp)
    else parse_field outside key value dp

-- `deviceParser.Device`
abbrev pub device : Outside → DeviceParser → Result UserError Device
device outside dp = elim dp.error [
  | some e ↦ err e
  | none ↦ ok (record dp.d {
    public_key = outside.public_key dp.d.private_key;
    has_public_key = dp.d.has_private_key;
  })
]

abbrev pub parsed : Option DeviceParser → Option (Result UserError DeviceParser)
parsed none = none
parsed (some dp) = some (ok dp)

-- A line, split at each '='; `none` is a panic.
abbrev pub parse_pair : Outside → List Text → DeviceParser → Option (Result UserError DeviceParser)
parse_pair outside (key ∷ value ∷ []) dp = parsed (parse outside key value dp)
parse_pair outside _ dp = some (err bad_pair)

-- The loop of `parseDevice`, which stops at an empty line.
unfoldable pub read_lines :
    Outside → List Text → Option ScanError → DeviceParser → Option (Result UserError DeviceParser)
unfolding parse split
read_lines outside [] none dp = some (ok dp)
read_lines outside [] (some e) dp = some (err (read_failed e))
read_lines outside ([] ∷ ls) failure dp = some (ok dp)
read_lines outside ((c ∷ l) ∷ ls) failure dp = elim (parse_pair outside (split b'=' (c ∷ l)) dp) [
  | none ↦ none
  | some r ↦ elim r [ err e ↦ some (err e) | ok dp' ↦ read_lines outside ls failure dp' ]
]

abbrev pub finish :
    Outside → Option (Result UserError DeviceParser) → Option (Result UserError Device)
finish outside none = none
finish outside (some r) = some (r >>= device outside)

-- `parseDevice`; a scanner takes lines of less than 64 KiB.
unfoldable pub parse_device : Outside → Reader → Option (Result UserError Device)
unfolding read_lines scan
parse_device outside r = finish outside (read_lines outside (scan 65536 r).0 (scan 65536 r).1 start)
