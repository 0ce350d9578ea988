-- ===== src/Wgconfig/Parse.antt =====
-- `Parse` of internal/wgconfig/parse.go: one line after another changes a state.
use wgctrl_go.Base.{
  ℕ, suc, ◌*◌, Bool, true, false, not, List, [], ◌∷◌, ◌++◌, Option, none, some, Text, codes, equal,
  is_empty, ◌==◌, if◌then◌else◌,
}
use wgctrl_go.Base.Int.{pos}
use wgctrl_go.Base.Result.{Result, ok, err, map_err, ◌>>=◌}
use wgctrl_go.Std.Strings.{cut, lower, to_lower}
use wgctrl_go.Std.Scanner.{Reader, ScanError, scan}
use wgctrl_go.Types.{Key, AllowedIpConfig, UdpAddr, PeerConfig, Config, zero_key, second}
use wgctrl_go.Wgconfig.Net.{Net}
use wgctrl_go.Wgconfig.Fields.{
  EntryError, bad_entry, no_first_byte, peer_name_comment, validate_peer_name, clean_line,
  parse_key, parse_number, parse_uint_or_off, parse_fwmark, parse_allowed_ips,
}
use wgctrl_go.Wgconfig.Endpoint.{EndpointError, resolve_endpoint}

pub data Section : Type 0 where
  no_section interface_section peer_section : Section

pub data LineError : Type 0 where
  name_outside_peer duplicate_name bad_name invalid_line outside_section : LineError
  unknown_section unknown_interface_field unknown_peer_field : Text → LineError
  bad_private_key bad_listen_port bad_fwmark bad_public_key bad_preshared_key : LineError
  bad_allowed_ips bad_keepalive : LineError
  bad_endpoint : EndpointError → LineError
  -- a panic
  index_out_of_range : LineError

-- The configuration that is returned beside an error is left out.
pub data ParseError : Type 0 where
  at_line : ℕ → LineError → ParseError
  read_failed : ScanError → ParseError
  missing_public_key : ℕ → ParseError
  -- an index out of range in `peerHasPublicKey`
  panicked : ParseError

-- The variables of the loop. The pointer `peer` is nil but in the section "peer", where it points
-- to the last peer of `cfg`.
pub record State : Type 0 where
  pub cfg : Config
  pub section : Section
  pub peer_has_public_key : List Bool
  pub peer_has_name : Bool

-- A write through a pointer to the last element.
unfoldable pub update_last {ℓ} : {A : Type ℓ} → (A → A) → List A → List A
update_last f [] = []
update_last f (a ∷ []) = f a ∷ []
update_last f (a ∷ b ∷ as') = a ∷ update_last f (b ∷ as')

-- `cfg` before the first line.
abbrev pub initial_config : Bool → Config
initial_config append_mode =
    if append_mode
    then record {
      private_key = none;
      listen_port = none;
      firewall_mark = none;
      replace_peers = false;
      peers = [];
    }
    else record {
      private_key = some zero_key;
      listen_port = some (pos 0);
      firewall_mark = some (pos 0);
      replace_peers = true;
      peers = [];
    }

abbrev pub initial : Bool → State
initial append_mode = record {
  cfg = initial_config append_mode;
  section = no_section;
  peer_has_public_key = [];
  peer_has_name = false;
}

abbrev pub change_peer : (PeerConfig → PeerConfig) → State → State
change_peer f s = record s { cfg = record s.cfg { peers = update_last f s.cfg.peers } }

-- `wgtypes.PeerConfig{ReplaceAllowedIPs: true}`
abbrev pub new_peer : PeerConfig
new_peer = record {
  name = none;
  public_key = zero_key;
  remove = false;
  update_only = false;
  preshared_key = none;
  endpoint = none;
  persistent_keepalive_interval = none;
  replace_allowed_ips = true;
  allowed_ips = [];
  allowed_ip_operations = [];
}

-- The name of a section header, a text in brackets.
abbrev pub onto_name : ℕ → Option Text → Option Text
onto_name c none = none
onto_name c (some s) = some (c ∷ s)

unfoldable pub without_bracket : Text → Option Text
without_bracket [] = none
without_bracket (c ∷ []) = if c == b']' then some [] else none
without_bracket (c ∷ d ∷ s) = onto_name c (without_bracket (d ∷ s))

unfoldable pub section_name : Text → Option Text
unfolding without_bracket
section_name [] = none
section_name (c ∷ s) = if c == b'[' then without_bracket s else none

-- A section header.
unfoldable pub enter_section : Text → State → Result LineError State
enter_section name s =
    if equal name (codes "interface")
    then ok (record s { section = interface_section; peer_has_name = false })
    else if equal name (codes "peer")
    then ok (record {
      cfg = record s.cfg { peers = s.cfg.peers ++ new_peer ∷ [] };
      section = peer_section;
      peer_has_public_key = s.peer_has_public_key ++ false ∷ [];
      peer_has_name = false;
    })
    else err (unknown_section name)

-- A value that was read changes the state; otherwise there is the error.
unfoldable pub with_value {ℓ} :
    {A : Type ℓ} → LineError → Option A → (A → State) → Result LineError State
with_value e none change = err e
with_value e (some v) change = ok (change v)

unfoldable pub with_address :
    Result EndpointError UdpAddr → (UdpAddr → State) → Result LineError State
with_address (err e) change = err (bad_endpoint e)
with_address (ok v) change = ok (change v)

-- The name that a comment gives, if it is a valid one.
abbrev pub valid_name : Option Text → Option Text
valid_name none = none
valid_name (some name) = if validate_peer_name name then some name else none

-- `read_peer_name net section encoded s`, where `section` is that of `s`.
unfoldable pub read_peer_name : Net → Section → Text → State → Result LineError State
read_peer_name net no_section encoded s = err name_outside_peer
read_peer_name net interface_section encoded s = err name_outside_peer
read_peer_name net peer_section encoded s =
    if s.peer_has_name
    then err duplicate_name
    else with_value bad_name (valid_name (net.unquote encoded)) (λ name.
      record (change_peer (λ p. record p { name = some name }) s) { peer_has_name = true })

unfoldable pub with_entries :
    Result EntryError (List AllowedIpConfig × Bool)
    → (List AllowedIpConfig × Bool → State)
    → Result LineError State
with_entries (err bad_entry) change = err bad_allowed_ips
with_entries (err no_first_byte) change = err index_out_of_range
with_entries (ok v) change = ok (change v)

-- The key of the last peer, and `peerHasPublicKey[len(peerHasPublicKey)-1] = true`.
unfoldable pub with_public_key : Option Key → State → Result LineError State
unfolding update_last
with_public_key none s = err bad_public_key
with_public_key (some v) s =
    if is_empty s.peer_has_public_key
    then err index_out_of_range
    else ok (record (change_peer (λ p. record p { public_key = v }) s) {
      peer_has_public_key = update_last (λ _. true) s.peer_has_public_key;
    })

-- A field of the section "interface".
unfoldable pub interface_field : Text → Text → State → Result LineError State
interface_field key value s =
    if equal key (codes "privatekey")
    then with_value bad_private_key (parse_key value)
        (λ v. record s { cfg = record s.cfg { private_key = some v } })
    else if equal key (codes "listenport")
    then with_value bad_listen_port (parse_number 65535 value)
        (λ v. record s { cfg = record s.cfg { listen_port = some (pos v) } })
    else if equal key (codes "fwmark")
    then with_value bad_fwmark (parse_fwmark value)
        (λ v. record s { cfg = record s.cfg { firewall_mark = some (pos v) } })
    else err (unknown_interface_field key)

-- A field of the section "peer".
unfoldable pub peer_field : Net → Text → Text → State → Result LineError State
peer_field net key value s =
    if equal key (codes "publickey")
    then with_public_key (parse_key value) s
    else if equal key (codes "presharedkey")
    then with_value bad_preshared_key (parse_key value)
        (λ v. change_peer (λ p. record p { preshared_key = some v }) s)
    else if equal key (codes "endpoint")
    then with_address (resolve_endpoint net value)
        (λ v. change_peer (λ p. record p { endpoint = some v }) s)
    else if equal key (codes "allowedips")
    then with_entries (parse_allowed_ips net value) (λ v.
      change_peer
        (λ p. record p {
          replace_allowed_ips = not v.1;
          allowed_ip_operations = p.allowed_ip_operations ++ v.0;
        })
        s)
    else if equal key (codes "persistentkeepalive")
    then with_value bad_keepalive (parse_uint_or_off 65535 value) (λ v.
      change_peer (λ p. record p { persistent_keepalive_interval = some (pos (v * second)) }) s)
    else err (unknown_peer_field key)

-- `read_field net section key value s`, where `section` is that of `s`.
unfoldable pub read_field : Net → Section → Text → Text → State → Result LineError State
unfolding interface_field peer_field
read_field net interface_section key value s = interface_field key value s
read_field net peer_section key value s = peer_field net key value s
read_field net no_section key value s = err outside_section

-- A line with its parts before and behind `=`.
abbrev pub read_assignment : Net → Option (Text × Text) → State → Result LineError State
read_assignment net none s = err invalid_line
read_assignment net (some (key, value)) s = read_field net s.section (to_lower key) value s

-- A cleaned line that is not empty, with its name if it is a header.
abbrev pub read_clean_line : Net → Option Text → Text → State → Result LineError State
read_clean_line net (some name) line s = enter_section (to_lower name) s
read_clean_line net none line s = read_assignment net (cut b'=' line) s

-- A line, with the name that it gives if it is a comment with one.
abbrev pub read_raw_line : Net → Option Text → Text → State → Result LineError State
read_raw_line net (some encoded) line s = read_peer_name net s.section encoded s
read_raw_line net none line s =
    if is_empty line then ok s else read_clean_line net (section_name line) line s

-- One round of the loop.
unfoldable pub read_line : Net → Text → State → Result LineError State
unfolding read_peer_name section_name enter_section read_field lower cut
read_line net raw_line s = read_raw_line net (peer_name_comment raw_line) (clean_line raw_line) s

-- The loop, where the line before had the number `line_no`.
unfoldable pub read_lines : Net → ℕ → List Text → State → Result ParseError State
unfolding read_line with_value with_address with_entries with_public_key update_last
    validate_peer_name equal
read_lines net line_no [] s = ok s
read_lines net line_no (l ∷ ls) s = do
  s' ← map_err (at_line (suc line_no)) (read_line net l s)
  read_lines net (suc line_no) ls s'

-- The last loop.
unfoldable pub check_public_keys : ℕ → List PeerConfig → List Bool → Result ParseError (Unit {0})
check_public_keys i [] has = ok tt
check_public_keys i (p ∷ ps) [] = err panicked
check_public_keys i (p ∷ ps) (h ∷ has) =
    if not h then err (missing_public_key (suc i)) else check_public_keys (suc i) ps has

abbrev pub line_limit : ℕ
line_limit = 1_048_576

abbrev pub no_failure : Option ScanError → Result ParseError (Unit {0})
no_failure none = ok tt
no_failure (some e) = err (read_failed e)

-- `Parse` behind the scanner.
unfoldable pub parse_lines : Net → Bool → List Text × Option ScanError → Result ParseError Config
unfolding read_lines check_public_keys
parse_lines net append_mode (lines, failure) = do
  s ← read_lines net 0 lines (initial append_mode)
  _ ← no_failure failure
  _ ← check_public_keys 0 s.cfg.peers s.peer_has_public_key
  ok s.cfg

unfoldable pub parse : Net → Reader → Bool → Result ParseError Config
unfolding parse_lines
parse net r append_mode = parse_lines net append_mode (scan line_limit r)
