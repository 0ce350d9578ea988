-- ===== src/Wgquick/Lines.antt =====
-- The loop of `Parse` in internal/wgquick/parse.go.
use wgctrl_go.Base.{
  ℕ, suc, Bool, true, false, ◌&&◌, List, [], ◌∷◌, ◌++◌, Option, none, some, Text, codes, equal,
  is_empty, if◌then◌else◌,
}
use wgctrl_go.Base.Result.{Result, ok, err, map_err, ◌>>=◌}
use wgctrl_go.Std.Strings.{trim_space, cut, lower, to_lower}
use wgctrl_go.Std.Scanner.{Reader, ScanError, scan}
use wgctrl_go.Types.{zero_key}
use wgctrl_go.Wgconfig.Parse.{Section, no_section, interface_section, peer_section, section_name}
use wgctrl_go.Wgquick.Config.{PeerConfig, Config, empty_config}
use wgctrl_go.Wgquick.Parse.{
  Net, LineError, ParseError, invalid_line, outside_section, unknown_section, at_line, read_failed,
  missing_public_key, no_usable_configuration, clean_line, parse_interface, parse_peer, with_value,
}

-- The variables of the loop. The pointer `peer` is nil but in the section "peer", where it points
-- to the last peer of `cfg`.
pub record State : Type 0 where
  pub cfg : Config
  pub section : Section

-- `PeerConfig{}`
abbrev pub new_peer : PeerConfig
new_peer = record {
  public_key = zero_key;
  preshared_key = none;
  allowed_ips = [];
  endpoint = none;
  persistent_keepalive = none;
}

-- A section header, by its name in small letters.
unfoldable pub enter_section : Text → State → Result LineError State
enter_section name s =
    if equal name (codes "interface")
    then ok (record s { section = interface_section })
    else if equal name (codes "peer")
    then ok (record {
      cfg = record s.cfg { peers = s.cfg.peers ++ new_peer ∷ [] };
      section = peer_section;
    })
    else err (unknown_section name)

-- `parsePeer(peer, key, value)` through the pointer to the last peer.
unfoldable pub parse_last : Net → List PeerConfig → Text → Text → Result LineError (List PeerConfig)
unfolding parse_peer
parse_last net [] key value = err outside_section
parse_last net (p ∷ []) key value = do p' ← parse_peer net p key value; ok (p' ∷ [])
parse_last net (p ∷ q ∷ ps) key value = do qs ← parse_last net (q ∷ ps) key value; ok (p ∷ qs)

-- `read_field net section key value s`, where `section` is that of `s`.
unfoldable pub read_field : Net → Section → Text → Text → State → Result LineError State
unfolding parse_interface parse_last
read_field net no_section key value s = err outside_section
read_field net interface_section key value s = do
  cfg ← parse_interface net s.cfg key value
  ok (record s { cfg = cfg })
read_field net peer_section key value s = do
  ps ← parse_last net s.cfg.peers key value
  ok (record s { cfg = record s.cfg { peers = ps } })

-- A line with its parts before and behind `=`.
abbrev pub read_assignment : Net → Option (Text × Text) → State → Result LineError State
read_assignment net none s = err invalid_line
read_assignment net (some (key, value)) s =
    read_field net s.section (to_lower (trim_space key)) (trim_space value) s

-- A line that is not empty, with its name if it is a header.
abbrev pub read_clean_line : Net → Option Text → Text → State → Result LineError State
read_clean_line net (some name) line s = enter_section (to_lower (trim_space name)) s
read_clean_line net none line s = read_assignment net (cut b'=' line) s

-- One round of the loop.
unfoldable pub read_line : Net → Text → State → Result LineError State
unfolding section_name enter_section read_field lower cut trim_space
read_line net raw_line s =
    let line = clean_line raw_line in
    if is_empty line then ok s else read_clean_line net (section_name line) line s

-- The loop, where the line before had the number `line_no`.
unfoldable pub read_lines : Net → ℕ → List Text → State → Result ParseError State
unfolding read_line with_value equal
read_lines net line_no [] s = ok s
read_lines net line_no (l ∷ ls) s = do
  s' ← map_err (at_line (suc line_no)) (read_line net l s)
  read_lines net (suc line_no) ls s'

-- The loop over the keys of the peers, from the peer numbered `i` on.
unfoldable pub check_public_keys : ℕ → List PeerConfig → Result ParseError (Unit {0})
check_public_keys i [] = ok tt
check_public_keys i (p ∷ ps) =
    if equal p.public_key zero_key
    then err (missing_public_key (suc i))
    else check_public_keys (suc i) ps

abbrev pub is_none {ℓ} : {A : Type ℓ} → Option A → Bool
is_none none = true
is_none (some _) = false

-- The last test: no setting, address or peer at all.
abbrev pub is_useless : Config → Bool
is_useless cfg =
    is_none cfg.private_key
    && is_none cfg.listen_port
    && is_none cfg.firewall_mark
    && is_empty cfg.addresses
    && is_empty cfg.peers

abbrev pub no_failure : Option ScanError → Result ParseError (Unit {0})
no_failure none = ok tt
no_failure (some e) = err (read_failed e)

abbrev pub usable : Config → Result ParseError Config
usable cfg = if is_useless cfg then err no_usable_configuration else ok cfg

-- `Parse` behind the scanner.
unfoldable pub parse_lines : Net → List Text × Option ScanError → Result ParseError Config
unfolding read_lines check_public_keys
parse_lines net (lines, failure) = do
  s ← read_lines net 0 lines (record { cfg = empty_config; section = no_section })
  _ ← no_failure failure
  _ ← check_public_keys 0 s.cfg.peers
  usable s.cfg

-- `Parse`; a line must have less than 1 MiB.
unfoldable pub parse : Net → Reader → Result ParseError Config
unfolding parse_lines scan
parse net r = parse_lines net (scan 1_048_576 r)
