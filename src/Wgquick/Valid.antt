-- ===== src/Wgquick/Valid.antt =====
-- Every configuration that `Parse` of internal/wgquick/parse.go returns is valid.
use wgctrl_go.Base.{
  ℕ, suc, List, [], ◌∷◌, Option, none, some, Text, codes, equal, equal_iff, is_empty, if_either,
  ◌≢◌, refl, arith, All, All-append, Bool-cases, inl, inr,
}
use wgctrl_go.Base.Result.{Result, ok, err, map_err, ◌>>=◌}
use wgctrl_go.Std.Strings.{cut, to_lower, trim_space}
use wgctrl_go.Std.Scanner.{Reader, scan}
use wgctrl_go.Types.{zero_key}
use wgctrl_go.Types.Keys.{IsKey}
use wgctrl_go.Wgconfig.Parse.{Section, no_section, interface_section, peer_section, section_name}
use wgctrl_go.Wgconfig.Ranges.{OnOk, OnOk-bind}
use wgctrl_go.Wgquick.Config.{PeerConfig, Config, empty_config}
use wgctrl_go.Wgquick.Parse.{Net, ParseError, clean_line, parse_interface}
use wgctrl_go.Wgquick.Lines.{
  State, new_peer, enter_section, parse_last, read_field, read_assignment, read_clean_line,
  read_line, read_lines, check_public_keys, is_useless, no_failure, usable, parse_lines, parse,
}
use wgctrl_go.Wgquick.Values.{
  IsPeer, IsConfig, IsUsable, parse_interface-IsConfig, parse_last-IsPeer,
}

abbrev IsState : State → Type 0
IsState s = IsConfig s.cfg

zero_key-IsKey : IsKey zero_key
zero_key-IsKey = record { size = refl; bytes = ground arith }

enter_section-IsState : (name : Text) (s : State) → IsState s → OnOk IsState (enter_section name s)
unfolding enter_section
enter_section-IsState name s w = if_either (OnOk IsState) (equal name (codes "interface")) w (
    if_either (OnOk IsState) (equal name (codes "peer"))
      (
        w.0,
        w.1,
        w.2,
        w.3,
        All-append IsPeer s.cfg.peers (new_peer ∷ []) w.4 ((zero_key-IsKey, tt, tt), tt),
      )
      tt)

read_field-IsState :
    (net : Net) (section : Section) (key value : Text) (s : State)
    → IsState s
    → OnOk IsState (read_field net section key value s)
unfolding read_field
read_field-IsState net no_section key value s w = tt
read_field-IsState net interface_section key value s w =
    OnOk-bind IsConfig IsState (parse_interface net s.cfg key value)
      (λ cfg. ok (record s { cfg = cfg })) (parse_interface-IsConfig net key value s.cfg w)
      (λ cfg h. h)
read_field-IsState net peer_section key value s w =
    OnOk-bind (All IsPeer) IsState (parse_last net s.cfg.peers key value)
      (λ ps. ok (record s { cfg = record s.cfg { peers = ps } }))
      (parse_last-IsPeer net key value s.cfg.peers w.4) (λ ps h. (w.0, w.1, w.2, w.3, h))

read_assignment-IsState :
    (net : Net) (o : Option (Text × Text)) (s : State)
    → IsState s
    → OnOk IsState (read_assignment net o s)
read_assignment-IsState net none s w = tt
read_assignment-IsState net (some (key, value)) s w =
    read_field-IsState net s.section (to_lower (trim_space key)) (trim_space value) s w

read_clean_line-IsState :
    (net : Net) (o : Option Text) (line : Text) (s : State)
    → IsState s
    → OnOk IsState (read_clean_line net o line s)
read_clean_line-IsState net (some name) line s w =
    enter_section-IsState (to_lower (trim_space name)) s w
read_clean_line-IsState net none line s w = read_assignment-IsState net (cut b'=' line) s w

read_line-IsState :
    (net : Net) (l : Text) (s : State) → IsState s → OnOk IsState (read_line net l s)
unfolding read_line
read_line-IsState net l s w =
    if_either (OnOk IsState) (is_empty (clean_line l)) w
      (read_clean_line-IsState net (section_name (clean_line l)) (clean_line l) s w)

OnOk-map_err {ℓ κ ι} :
    {E F : Type ℓ} {A : Type κ} (P : A → Type ι) (f : E → F) (r : Result E A)
    → OnOk P r
    → OnOk P (map_err f r)
OnOk-map_err P f (ok a) h = h
OnOk-map_err P f (err e) h = tt

read_lines-IsState :
    (net : Net) (n : ℕ) (ls : List Text) (s : State)
    → IsState s
    → OnOk IsState (read_lines net n ls s)
unfolding read_lines
read_lines-IsState net n [] s w = w
read_lines-IsState net n (l ∷ ls) s w =
    OnOk-bind IsState IsState (map_err (ParseError.at_line (suc n)) (read_line net l s))
      (read_lines net (suc n) ls)
      (OnOk-map_err IsState (ParseError.at_line (suc n)) (read_line net l s)
        (read_line-IsState net l s w))
      (λ t h. read_lines-IsState net (suc n) ls t h)

abbrev HasKeys : List PeerConfig → Type 0
HasKeys ps = All (λ (p : PeerConfig). p.public_key ≢ zero_key) ps

OnOk-map {ℓ κ ι ν} :
    {E : Type ℓ} {A : Type κ} (P : A → Type ι) (Q : A → Type ν) (r : Result E A)
    → ((a : A) → P a → Q a)
    → OnOk P r
    → OnOk Q r
OnOk-map P Q (ok a) h p = h a p
OnOk-map P Q (err e) h p = tt

check_public_keys-HasKeys :
    (i : ℕ) (ps : List PeerConfig) → OnOk (λ _. HasKeys ps) (check_public_keys i ps)
unfolding check_public_keys
check_public_keys-HasKeys i [] = tt
check_public_keys-HasKeys i (p ∷ ps) = elim (Bool-cases (equal p.public_key zero_key)) [
  | inl e ↦ rw e tt
  | inr e ↦ rw e (
      OnOk-map (λ _. HasKeys ps) (λ _. HasKeys (p ∷ ps)) (check_public_keys (suc i) ps)
        (λ _ h. ((λ f. absurd (cc (e, (equal_iff p.public_key zero_key).1 f))), h))
        (check_public_keys-HasKeys (suc i) ps))
]

usable-IsUsable : (c : Config) → IsConfig c → HasKeys c.peers → OnOk IsUsable (usable c)
usable-IsUsable c w k = elim (Bool-cases (is_useless c)) [
  | inl e ↦ rw e tt
  | inr e ↦ rw e (record { config = w; keys = k; useful = e })
]

anything {ℓ κ} : {E : Type ℓ} {A : Type κ} (r : Result E A) → OnOk (λ _. Unit {0}) r
anything (ok a) = tt
anything (err e) = tt

-- A configuration that `Parse` returns, of any text and on any network, is valid: every key has 32
-- bytes, the port and the MTU fit into 16 bits, the mark into 32, an interval is of whole seconds in
-- 16 bits, every peer has a public key other than zero, and some setting, address or peer is there.
pub parse-IsUsable : (net : Net) (r : Reader) → OnOk IsUsable (parse net r)
unfolding parse parse_lines
parse-IsUsable net r =
    let s0 : State = record { cfg = empty_config; section = no_section } in
    let lines = scan 1_048_576 r in
    OnOk-bind IsState IsUsable (read_lines net 0 lines.0 s0)
      (λ (s : State). do _ ← no_failure lines.1; _ ← check_public_keys 0 s.cfg.peers; usable s.cfg)
      (read_lines-IsState net 0 lines.0 s0 (tt, tt, tt, (0, refl, omega arith), tt))
      (λ s w.
        OnOk-bind (λ _. Unit {0}) IsUsable (no_failure lines.1)
          (λ _. check_public_keys 0 s.cfg.peers >>= λ _. usable s.cfg)
          (anything (no_failure lines.1))
          (λ _ _.
            OnOk-bind (λ _. HasKeys s.cfg.peers) IsUsable (check_public_keys 0 s.cfg.peers)
              (λ _. usable s.cfg) (check_public_keys-HasKeys 0 s.cfg.peers)
              (λ _ k. usable-IsUsable s.cfg w k)))
