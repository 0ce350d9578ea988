-- ===== src/Wgconfig/Valid.antt =====
-- Every configuration that `Parse` returns is valid.
use wgctrl_go.Base.{
  ℕ, suc, Bool, true, false, List, [], ◌∷◌, Option, none, some, Text, length, ◌≡◌, refl, ap, subst,
  ◌∙◌, arith, inl, inr,
}
use wgctrl_go.Base.Result.{Result, ok, err, ◌>>=◌, Result-cases}
use wgctrl_go.Std.Scanner.{Reader, ScanError, scan}
use wgctrl_go.Types.{PeerConfig, Config}
use wgctrl_go.Wgconfig.Net.{Net}
use wgctrl_go.Wgconfig.States.{IsConfig, IsState, Kept, is_index, initial-IsState}
use wgctrl_go.Wgconfig.Steps.{read_line-IsState, read_lines-IsState}
use wgctrl_go.Wgconfig.Ranges.{HasPorts}
use wgctrl_go.Wgconfig.Parse.{
  ParseError, State, initial, line_limit, at_line, no_failure, read_failed, missing_public_key,
  check_public_keys, panicked, read_line, read_lines, parse_lines, parse,
}

abbrev pub is_panic : ParseError → Bool
is_panic panicked = true
is_panic (at_line _ e) = is_index e
is_panic (read_failed _) = false
is_panic (missing_public_key _) = false

-- A valid configuration, or an error that is no panic.
abbrev pub IsParsed : Bool → Result ParseError Config → Type 0
IsParsed append_mode (ok cfg) = IsConfig append_mode cfg
IsParsed append_mode (err e) = is_panic e ≡ false

same_panic :
    (x e : ParseError) → ◌≡◌ {A = Result ParseError State} (err x) (err e) → is_panic e ≡ is_panic x
same_panic x e h = ap is_panic (cc)

read_lines-error :
    (append_mode : Bool) (net : Net) (n : ℕ) (ls : List Text) (s : State) (e : ParseError)
    → HasPorts net
    → IsState append_mode s
    → read_lines net n ls s ≡ err e
    → is_panic e ≡ false
unfolding read_lines
read_lines-error append_mode net n [] s e ports w h = cc
read_lines-error append_mode net n (l ∷ ls) s e ports w h =
    elim (Result-cases (read_line net l s)) [
      | inl (t, r) ↦
          read_lines-error append_mode net (suc n) ls t e ports
            (subst (Kept (IsState append_mode)) r (read_line-IsState append_mode net ports l s w))
            (rw (r, read_lines) at h)
      | inr (x, r) ↦
          same_panic (at_line (suc n) x) e (rw (r, read_lines) at h)
          ∙ subst (Kept (IsState append_mode)) r (read_line-IsState append_mode net ports l s w)
    ]

-- The end of `Parse`.
checked :
    (append_mode : Bool) (cfg : Config) (i : ℕ) (ps : List PeerConfig) (has : List Bool)
    → IsConfig append_mode cfg
    → length has ≡ length ps
    → IsParsed append_mode (check_public_keys i ps has >>= λ _. ok cfg)
unfolding check_public_keys
checked append_mode cfg i [] has w h = w
checked append_mode cfg i (p ∷ ps) [] w h = absurd (omega (arith, h))
checked append_mode cfg i (p ∷ ps) (true ∷ has) w h =
    checked append_mode cfg (suc i) ps has w (omega (arith, h))
checked append_mode cfg i (p ∷ ps) (false ∷ has) w h = refl

finished :
    (append_mode : Bool) (s : State) (failure : Option ScanError)
    → IsState append_mode s
    → IsParsed append_mode (do
      _ ← no_failure failure
      _ ← check_public_keys 0 s.cfg.peers s.peer_has_public_key
      ok s.cfg)
finished append_mode s (some e) w = refl
finished append_mode s none w =
    checked append_mode s.cfg 0 s.cfg.peers s.peer_has_public_key w.cfg w.flags

parse_lines-IsParsed :
    (net : Net) (append_mode : Bool) (lines : List Text) (failure : Option ScanError)
    → HasPorts net
    → IsParsed append_mode (parse_lines net append_mode (lines, failure))
unfolding parse_lines
parse_lines-IsParsed net append_mode lines failure ports =
    elim (Result-cases (read_lines net 0 lines (initial append_mode))) [
      | inl (s, r) ↦
          rw (r, parse_lines)
            (finished append_mode s failure (
              read_lines-IsState append_mode net ports 0 lines (initial append_mode)
                (initial-IsState append_mode) r))
      | inr (e, r) ↦
          rw (r, parse_lines)
            (read_lines-error append_mode net 0 lines (initial append_mode) e ports
              (initial-IsState append_mode) r)
    ]

-- No index of `Parse` and `parseAllowedIPs` is out of range: a list of allowed IPs is read at the
-- first byte of entries that have one, and `peerHasPublicKey` has an element when the last one is
-- set, and one for each peer when it is read in the last loop. A configuration that it returns is valid: ports and
-- intervals fit into 16 bits, the mark into 32, keys have 32 bytes, names are at most 255 bytes
-- without the characters 0, 10 and 13, no peer is removed or only updated, and `ReplacePeers` is set
-- unless it appends. The ports that the system looks up must have 16 bits.
pub parse-IsParsed :
    (net : Net) (r : Reader) (append_mode : Bool)
    → HasPorts net
    → IsParsed append_mode (parse net r append_mode)
unfolding parse
parse-IsParsed net r append_mode ports =
    parse_lines-IsParsed net append_mode (scan line_limit r).0 (scan line_limit r).1 ports
