-- ===== src/Wgconfig/Lines.antt =====
-- Blank lines and comments in a configuration.
use wgctrl_go.Base.{
  ℕ, suc, Bool, true, List, [], ◌∷◌, Option, Text, if◌then◌else◌, ◌≡◌, refl, arith, Bool-cases, inl,
  inr,
}
use wgctrl_go.Base.Result.{Result, ok, err, map_err, ◌>>=◌, Result-cases}
use wgctrl_go.Std.Scanner.{ScanError}
use wgctrl_go.Wgconfig.Net.{Net}
use wgctrl_go.Wgconfig.Comments.{is_ignored, is_idle-clean_line, peer_name_comment-is_marked}
use wgctrl_go.Wgconfig.Parse.{
  ParseError, State, initial, at_line, read_failed, missing_public_key, panicked, no_failure,
  check_public_keys, read_line, read_lines, parse_lines,
}

abbrev pub significant : List Text → List Text
significant [] = []
significant (l ∷ ls) = if is_ignored l then significant ls else l ∷ significant ls

-- An error without the number of its line.
abbrev pub without_number : ParseError → ParseError
without_number (at_line _ e) = at_line 0 e
without_number (read_failed e) = read_failed e
without_number (missing_public_key i) = missing_public_key i
without_number panicked = panicked

abbrev pub unnumbered : {A : Type 0} → Result ParseError A → Result ParseError A
unnumbered = map_err without_number

ignored-line : (net : Net) (l : Text) (s : State) → is_ignored l ≡ true → read_line net l s ≡ ok s
unfolding read_line
ignored-line net l s h =
    rw (peer_name_comment-is_marked l (ground (arith, h)), is_idle-clean_line l (ground (arith, h)))
      refl

read_lines-significant :
    (net : Net) (n m : ℕ) (ls : List Text) (s : State)
    → unnumbered (read_lines net n ls s) ≡ unnumbered (read_lines net m (significant ls) s)
unfolding read_lines
read_lines-significant net n m [] s = refl
read_lines-significant net n m (l ∷ ls) s = elim (Bool-cases (is_ignored l)) [
  | inl e ↦
      rw e (rw (ignored-line net l s e, read_lines) (read_lines-significant net (suc n) m ls s))
  | inr e ↦ rw e (elim (Result-cases (read_line net l s)) [
    | inl (t, r) ↦ rw (r, read_lines) (read_lines-significant net (suc n) (suc m) ls t)
    | inr (x, r) ↦ rw (r, read_lines) refl
  ])
]

unnumbered-bind :
    {A B : Type 0} (r r' : Result ParseError A) (f : A → Result ParseError B)
    → unnumbered r ≡ unnumbered r'
    → unnumbered (r >>= f) ≡ unnumbered (r' >>= f)
unnumbered-bind (ok a) (ok b) f h = cc
unnumbered-bind (ok a) (err e) f h = cc
unnumbered-bind (err e) (ok b) f h = cc
unnumbered-bind (err e) (err e') f h = cc

-- Behind the scanner, whose error is the same with and without them, lines of spaces up to their end
-- or to a `#` do not matter to `Parse` unless "# wgctrl-peer-name" stands in them: without these lines
-- it returns the same configuration or, but for the number of the line, the same error.
pub parse_lines-significant :
    (net : Net) (append_mode : Bool) (lines : List Text) (failure : Option ScanError)
    → unnumbered (parse_lines net append_mode (lines, failure))
      ≡ unnumbered (parse_lines net append_mode (significant lines, failure))
unfolding parse_lines
parse_lines-significant net append_mode lines failure =
    unnumbered-bind (read_lines net 0 lines (initial append_mode))
      (read_lines net 0 (significant lines) (initial append_mode))
      (λ s. do
        _ ← no_failure failure
        _ ← check_public_keys 0 s.cfg.peers s.peer_has_public_key
        ok s.cfg)
      (read_lines-significant net 0 0 lines (initial append_mode))
