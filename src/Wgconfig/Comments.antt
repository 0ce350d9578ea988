-- ===== src/Wgconfig/Comments.antt =====
-- Lines without a meaning: what `cleanLine` and `peerNameComment` make of them.
use wgctrl_go.Base.{
  ℕ, Bool, true, false, not, ◌&&◌, ◌||◌, [], ◌∷◌, none, Text, codes, leb, ◌==◌, ◌≡◌, refl,
  Bool-cases, Option-cases, inl, inr, arith,
}
use wgctrl_go.Std.Strings.{
  is_space, trim_left, keep_right, trim_right, trim_space, cut_prefix, has_prefix, before,
}
use wgctrl_go.Wgconfig.Fields.{peer_name_comment, is_blank, clean_line}

-- Spaces and tabs up to the end of the line or to a `#`.
abbrev pub is_idle : Text → Bool
is_idle [] = true
is_idle (c ∷ s) = c == 35 || ((c == 32 || (leb 9 c && leb c 13)) && is_idle s)

abbrev pub marker : Text
marker = codes "# wgctrl-peer-name"

-- The marker stands somewhere in the line.
abbrev pub is_marked : Text → Bool
is_marked [] = false
is_marked (c ∷ s) = has_prefix (c ∷ s) marker || is_marked s

-- A line that is blank or a comment, without the marker of a name.
abbrev pub is_ignored : Text → Bool
is_ignored l = is_idle l && not (is_marked l)

pub is_idle-clean_line : (l : Text) → is_idle l ≡ true → clean_line l ≡ []
unfolding clean_line before
is_idle-clean_line [] h = refl
is_idle-clean_line (c ∷ s) h = elim (Bool-cases (c == 35)) [
  | inl e ↦ rw e refl
  | inr e ↦ elim (Bool-cases (is_blank c)) [
    | inl f ↦ rw (e, f) (is_idle-clean_line s (ground (arith, h, e)))
    | inr f ↦ absurd (ground (arith, h, e, f))
  ]
]

or_true : (a : Bool) {b : Bool} → b ≡ true → (a || b) ≡ true
or_true true h = refl
or_true false h = h

true_or : {a : Bool} (b : Bool) → a ≡ true → (a || b) ≡ true
true_or b h = rw h refl

kept_prefix :
    (c p : ℕ) (t ps : Text)
    → has_prefix (keep_right c t) (p ∷ ps) ≡ true
    → ((c == p) ≡ true) × (has_prefix t ps ≡ true)
unfolding has_prefix cut_prefix
kept_prefix c p [] ps h = elim (Bool-cases (is_space c)) [
  | inl e ↦ absurd (cc (rw e at h))
  | inr e ↦ elim (Bool-cases (c == p)) [
    | inl f ↦ (f, rw f at (rw e at h))
    | inr f ↦ absurd (cc (rw f at (rw e at h)))
  ]
]
kept_prefix c p (d ∷ t) ps h = elim (Bool-cases (c == p)) [
  | inl f ↦ (f, rw f at h)
  | inr f ↦ absurd (cc (rw f at h))
]

trim_right-has_prefix : (s p : Text) → has_prefix (trim_right s) p ≡ true → has_prefix s p ≡ true
unfolding has_prefix cut_prefix trim_right
trim_right-has_prefix s [] h = refl
trim_right-has_prefix [] (p ∷ ps) h = h
trim_right-has_prefix (c ∷ s) (p ∷ ps) h =
    let (e, k) = kept_prefix c p (trim_right s) ps h in rw e (trim_right-has_prefix s ps k)

trim_left-is_marked : (s : Text) → has_prefix (trim_left s) marker ≡ true → is_marked s ≡ true
unfolding trim_left has_prefix cut_prefix
trim_left-is_marked [] h = h
trim_left-is_marked (c ∷ s) h = elim (Bool-cases (is_space c)) [
  | inl e ↦ or_true (has_prefix (c ∷ s) marker) (trim_left-is_marked s (rw e at h))
  | inr e ↦ true_or (is_marked s) (rw e at h)
]

pub peer_name_comment-is_marked : (l : Text) → is_marked l ≡ false → peer_name_comment l ≡ none
unfolding peer_name_comment trim_space has_prefix
peer_name_comment-is_marked l h = elim (Option-cases (cut_prefix (trim_space l) marker)) [
  | inl e ↦ rw (e, peer_name_comment) refl
  | inr (rest, e) ↦
      let marked = trim_left-is_marked l (trim_right-has_prefix (trim_left l) marker (rw e refl)) in
      absurd (cc (marked, h))
]
