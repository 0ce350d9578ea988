-- ===== src/Std/Strings.antt =====
-- Package `strings` on texts, which are lists of code points.
use wgctrl_go.Base.{
  ℕ, ◌+◌, Bool, true, false, ◌&&◌, ◌||◌, List, [], ◌∷◌, ◌++◌, map, Option, none, some, Text, codes,
  equal, ltb, leb, ◌==◌, if◌then◌else◌, ◌≡◌, refl,
}

-- `unicode.IsSpace`
unfoldable pub is_space : ℕ → Bool
is_space c =
    (leb 9 c && leb c 13)
    || c == 32
    || c == 0x85
    || c == 0xa0
    || c == 0x1680
    || (leb 0x2000 c && leb c 0x200a)
    || c == 0x2028
    || c == 0x2029
    || c == 0x202f
    || c == 0x205f
    || c == 0x3000

unfoldable pub trim_left : Text → Text
trim_left [] = []
trim_left (c ∷ s) = if is_space c then trim_left s else c ∷ s

-- Trailing spaces: a character stays if it is no space or if something stays behind it.
abbrev pub keep_right : ℕ → Text → Text
keep_right c [] = if is_space c then [] else c ∷ []
keep_right c (d ∷ s) = c ∷ d ∷ s

unfoldable pub trim_right : Text → Text
trim_right [] = []
trim_right (c ∷ s) = keep_right c (trim_right s)

-- `TrimSpace`
unfoldable pub trim_space : Text → Text
unfolding trim_left trim_right is_space
trim_space s = trim_right (trim_left s)

-- `strings.CutPrefix`: the rest behind a prefix.
unfoldable pub cut_prefix : Text → Text → Option Text
cut_prefix s [] = some s
cut_prefix [] (p ∷ ps) = none
cut_prefix (c ∷ s) (p ∷ ps) = if c == p then cut_prefix s ps else none

abbrev pub is_some {ℓ} : {A : Type ℓ} → Option A → Bool
is_some none = false
is_some (some _) = true

-- `HasPrefix`
unfoldable pub has_prefix : Text → Text → Bool
unfolding cut_prefix
has_prefix s p = is_some (cut_prefix s p)

-- `Cut(s, sep)` at the first byte `sep`; `none` if there is none.
abbrev pub behind_cut : ℕ → Option (Text × Text) → Option (Text × Text)
behind_cut c none = none
behind_cut c (some (a, b)) = some (c ∷ a, b)

unfoldable pub cut : ℕ → Text → Option (Text × Text)
cut sep [] = none
cut sep (c ∷ s) = if c == sep then some ([], s) else behind_cut c (cut sep s)

-- The text before the first byte `sep`, or all of it.
unfoldable pub before : ℕ → Text → Text
before sep [] = []
before sep (c ∷ s) = if c == sep then [] else c ∷ before sep s

-- `LastIndexByte(s, sep)` as the texts before and behind the last byte `sep`.
abbrev pub cut_later : ℕ → ℕ → Text → Option (Text × Text) → Option (Text × Text)
cut_later sep c s (some (a, b)) = some (c ∷ a, b)
cut_later sep c s none = if c == sep then some ([], s) else none

unfoldable pub cut_last : ℕ → Text → Option (Text × Text)
cut_last sep [] = none
cut_last sep (c ∷ s) = cut_later sep c s (cut_last sep s)

-- `Split(s, sep)` for one byte.
abbrev pub onto_first : ℕ → List Text → List Text
onto_first c [] = (c ∷ []) ∷ []
onto_first c (p ∷ ps) = (c ∷ p) ∷ ps

unfoldable pub split : ℕ → Text → List Text
split sep [] = [] ∷ []
split sep (c ∷ s) = if c == sep then [] ∷ split sep s else onto_first c (split sep s)

-- `Join(parts, sep)`
unfoldable pub join : Text → List Text → Text
join sep [] = []
join sep (p ∷ []) = p
join sep (p ∷ q ∷ ps) = p ++ (sep ++ join sep (q ∷ ps))

-- `Contains(s, sub)` for one byte.
unfoldable pub contains : ℕ → Text → Bool
contains b [] = false
contains b (c ∷ s) = c == b || contains b s

-- `ToLower`, exact where the result is compared with an ASCII text: besides the capital letters
-- only U+0130 and U+212A have an ASCII lower case, and other letters keep out of ASCII.
unfoldable pub lower : ℕ → ℕ
lower c =
    if leb b'A' c && leb c b'Z'
    then c + 32
    else if c == 0x130
    then b'i'
    else if c == 0x212a
    then b'k'
    else c

abbrev pub to_lower : Text → Text
to_lower = map lower

-- `EqualFold(s, t)` for a text `t` of ASCII small letters: the letters of one fold are compared by
-- their small ASCII letter; U+212A folds with k and U+017F with s, and U+0130 folds with nothing.
unfoldable pub fold : ℕ → ℕ
fold c =
    if leb b'A' c && leb c b'Z'
    then c + 32
    else if c == 0x212a
    then b'k'
    else if c == 0x17f
    then b's'
    else c

abbrev pub equal_fold : Text → Text → Bool
equal_fold s t = equal (map fold s) t

-- The bytes that a code point takes in UTF-8, and `len` of a text.
unfoldable pub rune_len : ℕ → ℕ
rune_len c = if ltb c 0x80 then 1 else if ltb c 0x800 then 2 else if ltb c 0x10000 then 3 else 4

unfoldable pub byte_len : Text → ℕ
unfolding rune_len
byte_len [] = 0
byte_len (c ∷ s) = rune_len c + byte_len s

-- Samples.
samples :
    (trim_space (codes " \ta b \n") ≡ codes "a b")
    × (cut b'=' (codes "k=v=w") ≡ some (codes "k", codes "v=w"))
    × (cut_last b':' (codes "::1:80") ≡ some (codes "::1", codes "80"))
    × (split b',' (codes "a,,b") ≡ codes "a" ∷ [] ∷ codes "b" ∷ [])
    × (equal_fold (codes "oFf") (codes "off") ≡ true)
    × (has_prefix (codes "0x1") (codes "0x") ≡ true)
unfolding trim_space cut cut_last split fold has_prefix equal
samples = (refl, refl, refl, refl, refl, refl)
