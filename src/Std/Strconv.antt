-- ===== src/Std/Strconv.antt =====
-- Package `strconv`: `ParseUint` and the decimal and hexadecimal forms of a number.
use mathlib.Core.WellFounded.{Acc, WellFounded}
use mathlib.Core.Logic.{dite}
use native.Mathlib.Decide.{dec_lt}
use wgctrl_go.Base.{
  ℕ, zero, suc, ◌+◌, ◌-◌, ◌*◌, ◌/◌, ◌%◌, ◌^◌, ◌<◌, Bool, true, false, ◌&&◌, ◌||◌, equal, [], ◌∷◌,
  Option, none, some, Text, codes, ltb, leb, ◌==◌, if◌then◌else◌, ◌≡◌, refl, arith,
}
use wgctrl_go.Base.Int.{ℤ, pos, negsuc}

-- The value of a digit character; letters are digits from ten on.
unfoldable pub digit_value : ℕ → Option ℕ
digit_value c =
    if leb b'0' c && leb c b'9'
    then some (c - b'0')
    else if leb b'a' c && leb c b'z'
    then some (c - b'a' + 10)
    else if leb b'A' c && leb c b'Z'
    then some (c - b'A' + 10)
    else none

-- A digit of `base`.
unfoldable pub digit_of : ℕ → ℕ → Option ℕ
unfolding digit_value
digit_of base c = elim (digit_value c) [
  | none ↦ none
  | some d ↦ if ltb d base then some d else none
]

-- The digits behind a number `n`, none of them wrapping: `ParseUint` fails on a value past `limit`.
unfoldable pub scan_digits : ℕ → ℕ → Text → ℕ → Option ℕ
unfolding digit_of
scan_digits base limit [] n = some n
scan_digits base limit (c ∷ s) n = elim (digit_of base c) [
  | none ↦ none
  | some d ↦ let m = n * base + d in if ltb limit m then none else scan_digits base limit s m
]

-- `ParseUint(s, base, bits)` for base 10 or 16.
unfoldable pub parse_uint : ℕ → ℕ → Text → Option ℕ
unfolding scan_digits
parse_uint base bits [] = none
parse_uint base bits (c ∷ s) = scan_digits base (2 ^ bits - 1) (c ∷ s) 0

-- `ParseInt(s, 10, 64)`, which is also `Atoi`.
unfoldable pub to_int : Bool → Option ℕ → Option ℤ
to_int negative none = none
to_int true (some zero) = some (pos 0)
to_int true (some (suc n)) = if ltb n (2 ^ 63) then some (negsuc n) else none
to_int false (some n) = if ltb n (2 ^ 63) then some (pos n) else none

unfoldable pub parse_int : Text → Option ℤ
unfolding parse_uint to_int
parse_int [] = none
parse_int (c ∷ s) =
    if c == b'-'
    then to_int true (parse_uint 10 64 s)
    else if c == b'+'
    then to_int false (parse_uint 10 64 s)
    else to_int false (parse_uint 10 64 (c ∷ s))

-- `ParseBool`
unfoldable pub parse_bool : Text → Option Bool
parse_bool s =
    if equal s (codes "1")
      || equal s (codes "t")
      || equal s (codes "T")
      || equal s (codes "true")
      || equal s (codes "TRUE")
      || equal s (codes "True")
    then some true
    else if equal s (codes "0")
        || equal s (codes "f")
        || equal s (codes "F")
        || equal s (codes "false")
        || equal s (codes "FALSE")
        || equal s (codes "False")
    then some false
    else none

Acc-below : (k n : ℕ) → n < k → Acc ◌<◌ n
Acc-below zero n h = elim h [ ]
Acc-below (suc k) n h = Acc.intro n (λ m hm. Acc-below k m (omega arith))

pub lt_wf : WellFounded ◌<◌
unfolding Acc-below
lt_wf = record { apply = λ n. Acc-below (suc n) n (omega arith) }

pub quotient_lt : (base n : ℕ) → 1 < base → 0 < n → n / base < n
quotient_lt base n hb hn = grind arith

-- A digit as a character.
unfoldable pub digit_char : ℕ → ℕ
digit_char d = if ltb d 10 then b'0' + d else b'a' + (d - 10)

pub put_digits : (base : ℕ) → 1 < base → (n : ℕ) → Acc ◌<◌ n → Text → Text
put_digits base hb n (Acc.intro _ smaller) out =
    dite (dec_lt 0 n)
      (λ h.
        put_digits base hb (n / base) (smaller (n / base) (quotient_lt base n hb h))
          (digit_char (n % base) ∷ out))
      (λ _. out)

-- `FormatUint(n, base)`
unfoldable pub format_base : (base : ℕ) → 1 < base → ℕ → Text
unfolding put_digits lt_wf dec_lt digit_char
format_base base hb n = if n == 0 then b'0' ∷ [] else put_digits base hb n (lt_wf.apply n) []

-- `%d` and `%x` of a number.
unfoldable pub format_uint : ℕ → Text
unfolding format_base
format_uint = format_base 10 (omega arith)

unfoldable pub format_hex : ℕ → Text
unfolding format_base
format_hex = format_base 16 (omega arith)

-- `%d` and `%x` of an `int`.
unfoldable pub format_int : ℤ → Text
unfolding format_uint
format_int (pos n) = format_uint n
format_int (negsuc n) = b'-' ∷ format_uint (suc n)

unfoldable pub format_int_hex : ℤ → Text
unfolding format_hex
format_int_hex (pos n) = format_hex n
format_int_hex (negsuc n) = b'-' ∷ format_hex (suc n)

samples :
    (parse_uint 10 64 (codes "051820") ≡ some 51820)
    × (parse_uint 10 64 (codes "18446744073709551616") ≡ none)
    × (parse_uint 16 32 (codes "fFffFfff") ≡ some 0xffff_ffff)
    × (parse_int (codes "-12") ≡ some (negsuc 11))
    × (format_uint 51820 ≡ codes "51820")
    × (format_hex 0xca6c ≡ codes "ca6c")
unfolding parse_uint parse_int format_uint format_hex
samples = (refl, refl, refl, refl, refl, refl)
