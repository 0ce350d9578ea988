-- ===== src/Std/Mask.antt =====
-- `IPMask.Size` of package `net`, on the bytes of a mask.
use wgctrl_go.Base.{
  ℕ, ◌+◌, ◌*◌, Bool, true, ◌&&◌, List, [], ◌∷◌, Option, none, some, length, ◌==◌, if◌then◌else◌,
  ◌≡◌, refl,
}

-- The leading ones of a byte that has no one behind a zero.
unfoldable pub byte_ones : ℕ → Option ℕ
byte_ones b =
    if b == 0
    then some 0
    else if b == 128
    then some 1
    else if b == 192
    then some 2
    else if b == 224
    then some 3
    else if b == 240
    then some 4
    else if b == 248
    then some 5
    else if b == 252
    then some 6
    else if b == 254
    then some 7
    else none

unfoldable pub all_zero : List ℕ → Bool
all_zero [] = true
all_zero (b ∷ m) = b == 0 && all_zero m

abbrev pub byte_more : Option ℕ → Option ℕ
byte_more none = none
byte_more (some n) = some (n + 8)

abbrev pub last_ones : Option ℕ → Bool → Option ℕ
last_ones none zeros = none
last_ones (some n) zeros = if zeros then some n else none

-- The ones of a mask, `none` if a one stands behind a zero.
unfoldable pub mask_ones : List ℕ → Option ℕ
unfolding byte_ones all_zero
mask_ones [] = some 0
mask_ones (b ∷ m) =
    let rest = mask_ones m in
    if b == 255 then byte_more rest else last_ones (byte_ones b) (all_zero m)

abbrev pub sized : ℕ → Option ℕ → ℕ × ℕ
sized bits none = (0, 0)
sized bits (some ones) = (ones, bits)

unfoldable pub mask_size : List ℕ → ℕ × ℕ
unfolding mask_ones
mask_size m = sized (length m * 8) (mask_ones m)

samples :
    (mask_size (255 ∷ 255 ∷ 240 ∷ 0 ∷ []) ≡ (20, 32))
    × (mask_size (0 ∷ 0 ∷ 0 ∷ 0 ∷ []) ≡ (0, 32))
    × (mask_size (255 ∷ 0 ∷ 255 ∷ 0 ∷ []) ≡ (0, 0))
unfolding mask_size
samples = (refl, refl, refl)
