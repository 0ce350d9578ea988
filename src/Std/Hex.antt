-- ===== src/Std/Hex.antt =====
-- Package `encoding/hex`.
use wgctrl_go.Base.{
  ℕ, ◌+◌, ◌-◌, ◌*◌, ◌/◌, ◌%◌, ◌<◌, ◌&&◌, List, [], ◌∷◌, Option, none, some, Text, codes, ltb, leb,
  if◌then◌else◌, ◌≡◌, refl, ap, arith, All,
}

unfoldable pub nibble_char : ℕ → ℕ
nibble_char v = if ltb v 10 then b'0' + v else b'a' + (v - 10)

unfoldable pub nibble_of : ℕ → Option ℕ
nibble_of c =
    if leb b'0' c && leb c b'9'
    then some (c - b'0')
    else if leb b'a' c && leb c b'f'
    then some (c - b'a' + 10)
    else if leb b'A' c && leb c b'F'
    then some (c - b'A' + 10)
    else none

-- `EncodeToString`
unfoldable pub encode : List ℕ → Text
unfolding nibble_char
encode [] = []
encode (b ∷ bs) = nibble_char (b / 16) ∷ nibble_char (b % 16) ∷ encode bs

abbrev pub byte_of : Option ℕ → Option ℕ → Option (List ℕ) → Option (List ℕ)
byte_of (some h) (some l) (some bytes) = some ((h * 16 + l) ∷ bytes)
byte_of _ _ _ = none

-- `DecodeString`; a text of odd length is refused.
unfoldable pub decode : Text → Option (List ℕ)
unfolding nibble_of
decode [] = some []
decode (c ∷ []) = none
decode (c ∷ d ∷ s) = byte_of (nibble_of c) (nibble_of d) (decode s)

nibble_of-char : (v : ℕ) → v < 16 → nibble_of (nibble_char v) ≡ some v
unfolding nibble_of nibble_char
nibble_of-char v h = ground arith

-- Decoding gives back what was encoded, whatever the bytes.
pub decode-encode : (bytes : List ℕ) → All (λ b. b < 256) bytes → decode (encode bytes) ≡ some bytes
unfolding decode encode
decode-encode [] _ = refl
decode-encode (b ∷ bs) (hb, h) =
    rw
      (
        nibble_of-char (b / 16) (omega arith),
        nibble_of-char (b % 16) (omega arith),
        decode-encode bs h,
      )
      (ap (λ n. some (n ∷ bs)) (omega arith))

sample : encode (0 ∷ 255 ∷ 26 ∷ []) ≡ codes "00ff1a"
unfolding encode
sample = refl
