-- ===== src/Std/Base64.antt =====
-- `base64.StdEncoding`: encoding with padding; decoding skips line ends and takes no text that is
-- not whole quanta, but does not look at the unused bits of the last quantum.
use mathlib.Core.Path.{ap₂, subst}
use wgctrl_go.Base.{
  ℕ, ◌+◌, ◌-◌, ◌*◌, ◌/◌, ◌%◌, ◌<◌, false, ◌&&◌, ◌||◌, List, [], ◌∷◌, Option, none, some, Text, ltb,
  leb, ◌==◌, if◌then◌else◌, if_either, ◌≡◌, ◌∙◌, refl, arith, All, ap,
}

-- The character of a six-bit value.
unfoldable pub sextet_char : ℕ → ℕ
sextet_char v =
    if ltb v 26
    then b'A' + v
    else if ltb v 52
    then b'a' + (v - 26)
    else if ltb v 62
    then b'0' + (v - 52)
    else if v == 62
    then b'+'
    else b'/'

unfoldable pub sextet_of : ℕ → Option ℕ
sextet_of c =
    if leb b'A' c && leb c b'Z'
    then some (c - b'A')
    else if leb b'a' c && leb c b'z'
    then some (c - b'a' + 26)
    else if leb b'0' c && leb c b'9'
    then some (c - b'0' + 52)
    else if c == b'+'
    then some 62
    else if c == b'/'
    then some 63
    else none

unfoldable pub encode : List ℕ → Text
unfolding sextet_char
encode [] = []
encode (x ∷ []) = sextet_char (x / 4) ∷ sextet_char (x % 4 * 16) ∷ b'=' ∷ b'=' ∷ []
encode (x ∷ y ∷ []) =
    sextet_char (x / 4) ∷ sextet_char (x % 4 * 16 + y / 16) ∷ sextet_char (y % 16 * 4) ∷ b'=' ∷ []
encode (x ∷ y ∷ z ∷ rest) =
    sextet_char (x / 4)
    ∷ sextet_char (x % 4 * 16 + y / 16)
    ∷ sextet_char (y % 16 * 4 + z / 64)
    ∷ sextet_char (z % 64)
    ∷ encode rest

-- '\r' and '\n' are skipped wherever they stand.
unfoldable pub without_line_ends : Text → Text
without_line_ends [] = []
without_line_ends (c ∷ s) =
    if c == 10 || c == 13 then without_line_ends s else c ∷ without_line_ends s

-- The bytes of a whole quantum, and those of a padded one.
abbrev pub three : Option ℕ → Option ℕ → Option ℕ → Option ℕ → Option (List ℕ) → Option (List ℕ)
three (some a) (some b) (some c) (some d) (some bytes) =
    some ((a * 4 + b / 16) ∷ (b % 16 * 16 + c / 4) ∷ (c % 4 * 64 + d) ∷ bytes)
three _ _ _ _ _ = none

abbrev pub two : Option ℕ → Option ℕ → Option ℕ → Option (List ℕ)
two (some a) (some b) (some c) = some ((a * 4 + b / 16) ∷ (b % 16 * 16 + c / 4) ∷ [])
two _ _ _ = none

abbrev pub one : Option ℕ → Option ℕ → Option (List ℕ)
one (some a) (some b) = some ((a * 4 + b / 16) ∷ [])
one _ _ = none

-- The last quantum may be padded; it has nothing behind it.
abbrev pub last_quantum : ℕ → ℕ → ℕ → ℕ → Option (List ℕ)
last_quantum a b c d =
    if d == b'='
    then if c == b'='
      then one (sextet_of a) (sextet_of b)
      else two (sextet_of a) (sextet_of b) (sextet_of c)
    else three (sextet_of a) (sextet_of b) (sextet_of c) (sextet_of d) (some [])

unfoldable pub decode_quanta : Text → Option (List ℕ)
unfolding sextet_of
decode_quanta [] = some []
decode_quanta (a ∷ b ∷ c ∷ d ∷ []) = last_quantum a b c d
decode_quanta (a ∷ b ∷ c ∷ d ∷ e ∷ s) =
    three (sextet_of a) (sextet_of b) (sextet_of c) (sextet_of d) (decode_quanta (e ∷ s))
decode_quanta _ = none

-- `DecodeString`
unfoldable pub decode : Text → Option (List ℕ)
unfolding decode_quanta without_line_ends
decode s = decode_quanta (without_line_ends s)

sextet_of-char : (v : ℕ) → v < 64 → sextet_of (sextet_char v) ≡ some v
unfolding sextet_of sextet_char
sextet_of-char v h = ground arith

-- A character of the alphabet is neither padding nor a line end.
sextet_char_plain :
    (v : ℕ)
    → ((sextet_char v == b'=') ≡ false) × ((sextet_char v == 10 || sextet_char v == 13) ≡ false)
unfolding sextet_char
sextet_char_plain v = ground arith

quantum :
    (a b c d : ℕ) (s : Text)
    → (d == b'=') ≡ false
    → decode_quanta (a ∷ b ∷ c ∷ d ∷ s)
      ≡ three (sextet_of a) (sextet_of b) (sextet_of c) (sextet_of d) (decode_quanta s)
unfolding decode_quanta
quantum a b c d [] h = rw h
quantum a b c d (e ∷ s) h = refl

one_byte : (x : ℕ) → x < 256 → one (some (x / 4)) (some (x % 4 * 16)) ≡ some (x ∷ [])
one_byte x h = ap (λ n. some (n ∷ [])) (omega arith)

two_bytes :
    (x y : ℕ)
    → x < 256
    → y < 256
    → two (some (x / 4)) (some (x % 4 * 16 + y / 16)) (some (y % 16 * 4)) ≡ some (x ∷ y ∷ [])
two_bytes x y hx hy = ap₂ (λ n m. some (n ∷ m ∷ [])) (omega arith) (omega arith)

three_bytes :
    (x y z : ℕ) (rest : List ℕ)
    → x < 256
    → y < 256
    → z < 256
    → three
        (some (x / 4))
        (some (x % 4 * 16 + y / 16))
        (some (y % 16 * 4 + z / 64))
        (some (z % 64))
        (some rest)
      ≡ some (x ∷ y ∷ z ∷ rest)
three_bytes x y z rest hx hy hz =
    ap₂ (λ n l. some (n ∷ l)) (omega arith) (ap₂ (λ n m. n ∷ m ∷ rest) (omega arith) (omega arith))

decode_quanta-encode :
    (bytes : List ℕ) → All (λ b. b < 256) bytes → decode_quanta (encode bytes) ≡ some bytes
unfolding encode
decode_quanta-encode [] _ = unfold decode_quanta in refl
decode_quanta-encode (x ∷ []) (hx, _) =
    unfold decode_quanta in
    rw (sextet_of-char (x / 4) (omega arith), sextet_of-char (x % 4 * 16) (omega arith))
      (one_byte x hx)
decode_quanta-encode (x ∷ y ∷ []) (hx, (hy, _)) =
    unfold decode_quanta in
    rw
      (
        (sextet_char_plain (y % 16 * 4)).0,
        sextet_of-char (x / 4) (omega arith),
        sextet_of-char (x % 4 * 16 + y / 16) (omega arith),
        sextet_of-char (y % 16 * 4) (omega arith),
      )
      (two_bytes x y hx hy)
decode_quanta-encode (x ∷ y ∷ z ∷ rest) (hx, (hy, (hz, h))) =
    quantum _ _ _ _ (encode rest) (sextet_char_plain (z % 64)).0
    ∙ rw
        (
          sextet_of-char (x / 4) (omega arith),
          sextet_of-char (x % 4 * 16 + y / 16) (omega arith),
          sextet_of-char (y % 16 * 4 + z / 64) (omega arith),
          sextet_of-char (z % 64) (omega arith),
          decode_quanta-encode rest h,
        )
        (three_bytes x y z rest hx hy hz)

without_line_ends_plain :
    (v : ℕ) (s : Text) → without_line_ends (sextet_char v ∷ s) ≡ sextet_char v ∷ without_line_ends s
unfolding without_line_ends
without_line_ends_plain v s = rw (sextet_char_plain v).1

without_line_ends-encode : (bytes : List ℕ) → without_line_ends (encode bytes) ≡ encode bytes
unfolding encode
without_line_ends-encode [] = unfold without_line_ends in refl
without_line_ends-encode (x ∷ []) = simp without_line_ends_plain (unfold without_line_ends in refl)
without_line_ends-encode (x ∷ y ∷ []) =
    simp without_line_ends_plain (unfold without_line_ends in refl)
without_line_ends-encode (x ∷ y ∷ z ∷ rest) =
    simp (without_line_ends_plain, without_line_ends-encode rest)

-- Decoding gives back what was encoded, whatever the bytes.
pub decode-encode : (bytes : List ℕ) → All (λ b. b < 256) bytes → decode (encode bytes) ≡ some bytes
unfolding decode
decode-encode bytes h = rw (without_line_ends-encode bytes) (decode_quanta-encode bytes h)

-- What is decoded is bytes.
abbrev pub Bytes? : Option (List ℕ) → Type 0
Bytes? none = Unit
Bytes? (some bytes) = All (λ b. b < 256) bytes

abbrev Small : Option ℕ → Type 0
Small none = Unit
Small (some v) = v < 64

sextet_of-Small : (c : ℕ) → Small (sextet_of c)
unfolding sextet_of
sextet_of-Small c = ground arith

three-Bytes :
    (a b c d : Option ℕ) (rest : Option (List ℕ))
    → Small a
    → Small b
    → Small c
    → Small d
    → Bytes? rest
    → Bytes? (three a b c d rest)
three-Bytes (some a) (some b) (some c) (some d) (some r) ha hb hc hd hr =
    (omega arith, (omega arith, (omega arith, hr)))
three-Bytes _ _ _ _ _ ha hb hc hd hr = tt

two-Bytes : (a b c : Option ℕ) → Small a → Small b → Small c → Bytes? (two a b c)
two-Bytes (some a) (some b) (some c) ha hb hc = (omega arith, (omega arith, tt))
two-Bytes _ _ _ ha hb hc = tt

one-Bytes : (a b : Option ℕ) → Small a → Small b → Bytes? (one a b)
one-Bytes (some a) (some b) ha hb = (omega arith, tt)
one-Bytes _ _ ha hb = tt

pub decode_quanta-Bytes : (s : Text) → Bytes? (decode_quanta s)
unfolding decode_quanta
decode_quanta-Bytes [] = tt
decode_quanta-Bytes (a ∷ b ∷ c ∷ d ∷ []) =
    let sa = sextet_of-Small a in
    let sb = sextet_of-Small b in
    let sc = sextet_of-Small c in
    if_either Bytes? (d == b'=')
      (if_either Bytes? (c == b'=') (one-Bytes _ _ sa sb) (two-Bytes _ _ _ sa sb sc))
      (three-Bytes _ _ _ _ (some []) sa sb sc (sextet_of-Small d) tt)
decode_quanta-Bytes (a ∷ b ∷ c ∷ d ∷ e ∷ s) =
    three-Bytes _ _ _ _ (decode_quanta (e ∷ s)) (sextet_of-Small a) (sextet_of-Small b)
      (sextet_of-Small c) (sextet_of-Small d) (decode_quanta-Bytes (e ∷ s))
decode_quanta-Bytes _ = tt

pub decode-bytes : (s : Text) {bytes : List ℕ} → decode s ≡ some bytes → All (λ b. b < 256) bytes
unfolding decode
decode-bytes s h = subst Bytes? h (decode_quanta-Bytes (without_line_ends s))
