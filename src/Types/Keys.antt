-- ===== src/Types/Keys.antt =====
-- `NewKey`, `ParseKey`, `Key.String`, `GenerateKey` and `GeneratePrivateKey` of wgtypes/types.go.
pub mod Clamp
mod Tests
use Prim.Native.Nat.{bit_and, bit_or}
use wgctrl_go.Base.{
  ℕ, zero, suc, ◌+◌, ◌%◌, ◌<◌, ◌≤◌, ◌&&◌, Bool, true, false, List, [], ◌∷◌, Option, none, some,
  Text, codes, length, get_elem?, set, ◌==◌, ltb, leb, if◌then◌else◌, ◌≡◌, ◌≢◌, refl, ◌∙◌, ap,
  arith, All, ==_iff, Bool-cases, Option-cases, inl, inr,
}
use wgctrl_go.Base.Result.{Result, ok, err, ◌>>=◌}
use wgctrl_go.Types.{Key, key_len}
use wgctrl_go.Std.Base64

pub data KeyError : Type 0 where
  bad_length : ℕ → KeyError
  bad_base64 random_failed : KeyError

unfoldable pub new_key : List ℕ → Result KeyError Key
new_key b = if length b == key_len then ok b else err (bad_length (length b))

unfoldable pub parse_key : Text → Result KeyError Key
unfolding new_key
parse_key s = elim (Base64.decode s) [ none ↦ err bad_base64 | some b ↦ new_key b ]

-- `Key.String`
unfoldable pub key_string : Key → Text
key_string k = Base64.encode k

-- `random` is what `rand.Read` puts into a buffer of 32 bytes; `none` is its error.
unfoldable pub generate_key : Option (List ℕ) → Result KeyError Key
unfolding new_key
generate_key none = err random_failed
generate_key (some b) = new_key b

abbrev pub at : List ℕ → ℕ → ℕ
at k i = elim (get_elem? k i) [ none ↦ 0 | some b ↦ b ]

-- `key[0] &= 248; key[31] &= 127; key[31] |= 64`
unfoldable pub clamp : Key → Key
clamp k =
    let k1 = set k 0 (bit_and (at k 0) 248) in
    let k2 = set k1 31 (bit_and (at k1 31) 127) in set k2 31 (bit_or (at k2 31) 64)

unfoldable pub generate_private_key : Option (List ℕ) → Result KeyError Key
unfolding generate_key clamp
generate_private_key random = do key ← generate_key random; ok (clamp key)

-- An array of 32 bytes.
pub record IsKey (k : Key) : Type 0 where
  pub size : length k ≡ 32
  pub bytes : All (λ b. b < 256) k

pub new_key-eq-ok : (b : List ℕ) {k : Key} → new_key b ≡ ok k → (b ≡ k) × (length k ≡ 32)
unfolding new_key
new_key-eq-ok b h = ground arith

pub new_key-IsKey : {k : Key} → IsKey k → new_key k ≡ ok k
unfolding new_key
new_key-IsKey {k} w = rw w.size

pub length-parse_key : (s : Text) {k : Key} → parse_key s ≡ ok k → length k ≡ 32
unfolding parse_key
length-parse_key s h = ground arith

-- What `ParseKey` returns is an array of 32 bytes.
pub parse_key-IsKey : (s : Text) {k : Key} → parse_key s ≡ ok k → IsKey k
unfolding parse_key
parse_key-IsKey s {k} h = elim (Option-cases (Base64.decode s)) [
  | inl e ↦ cc (rw (e, parse_key) at h)
  | inr (b, e) ↦
      let (same, size) = new_key-eq-ok b (rw (e, parse_key) at h) in
      record { size = size; bytes = rw (← same) (Base64.decode-bytes s e) }
]

-- A key is read back from its base64 text.
pub parse_key-key_string : {k : Key} → IsKey k → parse_key (key_string k) ≡ ok k
unfolding key_string parse_key
parse_key-key_string {k} w = rw (Base64.decode-encode k w.bytes, parse_key) (new_key-IsKey w)
