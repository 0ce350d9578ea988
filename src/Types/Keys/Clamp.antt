-- ===== src/Types/Keys/Clamp.antt =====
-- What `GeneratePrivateKey` does to the random bytes.
use Prim.Native.Nat.{bit_and, bit_or}
use wgctrl_go.Base.{
  ℕ, ◌+◌, ◌*◌, ◌/◌, ◌%◌, ◌<◌, true, zero, suc, List, [], ◌∷◌, some, length, set, ◌==◌, ◌≡◌, ◌≢◌,
  refl, sym, ◌∙◌, ap, arith, All, All-set, ==_iff, all_below, all_below_sound, length-set,
  get_elem?-set_self, get_elem?-set_ne,
}
use wgctrl_go.Base.Result.{ok}
use wgctrl_go.Types.{Key}
use wgctrl_go.Types.Keys.{IsKey, at, clamp, generate_private_key, new_key-IsKey}

and_248_table : all_below 256 (λ x. bit_and x 248 == x / 8 * 8) ≡ true
unfolding all_below
and_248_table = refl

and_248 : (x : ℕ) → x < 256 → bit_and x 248 ≡ x / 8 * 8
and_248 x h = (==_iff _ _).0 (all_below_sound (λ x. bit_and x 248 == x / 8 * 8) 256 h and_248_table)

or_64_table : all_below 256 (λ x. bit_or (bit_and x 127) 64 == x % 64 + 64) ≡ true
unfolding all_below
or_64_table = refl

or_64 : (x : ℕ) → x < 256 → bit_or (bit_and x 127) 64 ≡ x % 64 + 64
or_64 x h =
    (==_iff _ _).0
      (all_below_sound (λ x. bit_or (bit_and x 127) 64 == x % 64 + 64) 256 h or_64_table)

-- `k` is `b` with the low three bits of byte 0 and the top bit of byte 31 cleared and the next bit
-- of byte 31 set.
pub record IsClamped (b k : Key) : Type 0 where
  pub key : IsKey k
  pub low : at k 0 ≡ at b 0 / 8 * 8
  pub high : at k 31 ≡ at b 31 % 64 + 64
  pub rest : (i : ℕ) → i ≢ 0 → i ≢ 31 → at k i ≡ at b i

at-set_self : (k : Key) (i v : ℕ) → i < length k → at (set k i v) i ≡ v
at-set_self k i v h = rw (get_elem?-set_self k i v h, at)

at-set_ne : (k : Key) (i j v : ℕ) → i ≢ j → at (set k i v) j ≡ at k j
at-set_ne k i j v h = rw (get_elem?-set_ne k i j v h, at)

at-lt : (k : List ℕ) (i : ℕ) → All (λ b. b < 256) k → at k i < 256
at-lt [] i h = omega arith
at-lt (x ∷ xs) zero (hx, h) = hx
at-lt (x ∷ xs) (suc i) (hx, h) = at-lt xs i h

and_127_table : all_below 256 (λ x. bit_and x 127 == x % 128) ≡ true
unfolding all_below
and_127_table = refl

and_127 : (x : ℕ) → x < 256 → bit_and x 127 ≡ x % 128
and_127 x h = (==_iff _ _).0 (all_below_sound (λ x. bit_and x 127 == x % 128) 256 h and_127_table)

-- The three assignments.
abbrev clear_low : Key → Key
clear_low k = set k 0 (bit_and (at k 0) 248)

abbrev clear_top : Key → Key
clear_top k = set k 31 (bit_and (at k 31) 127)

abbrev set_next : Key → Key
set_next k = set k 31 (bit_or (at k 31) 64)

set-IsKey : {k : Key} (i v : ℕ) → IsKey k → v < 256 → IsKey (set k i v)
set-IsKey {k} i v w h = record {
  size = length-set k i v ∙ w.size;
  bytes = All-set (λ b. b < 256) k i v w.bytes h;
}

clear_low-IsKey : {k : Key} → IsKey k → IsKey (clear_low k)
clear_low-IsKey {k} w =
    let small = at-lt k 0 w.bytes in
    set-IsKey 0 (bit_and (at k 0) 248) w (rw (and_248 (at k 0) small) (omega arith))

clear_top-IsKey : {k : Key} → IsKey k → IsKey (clear_top k)
clear_top-IsKey {k} w =
    let small = at-lt k 31 w.bytes in
    set-IsKey 31 (bit_and (at k 31) 127) w (rw (and_127 (at k 31) small) (omega arith))

-- Byte 31 after both of its assignments.
top_value : (k : Key) → IsKey k → bit_or (at (clear_top k) 31) 64 ≡ at k 31 % 64 + 64
top_value k w =
    ap (λ n. bit_or n 64) (at-set_self k 31 (bit_and (at k 31) 127) (omega (arith, w.size)))
    ∙ or_64 (at k 31) (at-lt k 31 w.bytes)

set_next-IsKey : {k : Key} → IsKey k → IsKey (set_next (clear_top k))
set_next-IsKey {k} w =
    set-IsKey 31 (bit_or (at (clear_top k) 31) 64) (clear_top-IsKey w)
      (omega (arith, top_value k w))

at-set_next : (k : Key) (i : ℕ) → i ≢ 31 → at (set_next (clear_top k)) i ≡ at k i
at-set_next k i h =
    at-set_ne (clear_top k) 31 i (bit_or (at (clear_top k) 31) 64) (λ e. h (sym e))
    ∙ at-set_ne k 31 i (bit_and (at k 31) 127) (λ e. h (sym e))

clamp-IsClamped : (b : Key) → IsKey b → IsClamped b (clamp b)
unfolding clamp
clamp-IsClamped b w =
    let k = clear_low b in
    let kw = clear_low-IsKey w in
    let zero_31 : ◌≢◌ {A = ℕ} 0 31 = λ e. omega (arith, e) in
    record {
      key = set_next-IsKey kw;
      low =
          at-set_next k 0 zero_31
          ∙ at-set_self b 0 (bit_and (at b 0) 248) (omega (arith, w.size))
          ∙ and_248 (at b 0) (at-lt b 0 w.bytes);
      high =
          at-set_self (clear_top k) 31 (bit_or (at (clear_top k) 31) 64)
            (omega (arith, (clear_top-IsKey kw).size))
          ∙ top_value k kw
          ∙ ap (λ n. n % 64 + 64) (at-set_ne b 0 31 (bit_and (at b 0) 248) zero_31);
      rest = λ i h0 h31.
          at-set_next k i h31 ∙ at-set_ne b 0 i (bit_and (at b 0) 248) (λ e. h0 (sym e));
    }

-- From 32 random bytes `GeneratePrivateKey` makes a key of 32 bytes whose byte 0 is a multiple of 8
-- and whose byte 31 lies from 64 to 127, and which keeps every other bit as it was drawn.
pub generate_private_key-IsClamped :
    (b : List ℕ) → IsKey b → (k : Key) × (generate_private_key (some b) ≡ ok k) × IsClamped b k
unfolding generate_private_key
generate_private_key-IsClamped b w = (clamp b, rw (new_key-IsKey w), clamp-IsClamped b w)
