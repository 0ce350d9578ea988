-- ===== src/Wgapi/Intervals.antt =====
-- The interval that `ParsePeerConfig` makes of a number of seconds.
use wgctrl_go.Base.{
  ℕ, suc, ◌-◌, ◌*◌, ◌%◌, ◌^◌, ◌≤◌, ◌<◌, Option, none, some, ltb, ltb→lt, ltb→le, ◌≡◌, refl, ap, ◌∙◌,
  ◌⊎◌, inl, inr, Bool-cases, arith,
}
use wgctrl_go.Base.Int.{ℤ, pos, negsuc}
use wgctrl_go.Types.{second}
use wgctrl_go.Wgapi.Json.{signed, times_second, seconds_of}

-- No interval for no number; for a number of seconds the nanoseconds that they have, unless these
-- do not fit into a signed number of 64 bits.
abbrev pub IsInterval : Option ℤ → Option ℤ → Type 0
IsInterval none i = i ≡ none
IsInterval (some (pos n)) i = (i ≡ some (pos (n * 1_000_000_000))) ⊎ (2 ^ 63 ≤ n * 1_000_000_000)
IsInterval (some (negsuc n)) i =
    (i ≡ some (negsuc (suc n * 1_000_000_000 - 1))) ⊎ (2 ^ 63 < suc n * 1_000_000_000)

signed_low : (m : ℕ) → m < 2 ^ 63 → signed m ≡ pos m
signed_low m h = ground (arith, h)

signed_high : (m : ℕ) → 2 ^ 63 ≤ m → signed m ≡ negsuc (2 ^ 64 - 1 - m)
signed_high m h = ground (arith, h)

times_second_pos :
    (n : ℕ) → n * 1_000_000_000 < 2 ^ 63 → times_second (pos n) ≡ pos (n * 1_000_000_000)
unfolding times_second
times_second_pos n h =
    signed_low ((n * second) % 2 ^ 64) (omega (arith, h)) ∙ ap pos (omega (arith, h))

times_second_negsuc :
    (n : ℕ)
    → suc n * 1_000_000_000 ≤ 2 ^ 63
    → times_second (negsuc n) ≡ negsuc (suc n * 1_000_000_000 - 1)
unfolding times_second
times_second_negsuc n h =
    signed_high ((2 ^ 64 - (suc n * second) % 2 ^ 64) % 2 ^ 64) (omega (arith, h))
    ∙ ap negsuc (omega (arith, h))

pub seconds_of-IsInterval : (o : Option ℤ) → IsInterval o (seconds_of o)
seconds_of-IsInterval none = refl
seconds_of-IsInterval (some (pos n)) = elim (Bool-cases (ltb (n * 1_000_000_000) (2 ^ 63))) [
  | inl e ↦ inl (ap some (times_second_pos n (ltb→lt _ _ e)))
  | inr e ↦ inr (ltb→le _ _ e)
]
seconds_of-IsInterval (some (negsuc n)) = elim (Bool-cases (ltb (2 ^ 63) (suc n * 1_000_000_000))) [
  | inl e ↦ inr (ltb→lt _ _ e)
  | inr e ↦ inl (ap some (times_second_negsuc n (ltb→le _ _ e)))
]
