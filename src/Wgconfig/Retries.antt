-- ===== src/Wgconfig/Retries.antt =====
-- How often `resolveEndpoint` asks for an address, and how long it waits.
use wgctrl_go.Base.{
  ℕ, zero, suc, ◌*◌, ◌/◌, ◌≤◌, ◌<◌, Bool, true, false, not, ◌&&◌, ◌||◌, ◌⊎◌, List, [], ◌∷◌, length,
  ltb, if◌then◌else◌, ◌≡◌, ◌≢◌, refl, All, arith, Bool-cases, inl, inr, ltb→le,
}
use wgctrl_go.Base.Result.{Result, ok, err, Result-cases}
use wgctrl_go.Types.{Ip, second}
use wgctrl_go.Wgconfig.Net.{LookupError, dns, other}
use wgctrl_go.Wgconfig.Endpoint.{
  EndpointError, still_trying, lookup_failed, no_address, is_permanent, min_duration, finite,
  Lookups, first_address, slept, look_up, rounds,
}

-- A time that the loop may sleep: from one second to twenty.
abbrev pub IsPause : ℕ → Type 0
IsPause t = (second ≤ t) × (t ≤ 20 * second)

true_ne : ◌≢◌ {A = Bool} true false
true_ne = ground arith

abbrev pub is_ended : Result EndpointError Ip → Bool
is_ended (ok _) = true
is_ended (err still_trying) = false
is_ended (err _) = true

-- What a loop with at most `n` retries does.
pub record IsBounded (n : ℕ) (l : Lookups) : Type 0 where
  pub ended : is_ended l.0 ≡ true
  pub few : length l.1 ≤ n
  pub pauses : All IsPause l.1

next-IsPause : (t : ℕ) → IsPause t → IsPause (min_duration (20 * second) (t * 6 / 5))
unfolding min_duration
next-IsPause t (low, high) = elim (Bool-cases (ltb (20 * second) (t * 6 / 5))) [
  | inl e ↦ rw e (omega arith, omega arith)
  | inr e ↦ rw e (omega arith, omega (arith, ltb→le _ _ e))
]

first_address-is_ended : (ips : List Ip) → is_ended (first_address ips) ≡ true
first_address-is_ended [] = refl
first_address-is_ended (ip ∷ ips) = refl

slept-IsBounded :
    (n t : ℕ) (l : Lookups) → IsPause t → IsBounded n l → IsBounded (suc n) (slept t l)
slept-IsBounded n t l p w = record {
  ended = w.ended;
  few = omega (arith, w.few);
  pauses = (p, w.pauses);
}

if_last :
    (n : ℕ) (e : LookupError) (later : Lookups) (last : Bool)
    → (last ≡ false → IsBounded n later)
    → IsBounded n (if last then (err (lookup_failed e), []) else later)
if_last n e later true h = record { ended = refl; few = omega arith; pauses = tt }
if_last n e later false h = h refl

-- A lookup that failed, with the retries that are left.
failed :
    (n : ℕ) (e : LookupError) (later : Lookups) (last : Bool)
    → (last ≡ false → IsBounded n later)
    → IsBounded n (if is_permanent e || last then (err (lookup_failed e), []) else later)
failed n e later last h = elim (Bool-cases (is_permanent e)) [
  | inl p ↦ rw p (record { ended = refl; few = omega arith; pauses = tt })
  | inr p ↦ rw p (if_last n e later last h)
]

found : (n : ℕ) (ips : List Ip) → IsBounded n (first_address ips, [])
found n ips = record { ended = first_address-is_ended ips; few = omega arith; pauses = tt }

-- With a finite number of retries the loop ends: it sleeps at most that many times, each time for
-- one second to twenty.
pub look_up-IsBounded :
    (n : ℕ) (answers : ℕ → Result LookupError (List Ip)) (backoff : ℕ)
    → IsPause backoff
    → IsBounded n (look_up (rounds (finite n)) answers (finite n) backoff)
unfolding look_up
look_up-IsBounded zero answers backoff p = elim (Result-cases (answers 0)) [
  | inl (ips, r) ↦ rw (r, look_up) (found 0 ips)
  | inr (e, r) ↦
      rw (r, look_up)
        (failed 0 e (slept backoff (err still_trying, [])) true (λ h. absurd (true_ne h)))
]
look_up-IsBounded (suc n) answers backoff p = elim (Result-cases (answers 0)) [
  | inl (ips, r) ↦ rw (r, look_up) (found (suc n) ips)
  | inr (e, r) ↦
      let pause = min_duration (20 * second) (backoff * 6 / 5) in
      let later = look_up (suc n) (λ i. answers (suc i)) (finite n) pause in
      rw (r, look_up)
        (failed (suc n) e (slept backoff later) false (λ _.
          slept-IsBounded n backoff later p
            (look_up-IsBounded n (λ i. answers (suc i)) pause (next-IsPause backoff p))))
]

-- An answer after which it is worth to ask again: the name server knows of the name, and says that
-- the error is temporary or that it took too long.
abbrev pub IsTemporary : Result LookupError (List Ip) → Type 0
IsTemporary (ok _) = false ≡ true
IsTemporary (err other) = false ≡ true
IsTemporary (err (dns e)) =
    (e.is_not_found ≡ false) × ((e.is_temporary ≡ true) ⊎ (e.is_timeout ≡ true))

not_both : (b : Bool) → (not b && false) ≡ false
not_both true = refl
not_both false = refl

temporary :
    (r : Result LookupError (List Ip))
    → IsTemporary r
    → (e : LookupError) × (r ≡ err e) × (is_permanent e ≡ false)
unfolding is_permanent
temporary (ok ips) h = absurd cc
temporary (err other) h = absurd cc
temporary (err (dns e)) (h, inl k) = (dns e, refl, rw (h, k) refl)
temporary (err (dns e)) (h, inr k) = (dns e, refl, rw (h, k) (not_both e.is_temporary))

-- What the loop makes of a list of addresses.
abbrev pub EndsIn : List Ip → Result EndpointError Ip → Type 0
EndsIn [] r = r ≡ err no_address
EndsIn (ip ∷ ips) r = r ≡ ok ip

first_address-EndsIn : (ips : List Ip) → EndsIn ips (first_address ips)
first_address-EndsIn [] = refl
first_address-EndsIn (ip ∷ ips) = refl

-- When the answers before the one numbered `k` are DNS errors that are temporary or timeouts, but
-- not for a name that does not exist, and that one is a list of addresses, the loop ends with the
-- first of them, or with the error for no address if the list is empty, provided that it may retry
-- `k` times.
pub look_up-first_address :
    (n k : ℕ) (answers : ℕ → Result LookupError (List Ip)) (ips : List Ip) (backoff : ℕ)
    → k ≤ n
    → ((i : ℕ) → i < k → IsTemporary (answers i))
    → answers k ≡ ok ips
    → EndsIn ips (look_up (rounds (finite n)) answers (finite n) backoff).0
unfolding look_up
look_up-first_address n zero answers ips backoff le before at =
    rw (at, look_up) (first_address-EndsIn ips)
look_up-first_address zero (suc k) answers ips backoff le before at = absurd (omega (arith, le))
look_up-first_address (suc n) (suc k) answers ips backoff le before at =
    let (e, r, p) = temporary (answers 0) (before 0 (omega arith)) in
    rw (r, look_up)
      (rw (p, look_up)
        (look_up-first_address n k (λ i. answers (suc i)) ips
          (min_duration (20 * second) (backoff * 6 / 5)) (omega (arith, le))
          (λ i h. before (suc i) (omega (arith, h))) at))
