-- ===== src/Wgapi/Auth.antt =====
-- Which requests `withAuth` lets through.
use Prim.Native.Nat.{bit_or, bit_or-bitwise, bit_xor, bit_xor-bitwise, digits, differ, max}
use wgctrl_go.Base.{
  ℕ, zero, suc, ◌/◌, ◌%◌, ◌≤◌, Bool, true, false, not, ◌&&◌, ◌||◌, [], ◌∷◌, Text, codes, equal,
  equal_iff, is_empty, length, ◌==◌, ==_iff, if◌then◌else◌, ◌≡◌, refl, sym, ap, ◌∙◌, arith,
  Bool-cases, inl, inr,
}
use wgctrl_go.Wgapi.Server.{
  Outside, Request, Response, write_error, difference, constant_time_eq, Server, State, Handler,
}
use wgctrl_go.Wgapi.Handlers.{with_auth}

or_zero : (n a b : ℕ) → a ≤ n → digits (λ b. b) max n a b ≡ 0 → (a ≡ 0) × (b ≡ 0)
or_zero zero a b h e = (omega arith, e)
or_zero (suc n) zero b h e = (refl, e)
or_zero (suc n) (suc a) b h e =
    let k = or_zero n (suc a / 2) (b / 2) (omega (arith, h)) (omega (arith, e)) in
    (omega (arith, e, k.0, k.1), omega (arith, e, k.0, k.1))

differ_zero : (a b : ℕ) → differ a b ≡ 0 → a ≡ b
differ_zero zero b h = sym h
differ_zero (suc a) zero h = h
differ_zero (suc a) (suc b) h = ap suc (differ_zero a b h)

differ_self : (a : ℕ) → differ a a ≡ 0
differ_self zero = refl
differ_self (suc a) = differ_self a

xor_zero : (n a b : ℕ) → a ≤ n → digits (λ b. b) differ n a b ≡ 0 → a ≡ b
xor_zero zero a b h e = omega (arith, h, e)
xor_zero (suc n) zero b h e = omega (arith, e)
xor_zero (suc n) (suc a) b h e =
    let k = xor_zero n (suc a / 2) (b / 2) (omega (arith, h)) (omega (arith, e)) in
    let d = differ_zero (suc a % 2) (b % 2) (omega (arith, e)) in omega (arith, k, d)

or_bitwise : (a b : ℕ) → bit_or a b ≡ digits (λ b. b) max a a b
or_bitwise a b = bit_or-bitwise a b

xor_bitwise : (a b : ℕ) → bit_xor a b ≡ digits (λ b. b) differ a a b
xor_bitwise a b = bit_xor-bitwise a b

bit_or-eq-zero : (a b : ℕ) → bit_or a b ≡ 0 → (a ≡ 0) × (b ≡ 0)
bit_or-eq-zero a b e = or_zero a a b (omega arith) (sym (or_bitwise a b) ∙ e)

bit_xor-eq-zero : (a b : ℕ) → bit_xor a b ≡ 0 → a ≡ b
bit_xor-eq-zero a b e = xor_zero a a b (omega arith) (sym (xor_bitwise a b) ∙ e)

digits_refl : (n a : ℕ) → a ≤ n → digits (λ b. b) differ n a a ≡ 0
digits_refl zero a h = omega arith
digits_refl (suc n) zero h = refl
digits_refl (suc n) (suc a) h =
    omega (arith, digits_refl n (suc a / 2) (omega (arith, h)), differ_self (suc a % 2))

bit_xor_self : (a : ℕ) → bit_xor a a ≡ 0
bit_xor_self a = xor_bitwise a a ∙ digits_refl a a (omega arith)

or_zero_zero : bit_or 0 0 ≡ 0
or_zero_zero = refl

difference-eq-zero :
    (a b : Text) (diff : ℕ) → length a ≡ length b → difference a b diff ≡ 0 → (diff ≡ 0) × (a ≡ b)
unfolding difference
difference-eq-zero [] [] diff h e = (e, refl)
difference-eq-zero [] (y ∷ b) diff h e = absurd (omega (arith, h))
difference-eq-zero (x ∷ a) [] diff h e = absurd (omega (arith, h))
difference-eq-zero (x ∷ a) (y ∷ b) diff h e =
    let k = difference-eq-zero a b (bit_or diff (bit_xor x y)) (omega (arith, h)) e in
    let j = bit_or-eq-zero diff (bit_xor x y) k.0 in (j.0, cc (bit_xor-eq-zero x y j.1, k.1))

difference_self : (a : Text) → difference a a 0 ≡ 0
unfolding difference
difference_self [] = refl
difference_self (x ∷ a) = rw (bit_xor_self x, or_zero_zero) (difference_self a)

same_truth : (p q : Bool) → (p ≡ true → q ≡ true) → (q ≡ true → p ≡ true) → p ≡ q
same_truth p q f g = ground (arith, f, g)

constant_time_eq_sound : (a b : Text) → constant_time_eq a b ≡ true → equal a b ≡ true
unfolding constant_time_eq
constant_time_eq_sound a b h = elim (Bool-cases (length a == length b)) [
  | inl e ↦
      let d : (difference a b 0 == 0) ≡ true = rw e at h in
      let k =
        difference-eq-zero a b 0 ((==_iff (length a) (length b)).0 e)
          ((==_iff (difference a b 0) 0).0 d) in
      (equal_iff a b).1 k.1
  | inr e ↦ cc (rw e at h)
]

constant_time_eq_refl : (a : Text) → constant_time_eq a a ≡ true
unfolding constant_time_eq
constant_time_eq_refl a = rw ((==_iff (length a) (length a)).1 refl, difference_self a) refl

-- `constantTimeEq` compares two byte strings: it is true exactly if they are equal.
pub constant_time_eq_lem : (a b : Text) → constant_time_eq a b ≡ equal a b
constant_time_eq_lem a b =
    same_truth (constant_time_eq a b) (equal a b) (constant_time_eq_sound a b)
      (λ e. rw ((equal_iff a b).0 e) (constant_time_eq_refl b))

-- The two open paths, and requests with the key of a server that has one.
abbrev pub is_permitted : Text → Request → Bool
is_permitted api_key r =
    (equal r.path (codes "/autotest") || equal r.path (codes "/api/v1/health"))
    || (not (is_empty api_key) && equal api_key r.api_key)

-- What the others get.
abbrev pub refusal : Text → Response
refusal api_key = record (write_error (if is_empty api_key then 500 else 401)) { challenge = true }

empty_key : (k r : Text) → is_empty r ≡ true → is_empty k ≡ false → equal k r ≡ false
unfolding equal
empty_key [] r h e = cc
empty_key (x ∷ k) [] h e = refl
empty_key (x ∷ k) (y ∷ r) h e = cc

-- The handler behind `withAuth` runs exactly for permitted requests, and answers them as it would
-- alone. Every other request is refused with a status and a challenge that depend on nothing but
-- whether the server has a key, and changes nothing. A server whose key is empty refuses every
-- request but those for the two open paths.
pub with_auth-is_permitted :
    {W : Type 0} (o : Outside) (srv : Server W) (next : Handler W) (r : Request) (s : State W)
    → with_auth o srv next r s
      ≡ (if is_permitted srv.api_key r then next r s else (refusal srv.api_key, s))
unfolding with_auth
with_auth-is_permitted o srv next r s =
    elim (Bool-cases (equal r.path (codes "/autotest") || equal r.path (codes "/api/v1/health"))) [
      | inl w ↦ rw w refl
      | inr w ↦ rw w (elim (Bool-cases (is_empty srv.api_key)) [
        | inl e ↦ rw e refl
        | inr e ↦
            rw (e, constant_time_eq_lem srv.api_key r.api_key)
              (elim (Bool-cases (is_empty r.api_key)) [
                | inl g ↦ rw (g, empty_key srv.api_key r.api_key g e) refl
                | inr g ↦ rw g (elim (Bool-cases (equal srv.api_key r.api_key)) [
                  | inl q ↦ rw q refl
                  | inr q ↦ rw q refl
                ])
              ])
      ])
    ]
