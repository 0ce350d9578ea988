-- ===== src/Wgquick/Pending.antt =====
-- What the commands of a log have made and not removed again.
use wgctrl_go.Base.{
  Bool, true, false, ◌&&◌, ◌||◌, List, [], ◌∷◌, Option, none, some, Text, equal, equal_iff,
  if◌then◌else◌, ◌≡◌, ◌⊎◌, inl, inr, refl, sym, ap, arith, Bool-cases,
}
use wgctrl_go.Wgquick.Encode.{Printer}
use wgctrl_go.Wgquick.Commands.{
  Family, v4, v6, Command, link_add, link_del, rule_add_mark, rule_del_mark, rule_add_main,
  rule_del_main, UpError, System, State, Action, after_result, ◌andthen◌, for_each, execute, run,
  attempt,
}

abbrev pub same_family : Family → Family → Bool
same_family v4 v4 = true
same_family v6 v6 = true
same_family _ _ = false

pub data Resource : Type 0 where
  link : Text → Resource
  mark_rule : Family → Text → Resource
  main_rule : Family → Resource

abbrev pub same : Resource → Resource → Bool
same (link n) (link m) = equal n m
same (mark_rule f t) (mark_rule g u) = same_family f g && equal t u
same (main_rule f) (main_rule g) = same_family f g
same _ _ = false

pub same_family-eq : (f g : Family) → same_family f g ≡ true → f ≡ g
same_family-eq v4 v4 h = refl
same_family-eq v6 v6 h = refl
same_family-eq v4 v6 h = cc
same_family-eq v6 v4 h = cc

pub same_family_refl : (f : Family) → same_family f f ≡ true
same_family_refl v4 = refl
same_family_refl v6 = refl

pub same-eq : (r q : Resource) → same r q ≡ true → r ≡ q
same-eq (link n) (link m) h = ap link ((equal_iff n m).0 h)
same-eq (mark_rule f t) (mark_rule g u) h = ground (arith, same_family-eq f g, equal_iff t u)
same-eq (main_rule f) (main_rule g) h = ap main_rule (same_family-eq f g h)
same-eq _ _ h = cc

-- What a command makes if it succeeds, and what it removes.
abbrev pub acquired : Command → Option Resource
acquired (link_add name) = some (link name)
acquired (rule_add_mark fam t) = some (mark_rule fam t)
acquired (rule_add_main fam) = some (main_rule fam)
acquired _ = none

abbrev pub released : Command → Option Resource
released (link_del name) = some (link name)
released (rule_del_mark fam t) = some (mark_rule fam t)
released (rule_del_main fam) = some (main_rule fam)
released _ = none

abbrev pub is_that : Resource → Option Resource → Bool
is_that r none = false
is_that r (some q) = same r q

-- Whether a log, newest first, made `r` and did not remove it, or try to, since.
unfoldable pub pending : Resource → List (Command × Bool) → Bool
pending r [] = false
pending r ((c, ok) ∷ log) =
    if is_that r (released c) then false else is_that r (acquired c) && ok || pending r log

is_that-eq : (r : Resource) (o : Option Resource) → is_that r o ≡ true → o ≡ some r
is_that-eq r none h = cc
is_that-eq r (some q) h = ap some (sym (same-eq r q h))

pub pending-cases :
    (r : Resource) (c : Command) (ok : Bool) (log : List (Command × Bool))
    → pending r ((c, ok) ∷ log) ≡ true
    → ((acquired c ≡ some r) × (ok ≡ true)) ⊎ (pending r log ≡ true)
unfolding pending
pending-cases r c ok log h = elim (Bool-cases (is_that r (acquired c))) [
  | inl e ↦ let f = is_that-eq r (acquired c) e in ground arith
  | inr e ↦ inr (ground arith)
]

pub pending-released :
    (r : Resource) (c : Command) (ok : Bool) (log : List (Command × Bool))
    → is_that r (released c) ≡ true
    → pending r ((c, ok) ∷ log) ≡ false
unfolding pending
pending-released r c ok log h = rw h refl

module _ {W : Type 0} (P : State W → Type 0) where
  -- Whatever the action returns, `P` still holds.
  abbrev pub Keeps : Action W → Type 0
  Keeps a = (s : State W) → P s → P (a s).1

  pub after_result-Keeps :
      (x : Option UpError × State W) (next : Action W)
      → P x.1
      → Keeps next
      → P (after_result x next).1
  after_result-Keeps (some e, s) next h k = h
  after_result-Keeps (none, s) next h k = k s h

  pub andthen-Keeps : (a b : Action W) → Keeps a → Keeps b → Keeps (a andthen b)
  andthen-Keeps a b ka kb s h = after_result-Keeps (a s) b (ka s h) kb

  pub for_each-Keeps {ℓ} :
      {A : Type ℓ} (f : A → Action W) (as' : List A)
      → ((a : A) → Keeps (f a))
      → Keeps (for_each f as')
  for_each-Keeps f [] k = λ s h. h
  for_each-Keeps f (a ∷ as') k = andthen-Keeps (f a) (for_each f as') (k a) (for_each-Keeps f as' k)

module _ {W : Type 0} (Owns : List Family → Resource → Type 0) where
  -- All that is pending is owned.
  abbrev pub IsCovered : State W → Type 0
  IsCovered s = (r : Resource) → pending r s.log ≡ true → Owns s.added r

module _ {W : Type 0} (sys : System W) (out : Printer)
    (Owns : List Family → Resource → Type 0) where
  -- The resource that a command makes is owned whenever it is run.
  pub execute-IsCovered :
      (c : Command) (s : State W)
      → ((q : Resource) → acquired c ≡ some q → Owns s.added q)
      → IsCovered Owns s
      → IsCovered Owns (execute sys out c s).1
  unfolding execute
  execute-IsCovered c s owned h r p = elim (pending-cases r c (sys.exec _ _ s.world).0.0 s.log p) [
    | inl (e, _) ↦ owned r e
    | inr q ↦ h r q
  ]

  pub run-IsCovered :
      (c : Command)
      → ((added : List Family) (q : Resource) → acquired c ≡ some q → Owns added q)
      → Keeps (IsCovered Owns) (run sys out c)
  unfolding run
  run-IsCovered c owned s h = execute-IsCovered c s (owned s.added) h

  pub attempt-IsCovered :
      (c : Command)
      → ((added : List Family) (q : Resource) → acquired c ≡ some q → Owns added q)
      → Keeps (IsCovered Owns) (attempt sys out c)
  unfolding attempt
  attempt-IsCovered c owned s h = execute-IsCovered c s (owned s.added) h
