-- ===== src/Wgquick/Owned.antt =====
-- Whom the link and the rules that `Up` makes belong to.
use wgctrl_go.Base.{
  Bool, true, false, ◌||◌, List, [], ◌∷◌, ◌++◌, Option, none, some, Text, ◌≡◌, inl, inr, refl,
  arith,
}
use wgctrl_go.Types.{IpNet}
use wgctrl_go.Wgquick.Config.{Config}
use wgctrl_go.Wgquick.Encode.{Printer}
use wgctrl_go.Wgquick.Commands.{
  Family, ip_family, Command, route_add_table, rule_add_mark, rule_add_main, UpError, System, State,
  after_result, error_unless, words, input, execute, run,
}
use wgctrl_go.Wgquick.Run.{add_default_rules, remember, isolate}
use wgctrl_go.Wgquick.Pending.{
  same_family, same_family_refl, Resource, link, mark_rule, main_rule, acquired, pending,
  pending-cases, Keeps, andthen-Keeps, IsCovered, run-IsCovered,
}
use wgctrl_go.Wgquick.Kept.{neutral}

abbrev pub is_in : Family → List Family → Bool
is_in f [] = false
is_in f (g ∷ gs) = same_family f g || is_in f gs

is_in-last : (f : Family) (gs : List Family) → is_in f (gs ++ f ∷ []) ≡ true
is_in-last f [] = rw (same_family_refl f) refl
is_in-last f (g ∷ gs) = ground (arith, is_in-last f gs)

is_in-append : (f g : Family) (gs : List Family) → is_in f gs ≡ true → is_in f (gs ++ g ∷ []) ≡ true
is_in-append f g [] h = cc
is_in-append f g (k ∷ gs) h = ground (arith, is_in-append f g gs)

-- The link is the interface's, and a second rule belongs to a family that is remembered.
abbrev pub Undoable : Config → List Family → Resource → Type 0
Undoable c added (link n) = n ≡ c.name
Undoable c added (mark_rule f t) = Unit
Undoable c added (main_rule f) = is_in f added ≡ true

abbrev pub Nothing : List Family → Resource → Type 0
Nothing added r = false ≡ true

-- No link and no second rule is without an attempt to delete it, whether that went well or not.
pub record IsUndone (log : List (Command × Bool)) : Type 0 where
  pub links_tried : (name : Text) → pending (link name) log ≡ false
  pub rules_tried : (fam : Family) → pending (main_rule fam) log ≡ false

not_true : (b : Bool) → (b ≡ true → false ≡ true) → b ≡ false
not_true b h = ground (arith, h)

pub none_pending :
    (log : List (Command × Bool)) → log ≡ [] → (r : Resource) → pending r log ≡ true → false ≡ true
unfolding pending
none_pending [] e r p = p
none_pending (x ∷ log) e r p = absurd cc

pub Nothing-IsUndone : {W : Type 0} (s : State W) → IsCovered Nothing s → IsUndone s.log
Nothing-IsUndone s h = record {
  links_tried = λ n. not_true (pending (link n) s.log) (h (link n));
  rules_tried = λ f. not_true (pending (main_rule f) s.log) (h (main_rule f));
}

module _ {W : Type 0} (sys : System W) (out : Printer) (c : Config) where
  remembered :
      (fam : Family) (b : Bool) (w : W) (s : State W)
      → IsCovered (Undoable c) s
      → IsCovered
          (Undoable c)
          (after_result
            (
              error_unless (rule_add_main fam) b,
              record s { world = w; log = (rule_add_main fam, b) ∷ s.log },
            )
            (remember sys out fam)).1
  unfolding remember
  remembered fam true w s h (link n) p =
      elim (pending-cases (link n) (rule_add_main fam) true s.log p) [
        | inl (e, _) ↦ absurd cc
        | inr q ↦ h (link n) q
      ]
  remembered fam true w s h (mark_rule f t) p = tt
  remembered fam true w s h (main_rule f) p =
      elim (pending-cases (main_rule f) (rule_add_main fam) true s.log p) [
        | inl (e, _) ↦ ground (arith, is_in-last f s.added)
        | inr q ↦ is_in-append f fam s.added (h (main_rule f) q)
      ]
  remembered fam false w s h r p = elim (pending-cases r (rule_add_main fam) false s.log p) [
    | inl (e, t) ↦ absurd cc
    | inr q ↦ h r q
  ]

  rules_remembered :
      (fam : Family) (x : Option UpError × State W)
      → IsCovered (Undoable c) x.1
      → IsCovered
          (Undoable c)
          (after_result (after_result x (run sys out (rule_add_main fam))) (remember sys out fam)).1
  unfolding run execute
  rules_remembered fam (some e, s) h = h
  rules_remembered fam (none, s) h =
      let x = sys.exec (words out (rule_add_main fam)) (input out (rule_add_main fam)) s.world in
      remembered fam x.0.0 x.1 s h

  pub isolate-Keeps :
      (t : Text) (n : IpNet) → Keeps (IsCovered (Undoable c)) (isolate sys out c.name t n)
  unfolding isolate add_default_rules
  isolate-Keeps t n =
      andthen-Keeps (IsCovered (Undoable c)) (run sys out (route_add_table c.name n t)) _
        (neutral sys out (Undoable c) (route_add_table c.name n t) refl)
        (λ s h.
          rules_remembered (ip_family n) (run sys out (rule_add_mark (ip_family n) t) s)
            (run-IsCovered sys out (Undoable c) (rule_add_mark (ip_family n) t) marks s h))
    where
      marks :
          (added : List Family) (q : Resource)
          → acquired (rule_add_mark (ip_family n) t) ≡ some q
          → Undoable c added q
      marks added (link m) e = absurd cc
      marks added (mark_rule f u) e = tt
      marks added (main_rule f) e = absurd cc
