-- ===== src/Wgquick/Cleared.antt =====
-- What `Down` leaves of the rules that `Up` made.
use wgctrl_go.Base.{
  Bool, true, false, not, ◌&&◌, List, [], ◌∷◌, Option, none, some, is_empty, equal_iff, if_either,
  ◌≡◌, inl, inr, refl, arith, Bool-cases,
}
use wgctrl_go.Wgquick.Config.{Config}
use wgctrl_go.Wgquick.Encode.{Printer}
use wgctrl_go.Wgquick.Commands.{
  Family, v4, v6, Command, link_show, link_del, dns_unset, rule_del_mark, rule_del_main, UpError,
  System, State, after_result, ◌andthen◌, execute, attempt, run_hooks,
}
use wgctrl_go.Wgquick.Run.{
  table_word, isolates, has_default_of, del_default_rules, up, clear_family, clear_rules,
  remove_interface, unset_dns, down,
}
use wgctrl_go.Wgquick.Pending.{
  same_family, same_family-eq, Resource, link, mark_rule, main_rule, pending, Keeps,
  after_result-Keeps, andthen-Keeps, IsCovered, execute-IsCovered,
}
use wgctrl_go.Wgquick.Kept.{neutral, neutral_attempt, run_hooks-Keeps}
use wgctrl_go.Wgquick.Clearable.{Clearable, Links, IsCleared, up-Keeps, Clearable-any}

module _ {W : Type 0} (sys : System W) (out : Printer) (c : Config) where
  abbrev away : Family → Resource → Bool
  away fam (link n) = true
  away fam (mark_rule f t) = not (same_family f fam)
  away fam (main_rule f) = not (same_family f fam)

  both_away :
      (added : List Family) (r : Resource) → away v4 r ≡ true → away v6 r ≡ true → Links added r
  both_away added (link n) h k = tt
  both_away added (mark_rule v4 t) h k = h
  both_away added (mark_rule v6 t) h k = k
  both_away added (main_rule v4) h k = h
  both_away added (main_rule v6) h k = k

  -- Of two attempts to delete the rules of a family.
  deleted :
      (fam : Family) (b b' : Bool) (log : List (Command × Bool)) (r : Resource)
      → (pending r log ≡ true → Clearable c [] r)
      → pending r ((rule_del_main fam, b') ∷ (rule_del_mark fam (table_word c), b) ∷ log) ≡ true
      → (pending r log ≡ true) × (away fam r ≡ true)
  unfolding pending
  deleted fam b b' log (link n) h p = (p, refl)
  deleted fam b b' log (main_rule f) h p = ground arith
  deleted fam b b' log (mark_rule f t) h p =
      let q : pending (mark_rule f t) log ≡ true = ground arith in
      let e = (equal_iff t (table_word c)).1 (h q).0 in (q, ground arith)

  clear_family-clears :
      (fam : Family) (s : State W)
      → IsCovered (Clearable c) s
      → (clear_family sys out c fam s).0 ≡ none
        × ((r : Resource)
            → pending r (clear_family sys out c fam s).1.log ≡ true
            → (pending r s.log ≡ true) × (away fam r ≡ true))
  unfolding clear_family del_default_rules attempt execute
  clear_family-clears fam s h = elim (Bool-cases (has_default_of fam c.peers)) [
    | inl d ↦ rw d (refl, λ r. deleted fam _ _ s.log r (λ p. Clearable-any c s.added [] r (h r p)))
    | inr d ↦ rw d (refl, λ r p. (p, kept r d (h r p)))
  ]
    where
      kept :
          (r : Resource)
          → has_default_of fam c.peers ≡ false
          → Clearable c s.added r
          → away fam r ≡ true
      kept (link n) d k = refl
      kept (mark_rule f t) d k = elim (Bool-cases (same_family f fam)) [
        | inl e ↦ absurd (cc (same_family-eq f fam e, k.1.1, d))
        | inr e ↦ rw e refl
      ]
      kept (main_rule f) d k = elim (Bool-cases (same_family f fam)) [
        | inl e ↦ absurd (cc (same_family-eq f fam e, k.1, d))
        | inr e ↦ rw e refl
      ]

  -- The second family behind the first.
  clears_behind :
      (s : State W) (x : Option UpError × State W)
      → IsCovered (Clearable c) x.1
      → x.0 ≡ none
      → ((r : Resource) → pending r x.1.log ≡ true → away v4 r ≡ true)
      → IsCovered Links (after_result x (clear_family sys out c v6)).1
  clears_behind s (some e, t) h none_left k = absurd cc
  clears_behind s (none, t) h none_left k = λ r p.
      let (q, a) = (clear_family-clears v6 t h).1 r p in
      both_away (clear_family sys out c v6 t).1.added r (k r q) a

  clear_rules-Links :
      (s : State W) → IsCovered (Clearable c) s → IsCovered Links (clear_rules sys out c s).1
  unfolding clear_rules
  clear_rules-Links s h = elim (Bool-cases (isolates c)) [
    | inl i ↦ rw i (
        let k = clear_family-clears v4 s h in
        clears_behind s (clear_family sys out c v4 s)
          (λ r p. Clearable-any c s.added (clear_family sys out c v4 s).1.added r (h r (k.1 r p).0))
          k.0 (λ r p. (k.1 r p).1))
    | inr i ↦ rw i (λ r p. unisolated r i (h r p))
  ]
    where
      unisolated : (r : Resource) → isolates c ≡ false → Clearable c s.added r → Links s.added r
      unisolated (link n) i k = tt
      unisolated (mark_rule f t) i k = cc (k.1.0, i)
      unisolated (main_rule f) i k = cc (k.0, i)

  Links-IsCleared : (s : State W) → IsCovered Links s → IsCleared s.log
  Links-IsCleared s h = record {
    no_mark = λ f t. unpending (mark_rule f t) (h (mark_rule f t));
    no_main = λ f. unpending (main_rule f) (h (main_rule f));
  }
    where
      unpending : (r : Resource) → (pending r s.log ≡ true → false ≡ true) → pending r s.log ≡ false
      unpending r k = ground (arith, k)

  remove_interface-Keeps : Keeps (IsCovered Links) (remove_interface sys out c.name)
  unfolding remove_interface
  remove_interface-Keeps s h =
      let k = execute-IsCovered sys out Links (link_show c.name) s (λ q e. absurd cc) h in
      if_either (λ (x : Option UpError × State W). IsCovered Links x.1) _
        (neutral sys out Links (link_del c.name) refl _ k) k

  unset_dns-Keeps : Keeps (IsCovered Links) (unset_dns sys out c)
  unfolding unset_dns
  unset_dns-Keeps s h =
      if_either (λ (x : Option UpError × State W). IsCovered Links x.1)
        (not (is_empty c.dns) && sys.has_resolvconf s.world)
        (neutral_attempt sys out Links (dns_unset c.name) refl s h) h

  hooks_succeeded :
      (x : Option UpError × State W)
      → x.0 ≡ none
      → IsCovered (Clearable c) x.1
      → IsCovered Links
          (after_result x (
            clear_rules sys out c
            andthen remove_interface sys out c.name
            andthen unset_dns sys out c
            andthen run_hooks sys out c.post_down)).1
  hooks_succeeded (some e, s) f h = absurd cc
  hooks_succeeded (none, s) f h =
      after_result-Keeps (IsCovered Links) (clear_rules sys out c s) _ (clear_rules-Links s h) (
        andthen-Keeps (IsCovered Links) (remove_interface sys out c.name) _ remove_interface-Keeps (
          andthen-Keeps (IsCovered Links) (unset_dns sys out c) _ unset_dns-Keeps
            (run_hooks-Keeps sys out Links c.post_down)))

  -- On a system where nothing was made before, `Down` behind `Up` for the same configuration with a name, whether
  -- `Up` succeeded or not and whatever fails in `Down` but a `PreDown` hook, leaves no rule of the
  -- isolation of default routes: each one that was made was deleted, or tried to be, later.
  pub down-up-IsCleared :
      (s : State W)
      → is_empty c.name ≡ false
      → s.log ≡ []
      → (run_hooks sys out c.pre_down (up sys out c s).1).0 ≡ none
      → IsCleared (down sys out c (up sys out c s).1).1.log
  unfolding down
  down-up-IsCleared s named fresh hooks = Links-IsCleared (down sys out c (up sys out c s).1).1 (
      rw (named, down)
        (hooks_succeeded _ hooks (
          run_hooks-Keeps sys out (Clearable c) c.pre_down (up sys out c s).1
            (up-Keeps sys out c s fresh))))
