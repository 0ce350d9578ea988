-- ===== src/Wgquick/Undone.antt =====
-- What a failing `Up` leaves of what it made.
use wgctrl_go.Base.{
  Bool, true, false, List, [], ◌∷◌, Option, none, some, Text, is_empty, equal, equal_iff, if_either,
  ◌≡◌, ◌⊎◌, inl, inr, refl, arith, Bool-cases,
}
use wgctrl_go.Wgquick.Config.{Config}
use wgctrl_go.Wgquick.Encode.{Printer}
use wgctrl_go.Wgquick.Commands.{
  Family, Command, link_add, link_del, UpError, System, State, after_result, ◌andthen◌, for_each,
  error_unless, words, input, execute, run, attempt, run_hooks,
}
use wgctrl_go.Wgquick.Run.{table_word, del_default_rules, up_body, undo, or_undo, guarded, up}
use wgctrl_go.Wgquick.Pending.{
  same_family, Resource, link, mark_rule, main_rule, acquired, pending, pending-cases, IsCovered,
}
use wgctrl_go.Wgquick.Kept.{run_hooks-Keeps, up_body-Keeps}
use wgctrl_go.Wgquick.Owned.{
  is_in, Undoable, Nothing, IsUndone, none_pending, Nothing-IsUndone, isolate-Keeps,
}

module _ {W : Type 0} (sys : System W) (out : Printer) (c : Config) where
  deleted :
      (t : Text) (fam : Family) (fs : List Family) (s : State W)
      → (is_in fam fs ≡ true) ⊎ (pending (main_rule fam) s.log ≡ false)
      → (s' : State W) × (for_each (del_default_rules sys out t) fs s ≡ (none, s'))
        × (pending (main_rule fam) s'.log ≡ false)
  unfolding del_default_rules attempt execute pending
  deleted t fam [] s (inl h) = absurd cc
  deleted t fam [] s (inr h) = (s, refl, h)
  deleted t fam (f ∷ fs) s h = deleted t fam fs _ (elim (Bool-cases (same_family fam f)) [
    | inl e ↦ inr (rw e refl)
    | inr e ↦ elim h [ inl m ↦ inl (ground arith) | inr g ↦ inr (rw (e, g) refl) ]
  ])

  links_deleted :
      (t : Text) (fs : List Family) (s : State W)
      → ((name : Text) → pending (link name) s.log ≡ true → name ≡ c.name)
      → (name : Text)
      → pending (link name) (for_each (del_default_rules sys out t) fs s).1.log ≡ true
      → name ≡ c.name
  unfolding del_default_rules attempt execute pending
  links_deleted t [] s h = h
  links_deleted t (f ∷ fs) s h = links_deleted t fs _ h

  never_fails :
      (t : Text) (fs : List Family) (s : State W)
      → (for_each (del_default_rules sys out t) fs s).0 ≡ none
  unfolding del_default_rules attempt
  never_fails t [] s = refl
  never_fails t (f ∷ fs) s = never_fails t fs _

  last_attempt :
      (k : Command) (x : Option UpError × State W)
      → x.0 ≡ none
      → (b : Bool) × ((after_result x (attempt sys out k)).1.log ≡ (k, b) ∷ x.1.log)
  unfolding attempt execute
  last_attempt k (none, s) h = (_, refl)
  last_attempt k (some e, s) h = absurd cc

  unlinked :
      (b : Bool) (log : List (Command × Bool)) (name : Text)
      → (pending (link name) log ≡ true → name ≡ c.name)
      → pending (link name) ((link_del c.name, b) ∷ log) ≡ false
  unfolding pending
  unlinked b log name h = elim (Bool-cases (equal name c.name)) [
    | inl e ↦ rw e refl
    | inr e ↦ elim (Bool-cases (pending (link name) log)) [
      | inl p ↦ absurd (cc (e, (equal_iff name c.name).1 (h p)))
      | inr p ↦ rw (e, p) refl
    ]
  ]

  remembered_or :
      (s : State W)
      → IsCovered (Undoable c) s
      → (fam : Family) → (is_in fam s.added ≡ true) ⊎ (pending (main_rule fam) s.log ≡ false)
  remembered_or s h fam = elim (Bool-cases (pending (main_rule fam) s.log)) [
    | inl p ↦ inl (h (main_rule fam) p)
    | inr p ↦ inr p
  ]

  still_deleted :
      (fam : Family) (b : Bool) (x : Option UpError × State W) (s' : State W)
      → x ≡ (none, s')
      → pending (main_rule fam) s'.log ≡ false
      → pending (main_rule fam) ((link_del c.name, b) ∷ x.1.log) ≡ false
  unfolding pending
  still_deleted fam b x s' f g = rw (f, g) refl

  undo-IsUndone : (s : State W) → IsCovered (Undoable c) s → IsUndone (undo sys out c s).1.log
  unfolding undo
  undo-IsUndone s h =
      let x = for_each (del_default_rules sys out (table_word c)) s.added s in
      let (b, e) = last_attempt (link_del c.name) x (never_fails (table_word c) s.added s) in
      rw e record {
        links_tried = λ name.
            unlinked b x.1.log name (links_deleted (table_word c) s.added s (λ n. h (link n)) name);
        rules_tried = λ fam.
            let (s', f, g) = deleted (table_word c) fam s.added s (remembered_or s h fam) in
            still_deleted fam b x s' f g;
      }

  or_undo-IsUndone :
      (x : Option UpError × State W) {e : UpError}
      → IsCovered (Undoable c) x.1
      → (or_undo sys out c x).0 ≡ some e
      → IsUndone (or_undo sys out c x).1.log
  or_undo-IsUndone (none, s) h f = absurd cc
  or_undo-IsUndone (some e, s) h f = undo-IsUndone s h

  guarded-IsUndone :
      (s : State W) {e : UpError}
      → IsCovered (Undoable c) s
      → (guarded sys out c s).0 ≡ some e
      → IsUndone (guarded sys out c s).1.log
  guarded-IsUndone s h = or_undo-IsUndone (up_body sys out c s) (
      up_body-Keeps sys out (Undoable c) c (λ n _ _ _. isolate-Keeps sys out c (table_word c) n) s
        h)

  link_Undoable :
      (added : List Family) (r : Resource)
      → acquired (link_add c.name) ≡ some r
      → Undoable c added r
  link_Undoable added (link n) e = cc
  link_Undoable added (mark_rule f t) e = tt
  link_Undoable added (main_rule f) e = absurd cc

  -- Of the creation of the link, whether it succeeded.
  created :
      (b : Bool) (w : W) (s : State W) {e : UpError}
      → IsCovered Nothing s
      → (after_result
          (
            error_unless (link_add c.name) b,
            record s { world = w; log = (link_add c.name, b) ∷ s.log },
          )
          (guarded sys out c)).0
        ≡ some e
      → IsUndone
          (after_result
            (
              error_unless (link_add c.name) b,
              record s { world = w; log = (link_add c.name, b) ∷ s.log },
            )
            (guarded sys out c)).1.log
  created true w s h f =
      guarded-IsUndone (record s { world = w; log = (link_add c.name, true) ∷ s.log }) owned f
    where
      owned : IsCovered (Undoable c) (record s { world = w; log = (link_add c.name, true) ∷ s.log })
      owned r p = elim (pending-cases r (link_add c.name) true s.log p) [
        | inl (e, _) ↦ link_Undoable s.added r e
        | inr q ↦ absurd (cc (h r q))
      ]
  created false w s h f =
      Nothing-IsUndone (record s { world = w; log = (link_add c.name, false) ∷ s.log })
        (λ r p. elim (pending-cases r (link_add c.name) false s.log p) [
          | inl (e, t) ↦ t
          | inr q ↦ h r q
        ])

  hooks_run :
      (x : Option UpError × State W) {e : UpError}
      → IsCovered Nothing x.1
      → (after_result x (run sys out (link_add c.name) andthen guarded sys out c)).0 ≡ some e
      → IsUndone (after_result x (run sys out (link_add c.name) andthen guarded sys out c)).1.log
  unfolding run execute
  hooks_run (some e, s) h f = Nothing-IsUndone s h
  hooks_run (none, s) h f =
      let y = sys.exec (words out (link_add c.name)) (input out (link_add c.name)) s.world in
      created y.0.0 y.1 s h f

  abbrev IsUndoneOnError : Option UpError × State W → Type 0
  IsUndoneOnError x = (e : UpError) → x.0 ≡ some e → IsUndone x.1.log

  -- Whatever makes `Up` return an error, on a system where nothing was made before: every
  -- link that it added it has deleted again, or tried to, and so every rule that suppresses the
  -- default routes of the main table. Such an attempt may fail.
  pub up-IsUndone :
      (s : State W) (e : UpError)
      → s.log ≡ []
      → (up sys out c s).0 ≡ some e
      → IsUndone (up sys out c s).1.log
  unfolding up
  up-IsUndone s e fresh f =
      if_either IsUndoneOnError (is_empty c.name) (λ e f. Nothing-IsUndone s (untouched s.added))
        (λ e f.
          hooks_run (run_hooks sys out c.pre_up begun)
            (run_hooks-Keeps sys out Nothing c.pre_up begun (untouched [])) f)
        e f
    where
      begun : State W
      begun = record s { added = [] }

      untouched : (added : List Family) → IsCovered {W = W} Nothing (record s { added = added })
      untouched added r p = none_pending s.log fresh r p
