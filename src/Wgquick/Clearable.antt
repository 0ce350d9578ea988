-- ===== src/Wgquick/Clearable.antt =====
-- The rules that `Up` makes are ones that `Down` removes.
use wgctrl_go.Base.{
  Bool, true, false, List, [], ◌∷◌, Option, none, some, Text, is_empty, if_either, ◌≡◌, refl, arith,
}
use wgctrl_go.Types.{IpNet}
use wgctrl_go.Wgquick.Config.{
  PeerConfig, Config, auto, route_mode, is_default_route, any_default, any_peer_default,
}
use wgctrl_go.Wgquick.Encode.{Printer}
use wgctrl_go.Wgquick.Commands.{
  Family, v4, v6, ip_family, Command, link_add, route_add_table, rule_add_mark, rule_add_main,
  UpError, System, State, ◌andthen◌, run, run_hooks,
}
use wgctrl_go.Wgquick.Run.{
  table_word, isolates, is_default_of, any_default_of, has_default_of, add_default_rules, remember,
  isolate, up_body, or_undo, guarded, up,
}
use wgctrl_go.Wgquick.Pending.{
  Resource, link, mark_rule, main_rule, acquired, pending, Keeps, andthen-Keeps, IsCovered,
  run-IsCovered,
}
use wgctrl_go.Wgquick.Kept.{neutral, run_hooks-Keeps, undo-Keeps, up_body-Keeps}
use wgctrl_go.Wgquick.Owned.{none_pending}

-- `Down` removes the rules of a family under these conditions.
abbrev Cleared : Config → Family → Type 0
Cleared c fam = (isolates c ≡ true) × (has_default_of fam c.peers ≡ true)

-- A rule is one that `Down` removes.
abbrev pub Clearable : Config → List Family → Resource → Type 0
Clearable c added (link n) = Unit
Clearable c added (mark_rule f t) = (t ≡ table_word c) × Cleared c f
Clearable c added (main_rule f) = Cleared c f

-- No rule at all.
abbrev pub Links : List Family → Resource → Type 0
Links added (link n) = Unit
Links added _ = false ≡ true

-- No rule of the isolation is left.
pub record IsCleared (log : List (Command × Bool)) : Type 0 where
  pub no_mark : (fam : Family) (t : Text) → pending (mark_rule fam t) log ≡ false
  pub no_main : (fam : Family) → pending (main_rule fam) log ≡ false

is_default_of-is_default :
    (fam : Family) (n : IpNet) → is_default_of fam n ≡ true → is_default_route n ≡ true
unfolding is_default_of
is_default_of-is_default v4 n h = ground arith
is_default_of-is_default v6 n h = ground arith

any_default_of-any_default :
    (fam : Family) (ns : List IpNet) → any_default_of fam ns ≡ true → any_default ns ≡ true
unfolding any_default_of any_default
any_default_of-any_default fam [] h = h
any_default_of-any_default fam (n ∷ ns) h =
    ground (arith, is_default_of-is_default fam n, any_default_of-any_default fam ns)

has_default_of-has_default :
    (fam : Family) (ps : List PeerConfig)
    → has_default_of fam ps ≡ true
    → any_peer_default ps ≡ true
unfolding has_default_of any_peer_default
has_default_of-has_default fam [] h = h
has_default_of-has_default fam (p ∷ ps) h =
    ground (arith, any_default_of-any_default fam p.allowed_ips, has_default_of-has_default fam ps)

-- Which families are remembered does not matter.
pub Clearable-any :
    (c : Config) (added other : List Family) (r : Resource)
    → Clearable c added r
    → Clearable c other r
Clearable-any c added other (link n) k = tt
Clearable-any c added other (mark_rule f t) k = k
Clearable-any c added other (main_rule f) k = k

module _ {W : Type 0} (sys : System W) (out : Printer) (c : Config) where
  isolate-Keeps :
      (n : IpNet)
      → route_mode c ≡ auto
      → is_default_route n ≡ true
      → has_default_of (ip_family n) c.peers ≡ true
      → Keeps (IsCovered (Clearable c)) (isolate sys out c.name (table_word c) n)
  unfolding isolate add_default_rules remember
  isolate-Keeps n m d h =
      andthen-Keeps (IsCovered (Clearable c))
        (run sys out (route_add_table c.name n (table_word c))) _
        (neutral sys out (Clearable c) (route_add_table c.name n (table_word c)) refl)
        (andthen-Keeps (IsCovered (Clearable c))
          (run sys out (rule_add_mark (ip_family n) (table_word c))
            andthen run sys out (rule_add_main (ip_family n)))
          _
          (andthen-Keeps (IsCovered (Clearable c))
            (run sys out (rule_add_mark (ip_family n) (table_word c))) _
            (run-IsCovered sys out (Clearable c) (rule_add_mark (ip_family n) (table_word c)) marks)
            (run-IsCovered sys out (Clearable c) (rule_add_main (ip_family n)) mains))
          (λ s k r. k r))
    where
      is_cleared : Cleared c (ip_family n)
      is_cleared = (rw m (has_default_of-has_default (ip_family n) c.peers h), h)

      marks :
          (added : List Family) (q : Resource)
          → acquired (rule_add_mark (ip_family n) (table_word c)) ≡ some q
          → Clearable c added q
      marks added (link k) e = tt
      marks added (mark_rule f u) e = ground (arith, is_cleared)
      marks added (main_rule f) e = absurd cc

      mains :
          (added : List Family) (q : Resource)
          → acquired (rule_add_main (ip_family n)) ≡ some q
          → Clearable c added q
      mains added (link k) e = tt
      mains added (mark_rule f u) e = absurd cc
      mains added (main_rule f) e = ground (arith, is_cleared)

  or_undo-Keeps :
      (x : Option UpError × State W)
      → IsCovered (Clearable c) x.1
      → IsCovered (Clearable c) (or_undo sys out c x).1
  or_undo-Keeps (none, s) h = h
  or_undo-Keeps (some e, s) h = undo-Keeps sys out (Clearable c) c s h

  guarded-Keeps : Keeps (IsCovered (Clearable c)) (guarded sys out c)
  guarded-Keeps s h =
      or_undo-Keeps (up_body sys out c s) (up_body-Keeps sys out (Clearable c) c isolate-Keeps s h)

  -- A rule that `Up` leaves, with an error or without, is one that `Down` removes.
  pub up-Keeps : (s : State W) → s.log ≡ [] → IsCovered (Clearable c) (up sys out c s).1
  unfolding up
  up-Keeps s fresh =
      if_either (λ (x : Option UpError × State W). IsCovered (Clearable c) x.1) (is_empty c.name)
        (nothing s.added)
        (andthen-Keeps (IsCovered (Clearable c)) (run_hooks sys out c.pre_up) _
          (run_hooks-Keeps sys out (Clearable c) c.pre_up)
          (andthen-Keeps (IsCovered (Clearable c)) (run sys out (link_add c.name)) _
            (run-IsCovered sys out (Clearable c) (link_add c.name) links) guarded-Keeps)
          (record s { added = [] }) (nothing []))
    where
      nothing : (added : List Family) → IsCovered {W = W} (Clearable c) (record s { added = added })
      nothing added r p = absurd (cc (none_pending s.log fresh r p))

      links :
          (added : List Family) (q : Resource)
          → acquired (link_add c.name) ≡ some q
          → Clearable c added q
      links added (link k) e = tt
      links added (mark_rule f u) e = absurd cc
      links added (main_rule f) e = absurd cc
