-- ===== src/Wgquick/Planned.antt =====
-- What a successful `Up` has run, against the list of commands that a configuration asks for.
use wgctrl_go.Base.{
  Bool, true, false, not, ◌&&◌, List, [], ◌∷◌, ◌++◌, Option, none, some, Text, is_empty,
  if◌then◌else◌, if_either, ◌≡◌, inl, inr, refl, ap, ◌∙◌, Bool-cases,
}
use wgctrl_go.Base.Int.{is_positive}
use wgctrl_go.Base.Result.{Result, ok, err}
use wgctrl_go.Types.{IpNet}
use wgctrl_go.Types
use wgctrl_go.Conf.{ClientError, Client}
use wgctrl_go.Wgquick.Config.{
  PeerConfig, Config, RouteMode, mode_off, explicit, auto, route_mode, is_default_route,
}
use wgctrl_go.Wgquick.Encode.{Printer}
use wgctrl_go.Wgquick.Commands.{
  ip_family, Command, hook, link_add, link_up, address_add, mtu_up, route_show, route_add,
  route_add_table, rule_add_mark, rule_add_main, dns_set, UpError, System, State, ◌andthen◌,
  for_each, error_unless, execute, run, attempt, run_hooks,
}
use wgctrl_go.Wgquick.Run.{
  table_word, up_config, configure_with, configure, set_up, set_dns, add_route, add_default_rules,
  remember, isolate, route_in, add_routes, up_body, or_undo, guarded, up,
}
use wgctrl_go.Wgquick.Plan.{
  route_plan, flatten, hook_plan, address_plan, link_plan, peer_plan, body_plan, plan, is_planned,
  performed, onto, Performs, andthen-Performs, for_each-Performs, answer_of-log,
}

module _ {W : Type 0} (sys : System W) (out : Printer) where
  noted :
      (k : Command) (b : Bool) (log : List (Command × Bool))
      → is_planned k ≡ true
      → error_unless k b ≡ none
      → performed ((k, b) ∷ log) ≡ k ∷ performed log
  unfolding performed
  noted k true log h e = rw h refl
  noted k false log h e = absurd cc

  run-Performs : (k : Command) → is_planned k ≡ true → Performs (run sys out k) (k ∷ [])
  unfolding run execute
  run-Performs k h s e = noted k _ s.log h e

  execute-performs_nothing :
      (k : Command) (s : State W)
      → is_planned k ≡ false
      → performed (execute sys out k s).1.log ≡ performed s.log
  unfolding execute performed
  execute-performs_nothing k s h = rw h refl

  configure_with-log :
      (name : Text) (wgc : Types.Config) (r : Result ClientError (Client W) × W) (s : State W)
      → (configure_with sys out name wgc r s).1.log ≡ s.log
  configure_with-log name wgc (err e, w) s = refl
  configure_with-log name wgc (ok client, w) s =
      answer_of-log (client.configure_device name wgc w) s

  configure-Performs : (c : Config) → Performs (configure sys out c) []
  unfolding configure
  configure-Performs c s e =
      ap performed (configure_with-log c.name (up_config c) (sys.new_client s.world) s)

  set_up-Performs :
      (c : Config)
      → Performs
          (set_up sys out c)
          (if is_positive c.mtu then mtu_up c.name c.mtu ∷ [] else link_up c.name ∷ [])
  unfolding set_up
  set_up-Performs c = elim (Bool-cases (is_positive c.mtu)) [
    | inl e ↦ rw e (run-Performs (mtu_up c.name c.mtu) refl)
    | inr e ↦ rw e (run-Performs (link_up c.name) refl)
  ]

  set_dns-Performs : (c : Config) → Performs (set_dns sys out c) []
  unfolding set_dns attempt
  set_dns-Performs c s e =
      if_either (λ (x : Option UpError × State W). performed x.1.log ≡ performed s.log)
        (not (is_empty c.dns) && sys.has_resolvconf s.world)
        (execute-performs_nothing (dns_set c.name c.dns) s refl) refl

  add_route-Performs : (name : Text) (n : IpNet) → Performs (add_route sys out name n) []
  unfolding add_route run
  add_route-Performs name n s e =
      let k = execute-performs_nothing (route_show name n) s refl in
      if_either (λ (x : Option UpError × State W). performed x.1.log ≡ performed s.log) _ k
        (execute-performs_nothing (route_add name n) (execute sys out (route_show name n) s).1 refl
          ∙ k)

  isolate-Performs :
      (name t : Text) (n : IpNet)
      → Performs (isolate sys out name t n) (
          route_add_table name n t
          ∷ rule_add_mark (ip_family n) t
          ∷ rule_add_main (ip_family n)
          ∷ [])
  unfolding isolate add_default_rules remember
  isolate-Performs name t n =
      andthen-Performs (run sys out (route_add_table name n t)) _ (route_add_table name n t ∷ [])
        (rule_add_mark (ip_family n) t ∷ rule_add_main (ip_family n) ∷ [])
        (run-Performs (route_add_table name n t) refl)
        (andthen-Performs
          (run sys out (rule_add_mark (ip_family n) t)
            andthen run sys out (rule_add_main (ip_family n)))
          _ (rule_add_mark (ip_family n) t ∷ rule_add_main (ip_family n) ∷ []) []
          (andthen-Performs (run sys out (rule_add_mark (ip_family n) t))
            (run sys out (rule_add_main (ip_family n))) (rule_add_mark (ip_family n) t ∷ [])
            (rule_add_main (ip_family n) ∷ []) (run-Performs (rule_add_mark (ip_family n) t) refl)
            (run-Performs (rule_add_main (ip_family n)) refl))
          (λ s e. refl))

  route_in-Performs :
      (m : RouteMode) (name t : Text) (n : IpNet)
      → Performs (route_in sys out m name t n) (route_plan m name t n)
  unfolding route_in
  route_in-Performs mode_off name t n = λ s e. refl
  route_in-Performs explicit name t n = run-Performs (route_add_table name n t) refl
  route_in-Performs auto name t n = elim (Bool-cases (is_default_route n)) [
    | inl e ↦ rw e (isolate-Performs name t n)
    | inr e ↦ rw e (add_route-Performs name n)
  ]

  run_hooks-Performs : (hooks : List Text) → Performs (run_hooks sys out hooks) (hook_plan hooks)
  run_hooks-Performs hooks =
      for_each-Performs (λ h. run sys out (hook h)) (λ h. hook h ∷ []) hooks
        (λ h. run-Performs (hook h) refl)

  add_routes-Performs : (c : Config) → Performs (add_routes sys out c) (peer_plan c)
  unfolding add_routes
  add_routes-Performs c =
      for_each-Performs
        (λ (p : PeerConfig).
          for_each (route_in sys out (route_mode c) c.name (table_word c)) p.allowed_ips)
        (λ (p : PeerConfig).
          flatten (route_plan (route_mode c) c.name (table_word c)) p.allowed_ips)
        c.peers
        (λ p.
          for_each-Performs (route_in sys out (route_mode c) c.name (table_word c))
            (route_plan (route_mode c) c.name (table_word c)) p.allowed_ips
            (route_in-Performs (route_mode c) c.name (table_word c)))

  addresses-Performs :
      (c : Config)
      → Performs (for_each (λ a. run sys out (address_add c.name a)) c.addresses) (address_plan c)
  addresses-Performs c =
      for_each-Performs (λ a. run sys out (address_add c.name a)) (λ a. address_add c.name a ∷ [])
        c.addresses (λ a. run-Performs (address_add c.name a) refl)

  up_body-Performs : (c : Config) → Performs (up_body sys out c) (body_plan c)
  unfolding up_body
  up_body-Performs c =
      let routes = add_routes sys out c andthen run_hooks sys out c.post_up in
      let links = set_up sys out c andthen set_dns sys out c andthen routes in
      let addresses = for_each (λ a. run sys out (address_add c.name a)) c.addresses in
      let last = peer_plan c ++ hook_plan c.post_up in
      andthen-Performs (configure sys out c) (addresses andthen links) [] (body_plan c)
        (configure-Performs c)
        (andthen-Performs addresses links (address_plan c) (link_plan c ++ last)
          (addresses-Performs c)
          (andthen-Performs (set_up sys out c) (set_dns sys out c andthen routes) (link_plan c) last
            (set_up-Performs c)
            (andthen-Performs (set_dns sys out c) routes [] last (set_dns-Performs c) (
              andthen-Performs (add_routes sys out c) (run_hooks sys out c.post_up) (peer_plan c)
                (hook_plan c.post_up) (add_routes-Performs c) (run_hooks-Performs c.post_up)))))

  or_undo-Performs :
      (c : Config) (x : Option UpError × State W)
      → (or_undo sys out c x).0 ≡ none
      → (x.0 ≡ none) × ((or_undo sys out c x).1.log ≡ x.1.log)
  or_undo-Performs c (none, s) h = (refl, refl)
  or_undo-Performs c (some e, s) h = absurd cc

  guarded-Performs : (c : Config) → Performs (guarded sys out c) (body_plan c)
  guarded-Performs c s f =
      let (g, e) = or_undo-Performs c (up_body sys out c s) f in
      ap performed e ∙ up_body-Performs c s g

  whole-Performs :
      (c : Config)
      → Performs
          (run_hooks sys out c.pre_up
            andthen run sys out (link_add c.name)
            andthen guarded sys out c)
          (plan c)
  unfolding plan
  whole-Performs c =
      andthen-Performs (run_hooks sys out c.pre_up)
        (run sys out (link_add c.name) andthen guarded sys out c) (hook_plan c.pre_up)
        (link_add c.name ∷ body_plan c) (run_hooks-Performs c.pre_up)
        (andthen-Performs (run sys out (link_add c.name)) (guarded sys out c) (link_add c.name ∷ [])
          (body_plan c) (run-Performs (link_add c.name) refl) (guarded-Performs c))

  -- Whenever `Up` returns no error, the commands that it ran with success are the ones of the plan, in
  -- the order of the plan: the hooks, the link, the addresses, the link set up, the routes of tables
  -- and the rules of default routes. Commands about DNS and about the ordinary routes of automatic
  -- mode are not looked at.
  pub up-plan :
      (c : Config) (s : State W)
      → s.log ≡ []
      → (up sys out c s).0 ≡ none
      → performed (up sys out c s).1.log ≡ onto (plan c) []
  unfolding up performed
  up-plan c s fresh = elim (Bool-cases (is_empty c.name)) [
    | inl e ↦ rw e (λ f. absurd cc)
    | inr e ↦ rw e (λ f.
        whole-Performs c (record s { added = [] }) f ∙ ap (λ l. onto (plan c) (performed l)) fresh)
  ]
