-- ===== src/Wgquick/Kept.antt =====
-- An owner of what is pending, kept through the statements of `Up`.
use wgctrl_go.Base.{
  Bool, true, not, ◌&&◌, List, [], ◌∷◌, Option, none, Text, is_empty, if_either, ◌≡◌, inl, inr,
  refl, ap, arith, Bool-cases,
}
use wgctrl_go.Base.Int.{is_positive}
use wgctrl_go.Base.Result.{Result, ok, err}
use wgctrl_go.Types.{IpNet}
use wgctrl_go.Types
use wgctrl_go.Conf.{ClientError, Client}
use wgctrl_go.Wgconfig.Fields.{is_ipv4}
use wgctrl_go.Wgquick.Config.{
  PeerConfig, Config, RouteMode, mode_off, explicit, auto, route_mode, is_default_route,
}
use wgctrl_go.Wgquick.Encode.{Printer}
use wgctrl_go.Wgquick.Commands.{
  Family, ip_family, Command, hook, link_del, link_up, address_add, mtu_up, route_show, route_add,
  route_add_table, rule_del_mark, rule_del_main, dns_set, UpError, System, State, for_each, run,
  attempt, run_hooks,
}
use wgctrl_go.Wgquick.Run.{
  table_word, is_default_of, any_default_of, has_default_of, up_config, answer_of, configure_with,
  configure, set_up, set_dns, add_route, del_default_rules, isolate, route_in, add_routes, up_body,
  undo,
}
use wgctrl_go.Wgquick.Pending.{
  Resource, acquired, Keeps, andthen-Keeps, for_each-Keeps, IsCovered, execute-IsCovered,
  run-IsCovered, attempt-IsCovered,
}

-- The default routes of a list of peers are among those of `c`.
abbrev pub Within : Config → (Family → Bool) → Type 0
Within c has = (fam : Family) → has fam ≡ true → has_default_of fam c.peers ≡ true

is_default_of-family :
    (n : IpNet) → is_default_route n ≡ true → is_default_of (ip_family n) n ≡ true
unfolding is_default_of ip_family
is_default_of-family n h = elim (Bool-cases (is_ipv4 n.ip)) [
  | inl e ↦ rw (e, h) e
  | inr e ↦ rw (e, h) (ap not e)
]

module _ {W : Type 0} (sys : System W) (out : Printer)
    (Owns : List Family → Resource → Type 0) where
  -- A command that makes nothing.
  pub neutral : (k : Command) → acquired k ≡ none → Keeps (IsCovered Owns) (run sys out k)
  neutral k e = run-IsCovered sys out Owns k (λ _ q h. absurd cc)

  pub neutral_attempt :
      (k : Command) → acquired k ≡ none → Keeps (IsCovered Owns) (attempt sys out k)
  neutral_attempt k e = attempt-IsCovered sys out Owns k (λ _ q h. absurd cc)

  pub run_hooks-Keeps : (hooks : List Text) → Keeps (IsCovered Owns) (run_hooks sys out hooks)
  run_hooks-Keeps hooks =
      for_each-Keeps (IsCovered Owns) (λ h. run sys out (hook h)) hooks (λ h. neutral (hook h) refl)

  pub del_default_rules-Keeps :
      (t : Text) (fam : Family) → Keeps (IsCovered Owns) (del_default_rules sys out t fam)
  unfolding del_default_rules
  del_default_rules-Keeps t fam =
      andthen-Keeps (IsCovered Owns) (attempt sys out (rule_del_mark fam t))
        (attempt sys out (rule_del_main fam)) (neutral_attempt (rule_del_mark fam t) refl)
        (neutral_attempt (rule_del_main fam) refl)

  pub undo-Keeps :
      (c : Config) (s : State W) → IsCovered Owns s → IsCovered Owns (undo sys out c s).1
  unfolding undo
  undo-Keeps c s h =
      andthen-Keeps (IsCovered Owns) (for_each (del_default_rules sys out (table_word c)) s.added)
        (attempt sys out (link_del c.name))
        (for_each-Keeps (IsCovered Owns) (del_default_rules sys out (table_word c)) s.added
          (del_default_rules-Keeps (table_word c)))
        (neutral_attempt (link_del c.name) refl) s h

  answer_of-Keeps :
      (r : Result ClientError (Unit {0}) × W) (s : State W)
      → IsCovered Owns s
      → IsCovered Owns (answer_of r s).1
  answer_of-Keeps (err e, w) s h = h
  answer_of-Keeps (ok _, w) s h = h

  configure_with-Keeps :
      (name : Text) (wgc : Types.Config) (r : Result ClientError (Client W) × W) (s : State W)
      → IsCovered Owns s
      → IsCovered Owns (configure_with sys out name wgc r s).1
  configure_with-Keeps name wgc (err e, w) s h = h
  configure_with-Keeps name wgc (ok client, w) s h =
      answer_of-Keeps (client.configure_device name wgc w) s h

  configure-Keeps : (c : Config) → Keeps (IsCovered Owns) (configure sys out c)
  unfolding configure
  configure-Keeps c s h = configure_with-Keeps c.name (up_config c) (sys.new_client s.world) s h

  set_up-Keeps : (c : Config) → Keeps (IsCovered Owns) (set_up sys out c)
  unfolding set_up
  set_up-Keeps c =
      if_either (Keeps (IsCovered Owns)) (is_positive c.mtu) (neutral (mtu_up c.name c.mtu) refl)
        (neutral (link_up c.name) refl)

  set_dns-Keeps : (c : Config) → Keeps (IsCovered Owns) (set_dns sys out c)
  unfolding set_dns
  set_dns-Keeps c s h =
      if_either (λ (x : Option UpError × State W). IsCovered Owns x.1)
        (not (is_empty c.dns) && sys.has_resolvconf s.world)
        (neutral_attempt (dns_set c.name c.dns) refl s h) h

  add_route-Keeps : (name : Text) (n : IpNet) → Keeps (IsCovered Owns) (add_route sys out name n)
  unfolding add_route
  add_route-Keeps name n s h =
      let k = execute-IsCovered sys out Owns (route_show name n) s (λ q e. absurd cc) h in
      if_either (λ (x : Option UpError × State W). IsCovered Owns x.1) _ k
        (neutral (route_add name n) refl _ k)

  module _ (c : Config)
      (isolated : (n : IpNet)
        → route_mode c ≡ auto
        → is_default_route n ≡ true
        → has_default_of (ip_family n) c.peers ≡ true
        → Keeps (IsCovered Owns) (isolate sys out c.name (table_word c) n)) where
    route_in-Keeps :
        (m : RouteMode) (n : IpNet)
        → route_mode c ≡ m
        → Within c (λ fam. is_default_of fam n)
        → Keeps (IsCovered Owns) (route_in sys out m c.name (table_word c) n)
    unfolding route_in
    route_in-Keeps mode_off n e w = λ s h. h
    route_in-Keeps explicit n e w = neutral (route_add_table c.name n (table_word c)) refl
    route_in-Keeps auto n e w = elim (Bool-cases (is_default_route n)) [
      | inl d ↦ rw d (isolated n e d (w (ip_family n) (is_default_of-family n d)))
      | inr d ↦ rw d (add_route-Keeps c.name n)
    ]

    add_networks-Keeps :
        (ns : List IpNet)
        → Within c (λ fam. any_default_of fam ns)
        → Keeps
            (IsCovered Owns)
            (for_each (route_in sys out (route_mode c) c.name (table_word c)) ns)
    unfolding any_default_of
    add_networks-Keeps [] w = λ s h. h
    add_networks-Keeps (n ∷ ns) w =
        andthen-Keeps (IsCovered Owns) (route_in sys out (route_mode c) c.name (table_word c) n)
          (for_each (route_in sys out (route_mode c) c.name (table_word c)) ns)
          (route_in-Keeps (route_mode c) n refl (λ fam h. w fam (ground arith)))
          (add_networks-Keeps ns (λ fam h. w fam (ground arith)))

    add_peers-Keeps :
        (ps : List PeerConfig)
        → Within c (λ fam. has_default_of fam ps)
        → Keeps (IsCovered Owns) (
            for_each
              (λ (p : PeerConfig).
                for_each (route_in sys out (route_mode c) c.name (table_word c)) p.allowed_ips)
              ps)
    unfolding has_default_of
    add_peers-Keeps [] w = λ s h. h
    add_peers-Keeps (p ∷ ps) w =
        andthen-Keeps (IsCovered Owns)
          (for_each (route_in sys out (route_mode c) c.name (table_word c)) p.allowed_ips)
          (for_each
            (λ (p : PeerConfig).
              for_each (route_in sys out (route_mode c) c.name (table_word c)) p.allowed_ips)
            ps)
          (add_networks-Keeps p.allowed_ips (λ fam h. w fam (ground arith)))
          (add_peers-Keeps ps (λ fam h. w fam (ground arith)))

    -- The statements behind the creation of the interface keep an owner that owns what the isolation
    -- of each default route makes.
    pub up_body-Keeps : Keeps (IsCovered Owns) (up_body sys out c)
    unfolding up_body add_routes
    up_body-Keeps = andthen-Keeps (IsCovered Owns) (configure sys out c) _ (configure-Keeps c) (
        andthen-Keeps (IsCovered Owns)
          (for_each (λ a. run sys out (address_add c.name a)) c.addresses) _
          (for_each-Keeps (IsCovered Owns) (λ a. run sys out (address_add c.name a)) c.addresses
            (λ a. neutral (address_add c.name a) refl))
          (andthen-Keeps (IsCovered Owns) (set_up sys out c) _ (set_up-Keeps c) (
            andthen-Keeps (IsCovered Owns) (set_dns sys out c) _ (set_dns-Keeps c) (
              andthen-Keeps (IsCovered Owns) (add_routes sys out c) _
                (add_peers-Keeps c.peers (λ fam h. h)) (run_hooks-Keeps c.post_up)))))
