-- ===== src/Wgquick/Run.antt =====
-- internal/wgquick/quick_linux.go: `Up` and `Down`.
use wgctrl_go.Base.{
  Bool, true, false, not, ◌&&◌, ◌||◌, List, [], ◌∷◌, ◌++◌, Option, none, some, Text, is_empty,
  if◌then◌else◌,
}
use wgctrl_go.Base.Int.{is_positive}
use wgctrl_go.Base.Result.{Result, ok, err}
use wgctrl_go.Std.Strconv.{format_int}
use wgctrl_go.Types.{Ip, IpNet}
use wgctrl_go.Types
use wgctrl_go.Conf.{ClientError, Client}
use wgctrl_go.Wgconfig.Fields.{is_ipv4}
use wgctrl_go.Wgquick.Config.{
  PeerConfig, Config, wireguard_config, route_table, RouteMode, mode_off, explicit, auto,
  route_mode, is_default_route, any_peer_default, has_default_route,
}
use wgctrl_go.Wgquick.Encode.{Printer}
use wgctrl_go.Wgquick.Commands.{
  Family, v4, v6, ip_family, link_add, link_del, link_up, address_add, mtu_up, route_add,
  route_add_table, rule_add_mark, rule_del_mark, rule_add_main, rule_del_main, dns_set, dns_unset,
  UpError, no_name, client_error, System, State, Action, ◌andthen◌, done, for_each, run, attempt,
  run_hooks, interface_exists, route_exists,
}

-- `routeTable`, as the commands spell it.
abbrev pub table_word : Config → Text
table_word c = format_int (route_table c)

abbrev pub is_auto : RouteMode → Bool
is_auto auto = true
is_auto _ = false

-- The condition under which `Up` sets a mark and `Down` removes rules.
abbrev pub isolates : Config → Bool
isolates c = is_auto (route_mode c) && has_default_route c

-- What `Up` passes to `ConfigureDevice`.
unfoldable pub up_config : Config → Types.Config
unfolding wireguard_config route_mode any_peer_default route_table
up_config c =
    if isolates c
    then record (wireguard_config c) { firewall_mark = some (route_table c) }
    else wireguard_config c

-- `has4` and `has6`: whether an address of a family is a default route.
unfoldable pub is_default_of : Family → IpNet → Bool
unfolding is_default_route is_ipv4
is_default_of v4 n = is_default_route n && is_ipv4 n.ip
is_default_of v6 n = is_default_route n && not (is_ipv4 n.ip)

unfoldable pub any_default_of : Family → List IpNet → Bool
unfolding is_default_of
any_default_of fam [] = false
any_default_of fam (n ∷ ns) = is_default_of fam n || any_default_of fam ns

unfoldable pub has_default_of : Family → List PeerConfig → Bool
unfolding any_default_of
has_default_of fam [] = false
has_default_of fam (p ∷ ps) = any_default_of fam p.allowed_ips || has_default_of fam ps

module _ {W : Type 0} where
  abbrev pub answer_of : Result ClientError (Unit {0}) × W → State W → Option UpError × State W
  answer_of (err e, w) s = (some (client_error e), record s { world = w })
  answer_of (ok _, w) s = (none, record s { world = w })

module _ {W : Type 0} (sys : System W) (out : Printer) where
  -- `client.ConfigureDevice` behind `wgctrl.New`.
  abbrev pub configure_with :
      Text → Types.Config → Result ClientError (Client W) × W → State W → Option UpError × State W
  configure_with name wgc (err e, w) s = (some (client_error e), record s { world = w })
  configure_with name wgc (ok client, w) s = answer_of (client.configure_device name wgc w) s

  unfoldable pub configure : Config → Action W
  unfolding up_config
  configure c s = configure_with c.name (up_config c) (sys.new_client s.world) s

  -- `setMTUUp` or `setLinkUp`
  unfoldable pub set_up : Config → Action W
  set_up c =
      if is_positive c.mtu then run sys out (mtu_up c.name c.mtu) else run sys out (link_up c.name)

  -- `setDNS` and `unsetDNS` under their conditions.
  unfoldable pub set_dns : Config → Action W
  set_dns c s =
      if not (is_empty c.dns) && sys.has_resolvconf s.world
      then attempt sys out (dns_set c.name c.dns) s
      else done s

  unfoldable pub unset_dns : Config → Action W
  unset_dns c s =
      if not (is_empty c.dns) && sys.has_resolvconf s.world
      then attempt sys out (dns_unset c.name) s
      else done s

  -- `addRoute`
  unfoldable pub add_route : Text → IpNet → Action W
  add_route name n s =
      let (shown, s') = route_exists sys out name n s in
      if shown then done s' else run sys out (route_add name n) s'

  -- `addDefaultRules`
  unfoldable pub add_default_rules : Family → Text → Action W
  add_default_rules fam t =
      run sys out (rule_add_mark fam t) andthen run sys out (rule_add_main fam)

  -- `delDefaultRules`
  unfoldable pub del_default_rules : Text → Family → Action W
  del_default_rules t fam =
      attempt sys out (rule_del_mark fam t) andthen attempt sys out (rule_del_main fam)

  -- `addedRules = append(addedRules, fam)`
  unfoldable pub remember : Family → Action W
  remember fam s = (none, record s { added = s.added ++ fam ∷ [] })

  -- The round of the loops for a default route, and for any allowed address.
  unfoldable pub isolate : Text → Text → IpNet → Action W
  unfolding add_default_rules remember ip_family
  isolate name t n =
      run sys out (route_add_table name n t)
      andthen add_default_rules (ip_family n) t
      andthen remember (ip_family n)

  unfoldable pub route_in : RouteMode → Text → Text → IpNet → Action W
  unfolding add_route isolate is_default_route
  route_in mode_off name t n = done
  route_in explicit name t n = run sys out (route_add_table name n t)
  route_in auto name t n = if is_default_route n then isolate name t n else add_route name n

  unfoldable pub add_routes : Config → Action W
  unfolding route_in route_mode route_table
  add_routes c =
      for_each
        (λ (p : PeerConfig). for_each (route_in (route_mode c) c.name (table_word c)) p.allowed_ips)
        c.peers

  -- The statements of `Up` behind the creation of the interface.
  unfoldable pub up_body : Config → Action W
  unfolding configure set_up set_dns add_routes
  up_body c =
      configure c
      andthen for_each (λ a. run sys out (address_add c.name a)) c.addresses
      andthen set_up c
      andthen set_dns c
      andthen add_routes c
      andthen run_hooks sys out c.post_up

  -- The deferred functions, the last one first.
  unfoldable pub undo : Config → Action W
  unfolding del_default_rules route_table
  undo c s =
      (for_each (del_default_rules (table_word c)) s.added
          andthen attempt sys out (link_del c.name))
        s

  abbrev pub or_undo : Config → Option UpError × State W → Option UpError × State W
  or_undo c (none, s) = (none, s)
  or_undo c (some e, s) = (some e, (undo c s).1)

  abbrev pub guarded : Config → Action W
  guarded c s = or_undo c (up_body c s)

  -- `Up`, whose variable `addedRules` starts empty.
  unfoldable pub up : Config → Action W
  unfolding undo up_body
  up c s =
      if is_empty c.name
      then (some no_name, s)
      else (run_hooks sys out c.pre_up andthen run sys out (link_add c.name) andthen guarded c)
          (record s { added = [] })

  unfoldable pub clear_family : Config → Family → Action W
  unfolding del_default_rules has_default_of route_table
  clear_family c fam =
      if has_default_of fam c.peers then del_default_rules (table_word c) fam else done

  unfoldable pub clear_rules : Config → Action W
  unfolding clear_family route_mode any_peer_default
  clear_rules c = if isolates c then clear_family c v4 andthen clear_family c v6 else done

  unfoldable pub remove_interface : Text → Action W
  remove_interface name s =
      let (there, s') = interface_exists sys out name s in
      if there then run sys out (link_del name) s' else done s'

  -- `Down`
  unfoldable pub down : Config → Action W
  unfolding clear_rules remove_interface unset_dns
  down c s =
      if is_empty c.name
      then (some no_name, s)
      else (run_hooks sys out c.pre_down
            andthen clear_rules c
            andthen remove_interface c.name
            andthen unset_dns c
            andthen run_hooks sys out c.post_down)
          s
