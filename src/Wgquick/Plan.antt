-- ===== src/Wgquick/Plan.antt =====
-- The list of commands that a configuration asks `Up` for, and what it is to have run them.
use wgctrl_go.Base.{
  Bool, true, false, ◌&&◌, List, [], ◌∷◌, ◌++◌, Option, none, some, Text, if◌then◌else◌, ◌≡◌, refl,
  sym, ap, ◌∙◌,
}
use wgctrl_go.Base.Int.{is_positive}
use wgctrl_go.Base.Result.{Result, ok, err}
use wgctrl_go.Types.{IpNet}
use wgctrl_go.Conf.{ClientError}
use wgctrl_go.Wgquick.Config.{
  PeerConfig, Config, RouteMode, mode_off, explicit, auto, route_mode, is_default_route,
  route_table,
}
use wgctrl_go.Wgquick.Commands.{
  ip_family, Command, hook, link_add, link_up, address_add, mtu_up, route_show, route_add,
  route_add_table, rule_add_mark, rule_add_main, dns_set, UpError, State, Action, after_result,
  ◌andthen◌, for_each,
}
use wgctrl_go.Wgquick.Run.{table_word, answer_of}

-- The commands of one allowed address: a default route in automatic mode goes to a table of its own
-- with two rules. The ordinary routes of that mode, which `Up` may find there, are left out.
abbrev pub route_plan : RouteMode → Text → Text → IpNet → List Command
route_plan mode_off name t n = []
route_plan explicit name t n = route_add_table name n t ∷ []
route_plan auto name t n =
    if is_default_route n
    then route_add_table name n t ∷ rule_add_mark (ip_family n) t ∷ rule_add_main (ip_family n) ∷ []
    else []

abbrev pub flatten {ℓ} : {A : Type ℓ} → (A → List Command) → List A → List Command
flatten g [] = []
flatten g (a ∷ as') = g a ++ flatten g as'

abbrev pub hook_plan : List Text → List Command
hook_plan hooks = flatten (λ h. hook h ∷ []) hooks

abbrev pub address_plan : Config → List Command
address_plan c = flatten (λ a. address_add c.name a ∷ []) c.addresses

abbrev pub link_plan : Config → List Command
link_plan c = if is_positive c.mtu then mtu_up c.name c.mtu ∷ [] else link_up c.name ∷ []

abbrev pub peer_plan : Config → List Command
peer_plan c =
    flatten
      (λ (p : PeerConfig). flatten (route_plan (route_mode c) c.name (table_word c)) p.allowed_ips)
      c.peers

abbrev pub body_plan : Config → List Command
body_plan c = address_plan c ++ (link_plan c ++ (peer_plan c ++ hook_plan c.post_up))

-- The commands of a configuration, in their order.
unfoldable pub plan : Config → List Command
unfolding route_mode is_default_route route_table ip_family
plan c = hook_plan c.pre_up ++ link_add c.name ∷ body_plan c

abbrev pub is_planned : Command → Bool
is_planned (route_show name n) = false
is_planned (route_add name n) = false
is_planned (dns_set name ips) = false
is_planned _ = true

-- What a log, newest first, did of that.
unfoldable pub performed : List (Command × Bool) → List Command
performed [] = []
performed ((c, done_well) ∷ log) =
    if is_planned c && done_well then c ∷ performed log else performed log

-- A list reversed in front of another.
abbrev pub onto : List Command → List Command → List Command
onto [] rest = rest
onto (c ∷ cs) rest = onto cs (c ∷ rest)

onto-append : (xs ys rest : List Command) → onto (xs ++ ys) rest ≡ onto ys (onto xs rest)
onto-append [] ys rest = refl
onto-append (x ∷ xs) ys rest = onto-append xs ys (x ∷ rest)

module _ {W : Type 0} where
  -- An action that succeeds has performed `cs`.
  abbrev pub Performs : Action W → List Command → Type 0
  Performs a cs = (s : State W) → (a s).0 ≡ none → performed (a s).1.log ≡ onto cs (performed s.log)

  after_result-Performs :
      (x : Option UpError × State W) (b : Action W) (ys rest : List Command)
      → (x.0 ≡ none → performed x.1.log ≡ rest)
      → Performs b ys
      → (after_result x b).0 ≡ none
      → performed (after_result x b).1.log ≡ onto ys rest
  after_result-Performs (some e, s) b ys rest h k f = absurd cc
  after_result-Performs (none, s) b ys rest h k f = k s f ∙ ap (onto ys) (h refl)

  pub andthen-Performs :
      (a b : Action W) (xs ys : List Command)
      → Performs a xs
      → Performs b ys
      → Performs (a andthen b) (xs ++ ys)
  andthen-Performs a b xs ys h k s f =
      after_result-Performs (a s) b ys (onto xs (performed s.log)) (h s) k f
      ∙ sym (onto-append xs ys (performed s.log))

  pub for_each-Performs {ℓ} :
      {A : Type ℓ} (f : A → Action W) (g : A → List Command) (as' : List A)
      → ((a : A) → Performs (f a) (g a))
      → Performs (for_each f as') (flatten g as')
  for_each-Performs f g [] h = λ s e. refl
  for_each-Performs f g (a ∷ as') h =
      andthen-Performs (f a) (for_each f as') (g a) (flatten g as') (h a)
        (for_each-Performs f g as' h)

  pub answer_of-log :
      (r : Result ClientError (Unit {0}) × W) (s : State W) → (answer_of r s).1.log ≡ s.log
  answer_of-log (err e, w) s = refl
  answer_of-log (ok _, w) s = refl
