-- ===== src/Wgquick/Commands.antt =====
-- internal/wgquick/quick_linux.go: the commands that bring an interface up and down, and how they
-- are run. The system is the record `System`; a log, newest first, remembers what was run.
use wgctrl_go.Base.{
  Bool, true, false, not, ◌&&◌, List, [], ◌∷◌, ◌++◌, Option, none, some, Text, codes, is_empty,
  if◌then◌else◌,
}
use wgctrl_go.Base.Int.{ℤ}
use wgctrl_go.Base.Result.{Result}
use wgctrl_go.Std.Strings.{trim_space}
use wgctrl_go.Std.Strconv.{format_int}
use wgctrl_go.Types.{Ip, IpNet}
use wgctrl_go.Conf.{ClientError, Client}
use wgctrl_go.Wgconfig.Fields.{is_ipv4}
use wgctrl_go.Wgquick.Encode.{Printer, line, concat_map}

pub data Family : Type 0 where
  v4 v6 : Family

-- `ipFamily`
unfoldable pub ip_family : IpNet → Family
unfolding is_ipv4
ip_family n = if is_ipv4 n.ip then v4 else v6

-- The word for a family.
abbrev pub flag : Family → Text
flag v4 = codes "-4"
flag v6 = codes "-6"

pub data Command : Type 0 where
  hook : Text → Command
  link_show link_add link_del link_up : Text → Command
  address_add : Text → IpNet → Command
  mtu_up : Text → ℤ → Command
  route_show route_add : Text → IpNet → Command
  route_add_table : Text → IpNet → Text → Command
  rule_add_mark rule_del_mark : Family → Text → Command
  rule_add_main rule_del_main : Family → Command
  dns_set : Text → List Ip → Command
  dns_unset : Text → Command

-- `ip` and its words, `ip link … dev NAME`, and the two rules of the isolation.
abbrev pub ip_link : Text → Text → List Text → List Text
ip_link verb name rest = codes "ip" ∷ codes "link" ∷ verb ∷ codes "dev" ∷ name ∷ rest

abbrev pub mark_rule : Text → Family → Text → List Text
mark_rule verb fam t =
    codes "ip"
    ∷ flag fam
    ∷ codes "rule"
    ∷ verb
    ∷ codes "not"
    ∷ codes "fwmark"
    ∷ t
    ∷ codes "table"
    ∷ t
    ∷ []

abbrev pub main_rule : Text → Family → List Text
main_rule verb fam =
    codes "ip"
    ∷ flag fam
    ∷ codes "rule"
    ∷ verb
    ∷ codes "table"
    ∷ codes "main"
    ∷ codes "suppress_prefixlength"
    ∷ codes "0"
    ∷ []

abbrev pub ip_route : Printer → Text → Text → IpNet → List Text → List Text
ip_route out verb name n rest =
    codes "ip"
    ∷ flag (ip_family n)
    ∷ codes "route"
    ∷ verb
    ∷ out.net_string n
    ∷ codes "dev"
    ∷ name
    ∷ rest

abbrev pub tunnel : Text → Text
tunnel name = codes "tun." ++ name

-- The program and the arguments that each function of the file passes to `exec.Command`.
unfoldable pub words : Printer → Command → List Text
unfolding ip_family
words out (hook h) = codes "sh" ∷ codes "-c" ∷ h ∷ []
words out (link_show name) = ip_link (codes "show") name []
words out (link_add name) = ip_link (codes "add") name (codes "type" ∷ codes "wireguard" ∷ [])
words out (link_del name) = ip_link (codes "del") name []
words out (link_up name) = ip_link (codes "set") name (codes "up" ∷ [])
words out (address_add name n) =
    codes "ip" ∷ codes "address" ∷ codes "add" ∷ out.net_string n ∷ codes "dev" ∷ name ∷ []
words out (mtu_up name mtu) =
    ip_link (codes "set") name (codes "mtu" ∷ format_int mtu ∷ codes "up" ∷ [])
words out (route_show name n) =
    codes "ip"
    ∷ flag (ip_family n)
    ∷ codes "route"
    ∷ codes "show"
    ∷ codes "dev"
    ∷ name
    ∷ codes "match"
    ∷ out.net_string n
    ∷ []
words out (route_add name n) = ip_route out (codes "add") name n []
words out (route_add_table name n t) = ip_route out (codes "add") name n (codes "table" ∷ t ∷ [])
words out (rule_add_mark fam t) = mark_rule (codes "add") fam t
words out (rule_del_mark fam t) = mark_rule (codes "del") fam t
words out (rule_add_main fam) = main_rule (codes "add") fam
words out (rule_del_main fam) = main_rule (codes "del") fam
words out (dns_set name ips) =
    codes "resolvconf" ∷ codes "-a" ∷ tunnel name ∷ codes "-m" ∷ codes "0" ∷ codes "-x" ∷ []
words out (dns_unset name) = codes "resolvconf" ∷ codes "-d" ∷ tunnel name ∷ []

-- What a command reads.
unfoldable pub input : Printer → Command → Text
input out (dns_set name ips) = concat_map (λ ip. line (codes "nameserver ") (out.ip_string ip)) ips
input out _ = []

pub data UpError : Type 0 where
  no_name : UpError
  command_failed : Command → UpError
  client_error : ClientError → UpError

pub record System (W : Type 0) : Type 0 where
  -- a program with its arguments and input: whether it succeeded, and its output
  pub exec : List Text → Text → W → (Bool × Text) × W
  pub has_resolvconf : W → Bool
  -- `wgctrl.New`
  pub new_client : W → Result ClientError (Client W) × W

-- The variable `addedRules` of `Up` is a part of the state.
pub record State (W : Type 0) : Type 0 where
  pub world : W
  pub log : List (Command × Bool)
  pub added : List Family

-- What returns an `error`.
abbrev pub Action : Type 0 → Type 0
Action W = State W → Option UpError × State W

abbrev pub error_unless : Command → Bool → Option UpError
error_unless c true = none
error_unless c false = some (command_failed c)

module _ {W : Type 0} where
  -- The next statement behind `if err := …; err != nil { return err }`.
  abbrev pub after_result : Option UpError × State W → Action W → Option UpError × State W
  after_result (some e, s) next = (some e, s)
  after_result (none, s) next = next s

  infixr 4 ◌andthen◌
  abbrev pub ◌andthen◌ : Action W → Action W → Action W
  first andthen next = λ s. after_result (first s) next

  abbrev pub done : Action W
  done s = (none, s)

  abbrev pub fail : UpError → Action W
  fail e s = (some e, s)

  abbrev pub for_each {ℓ} : {A : Type ℓ} → (A → Action W) → List A → Action W
  for_each f [] = done
  for_each f (a ∷ as') = f a andthen for_each f as'

module _ {W : Type 0} (sys : System W) (out : Printer) where
  unfoldable pub execute : Command → State W → (Bool × Text) × State W
  unfolding words input
  execute c s =
      let (answer, w) = sys.exec (words out c) (input out c) s.world in
      (answer, record s { world = w; log = (c, answer.0) ∷ s.log })

  -- `run`, and every function that is a call of it.
  unfoldable pub run : Command → Action W
  unfolding execute
  run c s = let (answer, s') = execute c s in (error_unless c answer.0, s')

  -- A call of `run` whose error is dropped or only printed.
  unfoldable pub attempt : Command → Action W
  unfolding execute
  attempt c s = (none, (execute c s).1)

  -- `runHooks`
  abbrev pub run_hooks : List Text → Action W
  run_hooks hooks = for_each (λ h. run (hook h)) hooks

  -- `interfaceExists` and `routeExists`, with the state that they leave.
  abbrev pub interface_exists : Text → State W → Bool × State W
  interface_exists name s = let (answer, s') = execute (link_show name) s in (answer.0, s')

  abbrev pub route_exists : Text → IpNet → State W → Bool × State W
  route_exists name n s =
      let (answer, s') = execute (route_show name n) s in
      (answer.0 && not (is_empty (trim_space answer.1)), s')
