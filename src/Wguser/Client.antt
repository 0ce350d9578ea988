-- ===== src/Wguser/Client.antt =====
-- internal/wguser/client.go, with getDevice of parse.go and configureDevice of configure.go.
use mathlib.Core.List.{reverse}
use wgctrl_go.Base.{
  List, [], ◌∷◌, Option, none, some, Text, codes, equal, equal_iff, if◌then◌else◌, ◌≡◌, refl, sym,
  subst, Bool-cases, inl, inr,
}
use wgctrl_go.Base.Result.{Result, ok, err, ◌>>=◌}
use wgctrl_go.Std.Strings.{cut_prefix}
use wgctrl_go.Std.Scanner.{Reader}
use wgctrl_go.Types.{Device, Config, userspace}
use wgctrl_go.Wguser.Parse.{Outside, UserError, parse_device}
use wgctrl_go.Wguser.Configure.{Printer, request, answer_error}

pub data CallError : Type 0 where
  not_exist find_failed dial_failed panicked : CallError
  bad_device : UserError → CallError
  refused : Text → CallError

-- The sockets of devices, the connections to them, and `filepath.Base` and `filepath.Ext`.
pub record Sockets : Type 0 where
  pub find : Option (List Text)
  -- what a device answers to a request, `none` if dialling, writing or reading fails; of the answer
  -- to a configuration what one `Read` of 32 bytes gives
  pub ask : Text → Text → Option Reader
  pub base : Text → Text
  pub ext : Text → Text

unfoldable pub trim_suffix : Text → Text → Text
trim_suffix s suffix = elim (cut_prefix (reverse s) (reverse suffix)) [
  | none ↦ s
  | some rest ↦ reverse rest
]

-- `deviceName`
unfoldable pub device_name : Sockets → Text → Text
unfolding trim_suffix
device_name sockets sock = trim_suffix (sockets.base sock) (sockets.ext sock)

abbrev pub named_device : Text → Option (Result UserError Device) → Result CallError Device
named_device name none = err panicked
named_device name (some (err e)) = err (bad_device e)
named_device name (some (ok d)) = ok (record d { name = name; type = userspace })

abbrev pub answered : Sockets → Outside → Text → Option Reader → Result CallError Device
answered sockets outside sock none = err dial_failed
answered sockets outside sock (some r) =
    named_device (device_name sockets sock) (parse_device outside r)

-- `getDevice`
unfoldable pub get_device : Sockets → Outside → Text → Result CallError Device
unfolding device_name
get_device sockets outside sock =
    answered sockets outside sock (sockets.ask sock (codes "get=1\n\n"))

-- The loop of `Devices`.
unfoldable pub get_devices : Sockets → Outside → List Text → Result CallError (List Device)
unfolding get_device
get_devices sockets outside [] = ok []
get_devices sockets outside (s ∷ ss) = do
  d ← get_device sockets outside s
  ds ← get_devices sockets outside ss
  ok (d ∷ ds)

abbrev pub found : Option (List Text) → Result CallError (List Text)
found none = err find_failed
found (some ss) = ok ss

-- `Devices`
unfoldable pub devices : Sockets → Outside → Result CallError (List Device)
unfolding get_devices
devices sockets outside = do ss ← found sockets.find; get_devices sockets outside ss

-- The loops of `Device` and `ConfigureDevice`, which do `call` for the first socket of the name.
unfoldable pub with_socket {ℓ} :
    {A : Type ℓ} → Sockets → Text → (Text → Result CallError A) → List Text → Result CallError A
with_socket sockets name call [] = err not_exist
with_socket sockets name call (s ∷ ss) =
    if equal name (device_name sockets s) then call s else with_socket sockets name call ss

-- `Device`
unfoldable pub device : Sockets → Outside → Text → Result CallError Device
unfolding with_socket get_device
device sockets outside name = do
  ss ← found sockets.find
  with_socket sockets name (get_device sockets outside) ss

abbrev pub taken : Option Text → Result CallError (Unit {0})
taken none = ok tt
taken (some e) = err (refused e)

-- `configureDevice`
unfoldable pub configure_socket : Sockets → Printer → Config → Text → Result CallError (Unit {0})
unfolding request answer_error
configure_socket sockets out cfg sock = elim (sockets.ask sock (request out cfg)) [
  | none ↦ err dial_failed
  | some r ↦ taken (answer_error r.content)
]

-- `ConfigureDevice`
unfoldable pub configure_device : Sockets → Printer → Text → Config → Result CallError (Unit {0})
unfolding with_socket configure_socket
configure_device sockets out name cfg = do
  ss ← found sockets.find
  with_socket sockets name (configure_socket sockets out cfg) ss

-- What is asked for a device: its name, if there is one.
abbrev pub IsNamed : Text → Result CallError Device → Type 0
IsNamed name (ok d) = (d.name ≡ name) × (d.type ≡ userspace)
IsNamed name (err e) = Unit

named_device-IsNamed :
    (name : Text) (o : Option (Result UserError Device)) → IsNamed name (named_device name o)
named_device-IsNamed name none = tt
named_device-IsNamed name (some (err e)) = tt
named_device-IsNamed name (some (ok d)) = (refl, refl)

answered-IsNamed :
    (sockets : Sockets) (outside : Outside) (sock : Text) (o : Option Reader)
    → IsNamed (device_name sockets sock) (answered sockets outside sock o)
answered-IsNamed sockets outside sock none = tt
answered-IsNamed sockets outside sock (some r) =
    named_device-IsNamed (device_name sockets sock) (parse_device outside r)

with_socket-IsNamed :
    (sockets : Sockets) (outside : Outside) (name : Text) (ss : List Text)
    → IsNamed name (with_socket sockets name (get_device sockets outside) ss)
unfolding with_socket get_device
with_socket-IsNamed sockets outside name [] = tt
with_socket-IsNamed sockets outside name (s ∷ ss) =
    elim (Bool-cases (equal name (device_name sockets s))) [
      | inl e ↦ rw e (
          subst (λ n. IsNamed n (get_device sockets outside s))
            (sym ((equal_iff name (device_name sockets s)).0 e))
            (answered-IsNamed sockets outside s (sockets.ask s (codes "get=1\n\n"))))
      | inr e ↦ rw e (with_socket-IsNamed sockets outside name ss)
    ]

found-IsNamed :
    (sockets : Sockets) (outside : Outside) (name : Text) (o : Option (List Text))
    → IsNamed name (found o >>= with_socket sockets name (get_device sockets outside))
found-IsNamed sockets outside name none = tt
found-IsNamed sockets outside name (some ss) = with_socket-IsNamed sockets outside name ss

-- A device that `Device` returns has the name that was asked for and the type of a userspace
-- device, whatever sockets there are and whatever they answer.
pub device-IsNamed :
    (sockets : Sockets) (outside : Outside) (name : Text)
    → IsNamed name (device sockets outside name)
unfolding device
device-IsNamed sockets outside name = found-IsNamed sockets outside name sockets.find
