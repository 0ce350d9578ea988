-- ===== src/Facade.antt =====
-- client.go: one client over the back ends of the system, tried in their order.
pub mod Owner
pub mod Tests
use wgctrl_go.Base.{ℕ, List, [], ◌∷◌, ◌++◌, Text, ◌≡◌, refl}
use wgctrl_go.Base.Result.{Result, ok, err}
use wgctrl_go.Types.{Device, Config}
use wgctrl_go.Conf.{ClientError, not_exist, other, Client}

-- `wginternal.Client`, a back end over the state `W`.
pub record Backend (W : Type 0) : Type 0 where
  pub close : W → Result ClientError (Unit {0}) × W
  pub devices : W → Result ClientError (List Device)
  pub device : Text → W → Result ClientError Device
  pub configure_device : Text → Config → W → Result ClientError (Unit {0}) × W

-- The switch on an error: only one that is `os.ErrNotExist` goes on to the next back end.
abbrev pub or_next :
    Result ClientError Device → Result ClientError Device → Result ClientError Device
or_next (ok d) next = ok d
or_next (err not_exist) next = next
or_next (err (other e)) next = err (other e)

abbrev pub or_next_in {ℓ} :
    {W : Type ℓ}
    → Result ClientError (Unit {0}) × W
    → (W → Result ClientError (Unit {0}) × W)
    → Result ClientError (Unit {0}) × W
or_next_in (ok u, w) next = (ok u, w)
or_next_in (err not_exist, w) next = next w
or_next_in (err (other e), w) next = (err (other e), w)

abbrev unless_closed {ℓ} :
    {W : Type ℓ}
    → Result ClientError (Unit {0}) × W
    → (W → Result ClientError (Unit {0}) × W)
    → Result ClientError (Unit {0}) × W
unless_closed (ok u, w) next = next w
unless_closed (err e, w) next = (err e, w)

abbrev append_devices :
    List Device
    → Result ClientError (List Device)
    → (List Device → Result ClientError (List Device))
    → Result ClientError (List Device)
append_devices out (err e) next = err e
append_devices out (ok ds) next = next (out ++ ds)

module _ {W : Type 0} where
  -- `Close`
  unfoldable pub close : List (Backend W) → W → Result ClientError (Unit {0}) × W
  close [] w = (ok tt, w)
  close (c ∷ cs) w = unless_closed (c.close w) (close cs)

  -- `Devices`, with the list `out` of the loop.
  unfoldable pub devices : List (Backend W) → List Device → W → Result ClientError (List Device)
  devices [] out w = ok out
  devices (c ∷ cs) out w = append_devices out (c.devices w) (λ out'. devices cs out' w)

  -- `Device`
  unfoldable pub device : List (Backend W) → Text → W → Result ClientError Device
  device [] name w = err not_exist
  device (c ∷ cs) name w = or_next (c.device name w) (device cs name w)

  -- `ConfigureDevice`
  unfoldable pub configure_device :
      List (Backend W) → Text → Config → W → Result ClientError (Unit {0}) × W
  configure_device [] name cfg w = (err not_exist, w)
  configure_device (c ∷ cs) name cfg w =
      or_next_in (c.configure_device name cfg w) (configure_device cs name cfg)

  -- The client, as internal/wgconf uses it.
  abbrev pub as_client : List (Backend W) → Client W
  as_client cs = record { device = device cs; configure_device = configure_device cs }
