-- ===== src/Facade/Owner.antt =====
-- Which back end answers for a device.
use wgctrl_go.Base.{List, [], ◌∷◌, ◌++◌, Bool, true, false, Text, All, ◌≡◌, refl, ap, ◌∙◌}
use wgctrl_go.Base.Result.{Result, ok, err}
use wgctrl_go.Types.{Device, Config}
use wgctrl_go.Conf.{ClientError, not_exist, other}
use wgctrl_go.Facade.{Backend, or_next, or_next_in, device, configure_device}

-- A back end that has no device of this name, and does nothing for it.
pub record LacksDevice {W : Type 0} (name : Text) (b : Backend W) : Type 0 where
  pub device : (w : W) → b.device name w ≡ err not_exist
  pub configure_device : (cfg : Config) (w : W) → b.configure_device name cfg w ≡ (err not_exist, w)

abbrev pub is_final {ℓ} : {A : Type ℓ} → Result ClientError A → Bool
is_final (ok _) = true
is_final (err not_exist) = false
is_final (err (other _)) = true

or_next-final : (r next : Result ClientError Device) → is_final r ≡ true → or_next r next ≡ r
or_next-final (ok d) next h = refl
or_next-final (err not_exist) next h = cc
or_next-final (err (other e)) next h = refl

or_next_in-final :
    {W : Type 0} (r : Result ClientError (Unit {0}) × W)
    (next : W → Result ClientError (Unit {0}) × W)
    → is_final r.0 ≡ true
    → or_next_in r next ≡ r
or_next_in-final (ok u, w) next h = refl
or_next_in-final (err not_exist, w) next h = cc
or_next_in-final (err (other e), w) next h = refl

module _ {W : Type 0} (name : Text) (cfg : Config) (w : W) where
  -- What a client answers for the name, and the state it leaves.
  abbrev pub Answers :
      List (Backend W) → Result ClientError Device → Result ClientError (Unit {0}) × W → Type 0
  Answers cs r s = (device cs name w ≡ r) × (configure_device cs name cfg w ≡ s)

  module _ (b : Backend W) (after : List (Backend W)) where
    -- Where the back ends in front of `b` have no device of a name and `b` has one, `Device` and
    -- `ConfigureDevice` do exactly what `b` does, its errors included, whatever back ends follow.
    pub owner-Answers :
        (front : List (Backend W))
        → All (LacksDevice name) front
        → is_final (b.device name w) ≡ true
        → is_final (b.configure_device name cfg w).0 ≡ true
        → Answers (front ++ b ∷ after) (b.device name w) (b.configure_device name cfg w)
    unfolding device configure_device
    owner-Answers [] h d c = (or_next-final _ _ d, or_next_in-final _ _ c)
    owner-Answers (x ∷ front) (lacks, h) d c =
        let (e, f) = owner-Answers front h d c in
        (
          ap (λ r. or_next r (device (front ++ b ∷ after) name w)) (lacks.device w) ∙ e,
          ap (λ r. or_next_in r (configure_device (front ++ b ∷ after) name cfg))
                (lacks.configure_device cfg w)
              ∙ f,
        )

  -- Where no back end has a device of a name, both report `os.ErrNotExist` and change nothing.
  pub nobody-Answers :
      (cs : List (Backend W))
      → All (LacksDevice name) cs
      → Answers cs (err not_exist) (err not_exist, w)
  unfolding device configure_device
  nobody-Answers [] h = (refl, refl)
  nobody-Answers (x ∷ cs) (lacks, h) =
      let (e, f) = nobody-Answers cs h in
      (
        ap (λ r. or_next r (device cs name w)) (lacks.device w) ∙ e,
        ap (λ r. or_next_in r (configure_device cs name cfg)) (lacks.configure_device cfg w) ∙ f,
      )
