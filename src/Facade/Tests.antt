-- ===== src/Facade/Tests.antt =====
-- A back end without devices in front of one with a single device.
use wgctrl_go.Base.{ℕ, [], ◌∷◌, false, codes, none, refl}
use wgctrl_go.Base.Result.{ok, err}
use wgctrl_go.Types.{Config}
use wgctrl_go.Wguser.Parse.{start}
use wgctrl_go.Conf.{not_exist}
use wgctrl_go.Facade.{Backend}
use wgctrl_go.Facade.Owner.{LacksDevice, Answers, owner-Answers, nobody-Answers}

abbrev config : Config
config = record {
  private_key = none;
  listen_port = none;
  firewall_mark = none;
  replace_peers = false;
  peers = [];
}

-- The state counts the configurations.
abbrev empty : Backend ℕ
empty = record {
  close = λ n. (ok tt, n);
  devices = λ _. ok [];
  device = λ _ _. err not_exist;
  configure_device = λ _ _ n. (err not_exist, n);
}

abbrev single : Backend ℕ
single = record {
  close = λ n. (ok tt, n);
  devices = λ _. ok (start.d ∷ []);
  device = λ _ _. ok start.d;
  configure_device = λ _ _ n. (ok tt, ℕ.suc n);
}

empty-LacksDevice : LacksDevice (codes "wg0") empty
empty-LacksDevice = record { device = λ _. refl; configure_device = λ _ _. refl }

owner-Answers_example :
    Answers (codes "wg0") config 3 (empty ∷ single ∷ empty ∷ []) (ok start.d) (ok tt, 4)
owner-Answers_example =
    owner-Answers (codes "wg0") config 3 single (empty ∷ []) (empty ∷ []) (empty-LacksDevice, tt)
      refl refl

nobody-Answers_example :
    Answers (codes "wg0") config 3 (empty ∷ empty ∷ []) (err not_exist) (err not_exist, 3)
nobody-Answers_example =
    nobody-Answers (codes "wg0") config 3 (empty ∷ empty ∷ [])
      (empty-LacksDevice, (empty-LacksDevice, tt))
