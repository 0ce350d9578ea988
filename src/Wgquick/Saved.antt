-- ===== src/Wgquick/Saved.antt =====
-- What `Save` keeps of a device and of the disk.
use wgctrl_go.Base.{
  zero, suc, true, not, List, [], ◌∷◌, map, Option, none, some, Text, equal, equal_iff,
  if◌then◌else◌, ◌≡◌, ◌≢◌, ◌⊎◌, inl, inr, refl, sym, arith, Bool-cases,
}
use wgctrl_go.Base.Int.{ℤ, pos, negsuc}
use wgctrl_go.Base.Result.{Result, ok, err}
use wgctrl_go.Types.{Key, IpNet, UdpAddr, Duration, Peer, Device, zero_key}
use wgctrl_go.Types
use wgctrl_go.Meta.Store.{Disk}
use wgctrl_go.Conf.{ClientError}
use wgctrl_go.Wgquick.Config.{Config, wireguard_peer, wireguard_config}
use wgctrl_go.Wgquick.Parse.{Net}
use wgctrl_go.Wgquick.Encode.{Printer}
use wgctrl_go.Wgquick.Settings.{HasSettings}
use wgctrl_go.Wgquick.Stored.{Says}
use wgctrl_go.Wgquick.Save.{unless_zero, peer_from_device, apply_device, Calls, SaveError, tmp_path}

abbrev pub or_default {ℓ} : {A : Type ℓ} → A → Option A → A
or_default d none = d
or_default d (some a) = a

-- What a peer is told, with the zero value for what is not set.
pub record Told : Type 0 where
  pub public_key : Key
  pub preshared_key : Key
  pub allowed_ips : List IpNet
  pub endpoint : Option UdpAddr
  pub interval : Duration

abbrev pub told_to : Types.PeerConfig → Told
told_to p = record {
  public_key = p.public_key;
  preshared_key = or_default zero_key p.preshared_key;
  allowed_ips = p.allowed_ips;
  endpoint = p.endpoint;
  interval = or_default (pos 0) p.persistent_keepalive_interval;
}

abbrev pub told_by : Peer → Told
told_by p = record {
  public_key = p.public_key;
  preshared_key = p.preshared_key;
  allowed_ips = p.allowed_ips;
  endpoint = p.endpoint;
  interval = p.persistent_keepalive_interval;
}

-- A configuration that puts a device into the state of `dev`.
pub record Restores (dev : Device) (cfg : Types.Config) : Type 0 where
  pub replaces : cfg.replace_peers ≡ true
  pub private_key : cfg.private_key ≡ (if dev.has_private_key then some dev.private_key else none)
  pub listen_port : or_default (pos 0) cfg.listen_port ≡ dev.listen_port
  pub firewall_mark : or_default (pos 0) cfg.firewall_mark ≡ dev.firewall_mark
  pub peers : map told_to cfg.peers ≡ map told_by dev.peers

or_default-unless_zero : (n : ℤ) → or_default (pos 0) (unless_zero n) ≡ n
or_default-unless_zero (pos zero) = refl
or_default-unless_zero (pos (suc n)) = ground arith
or_default-unless_zero (negsuc n) = refl

or_default-key :
    (k : Key) → or_default zero_key (if not (equal k zero_key) then some k else none) ≡ k
or_default-key k = elim (Bool-cases (equal k zero_key)) [
  | inl e ↦ rw e (sym ((equal_iff k zero_key).0 e))
  | inr e ↦ rw e refl
]

told-peer : (p : Peer) → told_to (wireguard_peer (peer_from_device p)) ≡ told_by p
told-peer p =
    cc (or_default-key p.preshared_key, or_default-unless_zero p.persistent_keepalive_interval)

told-peers :
    (ps : List Peer) → map told_to (map wireguard_peer (map peer_from_device ps)) ≡ map told_by ps
told-peers [] = refl
told-peers (p ∷ ps) = cc (told-peer p, told-peers ps)

-- The configuration that `Save` writes keeps the state of the device: made into one for WireGuard,
-- it sets the private key, the port and the mark of the device and replaces its peers by the same
-- ones, where a setting that is left out stands for its zero value.
pub apply_device-Restores :
    (cfg : Config) (dev : Device) → Restores dev (wireguard_config (apply_device cfg dev))
unfolding wireguard_config apply_device
apply_device-Restores cfg dev = record {
  replaces = refl;
  private_key = refl;
  listen_port = or_default-unless_zero dev.listen_port;
  firewall_mark = or_default-unless_zero dev.firewall_mark;
  peers = told-peers dev.peers;
}

-- A file that is replaced by the configuration of a device, or left alone.
pub record IsSaved (net : Net) (out : Printer) (calls : Calls) (name path : Text)
    (device : Text → Result ClientError Device) (disk : Disk)
    (result : Result SaveError (Unit {0}) × Disk) : Type 0 where
  pub at_path :
      ((cfg : Config) × (dev : Device) × (text : Text) × (result.0 ≡ ok tt)
        × Says net (disk path) cfg
        × (device name ≡ ok dev)
        × (result.1 path ≡ some text)
        × HasSettings out cfg dev text)
      ⊎ ((e : SaveError) × (result.0 ≡ err e) × (result.1 path ≡ disk path))
  pub elsewhere : (p : Text) → path ≢ p → tmp_path path ≢ p → result.1 p ≡ disk p

module _ (calls : Calls) (path text : Text) (disk : Disk) where
  -- The temporary file gets what it gets, and `path` the text or nothing.
  record Replaced (result : Result SaveError (Unit {0}) × Disk) : Type 0 where
    pub at_path :
        ((result.0 ≡ ok tt) × (result.1 path ≡ some text))
        ⊎ ((e : SaveError) × (result.0 ≡ err e) × (result.1 path ≡ disk path))
    pub elsewhere : (p : Text) → path ≢ p → tmp_path path ≢ p → result.1 p ≡ disk p

  -- What is in the temporary file behind the write.
  abbrev left : Option Text
  left = some (if calls.write_fails then calls.partial else text)
