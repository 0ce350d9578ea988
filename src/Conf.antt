-- ===== src/Conf.antt =====
-- internal/wgconf/conf.go: a configuration applied to a device, and the names of its peers kept
-- beside it. The device back end is the record `Client`.
pub mod PeerNames
pub mod Sync
pub mod Tests
use wgctrl_go.Base.{
  ℕ, Bool, true, false, not, ◌||◌, List, [], ◌∷◌, ◌++◌, map, Option, none, some, Text, equal,
  is_empty, if◌then◌else◌,
}
use wgctrl_go.Base.Int.{pos}
use wgctrl_go.Base.Result.{Result, ok, err, map_err, ◌>>=◌}
use wgctrl_go.Types.{Key, Peer, Device, PeerConfig, Config}
use wgctrl_go.Meta.Names.{Names, name_of, delete, assign}
use wgctrl_go.Meta.Path.{Os}
use wgctrl_go.Meta.Store.{Disk, Json, Calls, StoreError, update}
use wgctrl_go.Meta.Store

-- `os.ErrNotExist`, and every other error of a back end.
pub data ClientError : Type 0 where
  not_exist : ClientError
  other : Text → ClientError

-- A back end in the state `W`.
pub record Client (W : Type 0) : Type 0 where
  pub device : Text → W → Result ClientError Device
  pub configure_device : Text → Config → W → Result ClientError (Unit {0}) × W

pub data ApplyError : Type 0 where
  client_error : ClientError → ApplyError
  -- the configuration is in effect, but the device could not be read or the names not saved
  state_error : ClientError → ApplyError
  names_error : StoreError → ApplyError

abbrev pub without_name : PeerConfig → PeerConfig
without_name p = record p { name = none }

-- `native`
unfoldable pub native : Config → Config
native cfg = record cfg { peers = map without_name cfg.peers }

-- `exists`: the keys of the device's peers.
unfoldable pub is_peer : List Peer → Key → Bool
is_peer [] key = false
is_peer (p ∷ ps) key = equal p.public_key key || is_peer ps key

-- The names of one peer of the configuration.
abbrev pub set_name : Key → Option Text → Names → Names
set_name key none ns = ns
set_name key (some name) ns = if is_empty name then delete key ns else assign key name ns

-- One round of the loop over `cfg.Peers`.
unfoldable pub name_peer : List Peer → PeerConfig → Names → Names
name_peer existing p ns =
    if p.remove
    then delete p.public_key ns
    else if not (is_peer existing p.public_key)
    then ns
    else set_name p.public_key p.name ns

unfoldable pub name_peers : List Peer → List PeerConfig → Names → Names
unfolding name_peer is_peer
name_peers existing [] ns = ns
name_peers existing (p ∷ ps) ns = name_peers existing ps (name_peer existing p ns)

-- The function handed to `store.Update`; with `ReplacePeers` it deletes every key first.
unfoldable pub change_names : Config → Device → Names → Names
unfolding name_peers
change_names cfg d ns = name_peers d.peers cfg.peers (if cfg.replace_peers then [] else ns)

module _ {W : Type 0} (c : Client W) (json : Json) (os : Os) (calls : Calls) where
  -- `Apply` behind its call of `Device`.
  unfoldable pub save_names :
      Text
      → Config
      → Text
      → W
      → Result ClientError Device
      → Disk
      → Result ApplyError (Unit {0}) × W × Disk
  unfolding change_names
  save_names iface cfg metadata_path w (err e) disk = (err (state_error e), w, disk)
  save_names iface cfg metadata_path w (ok d) disk =
      let (r, disk') = update json os calls metadata_path iface (change_names cfg d) disk in
      (map_err names_error r, w, disk')

  -- `Apply` behind its call of `ConfigureDevice`.
  unfoldable pub after_configuring :
      Text
      → Config
      → Text
      → Result ClientError (Unit {0}) × W
      → Disk
      → Result ApplyError (Unit {0}) × W × Disk
  unfolding save_names
  after_configuring iface cfg metadata_path (err e, w) disk = (err (client_error e), w, disk)
  after_configuring iface cfg metadata_path (ok _, w) disk =
      save_names iface cfg metadata_path w (c.device iface w) disk

  unfoldable pub apply : Text → Config → Text → W → Disk → Result ApplyError (Unit {0}) × W × Disk
  unfolding after_configuring
  apply iface cfg metadata_path w disk =
      after_configuring iface cfg metadata_path (c.configure_device iface (native cfg) w) disk

-- `wanted`
unfoldable pub is_wanted : List PeerConfig → Key → Bool
is_wanted [] key = false
is_wanted (p ∷ ps) key = equal p.public_key key || is_wanted ps key

-- `wgtypes.PeerConfig{PublicKey: key, Remove: true}`
abbrev pub removal : Key → PeerConfig
removal key = record {
  name = none;
  public_key = key;
  remove = true;
  update_only = false;
  preshared_key = none;
  endpoint = none;
  persistent_keepalive_interval = none;
  replace_allowed_ips = false;
  allowed_ips = [];
  allowed_ip_operations = [];
}

-- The loop over `current.Peers`, which appends to `out`.
unfoldable pub append_removals : List PeerConfig → List Peer → List PeerConfig → List PeerConfig
unfolding is_wanted
append_removals desired [] out = out
append_removals desired (p ∷ ps) out =
    append_removals desired ps
      (if not (is_wanted desired p.public_key) then out ++ removal p.public_key ∷ [] else out)

unfoldable pub sync_peer_configs : Device → List PeerConfig → List PeerConfig
unfolding append_removals
sync_peer_configs current desired = append_removals desired current.peers desired

module _ {W : Type 0} (c : Client W) (json : Json) (os : Os) (calls : Calls) where
  unfoldable pub sync : Text → Config → Text → W → Disk → Result ApplyError (Unit {0}) × W × Disk
  unfolding apply sync_peer_configs
  sync iface cfg metadata_path w disk = elim (c.device iface w) [
    | err e ↦ (err (client_error e), w, disk)
    | ok current ↦
        apply c json os calls iface (record cfg { peers = sync_peer_configs current cfg.peers })
          metadata_path w disk
  ]

-- The loop of `AttachNames`.
abbrev pub attach_name : Names → Peer → Peer
attach_name ns p =
    let name = name_of p.public_key ns in
    if not (is_empty name) then record p { name = some name } else p

unfoldable pub attach_names : Json → Os → Calls → Device → Text → Disk → Result StoreError Device
attach_names json os calls d metadata_path disk = do
  ns ← Store.names json os calls metadata_path d.name disk
  ok (record d { peers = map (attach_name ns) d.peers })
