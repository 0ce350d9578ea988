-- ===== src/Conf/Tests.antt =====
-- A configuration applied to a back end that keeps the last one, and synced with a device.
use wgctrl_go.Base.{true, false, List, [], ◌∷◌, none, some, codes, ◌≡◌, refl, replicate, equal}
use wgctrl_go.Base.Int.{pos}
use wgctrl_go.Base.Result.{ok}
use wgctrl_go.Std.Strings.{trim_space, fold}
use wgctrl_go.Types.{Key, Peer, Device, PeerConfig, Config, linux_kernel, zero_key}
use wgctrl_go.Meta.Names.{decode_names, name_of}
use wgctrl_go.Meta.Store.{update}
use wgctrl_go.Meta.Tests.{json, os, calls, no_files, base_path, iface, key, key-IsKey, apart}
use wgctrl_go.Conf.{Client, is_peer, is_wanted, change_names, apply, sync_peer_configs}
use wgctrl_go.Conf.PeerNames.{Applied, applied_name, apply-Applied, change_names-applied}
use wgctrl_go.Conf.Sync.{remains, sync_peer_configs-remains}

abbrev peer : Key → Peer
peer k = record {
  name = none;
  public_key = k;
  preshared_key = zero_key;
  has_preshared_key = false;
  endpoint = none;
  has_endpoint = false;
  persistent_keepalive_interval = pos 0;
  has_persistent_keepalive_interval = false;
  last_handshake_time = none;
  receive_bytes = pos 0;
  transmit_bytes = pos 0;
  allowed_ips = [];
  protocol_version = pos 1;
}

abbrev pub device : Device
device = record {
  name = iface;
  type = linux_kernel;
  private_key = zero_key;
  has_private_key = false;
  public_key = zero_key;
  has_public_key = false;
  listen_port = pos 0;
  has_listen_port = true;
  firewall_mark = pos 0;
  has_firewall_mark = false;
  peers = peer key ∷ peer (replicate 32 8) ∷ [];
}

abbrev named : PeerConfig
named = record {
  name = some (codes "laptop");
  public_key = key;
  remove = false;
  update_only = false;
  preshared_key = none;
  endpoint = none;
  persistent_keepalive_interval = none;
  replace_allowed_ips = false;
  allowed_ips = [];
  allowed_ip_operations = [];
}

abbrev config : Config
config = record {
  private_key = none;
  listen_port = none;
  firewall_mark = none;
  replace_peers = false;
  peers = named ∷ [];
}

-- The state is the list of the configurations that it took.
abbrev pub client : Client (List Config)
client = record {
  device = λ _ _. ok device;
  configure_device = λ _ cfg taken. (ok tt, cfg ∷ taken);
}

change_names-applied_example :
    name_of key (change_names config device []) ≡ applied_name config device key (name_of key [])
change_names-applied_example = change_names-applied config device key []

applied : (apply client json os calls iface config base_path [] no_files).0 ≡ ok tt
unfolding apply update equal trim_space fold decode_names json
applied = refl

apply-Applied_example :
    Applied client json os calls calls iface config base_path [] no_files
      (apply client json os calls iface config base_path [] no_files)
apply-Applied_example =
    apply-Applied client json os calls calls iface config base_path [] no_files apart
      (key-IsKey, tt) refl applied

sync_peer_configs-remains_example :
    remains (is_peer device.peers key) key (sync_peer_configs device (named ∷ []))
    ≡ is_wanted (named ∷ []) key
sync_peer_configs-remains_example =
    sync_peer_configs-remains device (named ∷ []) key ((refl, refl), tt)
