-- ===== src/Wgquick/Config.antt =====
-- internal/wgquick/config.go.
use wgctrl_go.Base.{
  ℕ, Bool, true, false, not, ◌&&◌, ◌||◌, List, [], ◌∷◌, map, Option, none, some, Text, codes, equal,
  is_empty, ◌==◌, if◌then◌else◌,
}
use wgctrl_go.Base.Int.{ℤ, pos}
use wgctrl_go.Std.Strconv.{parse_int}
use wgctrl_go.Std.Mask.{mask_size}
use wgctrl_go.Types.{Key, Ip, IpNet, UdpAddr, Duration}
use wgctrl_go.Types

-- `DefaultTable`
abbrev pub default_table : ℕ
default_table = 51820

pub record PeerConfig : Type 0 where
  pub public_key : Key
  pub preshared_key : Option Key
  pub allowed_ips : List IpNet
  pub endpoint : Option UdpAddr
  pub persistent_keepalive : Option Duration

pub record Config : Type 0 where
  pub name : Text
  pub private_key : Option Key
  pub listen_port : Option ℤ
  pub firewall_mark : Option ℤ
  pub addresses : List IpNet
  pub dns : List Ip
  pub mtu : ℤ
  pub table : Text
  pub pre_up : List Text
  pub post_up : List Text
  pub pre_down : List Text
  pub post_down : List Text
  pub save_config : Bool
  pub peers : List PeerConfig

-- `Config{}`
abbrev pub empty_config : Config
empty_config = record {
  name = [];
  private_key = none;
  listen_port = none;
  firewall_mark = none;
  addresses = [];
  dns = [];
  mtu = pos 0;
  table = [];
  pre_up = [];
  post_up = [];
  pre_down = [];
  post_down = [];
  save_config = false;
  peers = [];
}

-- One round of the loop in `WireGuardConfig`.
abbrev pub wireguard_peer : PeerConfig → Types.PeerConfig
wireguard_peer p = record {
  name = none;
  public_key = p.public_key;
  remove = false;
  update_only = false;
  preshared_key = p.preshared_key;
  endpoint = p.endpoint;
  persistent_keepalive_interval = p.persistent_keepalive;
  replace_allowed_ips = true;
  allowed_ips = p.allowed_ips;
  allowed_ip_operations = [];
}

-- `WireGuardConfig`
unfoldable pub wireguard_config : Config → Types.Config
wireguard_config c = record {
  private_key = c.private_key;
  listen_port = c.listen_port;
  firewall_mark = c.firewall_mark;
  replace_peers = true;
  peers = map wireguard_peer c.peers;
}

abbrev pub mark_or_default : Option ℤ → ℤ
mark_or_default none = pos default_table
mark_or_default (some m) = m

abbrev pub table_or : Option ℤ → ℤ → ℤ
table_or none other = other
table_or (some n) other = n

-- `routeTable`
unfoldable pub route_table : Config → ℤ
unfolding parse_int
route_table c =
    if not (is_empty c.table)
      && not (equal c.table (codes "auto"))
      && not (equal c.table (codes "off"))
    then table_or (parse_int c.table) (mark_or_default c.firewall_mark)
    else mark_or_default c.firewall_mark

pub data RouteMode : Type 0 where
  mode_off explicit auto : RouteMode

-- `routeMode`
unfoldable pub route_mode : Config → RouteMode
route_mode c =
    if equal c.table (codes "off")
    then mode_off
    else if not (is_empty c.table) && not (equal c.table (codes "auto"))
    then explicit
    else auto

-- `isDefaultRoute`
unfoldable pub is_default_route : IpNet → Bool
unfolding mask_size
is_default_route n = let size = mask_size n.mask in size.0 == 0 && (size.1 == 32 || size.1 == 128)

unfoldable pub any_default : List IpNet → Bool
unfolding is_default_route
any_default [] = false
any_default (n ∷ ns) = is_default_route n || any_default ns

unfoldable pub any_peer_default : List PeerConfig → Bool
unfolding any_default
any_peer_default [] = false
any_peer_default (p ∷ ps) = any_default p.allowed_ips || any_peer_default ps

-- `hasDefaultRoute`
abbrev pub has_default_route : Config → Bool
has_default_route c = any_peer_default c.peers
