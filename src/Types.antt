-- ===== src/Types.antt =====
-- wgtypes/types.go: devices, peers and the configurations applied to them.
pub mod Keys
use wgctrl_go.Base.{ℕ, Bool, Option, List, Text, replicate, length, ◌≡◌, codes}
use wgctrl_go.Base.Int.{ℤ}

pub data DeviceType : Type 0 where
  unknown linux_kernel openbsd_kernel freebsd_kernel windows_kernel userspace : DeviceType

-- `DeviceType.String`
unfoldable pub device_type_string : DeviceType → Text
device_type_string linux_kernel = codes "Linux kernel"
device_type_string openbsd_kernel = codes "OpenBSD kernel"
device_type_string freebsd_kernel = codes "FreeBSD kernel"
device_type_string windows_kernel = codes "Windows kernel"
device_type_string userspace = codes "userspace"
device_type_string unknown = codes "unknown"

abbrev pub key_len : ℕ
key_len = 32

-- `Key` is an array of 32 bytes; what builds one is shown to build 32 (`Keys`).
abbrev pub Key : Type 0
Key = List ℕ

abbrev pub zero_key : Key
zero_key = replicate key_len 0

abbrev pub Ip : Type 0
Ip = List ℕ

-- net.IPNet
pub record IpNet : Type 0 where
  pub ip : Ip
  pub mask : List ℕ

-- net.UDPAddr
pub record UdpAddr : Type 0 where
  pub ip : Ip
  pub port : ℤ
  pub zone : Text

-- A time other than the zero value, as `time.Unix(sec, nsec)`.
pub record UnixTime : Type 0 where
  pub sec : ℤ
  pub nsec : ℤ

-- A `time.Duration` counts nanoseconds.
abbrev pub Duration : Type 0
Duration = ℤ

abbrev pub second : ℕ
second = 1_000_000_000

-- `nil` pointers are `none`; the zero value of `LastHandshakeTime` is `none`.
pub record Peer : Type 0 where
  pub name : Option Text
  pub public_key : Key
  pub preshared_key : Key
  pub has_preshared_key : Bool
  pub endpoint : Option UdpAddr
  pub has_endpoint : Bool
  pub persistent_keepalive_interval : Duration
  pub has_persistent_keepalive_interval : Bool
  pub last_handshake_time : Option UnixTime
  pub receive_bytes : ℤ
  pub transmit_bytes : ℤ
  pub allowed_ips : List IpNet
  pub protocol_version : ℤ

pub record Device : Type 0 where
  pub name : Text
  pub type : DeviceType
  pub private_key : Key
  pub has_private_key : Bool
  pub public_key : Key
  pub has_public_key : Bool
  pub listen_port : ℤ
  pub has_listen_port : Bool
  pub firewall_mark : ℤ
  pub has_firewall_mark : Bool
  pub peers : List Peer

pub data AllowedIpOperation : Type 0 where
  allowed_ip_set allowed_ip_add allowed_ip_remove : AllowedIpOperation

pub record AllowedIpConfig : Type 0 where
  pub ip_net : IpNet
  pub operation : AllowedIpOperation

pub record PeerConfig : Type 0 where
  pub name : Option Text
  pub public_key : Key
  pub remove : Bool
  pub update_only : Bool
  pub preshared_key : Option Key
  pub endpoint : Option UdpAddr
  pub persistent_keepalive_interval : Option Duration
  pub replace_allowed_ips : Bool
  pub allowed_ips : List IpNet
  pub allowed_ip_operations : List AllowedIpConfig

pub record Config : Type 0 where
  pub private_key : Option Key
  pub listen_port : Option ℤ
  pub firewall_mark : Option ℤ
  pub replace_peers : Bool
  pub peers : List PeerConfig
