-- ===== src/Linux/Merge/Tests.antt =====
-- A dump of two messages that both name the same peer.
use wgctrl_go.Base.{ℕ, equal, true, false, List, [], ◌∷◌, ◌≡◌, refl, none, replicate}
use wgctrl_go.Base.Int.{pos}
use wgctrl_go.Base.Result.{Result, ok}
use wgctrl_go.Types.{Key, IpNet, Peer, Device, linux_kernel, zero_key}
use wgctrl_go.Linux.Merge.{parse_device}
use wgctrl_go.Linux.Merge.Dump.{IsDump, parse_device-IsDump}

abbrev key_of : ℕ → Key
key_of = replicate 32

abbrev net : ℕ → IpNet
net n = record { ip = 10 ∷ 0 ∷ 0 ∷ n ∷ []; mask = 255 ∷ 255 ∷ 255 ∷ 255 ∷ [] }

abbrev peer : Key → List IpNet → Peer
peer key ips = record {
  name = none;
  public_key = key;
  preshared_key = zero_key;
  has_preshared_key = false;
  endpoint = none;
  has_endpoint = false;
  persistent_keepalive_interval = pos 0;
  has_persistent_keepalive_interval = false;
  last_handshake_time = none;
  receive_bytes = pos 0;
  transmit_bytes = pos 0;
  allowed_ips = ips;
  protocol_version = pos 1;
}

abbrev device : List Peer → Device
device ps = record {
  name = 119 ∷ 103 ∷ 48 ∷ [];
  type = linux_kernel;
  private_key = zero_key;
  has_private_key = false;
  public_key = zero_key;
  has_public_key = false;
  listen_port = pos 0;
  has_listen_port = true;
  firewall_mark = pos 0;
  has_firewall_mark = false;
  peers = ps;
}

abbrev message_one : Device
message_one = device (peer (key_of 1) (net 1 ∷ []) ∷ peer (key_of 2) (net 2 ∷ []) ∷ [])

abbrev message_two : Device
message_two = device (peer (key_of 2) (net 3 ∷ []) ∷ peer (key_of 3) [] ∷ [])

abbrev read : Device → Result ℕ Device
read = ok

merged :
    parse_device read (message_one ∷ message_two ∷ [])
    ≡ ok (
        device (
          peer (key_of 1) (net 1 ∷ [])
          ∷ peer (key_of 2) (net 2 ∷ net 3 ∷ [])
          ∷ peer (key_of 3) []
          ∷ []))
unfolding parse_device equal
merged = refl

parse_device-IsDump_example :
    (out : Device) × (parse_device read (message_one ∷ message_two ∷ []) ≡ ok out)
    × IsDump message_one (message_two ∷ []) out
parse_device-IsDump_example =
    parse_device-IsDump read message_one (message_two ∷ []) message_one (message_two ∷ []) refl
      (refl, tt)
