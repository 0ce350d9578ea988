-- ===== src/Linux/Merge.antt =====
-- `mergeDevices` and the loop of `parseDevice` of internal/wglinux/parse_linux.go. One dump may
-- come in several messages; `decode` stands for `parseDeviceLoop`, which reads one message.
pub mod Index
pub mod Dump
mod Tests
use wgctrl_go.Base.{
  ℕ, zero, suc, Bool, List, [], ◌∷◌, ◌++◌, Option, none, some, length, equal, if◌then◌else◌,
}
use wgctrl_go.Base.Result.{Result, ok, err}
use wgctrl_go.Types.{Key, IpNet, Peer, Device, unknown, zero_key}
use wgctrl_go.Base.Int.{pos}

-- The map `knownPeers`; an assignment is put in front of what it replaces.
abbrev pub KnownPeers : Type 0
KnownPeers = List (Key × ℕ)

-- `peerIndex, ok := knownPeers[key]`
pub find : Key → KnownPeers → Option ℕ
find key [] = none
find key ((k, i) ∷ ks) = if equal k key then some i else find key ks

-- `target.Peers[i].AllowedIPs = append(target.Peers[i].AllowedIPs, ips...)`; `none` is the panic of
-- an index out of range.
pub append_at : ℕ → List IpNet → List Peer → Option (List Peer)
append_at i ips [] = none
append_at zero ips (p ∷ ps) = some (record p { allowed_ips = p.allowed_ips ++ ips } ∷ ps)
append_at (suc i) ips (p ∷ ps) = elim (append_at i ips ps) [ none ↦ none | some qs ↦ some (p ∷ qs) ]

-- One round of `mergeDevices`.
pub merge_peer : List Peer → KnownPeers → Peer → Option (List Peer × KnownPeers)
merge_peer target known p = elim (find p.public_key known) [
  | some i ↦ elim (append_at i p.allowed_ips target) [
    | none ↦ none
    | some target' ↦ some (target', known)
  ]
  | none ↦ some (target ++ p ∷ [], (p.public_key, length target) ∷ known)
]

-- `mergeDevices`, which changes the target's peers and the map.
pub merge_devices : List Peer → KnownPeers → List Peer → Option (List Peer × KnownPeers)
merge_devices target known [] = some (target, known)
merge_devices target known (p ∷ ps) = elim (merge_peer target known p) [
  | none ↦ none
  | some (target', known') ↦ merge_devices target' known' ps
]

-- `for i := range first.Peers { knownPeers[first.Peers[i].PublicKey] = i }`
pub gather : ℕ → List Peer → KnownPeers → KnownPeers
gather i [] known = known
gather i (p ∷ ps) known = gather (suc i) ps ((p.public_key, i) ∷ known)

pub data DumpError {ℓ} (E : Type ℓ) : Type ℓ where
  decode_failed : E → DumpError E
  panicked : DumpError E

module _ {ℓ κ} {M : Type ℓ} {E : Type κ} (decode : M → Result E Device) where
  -- The rounds after the first.
  unfoldable pub merge_messages : Device → KnownPeers → List M → Result (DumpError E) Device
  unfolding merge_devices merge_peer append_at find
  merge_messages first known [] = ok first
  merge_messages first known (m ∷ ms) = elim (decode m) [
    | err e ↦ err (decode_failed e)
    | ok d ↦ elim (merge_devices first.peers known d.peers) [
      | none ↦ err panicked
      | some (peers', known') ↦ merge_messages (record first { peers = peers' }) known' ms
    ]
  ]

  -- `parseDevice`; with no message it returns the zero device.
  unfoldable pub parse_device : List M → Result (DumpError E) Device
  unfolding merge_messages gather
  parse_device [] = ok (record {
    name = [];
    type = unknown;
    private_key = zero_key;
    has_private_key = Bool.false;
    public_key = zero_key;
    has_public_key = Bool.false;
    listen_port = pos 0;
    has_listen_port = Bool.false;
    firewall_mark = pos 0;
    has_firewall_mark = Bool.false;
    peers = [];
  })
  parse_device (m ∷ ms) = elim (decode m) [
    | err e ↦ err (decode_failed e)
    | ok first ↦ merge_messages first (gather 0 first.peers []) ms
  ]
