-- ===== src/Linux/Batch.antt =====
-- `shouldBatch` and `buildBatches` of internal/wglinux/configure_linux.go.
pub mod Chunks
pub mod Requests
pub mod Limits
mod Tests
use Prim.Native.Nat.{min}
use wgctrl_go.Base.{
  ℕ, zero, suc, ◌+◌, ◌-◌, Bool, true, false, ◌&&◌, ◌||◌, List, [], ◌∷◌, ◌++◌, Option, none, some,
  length, take, drop, is_empty, ltb, if◌then◌else◌, equal,
}
use wgctrl_go.Types.{Key, IpNet, AllowedIpConfig, PeerConfig, Config}

abbrev pub ip_batch_chunk : ℕ
ip_batch_chunk = 256

abbrev pub peer_batch_chunk : ℕ
peer_batch_chunk = 32

-- the loop `for _, p := range cfg.Peers { ips += … }`
count_ips : ℕ → List PeerConfig → ℕ
count_ips ips [] = ips
count_ips ips (p ∷ ps) =
    count_ips (ips + (length p.allowed_ips + length p.allowed_ip_operations)) ps

pub should_batch : Config → Bool
unfolding count_ips
should_batch cfg =
    if ltb peer_batch_chunk (length cfg.peers)
    then true
    else ltb ip_batch_chunk (count_ips 0 cfg.peers)

-- The set `knownPeers` and the slice `batches`.
pub record State : Type 0 where
  pub known_peers : List Key
  pub batches : List Config

-- `_, ok := knownPeers[key]`
pub is_known : List Key → Key → Bool
is_known [] key = false
is_known (k ∷ ks) key = equal k key || is_known ks key

-- `tmp` and what is left in `p.AllowedIPs`
pub take_ips : List IpNet → List IpNet × List IpNet
take_ips ips =
    if ltb (length ips) ip_batch_chunk
    then (ips, [])
    else (take ip_batch_chunk ips, drop ip_batch_chunk ips)

-- `operations` and what is left in `p.AllowedIPOperations`, for a batch that holds `used` IPs
pub take_operations : ℕ → List AllowedIpConfig → List AllowedIpConfig × List AllowedIpConfig
take_operations used ops =
    let remaining = min (ip_batch_chunk - used) (length ops) in
    if ltb 0 remaining then (take remaining ops, drop remaining ops) else ([], ops)

-- The peer of one batch. The first occurrence of a peer alone carries its settings.
pub chunk_config : List Key → PeerConfig → List IpNet → List AllowedIpConfig → PeerConfig
chunk_config known p tmp operations =
    let first = is_known known p.public_key in
    record {
      name = none;
      public_key = p.public_key;
      remove = p.remove;
      update_only = p.update_only;
      preshared_key = if first then none else p.preshared_key;
      endpoint = if first then none else p.endpoint;
      persistent_keepalive_interval = if first then none else p.persistent_keepalive_interval;
      replace_allowed_ips = if first then false else p.replace_allowed_ips;
      allowed_ips = tmp;
      allowed_ip_operations = operations;
    }

-- `knownPeers[p.PublicKey] = struct{}{}`, under the same test
pub know : List Key → Key → List Key
know known key = if is_known known key then known else key ∷ known

-- One round of the inner loop: a batch for `base` with one peer.
pub add_batch : Config → PeerConfig → List IpNet → List AllowedIpConfig → State → State
add_batch base p tmp operations s = record {
  known_peers = know s.known_peers p.public_key;
  batches =
      s.batches ++ record base { peers = chunk_config s.known_peers p tmp operations ∷ [] } ∷ [];
}

-- `for !done`; `none` means that the fuel ran out.
pub chunk_peer : ℕ → Config → PeerConfig → List IpNet → List AllowedIpConfig → State → Option State
chunk_peer zero base p ips ops s = none
chunk_peer (suc fuel) base p ips ops s =
    let (tmp, ips') = take_ips ips in
    let (operations, ops') = take_operations (length tmp) ops in
    let s' = add_batch base p tmp operations s in
    let rest = chunk_peer fuel base p ips' ops' s' in
    if is_empty ips' && is_empty ops' then some s' else rest

-- A round that is not the last takes an IP or an operation.
abbrev pub enough : PeerConfig → ℕ
enough p = length p.allowed_ips + length p.allowed_ip_operations + 1

pub chunk_peers : Config → List PeerConfig → State → Option State
chunk_peers base [] s = some s
chunk_peers base (p ∷ ps) s =
    elim (chunk_peer (enough p) base p p.allowed_ips p.allowed_ip_operations s) [
      | none ↦ none
      | some s' ↦ chunk_peers base ps s'
    ]

pub clear_replace : List Config → List Config
clear_replace [] = []
clear_replace (b ∷ bs) = record b { replace_peers = false } ∷ clear_replace bs

-- `for i := range batches { if i > 0 { batches[i].ReplacePeers = false } }`
pub replace_first_only : List Config → List Config
replace_first_only [] = []
replace_first_only (b ∷ bs) = b ∷ clear_replace bs

pub build_batches : Config → Option (List Config)
unfolding should_batch chunk_peers replace_first_only
build_batches cfg =
    if should_batch cfg
    then elim (chunk_peers (record cfg { peers = [] }) cfg.peers
        (record { known_peers = []; batches = [] })) [
          | none ↦ none
          | some s ↦ some (replace_first_only s.batches)
        ]
    else some (cfg ∷ [])
