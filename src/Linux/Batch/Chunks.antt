-- ===== src/Linux/Batch/Chunks.antt =====
-- One round of the inner loop of `buildBatches`: what is taken, and that the loop ends.
use Prim.Native.Nat.{min}
use wgctrl_go.Base.{
  ℕ, zero, suc, ◌+◌, ◌-◌, ◌≤◌, ◌<◌, Bool, true, false, ◌&&◌, ◌≡◌, refl, inl, inr, List, [], ◌∷◌,
  ◌++◌, ap, length_pos, some, length, drop, is_empty, ltb, arith, Bool-cases, append-nil,
  length-take, length-drop, length-take_eq, length-take_le, ltb→le, is_empty-eq-nil,
  take-append-drop, length-append,
}
use wgctrl_go.Types.{IpNet, AllowedIpConfig, PeerConfig, Config}
use wgctrl_go.Linux.Batch.{
  State, ip_batch_chunk, take_ips, take_operations, add_batch, chunk_peer, chunk_peers, enough,
}

pub take_ips-append : (ips : List IpNet) → (take_ips ips).0 ++ (take_ips ips).1 ≡ ips
unfolding take_ips
take_ips-append ips = elim (Bool-cases (ltb (length ips) ip_batch_chunk)) [
  | inl small ↦ rw small (append-nil ips)
  | inr large ↦ rw large (take-append-drop ip_batch_chunk ips)
]

pub length-take_ips : (ips : List IpNet) → length (take_ips ips).0 ≤ 256
unfolding take_ips
length-take_ips ips = elim (Bool-cases (ltb (length ips) ip_batch_chunk)) [
  | inl small ↦ rw small (ground arith)
  | inr large ↦ rw large (length-take_le ip_batch_chunk ips)
]

-- If IPs are left, the batch is full.
pub take_ips_full :
    (ips : List IpNet) → is_empty (take_ips ips).1 ≡ false → length (take_ips ips).0 ≡ 256
unfolding take_ips
take_ips_full ips h = elim (Bool-cases (ltb (length ips) ip_batch_chunk)) [
  | inl small ↦ cc (rw small at h)
  | inr large ↦ rw large (length-take_eq ip_batch_chunk ips (ltb→le _ _ large))
]

pub take_operations-append :
    (used : ℕ) (ops : List AllowedIpConfig)
    → (take_operations used ops).0 ++ (take_operations used ops).1 ≡ ops
unfolding take_operations
take_operations-append used ops =
    let n : ℕ = min (ip_batch_chunk - used) (length ops) in
    elim (Bool-cases (ltb 0 n)) [
      | inl more ↦ rw more (take-append-drop n ops)
      | inr zero_left ↦ rw zero_left
    ]

pub length-take_operations :
    (used : ℕ) (ops : List AllowedIpConfig)
    → used ≤ 256
    → used + length (take_operations used ops).0 ≤ 256
unfolding take_operations
length-take_operations used ops h =
    let n : ℕ = min (ip_batch_chunk - used) (length ops) in
    elim (Bool-cases (ltb 0 n)) [
      | inl more ↦ rw more (omega (arith, length-take n ops))
      | inr zero_left ↦ rw zero_left (omega arith)
    ]

-- If operations are left, the batch is full.
pub take_operations_full :
    (used : ℕ) (ops : List AllowedIpConfig)
    → used ≤ 256
    → is_empty (take_operations used ops).1 ≡ false
    → used + length (take_operations used ops).0 ≡ 256
unfolding take_operations
take_operations_full used ops h left =
    let n : ℕ = min (ip_batch_chunk - used) (length ops) in
    elim (Bool-cases (ltb 0 n)) [
      | inl more ↦ rw more (
          omega (
            arith,
            length-take n ops,
            length-drop n ops,
            length_pos (drop n ops) (rw more at left),
          ))
      | inr none_fit ↦
          rw none_fit (omega (arith, ltb→le 0 n none_fit, length_pos ops (rw none_fit at left)))
    ]

-- What a round leaves over, of IPs and of operations.
abbrev pub left_ips : List IpNet → List IpNet
left_ips ips = (take_ips ips).1

abbrev pub used_ips : List IpNet → ℕ
used_ips ips = length (take_ips ips).0

abbrev pub left_operations : List IpNet → List AllowedIpConfig → List AllowedIpConfig
left_operations ips ops = (take_operations (used_ips ips) ops).1

-- A round that is not the last takes 256 entries.
round_full :
    (ips : List IpNet) (ops : List AllowedIpConfig)
    → (is_empty (left_ips ips) && is_empty (left_operations ips ops)) ≡ false
    → used_ips ips + length (take_operations (used_ips ips) ops).0 ≡ 256
round_full ips ops h = elim (Bool-cases (is_empty (left_ips ips))) [
  | inl no_ips ↦ take_operations_full (used_ips ips) ops (length-take_ips ips) (rw no_ips at h)
  | inr more_ips ↦ omega (
    arith,
    take_ips_full ips more_ips,
    length-take_operations (used_ips ips) ops (length-take_ips ips),
  )
]

pub round_shrinks :
    (ips : List IpNet) (ops : List AllowedIpConfig)
    → (is_empty (left_ips ips) && is_empty (left_operations ips ops)) ≡ false
    → length (left_ips ips) + length (left_operations ips ops) < length ips + length ops
round_shrinks ips ops h = omega (
  arith,
  round_full ips ops h,
  length-append (take_ips ips).0 (left_ips ips),
  ap length (take_ips-append ips),
  length-append (take_operations (used_ips ips) ops).0 (left_operations ips ops),
  ap length (take_operations-append (used_ips ips) ops),
)

-- The state after a round.
abbrev pub next_state : Config → PeerConfig → List IpNet → List AllowedIpConfig → State → State
next_state base p ips ops = add_batch base p (take_ips ips).0 (take_operations (used_ips ips) ops).0

-- The rounds that the loop makes for one peer.
pub data Rounds (base : Config) (p : PeerConfig) (last : State)
    : List IpNet → List AllowedIpConfig → State → Type 0 where
  finish :
      {ips : List IpNet} {ops : List AllowedIpConfig} {s : State}
      → left_ips ips ≡ []
      → left_operations ips ops ≡ []
      → last ≡ next_state base p ips ops s
      → Rounds base p last ips ops s
  again :
      {ips : List IpNet} {ops : List AllowedIpConfig} {s : State}
      → Rounds base p last (left_ips ips) (left_operations ips ops) (next_state base p ips ops s)
      → Rounds base p last ips ops s

-- The loop over the peers.
pub data PeerRounds (base : Config) (last : State) : List PeerConfig → State → Type 0 where
  stop : {s : State} → last ≡ s → PeerRounds base last [] s
  peer :
      {p : PeerConfig} {ps : List PeerConfig} {s t : State}
      → Rounds base p t p.allowed_ips p.allowed_ip_operations s
      → PeerRounds base last ps t
      → PeerRounds base last (p ∷ ps) s

both_true : (a b : Bool) → (a && b) ≡ true → (a ≡ true) × (b ≡ true)
both_true a b h = ground arith

-- With more fuel than entries the loop of one peer ends.
pub chunk_peer-Rounds :
    (fuel : ℕ) (base : Config) (p : PeerConfig) (ips : List IpNet) (ops : List AllowedIpConfig)
    (s : State)
    → length ips + length ops < fuel
    → (last : State) × (chunk_peer fuel base p ips ops s ≡ some last) × Rounds base p last ips ops s
unfolding chunk_peer
chunk_peer-Rounds zero base p ips ops s h = elim h [ ]
chunk_peer-Rounds (suc fuel) base p ips ops s h =
    elim (Bool-cases (is_empty (left_ips ips) && is_empty (left_operations ips ops))) [
      | inl done ↦
          let (no_ips, no_ops) = both_true _ _ done in
          (
            next_state base p ips ops s,
            rw done refl,
            finish (is_empty-eq-nil _ no_ips) (is_empty-eq-nil _ no_ops) refl,
          )
      | inr more ↦
          let (last, e, r) =
            chunk_peer-Rounds fuel base p (left_ips ips) (left_operations ips ops)
              (next_state base p ips ops s) (omega (arith, round_shrinks ips ops more)) in
          (last, rw more e, again r)
    ]

chunk_peers_step :
    (base : Config) (p : PeerConfig) (ps : List PeerConfig) (s t last : State)
    → chunk_peer (enough p) base p p.allowed_ips p.allowed_ip_operations s ≡ some t
    → chunk_peers base ps t ≡ some last
    → chunk_peers base (p ∷ ps) s ≡ some last
unfolding chunk_peers
chunk_peers_step base p ps s t last e h = rw (e, chunk_peers) h

pub chunk_peers-PeerRounds :
    (base : Config) (ps : List PeerConfig) (s : State)
    → (last : State) × (chunk_peers base ps s ≡ some last) × PeerRounds base last ps s
chunk_peers-PeerRounds base [] s = (s, unfold chunk_peers in refl, stop refl)
chunk_peers-PeerRounds base (p ∷ ps) s =
    let first =
      chunk_peer-Rounds (enough p) base p p.allowed_ips p.allowed_ip_operations s (omega arith) in
    let (last, e, r) = chunk_peers-PeerRounds base ps first.0 in
    (last, chunk_peers_step base p ps s first.0 last first.1 e, peer first.2 r)
