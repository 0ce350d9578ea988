-- ===== src/Linux/Batch/Requests.antt =====
-- What the batches ask of the kernel, entry by entry.
use mathlib.Core.List.{map-append}
use wgctrl_go.Base.{
  List, [], ◌∷◌, ◌++◌, map, some, is_empty, ◌≡◌, refl, sym, ◌∙◌, ◌⊎◌, inl, inr, append-nil,
  append_assoc, arith, Bool-cases, nil_of_length, is_empty-eq-nil,
}
use wgctrl_go.Types.{Key, IpNet, AllowedIpConfig, PeerConfig, Config}
use wgctrl_go.Linux.Attrs.{add_entry, all_entries}
use wgctrl_go.Linux.Batch.{
  State, take_ips, take_operations, should_batch, chunk_config, add_batch, clear_replace,
  replace_first_only, build_batches,
}
use wgctrl_go.Linux.Batch.Chunks.{
  take_ips-append, take_operations-append, take_ips_full, length-take_operations, length-take_ips,
  left_ips, used_ips, left_operations, next_state, Rounds, finish, again, PeerRounds, stop, peer,
  chunk_peers-PeerRounds,
}

-- The entries sent for a list of peers, each beside the peer's key.
abbrev pub tagged : Key → List AllowedIpConfig → List (Key × AllowedIpConfig)
tagged key = map (λ e. (key, e))

abbrev pub peer_requests : List PeerConfig → List (Key × AllowedIpConfig)
peer_requests [] = []
peer_requests (p ∷ ps) =
    tagged p.public_key (all_entries p.allowed_ips p.allowed_ip_operations) ++ peer_requests ps

abbrev pub batch_requests : List Config → List (Key × AllowedIpConfig)
batch_requests [] = []
batch_requests (b ∷ bs) = peer_requests b.peers ++ batch_requests bs

batch_requests-append :
    (xs ys : List Config) → batch_requests (xs ++ ys) ≡ batch_requests xs ++ batch_requests ys
batch_requests-append [] ys = refl
batch_requests-append (x ∷ xs) ys = simp (batch_requests-append xs ys, append_assoc)

regroup :
    (t l : List IpNet) (o m : List AllowedIpConfig)
    → (l ≡ []) ⊎ (o ≡ [])
    → all_entries (t ++ l) (o ++ m) ≡ all_entries t o ++ all_entries l m
unfolding all_entries
regroup t l o m (inl e) = rw (e, append-nil) (sym (append_assoc (map add_entry t) o m))
regroup t l o m (inr e) = simp (e, append-nil, map-append, append_assoc)

-- Operations wait until no IPs are left.
round_order :
    (ips : List IpNet) (ops : List AllowedIpConfig)
    → (left_ips ips ≡ []) ⊎ ((take_operations (used_ips ips) ops).0 ≡ [])
round_order ips ops = elim (Bool-cases (is_empty (left_ips ips))) [
  | inl no_ips ↦ inl (is_empty-eq-nil _ no_ips)
  | inr more_ips ↦ inr (
      nil_of_length _ (
        omega (
          arith,
          take_ips_full ips more_ips,
          length-take_operations (used_ips ips) ops (length-take_ips ips),
        )))
]

-- A batch takes the front of a peer's entries.
round_entries :
    (ips : List IpNet) (ops : List AllowedIpConfig)
    → all_entries ips ops
      ≡ all_entries (take_ips ips).0 (take_operations (used_ips ips) ops).0
        ++ all_entries (left_ips ips) (left_operations ips ops)
round_entries ips ops = cc (
  regroup _ _ _ _ (round_order ips ops),
  take_ips-append ips,
  take_operations-append (used_ips ips) ops,
)

next_requests :
    (base : Config) (p : PeerConfig) (ips : List IpNet) (ops : List AllowedIpConfig) (s : State)
    → batch_requests (next_state base p ips ops s).batches
      ≡ batch_requests s.batches
        ++ tagged p.public_key (all_entries (take_ips ips).0 (take_operations (used_ips ips) ops).0)
unfolding add_batch chunk_config
next_requests base p ips ops s = simp (batch_requests-append, append-nil)

last_entries :
    (ips : List IpNet) (ops : List AllowedIpConfig)
    → left_ips ips ≡ []
    → left_operations ips ops ≡ []
    → all_entries (take_ips ips).0 (take_operations (used_ips ips) ops).0 ≡ all_entries ips ops
last_entries ips ops i o =
    sym (round_entries ips ops ∙ rw (i, o) (unfold all_entries in append-nil _))

Rounds-requests :
    {base : Config} {p : PeerConfig} {last : State} {ips : List IpNet} {ops : List AllowedIpConfig}
    {s : State}
    → Rounds base p last ips ops s
    → batch_requests last.batches
      ≡ batch_requests s.batches ++ tagged p.public_key (all_entries ips ops)
Rounds-requests {base} {p} (finish {ips} {ops} {s} i o e) =
    rw e (next_requests base p ips ops s ∙ rw (last_entries ips ops i o))
Rounds-requests {base} {p} (again {ips} {ops} {s} r) =
    Rounds-requests r
    ∙ rw (next_requests base p ips ops s, round_entries ips ops, map-append, append_assoc)

PeerRounds-requests :
    {base : Config} {last : State} {ps : List PeerConfig} {s : State}
    → PeerRounds base last ps s
    → batch_requests last.batches ≡ batch_requests s.batches ++ peer_requests ps
PeerRounds-requests (stop e) = rw (e, append-nil)
PeerRounds-requests (peer {p} {ps} r rs) =
    PeerRounds-requests rs ∙ rw (Rounds-requests r, append_assoc)

clear_replace-requests : (bs : List Config) → batch_requests (clear_replace bs) ≡ batch_requests bs
unfolding clear_replace
clear_replace-requests [] = refl
clear_replace-requests (b ∷ bs) = rw (clear_replace-requests bs)

replace_first_only-requests :
    (bs : List Config) → batch_requests (replace_first_only bs) ≡ batch_requests bs
unfolding replace_first_only
replace_first_only-requests [] = refl
replace_first_only-requests (b ∷ bs) = rw (clear_replace-requests bs)

-- `buildBatches` always ends, and its batches together ask for exactly the allowed IPs and
-- operations of the configuration, for the same peers and in the same order.
pub build_batches-requests :
    (cfg : Config)
    → (bs : List Config) × (build_batches cfg ≡ some bs)
      × (batch_requests bs ≡ peer_requests cfg.peers)
unfolding build_batches
build_batches-requests cfg = elim (Bool-cases (should_batch cfg)) [
  | inl large ↦
      let (last, e, r) =
        chunk_peers-PeerRounds (record cfg { peers = [] }) cfg.peers
          (record { known_peers = []; batches = [] }) in
      (
        replace_first_only last.batches,
        rw (large, e),
        replace_first_only-requests last.batches ∙ PeerRounds-requests r,
      )
  | inr small ↦ (cfg ∷ [], rw small, append-nil _)
]
