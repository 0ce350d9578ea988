-- ===== src/Linux/Batch/Limits.antt =====
-- The size of each batch, and the device fields that it carries.
use wgctrl_go.Base.{
  ℕ, suc, ◌+◌, inl, inr, ◌≤◌, ◌<◌, true, false, List, [], ◌∷◌, map, some, length, ◌≡◌, refl, sym,
  ap, ◌∙◌, append-nil, arith, ltb, ltb→le, Bool-cases, All, All-append, length-append,
  if◌then◌else◌,
}
use wgctrl_go.Types.{Key, IpNet, AllowedIpConfig, PeerConfig, Config}
use wgctrl_go.Linux.Attrs.{add_entry, all_entries}
use wgctrl_go.Linux.Batch.{
  State, ip_batch_chunk, peer_batch_chunk, take_ips, take_operations, count_ips, should_batch,
  chunk_config, add_batch, clear_replace, replace_first_only, build_batches,
}
use wgctrl_go.Linux.Batch.Chunks.{
  length-take_operations, length-take_ips, used_ips, next_state, Rounds, finish, again, PeerRounds,
  stop, peer, chunk_peers-PeerRounds,
}
use wgctrl_go.Linux.Batch.Requests.{tagged, peer_requests}

length-map {ℓ κ} :
    {A : Type ℓ} {B : Type κ} (f : A → B) (xs : List A) → length (map f xs) ≡ length xs
length-map f [] = refl
length-map f (x ∷ xs) = ap suc (length-map f xs)

length-all_entries :
    (ips : List IpNet) (ops : List AllowedIpConfig)
    → length (all_entries ips ops) ≡ length ips + length ops
unfolding all_entries
length-all_entries ips ops = length-append (map add_entry ips) ops ∙ rw (length-map add_entry ips)

length-tagged :
    (key : Key) (ips : List IpNet) (ops : List AllowedIpConfig)
    → length (tagged key (all_entries ips ops)) ≡ length ips + length ops
length-tagged key ips ops =
    length-map (λ (e : AllowedIpConfig). (key, e)) (all_entries ips ops)
    ∙ length-all_entries ips ops

count_ips-requests : (n : ℕ) (ps : List PeerConfig) → count_ips n ps ≡ n + length (peer_requests ps)
unfolding count_ips
count_ips-requests n [] = omega arith
count_ips-requests n (p ∷ ps) = omega (
  arith,
  count_ips-requests (n + (length p.allowed_ips + length p.allowed_ip_operations)) ps,
  length-append (tagged p.public_key (all_entries p.allowed_ips p.allowed_ip_operations))
      (peer_requests ps),
  length-tagged p.public_key p.allowed_ips p.allowed_ip_operations,
)

-- What fits in one netlink message.
pub record IsSmall (b : Config) : Type 0 where
  pub few_peers : length b.peers ≤ 32
  pub few_entries : length (peer_requests b.peers) ≤ 256

unbatched-IsSmall : (cfg : Config) → should_batch cfg ≡ false → IsSmall cfg
unfolding should_batch
unbatched-IsSmall cfg h = elim (Bool-cases (ltb peer_batch_chunk (length cfg.peers))) [
  | inl many ↦ absurd (mathlib.Core.Bool.false≢true (sym (rw many at h)))
  | inr few ↦ record {
    few_peers = ltb→le _ _ few;
    few_entries = omega (arith, count_ips-requests 0 cfg.peers, ltb→le _ _ (rw few at h));
  }
]

-- One message of a configuration: small, with its device fields.
pub record IsMessage (cfg b : Config) : Type 0 where
  pub small : IsSmall b
  pub private_key : b.private_key ≡ cfg.private_key
  pub listen_port : b.listen_port ≡ cfg.listen_port
  pub firewall_mark : b.firewall_mark ≡ cfg.firewall_mark

-- A batch of the loop over `base`.
abbrev IsPart : Config → Config → Type 0
IsPart base b = IsMessage base b × (b.replace_peers ≡ base.replace_peers)

next_batch :
    (base : Config) (p : PeerConfig) (ips : List IpNet) (ops : List AllowedIpConfig)
    (known : List Key)
    → IsPart base (record base {
      peers = chunk_config known p (take_ips ips).0 (take_operations (used_ips ips) ops).0 ∷ [];
    })
unfolding chunk_config
next_batch base p ips ops known = (
  record {
    small = record {
      few_peers = omega arith;
      few_entries = omega (
        arith,
        ap length (
            append-nil (
              tagged p.public_key
                (all_entries (take_ips ips).0 (take_operations (used_ips ips) ops).0))),
        length-tagged p.public_key (take_ips ips).0 (take_operations (used_ips ips) ops).0,
        length-take_operations (used_ips ips) ops (length-take_ips ips),
      );
    };
    private_key = refl;
    listen_port = refl;
    firewall_mark = refl;
  },
  refl,
)

next_state-IsPart :
    (base : Config) (p : PeerConfig) (ips : List IpNet) (ops : List AllowedIpConfig) (s : State)
    → All (IsPart base) s.batches
    → All (IsPart base) (next_state base p ips ops s).batches
unfolding add_batch
next_state-IsPart base p ips ops s h =
    All-append (IsPart base) s.batches _ h (next_batch base p ips ops s.known_peers, tt)

Rounds-IsPart :
    {base : Config} {p : PeerConfig} {last : State} {ips : List IpNet} {ops : List AllowedIpConfig}
    {s : State}
    → Rounds base p last ips ops s
    → All (IsPart base) s.batches
    → All (IsPart base) last.batches
Rounds-IsPart {base} {p} (finish {ips} {ops} {s} i o e) h =
    rw e (next_state-IsPart base p ips ops s h)
Rounds-IsPart {base} {p} (again {ips} {ops} {s} r) h =
    Rounds-IsPart r (next_state-IsPart base p ips ops s h)

PeerRounds-IsPart :
    {base : Config} {last : State} {ps : List PeerConfig} {s : State}
    → PeerRounds base last ps s
    → All (IsPart base) s.batches
    → All (IsPart base) last.batches
PeerRounds-IsPart (stop e) h = rw e h
PeerRounds-IsPart (peer r rs) h = PeerRounds-IsPart rs (Rounds-IsPart r h)

-- The first message replaces the peers if the configuration does; no later one does.
abbrev pub ReplacesOnce : Config → List Config → Type 0
ReplacesOnce cfg [] = ⊥
ReplacesOnce cfg (b ∷ bs) =
    (b.replace_peers ≡ cfg.replace_peers) × All (λ c. c.replace_peers ≡ false) bs

clear_replace-messages :
    (base : Config) (bs : List Config)
    → All (IsPart base) bs
    → All (IsMessage base) (clear_replace bs)
      × All (λ c. c.replace_peers ≡ false) (clear_replace bs)
unfolding clear_replace
clear_replace-messages base [] h = (tt, tt)
clear_replace-messages base (b ∷ bs) ((m, _), hs) =
    let (ms, fs) = clear_replace-messages base bs hs in
    (
      (
        record {
          small = record { few_peers = m.small.few_peers; few_entries = m.small.few_entries };
          private_key = m.private_key;
          listen_port = m.listen_port;
          firewall_mark = m.firewall_mark;
        },
        ms,
      ),
      (refl, fs),
    )

replace_first_only-messages :
    (base : Config) (bs : List Config)
    → 0 < length bs
    → All (IsPart base) bs
    → All (IsMessage base) (replace_first_only bs) × ReplacesOnce base (replace_first_only bs)
unfolding replace_first_only
replace_first_only-messages base [] pos_length h = absurd (omega arith)
replace_first_only-messages base (b ∷ bs) _ ((m, r), hs) =
    let (ms, fs) = clear_replace-messages base bs hs in ((m, ms), (r, fs))

-- The loop adds a batch for each peer.
length-next_state :
    (base : Config) (p : PeerConfig) (ips : List IpNet) (ops : List AllowedIpConfig) (s : State)
    → length (next_state base p ips ops s).batches ≡ length s.batches + 1
unfolding add_batch
length-next_state base p ips ops s = length-append s.batches _

length-Rounds :
    {base : Config} {p : PeerConfig} {last : State} {ips : List IpNet} {ops : List AllowedIpConfig}
    {s : State}
    → Rounds base p last ips ops s
    → length s.batches < length last.batches
length-Rounds {base} {p} (finish {ips} {ops} {s} i o e) =
    rw e (omega (arith, length-next_state base p ips ops s))
length-Rounds {base} {p} (again {ips} {ops} {s} r) =
    omega (arith, length-Rounds r, length-next_state base p ips ops s)

length-PeerRounds :
    {base : Config} {last : State} {ps : List PeerConfig} {s : State}
    → PeerRounds base last ps s
    → length s.batches + length ps ≤ length last.batches
length-PeerRounds (stop e) = rw e (omega arith)
length-PeerRounds (peer r rs) = omega (arith, length-Rounds r, length-PeerRounds rs)

large_has_peers : (cfg : Config) → should_batch cfg ≡ true → 0 < length cfg.peers
unfolding should_batch count_ips
large_has_peers cfg h = with_peers cfg.peers h
  where
    with_peers :
        (ps : List PeerConfig)
        → (if ltb peer_batch_chunk (length ps) then true else ltb ip_batch_chunk (count_ips 0 ps))
          ≡ true
        → 0 < length ps
    with_peers [] e = cc
    with_peers (p ∷ ps) e = omega arith

IsMessage-config :
    (cfg : Config) (bs : List Config)
    → All (IsMessage (record cfg { peers = [] })) bs
    → All (IsMessage cfg) bs
IsMessage-config cfg [] h = tt
IsMessage-config cfg (b ∷ bs) (m, ms) = (
  record {
    small = m.small;
    private_key = m.private_key;
    listen_port = m.listen_port;
    firewall_mark = m.firewall_mark;
  },
  IsMessage-config cfg bs ms,
)

ReplacesOnce-config :
    (cfg : Config) (bs : List Config)
    → ReplacesOnce (record cfg { peers = [] }) bs
    → ReplacesOnce cfg bs
ReplacesOnce-config cfg [] h = h
ReplacesOnce-config cfg (b ∷ bs) h = h

-- `buildBatches` always ends. Every message that it builds holds at most 32 peers and 256 entries
-- and carries the device fields of the configuration; there is a first message, whose
-- `ReplacePeers` is that of the configuration, and it is false in all later ones.
pub build_batches-messages :
    (cfg : Config)
    → (bs : List Config) × (build_batches cfg ≡ some bs)
      × All (IsMessage cfg) bs
      × ReplacesOnce cfg bs
unfolding build_batches
build_batches-messages cfg = elim (Bool-cases (should_batch cfg)) [
  | inl large ↦
      let base = record cfg { peers = [] } in
      let (last, e, r) =
        chunk_peers-PeerRounds base cfg.peers (record { known_peers = []; batches = [] }) in
      let (ms, once) =
        replace_first_only-messages base last.batches
          (omega (arith, length-PeerRounds r, large_has_peers cfg large))
          (PeerRounds-IsPart r tt) in
      (
        replace_first_only last.batches,
        rw (large, e),
        IsMessage-config cfg _ ms,
        ReplacesOnce-config cfg _ once,
      )
  | inr small ↦ (
    cfg ∷ [],
    rw small,
    (
      record {
        small = unbatched-IsSmall cfg small;
        private_key = refl;
        listen_port = refl;
        firewall_mark = refl;
      },
      tt,
    ),
    (refl, tt),
  )
]
