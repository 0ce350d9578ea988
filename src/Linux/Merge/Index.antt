-- ===== src/Linux/Merge/Index.antt =====
-- The map of known peers holds, for each key, the index of the last peer with it.
use wgctrl_go.Base.{
  ℕ, zero, suc, Bool, true, false, List, [], ◌∷◌, ◌++◌, Option, none, some, length, equal,
  equal_iff, if◌then◌else◌, ◌≡◌, refl, sym, ap, ◌∙◌, arith, append-nil, append_assoc, inl, inr,
  Bool-cases, Option-cases,
}
use mathlib.Core.Path.{subst}
use wgctrl_go.Types.{Key, IpNet, Peer}
use wgctrl_go.Linux.Merge.{KnownPeers, find, append_at}

abbrev pub behind : Option ℕ → Bool → Option ℕ
behind (some i) b = some (suc i)
behind none true = some 0
behind none false = none

unfoldable pub last_index : Key → List Peer → Option ℕ
last_index key [] = none
last_index key (p ∷ ps) = behind (last_index key ps) (equal p.public_key key)

-- All IPs that a list of peers allows for one key, in order.
unfoldable pub ips_of : Key → List Peer → List IpNet
ips_of key [] = []
ips_of key (p ∷ ps) = (if equal p.public_key key then p.allowed_ips else []) ++ ips_of key ps

pub ips_of-append :
    (key : Key) (ps qs : List Peer) → ips_of key (ps ++ qs) ≡ ips_of key ps ++ ips_of key qs
unfolding ips_of
ips_of-append key [] qs = refl
ips_of-append key (p ∷ ps) qs = simp (ips_of-append key ps qs, append_assoc)

pub last_index-append :
    (key : Key) (ps : List Peer) (q : Peer)
    → last_index key (ps ++ q ∷ [])
      ≡ (if equal q.public_key key then some (length ps) else last_index key ps)
unfolding last_index
last_index-append key [] q = ground arith
last_index-append key (p ∷ ps) q = ground (arith, last_index-append key ps q)

last_index-none : (key : Key) (ps : List Peer) → last_index key ps ≡ none → ips_of key ps ≡ []
unfolding last_index ips_of
last_index-none key [] h = refl
last_index-none key (p ∷ ps) h = elim (Option-cases (last_index key ps)) [
  | inr (i, e) ↦ cc (rw e at h)
  | inl e ↦ elim (Bool-cases (equal p.public_key key)) [
    | inl same ↦ cc (rw (e, same) at h)
    | inr other ↦ rw other (last_index-none key ps e)
  ]
]

-- What an append of `ips` for `key` does to the peers.
pub record Appended (key : Key) (ips : List IpNet) (ps qs : List Peer) : Type 0 where
  pub indices : (k : Key) → last_index k qs ≡ last_index k ps
  pub allowed : (k : Key) → ips_of k qs ≡ ips_of k ps ++ (if equal key k then ips else [])
  pub size : length qs ≡ length ps

Appended-here :
    (ips : List IpNet) (p : Peer) (ps : List Peer)
    → last_index p.public_key ps ≡ none
    → Appended p.public_key ips (p ∷ ps) (record p { allowed_ips = p.allowed_ips ++ ips } ∷ ps)
unfolding last_index ips_of
Appended-here ips p ps h = record {
  indices = λ k. refl;
  allowed = λ k. elim (Bool-cases (equal p.public_key k)) [
    | inl same ↦
        let e : ips_of k ps ≡ [] =
          rw (← (equal_iff p.public_key k).0 same) (last_index-none p.public_key ps h) in
        rw (same, e) (append-nil _ ∙ ap (λ l. l ++ ips) (sym (append-nil _)))
    | inr other ↦ rw (other, append-nil)
  ];
  size = refl;
}

Appended-later :
    (key : Key) (ips : List IpNet) (p : Peer) {ps qs : List Peer}
    → Appended key ips ps qs
    → Appended key ips (p ∷ ps) (p ∷ qs)
unfolding last_index ips_of
Appended-later key ips p a = record {
  indices = λ k. rw (a.indices k);
  allowed = λ k. rw (a.allowed k, append_assoc);
  size = ap suc a.size;
}

-- An append at the last index of a key does not panic and adds to the IPs of that key alone.
pub append_at-last :
    (key : Key) (ips : List IpNet) (ps : List Peer) (i : ℕ)
    → last_index key ps ≡ some i
    → (qs : List Peer) × (append_at i ips ps ≡ some qs) × Appended key ips ps qs
unfolding last_index append_at
append_at-last key ips [] i h = cc
append_at-last key ips (p ∷ ps) i h = elim (Option-cases (last_index key ps)) [
  | inr (j, e) ↦
      let (qs, f, a) = append_at-last key ips ps j e in
      let at : suc j ≡ i = cc (rw e at h) in (p ∷ qs, rw (← at) (rw f), Appended-later key ips p a)
  | inl e ↦ elim (Bool-cases (equal p.public_key key)) [
    | inl same ↦
        let at : zero ≡ i = cc (rw (e, same) at h) in
        let here : p.public_key ≡ key = (equal_iff p.public_key key).0 same in
        (
          record p { allowed_ips = p.allowed_ips ++ ips } ∷ ps,
          rw (← at) refl,
          subst
              (λ k. Appended k ips (p ∷ ps) (record p { allowed_ips = p.allowed_ips ++ ips } ∷ ps))
              here (Appended-here ips p ps (rw here e)),
        )
    | inr other ↦ cc (rw (e, other) at h)
  ]
]

-- The map agrees with the peers gathered so far.
pub record IsIndex (known : KnownPeers) (ps : List Peer) : Type 0 where
  pub at_key : (k : Key) → find k known ≡ last_index k ps

-- A round does not panic, keeps the map in step with the peers, and adds the peer's IPs to those of
-- its key.
pub record Merged (known : KnownPeers) (ps qs more : List Peer) : Type 0 where
  pub index : IsIndex known qs
  pub allowed : (k : Key) → ips_of k qs ≡ ips_of k ps ++ ips_of k more
