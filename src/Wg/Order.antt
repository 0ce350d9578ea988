-- ===== src/Wg/Order.antt =====
-- The order in which `wg --list` shows the peers.
use wgctrl_go.Base.{
  ℕ, zero, suc, ◌≤◌, ltb→le, Bool, true, false, List, [], ◌∷◌, equal, length, take, if◌then◌else◌,
  ◌≡◌, refl, ap, subst, ◌==◌, ◌&&◌, All, Bool-cases, inl, inr, arith,
}
use mathlib.Core.List.{Perm}
use wgctrl_go.Std.Sort.{sort_stable, IsSorted, sort_stable-IsSorted, sort_stable-Perm}
use wgctrl_go.Types.{Ip, IpNet, Peer}
use wgctrl_go.Wgconfig.Fields.{is_ipv4}
use wgctrl_go.Wg.List.{last_byte, octet_of, list_peer_last_octet, is_lower, sorted_peers}

abbrev pub byte_at : ℕ → Ip → ℕ
byte_at i [] = 0
byte_at zero (b ∷ ip) = b
byte_at (suc i) (b ∷ ip) = byte_at i ip

-- The bytes in front of an address of version 4 in 16 bytes.
abbrev pub is_mapped : Ip → Bool
is_mapped ip = equal (take 12 ip) (0 ∷ 0 ∷ 0 ∷ 0 ∷ 0 ∷ 0 ∷ 0 ∷ 0 ∷ 0 ∷ 0 ∷ 255 ∷ 255 ∷ [])

-- The last byte of an address with 4 bytes, or of one with 16 that stands for one of version 4
-- (::ffff:a.b.c.d); 256 for another.
abbrev pub octet : Ip → ℕ
octet ip =
    if length ip == 4
    then byte_at 3 ip
    else if length ip == 16 && is_mapped ip
    then byte_at 15 ip
    else 256

-- The octet of the first address, or 256.
abbrev pub first_octet : Peer → ℕ
first_octet p = elim p.allowed_ips [ [] ↦ 256 | n ∷ ns ↦ octet n.ip ]

-- No peer has a lower octet than one in front of it.
abbrev pub AreRising : List Peer → Type 0
AreRising [] = Unit
AreRising (p ∷ ps) = All (λ (q : Peer). first_octet p ≤ first_octet q) ps × AreRising ps

last_byte-byte_at : (n : ℕ) (ip : Ip) → length ip ≡ suc n → last_byte ip ≡ byte_at n ip
last_byte-byte_at n [] h = absurd (omega (arith, h))
last_byte-byte_at zero (b ∷ []) h = refl
last_byte-byte_at (suc n) (b ∷ []) h = absurd (omega (arith, h))
last_byte-byte_at zero (b ∷ c ∷ ip) h = absurd (omega (arith, h))
last_byte-byte_at (suc n) (b ∷ c ∷ ip) h = last_byte-byte_at n (c ∷ ip) (omega (arith, h))

octet_lem : (ip : Ip) → (if is_ipv4 ip then last_byte ip else 256) ≡ octet ip
unfolding is_ipv4
octet_lem ip = elim (Bool-cases (length ip == 4)) [
  | inl e ↦ rw e (last_byte-byte_at 3 ip (ground (arith, e)))
  | inr e ↦ rw e (elim (Bool-cases (length ip == 16)) [
    | inl f ↦ rw f (
        ap (λ (m : ℕ). if is_mapped ip then m else 256)
          (last_byte-byte_at 15 ip (ground (arith, f))))
    | inr f ↦ rw f refl
  ])
]

octet_of-first : (ns : List IpNet) → octet_of ns ≡ elim ns [ [] ↦ 256 | n ∷ ns ↦ octet n.ip ]
octet_of-first [] = refl
octet_of-first (n ∷ ns) = octet_lem n.ip

not_lower : (p q : Peer) → is_lower q p ≡ false → first_octet p ≤ first_octet q
unfolding list_peer_last_octet
not_lower p q h =
    subst (λ (m : ℕ). m ≤ first_octet q) (octet_of-first p.allowed_ips)
      (subst (λ (m : ℕ). octet_of p.allowed_ips ≤ m) (octet_of-first q.allowed_ips) (ltb→le _ _ h))

lower_still :
    (p q : Peer)
    → first_octet p ≤ first_octet q
    → (ps : List Peer) → All (λ (r : Peer). first_octet q ≤ first_octet r) ps
    → All (λ (r : Peer). first_octet p ≤ first_octet r) ps
lower_still p q h [] k = tt
lower_still p q h (r ∷ ps) (k, ks) = (omega (arith, h, k), lower_still p q h ps ks)

sorted-AreRising : (ps : List Peer) → IsSorted is_lower ps → AreRising ps
sorted-AreRising [] s = tt
sorted-AreRising (p ∷ []) s = (tt, tt)
sorted-AreRising (p ∷ q ∷ ps) (h, s) =
    let (all, rest) = sorted-AreRising (q ∷ ps) s in
    ((not_lower p q h, lower_still p q (not_lower p q h) ps all), (all, rest))

is_lower-asymmetric : (p q : Peer) → is_lower p q ≡ true → is_lower q p ≡ false
is_lower-asymmetric p q h = ground arith

-- The peers are put into an order in which each stands once and none is in front of one with a lower
-- octet: the octet of a peer is the last byte of its first allowed address, if that has 4 bytes or
-- is one of version 4 in 16 bytes, and 256 otherwise, so that other peers stand behind.
pub sorted_peers-IsSorted :
    (ps : List Peer) → Perm (sorted_peers ps) ps × AreRising (sorted_peers ps)
unfolding sorted_peers
sorted_peers-IsSorted ps = (
  sort_stable-Perm is_lower ps,
  sorted-AreRising (sort_stable is_lower ps) (sort_stable-IsSorted is_lower is_lower-asymmetric ps),
)
