-- ===== src/Wgcli/Shown.antt =====
-- What the output of wg(8) shows: durations, the order of the peers, and no hidden key.
use wgctrl_go.Base.{
  ℕ, ◌+◌, ◌*◌, ◌/◌, ◌%◌, ◌≤◌, Bool, true, false, List, [], ◌∷◌, ◌++◌, map, Option, none, some, Text,
  leb, leb→le, ◌≡◌, refl, sym, ap, subst, ◌∙◌, arith, Bool-cases, inl, inr, All,
}
use wgctrl_go.Std.Sort.{insert, sort_stable}
use wgctrl_go.Types.{Peer, Device, UnixTime}
use wgctrl_go.Wgcli.Durations.{units, split_units, total, IsSplit}
use wgctrl_go.Wgapi.Hidden.{hide, hide_peer}
use wgctrl_go.Wgcli.Show.{
  Texts, display_key, pretty_peer, pretty_peers, pretty_interface, by_handshake, pretty,
}
use native.Mathlib.Nat.{mod-lt, le-div_iff_mul-le, div-add-mod'}

-- The last unit is 1, and none is 0.
abbrev EndsInOne : List (ℕ × Text) → Type 0
EndsInOne [] = false ≡ true
EndsInOne ((n, s) ∷ []) = n ≡ 1
EndsInOne ((n, s) ∷ u ∷ us) = (1 ≤ n) × EndsInOne (u ∷ us)

rest_of : (n v : ℕ) → (v / n) * n + v % n ≡ v
rest_of n v = div-add-mod' v n

-- A unit that goes into `v` goes into it at least once.
once : (n v : ℕ) → 1 ≤ n → n ≤ v → 1 ≤ v / n
once n v h k = (le-div_iff_mul-le h).1 (omega (arith, k))

split_units-last :
    (s : Text) (v : ℕ)
    → (total (split_units ((1, s) ∷ []) v) ≡ v) × IsSplit (split_units ((1, s) ∷ []) v)
unfolding split_units
split_units-last s v = elim (Bool-cases (leb 1 v)) [
  | inl e ↦ rw e (omega arith, (once 1 v (omega arith) (leb→le 1 v e), omega arith, tt))
  | inr e ↦ rw e (ground (arith, e), tt)
]

split_units-total :
    (us : List (ℕ × Text))
    → EndsInOne us
    → (v : ℕ) → (total (split_units us v) ≡ v) × IsSplit (split_units us v)
unfolding split_units
split_units-total [] h v = cc
split_units-total ((n, s) ∷ []) h v =
    subst
      (λ (m : ℕ). (total (split_units ((m, s) ∷ []) v) ≡ v) × IsSplit (split_units ((m, s) ∷ []) v))
      (sym h) (split_units-last s v)
split_units-total ((n, s) ∷ u ∷ us) (h, k) v = elim (Bool-cases (leb n v)) [
  | inl e ↦
      let rest = split_units-total (u ∷ us) k (v % n) in
      rw e (
        ap (λ x. (v / n) * n + x) rest.0 ∙ rest_of n v,
        (once n v h (leb→le n v e), rw rest.0 (mod-lt v h), rest.1),
      )
  | inr e ↦ rw e (split_units-total (u ∷ us) k v)
]

-- The parts of a duration, in years, days, hours, minutes and seconds, make up its seconds exactly;
-- each part counts at least 1, and those behind it stand for less than its unit.
pub split_units-IsSplit :
    (v : ℕ) → (total (split_units units v) ≡ v) × IsSplit (split_units units v)
split_units-IsSplit v =
    split_units-total units (omega arith, (omega arith, (omega arith, (omega arith, refl)))) v

module _ (out : Texts) where
  -- Of two times at most one is after the other, and a time that is not after another is not after
  -- one that is not before that.
  abbrev pub IsOrder : Type 0
  IsOrder =
      ((a b : UnixTime) → out.after a b ≡ true → out.after b a ≡ false)
      × ((a b c : UnixTime) → out.after b a ≡ false → out.after c b ≡ false → out.after c a ≡ false)

  -- What may stand in front of what: no handshake in front of none but no handshake, and a time in
  -- front of no later time.
  abbrev pub InFront : Option UnixTime → Option UnixTime → Type 0
  InFront none (some b) = false ≡ true
  InFront (some a) (some b) = out.after b a ≡ false
  InFront _ none = Unit

  abbrev pub IsLatestFirst : List Peer → Type 0
  IsLatestFirst [] = Unit
  IsLatestFirst (p ∷ ps) =
      All (λ (q : Peer). InFront p.last_handshake_time q.last_handshake_time) ps × IsLatestFirst ps

  insert-hide :
      (p : Peer) (ps : List Peer)
      → insert (by_handshake out) (hide_peer p) (map hide_peer ps)
        ≡ map hide_peer (insert (by_handshake out) p ps)
  unfolding insert
  insert-hide p [] = refl
  insert-hide p (q ∷ ps) = elim (Bool-cases (by_handshake out q p)) [
    | inl e ↦ rw e (ap (◌∷◌ (hide_peer q)) (insert-hide p ps))
    | inr e ↦ rw e refl
  ]

  sort-hide :
      (ps : List Peer)
      → sort_stable (by_handshake out) (map hide_peer ps)
        ≡ map hide_peer (sort_stable (by_handshake out) ps)
  unfolding sort_stable
  sort-hide [] = refl
  sort-hide (p ∷ ps) = rw (sort-hide ps) (insert-hide p (sort_stable (by_handshake out) ps))

  peers-hide :
      (color : Bool) (ps : List Peer)
      → pretty_peers out false color (map hide_peer ps) ≡ pretty_peers out false color ps
  unfolding pretty_peers pretty_peer display_key
  peers-hide color [] = refl
  peers-hide color (p ∷ ps) =
      ap (λ rest. 10 ∷ pretty_peer out false color p ++ rest) (peers-hide color ps)

  -- Without `showKeys`, `Pretty` writes the same for a device whose private key and preshared keys
  -- are all zero.
  pub pretty-hide :
      (d : Device) (color : Bool) → pretty out (hide d) false color ≡ pretty out d false color
  unfolding pretty pretty_interface display_key
  pretty-hide d color =
      ap (λ rest. pretty_interface false color d ++ rest)
        (ap (pretty_peers out false color) (sort-hide d.peers)
          ∙ peers-hide color (sort_stable (by_handshake out) d.peers))
