-- ===== src/Linux/Merge/Dump.antt =====
-- A dump in several messages: nothing is lost, and no index is out of range.
use mathlib.Core.Path.{subst₂}
use wgctrl_go.Base.{
  suc, List, [], ◌∷◌, ◌++◌, some, length, equal, if◌then◌else◌, ◌≡◌, refl, sym, ap, ◌∙◌, arith,
  append-nil, append_assoc, length-append, Option-cases, inl, inr,
}
use wgctrl_go.Base.Result.{Result, ok}
use wgctrl_go.Types.{Key, IpNet, Peer, Device}
use wgctrl_go.Linux.Merge.{
  KnownPeers, find, merge_peer, merge_devices, gather, merge_messages, parse_device,
}
use wgctrl_go.Linux.Merge.Index.{
  last_index, ips_of, ips_of-append, last_index-append, append_at-last, IsIndex, Merged,
}

IsIndex-append :
    (known : KnownPeers) (ps : List Peer) (q : Peer)
    → IsIndex known ps
    → IsIndex ((q.public_key, length ps) ∷ known) (ps ++ q ∷ [])
unfolding find
IsIndex-append known ps q h = record {
  at_key = λ k.
      rw last_index-append
        (ap (λ o. if equal q.public_key k then some (length ps) else o) (h.at_key k));
}

merge_peer-Merged :
    (known : KnownPeers) (ps : List Peer) (p : Peer)
    → IsIndex known ps
    → (qs : List Peer) × (known' : KnownPeers) × (merge_peer ps known p ≡ some (qs, known'))
      × Merged known' ps qs (p ∷ [])
merge_peer-Merged known ps p h = elim (Option-cases (find p.public_key known)) [
  | inl new ↦ (
    ps ++ p ∷ [],
    (p.public_key, length ps) ∷ known,
    unfold merge_peer in rw (new, merge_peer),
    record { index = IsIndex-append known ps p h; allowed = λ k. ips_of-append k ps (p ∷ []) },
  )
  | inr (i, old) ↦
      let (qs, e, a) =
        append_at-last p.public_key p.allowed_ips ps i (sym (h.at_key p.public_key) ∙ old) in
      (
        qs,
        known,
        unfold merge_peer in rw (old, merge_peer) (rw e),
        record {
          index = record { at_key = λ k. h.at_key k ∙ sym (a.indices k) };
          allowed =
              λ k. a.allowed k ∙ ap (◌++◌ (ips_of k ps)) (unfold ips_of in sym (append-nil _));
        },
      )
]

merge_devices_step :
    (known known' : KnownPeers) (ps qs more : List Peer) (p : Peer) {r : List Peer × KnownPeers}
    → merge_peer ps known p ≡ some (qs, known')
    → merge_devices qs known' more ≡ some r
    → merge_devices ps known (p ∷ more) ≡ some r
unfolding merge_devices
merge_devices_step known known' ps qs more p e h = rw (e, merge_devices) h

merge_devices-Merged :
    (known : KnownPeers) (ps more : List Peer)
    → IsIndex known ps
    → (qs : List Peer) × (known' : KnownPeers) × (merge_devices ps known more ≡ some (qs, known'))
      × Merged known' ps qs more
merge_devices-Merged known ps [] h = (
  ps,
  known,
  unfold merge_devices in refl,
  record { index = h; allowed = λ k. unfold ips_of in sym (append-nil _) },
)
merge_devices-Merged known ps (p ∷ more) h =
    let one = merge_peer-Merged known ps p h in
    let rest = merge_devices-Merged one.1 one.0 more one.3.index in
    (
      rest.0,
      rest.1,
      merge_devices_step known one.1 ps one.0 more p one.2 rest.2,
      record {
        index = rest.3.index;
        allowed = λ k.
            rest.3.allowed k
            ∙ ap (λ l. l ++ ips_of k more) (one.3.allowed k)
            ∙ append_assoc (ips_of k ps) (ips_of k (p ∷ [])) (ips_of k more)
            ∙ ap (◌++◌ (ips_of k ps)) (sym (ips_of-append k (p ∷ []) more));
      },
    )

gather-IsIndex :
    (done ps : List Peer) (known : KnownPeers)
    → IsIndex known done
    → IsIndex (gather (length done) ps known) (done ++ ps)
unfolding gather
gather-IsIndex done [] known h = rw append-nil h
gather-IsIndex done (p ∷ ps) known h =
    let known' = (p.public_key, length done) ∷ known in
    let grown : length (done ++ p ∷ []) ≡ suc (length done) =
      omega (arith, length-append done (p ∷ [])) in
    subst₂ (λ n l. IsIndex (gather n ps known') l) grown (append_assoc done (p ∷ []) ps)
      (gather-IsIndex (done ++ p ∷ []) ps known' (IsIndex-append known done p h))

-- The IPs that a dump's messages allow for one key, in order.
abbrev pub dump_ips : Key → List Device → List IpNet
dump_ips key [] = []
dump_ips key (d ∷ ds) = ips_of key d.peers ++ dump_ips key ds

-- `out` is the device of the first message with the peers of all messages.
pub record IsDump (first : Device) (more : List Device) (out : Device) : Type 0 where
  pub header : record out { peers = first.peers } ≡ first
  pub allowed : (k : Key) → ips_of k out.peers ≡ ips_of k first.peers ++ dump_ips k more

module _ {M E : Type 0} (decode : M → Result E Device) where
  -- The messages are read as these devices.
  abbrev pub Reads : List M → List Device → Type 0
  Reads [] [] = Unit
  Reads (m ∷ ms) (d ∷ ds) = (decode m ≡ ok d) × Reads ms ds
  Reads _ _ = ⊥

  merge_messages_step :
      (first : Device) (known known' : KnownPeers) (qs : List Peer) (m : M) (ms : List M)
      (d : Device)
      → decode m ≡ ok d
      → merge_devices first.peers known d.peers ≡ some (qs, known')
      → merge_messages decode first known (m ∷ ms)
        ≡ merge_messages decode (record first { peers = qs }) known' ms
  unfolding merge_messages
  merge_messages_step first known known' qs m ms d e f =
      rw (e, merge_messages) (rw (f, merge_messages) refl)

  merge_messages-IsDump :
      (first : Device) (known : KnownPeers) (ms : List M) (ds : List Device)
      → IsIndex known first.peers
      → Reads ms ds
      → (out : Device) × (merge_messages decode first known ms ≡ ok out) × IsDump first ds out
  merge_messages-IsDump first known [] [] h r = (
    first,
    unfold merge_messages in refl,
    record { header = refl; allowed = λ k. sym (append-nil _) },
  )
  merge_messages-IsDump first known [] (d ∷ ds) h r = elim r [ ]
  merge_messages-IsDump first known (m ∷ ms) [] h r = elim r [ ]
  merge_messages-IsDump first known (m ∷ ms) (d ∷ ds) h (e, r) =
      let (qs, known', f, g) = merge_devices-Merged known first.peers d.peers h in
      let (out, o, i) =
        merge_messages-IsDump (record first { peers = qs }) known' ms ds g.index r in
      (
        out,
        merge_messages_step first known known' qs m ms d e f ∙ o,
        record {
          header = ap (λ (x : Device). record x { peers = first.peers }) i.header;
          allowed = λ k. i.allowed k ∙ rw (g.allowed k, append_assoc);
        },
      )

  -- A dump whose messages are all readable gives the device of the first message. For each key it
  -- allows the IPs that the messages allow for it together, in their order, and no more.
  pub parse_device-IsDump :
      (m : M) (ms : List M) (first : Device) (ds : List Device)
      → decode m ≡ ok first
      → Reads ms ds
      → (out : Device) × (parse_device decode (m ∷ ms) ≡ ok out) × IsDump first ds out
  parse_device-IsDump m ms first ds e r =
      let (out, o, i) =
        merge_messages-IsDump first (gather 0 first.peers []) ms ds
          (gather-IsIndex [] first.peers []
            (record { at_key = λ k. unfold find last_index in refl }))
          r in
      (out, unfold parse_device in rw (e, parse_device) o, i)
