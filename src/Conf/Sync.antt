-- ===== src/Conf/Sync.antt =====
-- The peers a device is left with by the configuration that `SyncPeerConfigs` makes.
use wgctrl_go.Base.{
  Bool, true, false, not, ◌||◌, ◌&&◌, List, [], ◌∷◌, ◌++◌, equal, equal_iff, if◌then◌else◌, ◌≡◌,
  refl, ◌∙◌, ap, arith, All,
}
use wgctrl_go.Types.{Key, Peer, Device, PeerConfig}
use wgctrl_go.Conf.{is_peer, is_wanted, removal, append_removals, sync_peer_configs}

-- Whether the peer `k` is on a device after one entry of a configuration, and after all of them.
abbrev pub step_peer : Key → PeerConfig → Bool → Bool
step_peer k p old =
    if equal p.public_key k
    then (if p.remove then false else if p.update_only then old else true)
    else old

abbrev pub remains : Bool → Key → List PeerConfig → Bool
remains old k [] = old
remains old k (p ∷ ps) = remains (step_peer k p old) k ps

-- An entry that adds its peer.
abbrev pub IsAdding : PeerConfig → Type 0
IsAdding p = (p.remove ≡ false) × (p.update_only ≡ false)

remains-append :
    (old : Bool) (k : Key) (xs ys : List PeerConfig)
    → remains old k (xs ++ ys) ≡ remains (remains old k xs) k ys
remains-append old k [] ys = refl
remains-append old k (p ∷ xs) ys = remains-append (step_peer k p old) k xs ys

remains-wanted :
    (old : Bool) (k : Key) (ps : List PeerConfig)
    → All IsAdding ps
    → remains old k ps ≡ (is_wanted ps k || old)
unfolding is_wanted
remains-wanted old k [] h = refl
remains-wanted old k (p ∷ ps) ((r, u), hs) =
    remains-wanted (step_peer k p old) k ps hs ∙ ground (arith, r, u)

-- What a removal appended or not does to one key.
after_removal :
    (desired : List PeerConfig) (old : Bool) (k key : Key) (out : List PeerConfig)
    → remains old k (if not (is_wanted desired key) then out ++ removal key ∷ [] else out)
      ≡ (if is_wanted desired k then remains old k out else remains old k out && not (equal key k))
after_removal desired old k key out =
    ground (arith, equal_iff key k, remains-append old k out (removal key ∷ []))

both :
    (w r a b : Bool)
    → (if w then (if w then r else r && not a) else (if w then r else r && not a) && not b)
      ≡ (if w then r else r && not (a || b))
both true r a b = refl
both false false a b = refl
both false true true b = refl
both false true false b = refl

remains-append_removals :
    (desired : List PeerConfig) (old : Bool) (k : Key) (ps : List Peer) (out : List PeerConfig)
    → remains old k (append_removals desired ps out)
      ≡ (if is_wanted desired k then remains old k out else remains old k out && not (is_peer ps k))
unfolding append_removals is_peer
remains-append_removals desired old k [] out = ground arith
remains-append_removals desired old k (p ∷ ps) out =
    let next =
      if not (is_wanted desired p.public_key) then out ++ removal p.public_key ∷ [] else out in
    remains-append_removals desired old k ps next
    ∙ ap (λ r. if is_wanted desired k then r else r && not (is_peer ps k))
        (after_removal desired old k p.public_key out)
    ∙ both (is_wanted desired k) (remains old k out) (equal p.public_key k) (is_peer ps k)

left : (w old : Bool) → (if w then w || old else (w || old) && not old) ≡ w
left true old = refl
left false true = refl
left false false = refl

-- When every wanted entry adds its peer, the configuration that `SyncPeerConfigs` makes leaves on
-- the device exactly the wanted peers: a peer of the device that is not wanted is removed, and no
-- wanted one is.
pub sync_peer_configs-remains :
    (current : Device) (desired : List PeerConfig) (k : Key)
    → All IsAdding desired
    → remains (is_peer current.peers k) k (sync_peer_configs current desired) ≡ is_wanted desired k
unfolding sync_peer_configs
sync_peer_configs-remains current desired k h =
    remains-append_removals desired (is_peer current.peers k) k current.peers desired
    ∙ ap (λ r. if is_wanted desired k then r else r && not (is_peer current.peers k))
        (remains-wanted (is_peer current.peers k) k desired h)
    ∙ left (is_wanted desired k) (is_peer current.peers k)
