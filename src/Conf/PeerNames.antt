-- ===== src/Conf/PeerNames.antt =====
-- The names that `Apply` leaves, key by key.
use wgctrl_go.Base.{
  Bool, true, false, not, List, [], ◌∷◌, Option, none, some, Text, equal, equal_iff, if◌then◌else◌,
  if_either, ◌≡◌, ◌≢◌, refl, sym, subst, ◌∙◌, ap, arith, All, map,
}
use wgctrl_go.Base.Result.{Result, ok, err, map_err}
use wgctrl_go.Types.{Key, Peer, Device, PeerConfig, Config}
use wgctrl_go.Types.Keys.{IsKey}
use wgctrl_go.Meta.Names.{
  Names, IsMap, name_of, IsMap-delete, IsMap-assign, name_of-delete, name_of-assign,
}
use wgctrl_go.Meta.Path.{Os, resolve_file}
use wgctrl_go.Meta.Store.{Disk, Json, Calls, update, names}
use wgctrl_go.Meta.Reread.{names-update}
use wgctrl_go.Conf.{
  ClientError, Client, ApplyError, without_name, native, is_peer, set_name, name_peer, name_peers,
  change_names, save_names, after_configuring, apply, names_error,
}

-- The name that an entry of a configuration leaves to a key.
abbrev pub chosen : Option Text → Text → Text
chosen none old = old
chosen (some name) old = name

abbrev pub step_name : (Key → Bool) → Key → PeerConfig → Text → Text
step_name existing k p old =
    if equal p.public_key k
    then (if p.remove then [] else if existing k then chosen p.name old else old)
    else old

abbrev pub final_name : (Key → Bool) → Key → List PeerConfig → Text → Text
final_name existing k [] old = old
final_name existing k (p ∷ ps) old = final_name existing k ps (step_name existing k p old)

set_name-chosen :
    (key k : Key) (name : Option Text) (ns : Names)
    → name_of k (set_name key name ns)
      ≡ (if equal key k then chosen name (name_of k ns) else name_of k ns)
set_name-chosen key k none ns = ground arith
set_name-chosen key k (some []) ns = name_of-delete key k ns
set_name-chosen key k (some (c ∷ s)) ns = name_of-assign key k (c ∷ s) ns

name_peer-step :
    (existing : List Peer) (k : Key) (p : PeerConfig) (ns : Names)
    → name_of k (name_peer existing p ns) ≡ step_name (is_peer existing) k p (name_of k ns)
unfolding name_peer
name_peer-step existing k p ns = ground (
  arith,
  equal_iff p.public_key k,
  name_of-delete p.public_key k ns,
  set_name-chosen p.public_key k p.name ns,
)

name_peers-final :
    (existing : List Peer) (k : Key) (ps : List PeerConfig) (ns : Names)
    → name_of k (name_peers existing ps ns) ≡ final_name (is_peer existing) k ps (name_of k ns)
unfolding name_peers
name_peers-final existing k [] ns = refl
name_peers-final existing k (p ∷ ps) ns =
    name_peers-final existing k ps (name_peer existing p ns)
    ∙ ap (final_name (is_peer existing) k ps) (name_peer-step existing k p ns)

-- The name that `Apply` leaves to a key that had the name `old`.
abbrev pub applied_name : Config → Device → Key → Text → Text
applied_name cfg d k old =
    final_name (is_peer d.peers) k cfg.peers (if cfg.replace_peers then [] else old)

name_of-if :
    (k : Key) (b : Bool) (ns : Names)
    → name_of k (if b then [] else ns) ≡ (if b then [] else name_of k ns)
unfolding name_of
name_of-if k true ns = refl
name_of-if k false ns = refl

-- The loops of `Apply` over the map of names do to each key what the entries of the configuration
-- for that key say, in their order: a removal clears the name, an entry for a peer of the device
-- sets or clears it, and `ReplacePeers` starts from no name.
pub change_names-applied :
    (cfg : Config) (d : Device) (k : Key) (ns : Names)
    → name_of k (change_names cfg d ns) ≡ applied_name cfg d k (name_of k ns)
unfolding change_names
change_names-applied cfg d k ns =
    name_peers-final d.peers k cfg.peers (if cfg.replace_peers then [] else ns)
    ∙ ap (final_name (is_peer d.peers) k cfg.peers) (name_of-if k cfg.replace_peers ns)

set_name-IsMap :
    (key : Key) (name : Option Text) (ns : Names)
    → IsKey key
    → IsMap ns
    → IsMap (set_name key name ns)
set_name-IsMap key none ns w m = m
set_name-IsMap key (some []) ns w m = IsMap-delete key ns m
set_name-IsMap key (some (c ∷ s)) ns w m = IsMap-assign key (c ∷ s) ns w m

name_peers-IsMap :
    (existing : List Peer) (ps : List PeerConfig) (ns : Names)
    → All (λ p. IsKey p.public_key) ps
    → IsMap ns
    → IsMap (name_peers existing ps ns)
unfolding name_peers name_peer
name_peers-IsMap existing [] ns w m = m
name_peers-IsMap existing (p ∷ ps) ns (w, ws) m =
    name_peers-IsMap existing ps (name_peer existing p ns) ws (
      if_either IsMap p.remove (IsMap-delete p.public_key ns m) (
        if_either IsMap (not (is_peer existing p.public_key)) m
          (set_name-IsMap p.public_key p.name ns w m)))

change_names-IsMap :
    (cfg : Config) (d : Device) (ns : Names)
    → All (λ p. IsKey p.public_key) cfg.peers
    → IsMap ns
    → IsMap (change_names cfg d ns)
unfolding change_names
change_names-IsMap cfg d ns w m =
    name_peers-IsMap d.peers cfg.peers (if cfg.replace_peers then [] else ns) w
      (if_either IsMap cfg.replace_peers tt m)

-- An entry `q` without a name, that is `p` in all else.
pub record IsUnnamed (q p : PeerConfig) : Type 0 where
  pub unnamed : q.name ≡ none
  pub rest : record q { name = p.name } ≡ p

-- Entries without names, that are the given ones in all else, one by one.
abbrev pub AreUnnamed : List PeerConfig → List PeerConfig → Type 0
AreUnnamed [] [] = Unit
AreUnnamed (q ∷ qs) (p ∷ ps) = IsUnnamed q p × AreUnnamed qs ps
AreUnnamed _ _ = false ≡ true

-- A configuration `sent` without the names of `cfg`, that is `cfg` in all else.
pub record IsNative (sent cfg : Config) : Type 0 where
  pub peers : AreUnnamed sent.peers cfg.peers
  pub rest : record sent { peers = cfg.peers } ≡ cfg

without_names-AreUnnamed : (ps : List PeerConfig) → AreUnnamed (map without_name ps) ps
without_names-AreUnnamed [] = tt
without_names-AreUnnamed (p ∷ ps) =
    (record { unnamed = refl; rest = refl }, without_names-AreUnnamed ps)

native-IsNative : (cfg : Config) → IsNative (native cfg) cfg
unfolding native
native-IsNative cfg = record { peers = without_names-AreUnnamed cfg.peers; rest = refl }

map_err-ok {ℓ κ} :
    {E F : Type ℓ} {A : Type κ} (f : E → F) (r : Result E A) {a : A} → map_err f r ≡ ok a → r ≡ ok a
map_err-ok f (ok b) h = cc
map_err-ok f (err e) h = cc

module _ {W : Type 0} (c : Client W) (json : Json) (os : Os) (calls later : Calls) (iface : Text)
    (cfg : Config) (metadata_path : Text) (w : W) (disk : Disk) where
  -- What a successful `Apply` has done.
  pub record Applied (out : Result ApplyError (Unit {0}) × W × Disk) : Type 0 where
    pub device : Device
    pub before : Names
    pub after : Names
    pub sent : Config
    pub sent_is : IsNative sent cfg
    pub configured : c.configure_device iface sent w ≡ (ok tt, out.1)
    pub device_read : c.device iface out.1 ≡ ok device
    pub before_read : names json os calls metadata_path iface disk ≡ ok before
    pub after_read : names json os later metadata_path iface out.2 ≡ ok after
    pub name_is : (k : Key) → name_of k after ≡ applied_name cfg device k (name_of k before)

  module _ (apart : calls.tmp_name ≢ resolve_file os metadata_path iface)
      (keys : All (λ p. IsKey p.public_key) cfg.peers) (readable : later.read_fails ≡ false) where
    saved :
        (w' : W) (d : Device)
        → c.configure_device iface (native cfg) w ≡ (ok tt, w')
        → c.device iface w' ≡ ok d
        → (update json os calls metadata_path iface (change_names cfg d) disk).0 ≡ ok tt
        → Applied
            (ok tt, w', (update json os calls metadata_path iface (change_names cfg d) disk).1)
    saved w' d e f done =
        let (before, after, b, a, same) =
          names-update json os calls later metadata_path iface (change_names cfg d) disk apart
            (λ ns m. change_names-IsMap cfg d ns keys m) readable done in
        record {
          device = d;
          before = before;
          after = after;
          sent = native cfg;
          sent_is = native-IsNative cfg;
          configured = e;
          device_read = f;
          before_read = b;
          after_read = a;
          name_is = λ k. same k ∙ change_names-applied cfg d k before;
        }

    save_names-Applied :
        (w' : W) (d : Result ClientError Device)
        → c.configure_device iface (native cfg) w ≡ (ok tt, w')
        → c.device iface w' ≡ d
        → (save_names c json os calls iface cfg metadata_path w' d disk).0 ≡ ok tt
        → Applied (save_names c json os calls iface cfg metadata_path w' d disk)
    unfolding save_names
    save_names-Applied w' (err e) configured f h = cc
    save_names-Applied w' (ok d) configured f h =
        let done =
          map_err-ok names_error
            (update json os calls metadata_path iface (change_names cfg d) disk).0 h in
        subst
          (λ r. Applied (
            map_err names_error r,
            w',
            (update json os calls metadata_path iface (change_names cfg d) disk).1,
          ))
          (sym done) (saved w' d configured f done)

    after_configuring-Applied :
        (x : Result ClientError (Unit {0}) × W)
        → c.configure_device iface (native cfg) w ≡ x
        → (after_configuring c json os calls iface cfg metadata_path x disk).0 ≡ ok tt
        → Applied (after_configuring c json os calls iface cfg metadata_path x disk)
    unfolding after_configuring
    after_configuring-Applied (err e, w') configured h = cc
    after_configuring-Applied (ok tt, w') configured h =
        save_names-Applied w' (c.device iface w') configured refl h

    -- When `Apply` succeeds, the back end has taken a configuration whose entries have no name and
    -- which is the given one in everything else, entry by entry in their order, and `Names` gives each key the name that the entries of the configuration and the device's peers
    -- call for. The keys of the entries have 32 bytes, the temporary file is not the file itself,
    -- and the later reading does not fail.
    pub apply-Applied :
        (apply c json os calls iface cfg metadata_path w disk).0 ≡ ok tt
        → Applied (apply c json os calls iface cfg metadata_path w disk)
    unfolding apply
    apply-Applied h = after_configuring-Applied (c.configure_device iface (native cfg) w) refl h
