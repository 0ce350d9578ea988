-- ===== src/Wgapi/Values.antt =====
-- What a configuration in JSON is turned into.
use wgctrl_go.Base.{
  ℕ, suc, true, false, List, [], ◌∷◌, Option, none, some, Text, ◌≡◌, refl, inl, inr,
}
use wgctrl_go.Base.Result.{Result, ok, err, map_err, Result-cases}
use wgctrl_go.Types.{Key, second, UdpAddr, IpNet}
use wgctrl_go.Types
use wgctrl_go.Types.Keys.{KeyError, IsKey, parse_key, parse_key-IsKey}
use wgctrl_go.Wgconfig.Ranges.{Holds, OnOk, OnOk-bind}
use wgctrl_go.Wgapi.Intervals.{IsInterval, seconds_of-IsInterval}
use wgctrl_go.Wgapi.Json.{
  Config, PeerConfig, Net, in_peer, bad_public_key, bad_private_key, bad_preshared_key, convert,
  resolve, parse_networks, parse_peer_config, parse_peers, parse_config,
}

-- A peer keeps what it says, and its keys have 32 bytes.
pub record IsPeer (p : PeerConfig) (pc : Types.PeerConfig) : Type 0 where
  pub public_key : IsKey pc.public_key
  pub preshared_key : Holds IsKey pc.preshared_key
  pub name : pc.name ≡ p.name
  pub remove : pc.remove ≡ p.remove
  pub update_only : pc.update_only ≡ p.update_only
  pub replace_allowed_ips : pc.replace_allowed_ips ≡ p.replace_allowed_ips
  pub interval : IsInterval p.persistent_keepalive_seconds pc.persistent_keepalive_interval

-- The entries of two lists, one by one.
abbrev pub ArePeers : List PeerConfig → List Types.PeerConfig → Type 0
ArePeers [] [] = Unit
ArePeers (p ∷ ps) (pc ∷ pcs) = IsPeer p pc × ArePeers ps pcs
ArePeers _ _ = false ≡ true

pub record IsConfig (c : Config) (cfg : Types.Config) : Type 0 where
  pub private_key : Holds IsKey cfg.private_key
  pub listen_port : cfg.listen_port ≡ c.listen_port
  pub firewall_mark : cfg.firewall_mark ≡ c.firewall_mark
  pub replace_peers : cfg.replace_peers ≡ c.replace_peers
  pub peers : ArePeers c.peers cfg.peers

key-OnOk : {E : Type 0} (f : KeyError → E) (t : Text) → OnOk IsKey (map_err f (parse_key t))
key-OnOk f t = elim (Result-cases (parse_key t)) [
  | inl (k, e) ↦ rw e (parse_key-IsKey t e)
  | inr (x, e) ↦ rw e tt
]

convert-OnOk :
    {E : Type 0} {A B : Type 0} (P : B → Type 0) (f : A → Result E B) (o : Option A)
    → ((a : A) → OnOk P (f a))
    → OnOk (Holds P) (convert f o)
unfolding convert
convert-OnOk P f none h = tt
convert-OnOk P f (some a) h = OnOk-bind P (Holds P) (f a) (λ b. ok (some b)) (h a) (λ b k. k)

anything {ℓ κ} : {E : Type ℓ} {A : Type κ} (r : Result E A) → OnOk (λ _. Unit {0}) r
anything (ok a) = tt
anything (err e) = tt

OnOk-map_err {ℓ κ ι} :
    {E F : Type ℓ} {A : Type κ} (P : A → Type ι) (f : E → F) (r : Result E A)
    → OnOk P r
    → OnOk P (map_err f r)
OnOk-map_err P f (ok a) h = h
OnOk-map_err P f (err e) h = tt

module _ (net : Net) where
  parse_peer_config-IsPeer : (p : PeerConfig) → OnOk (IsPeer p) (parse_peer_config net p)
  unfolding parse_peer_config
  parse_peer_config-IsPeer p =
      OnOk-bind IsKey (IsPeer p) (map_err bad_public_key (parse_key p.public_key)) _
        (key-OnOk bad_public_key p.public_key)
        (λ key h.
          OnOk-bind (Holds IsKey) (IsPeer p)
            (convert (λ t. map_err bad_preshared_key (parse_key t)) p.preshared_key) _
            (convert-OnOk IsKey (λ t. map_err bad_preshared_key (parse_key t)) p.preshared_key
              (key-OnOk bad_preshared_key))
            (λ psk k.
              OnOk-bind (λ _. Unit {0}) (IsPeer p) (convert (resolve net) p.endpoint) _
                (anything (convert (resolve net) p.endpoint))
                (λ addr _.
                  OnOk-bind (λ _. Unit {0}) (IsPeer p) (parse_networks net p.allowed_ips) _
                    (anything (parse_networks net p.allowed_ips))
                    (λ ns _. record {
                      public_key = h;
                      preshared_key = k;
                      name = refl;
                      remove = refl;
                      update_only = refl;
                      replace_allowed_ips = refl;
                      interval = seconds_of-IsInterval p.persistent_keepalive_seconds;
                    }))))

  parse_peers-ArePeers : (i : ℕ) (ps : List PeerConfig) → OnOk (ArePeers ps) (parse_peers net i ps)
  unfolding parse_peers
  parse_peers-ArePeers i [] = tt
  parse_peers-ArePeers i (p ∷ ps) =
      OnOk-bind (IsPeer p) (ArePeers (p ∷ ps)) (map_err (in_peer i) (parse_peer_config net p)) _
        (OnOk-map_err (IsPeer p) (in_peer i) (parse_peer_config net p) (parse_peer_config-IsPeer p))
        (λ pc h.
          OnOk-bind (ArePeers ps) (ArePeers (p ∷ ps)) (parse_peers net (suc i) ps)
            (λ pcs. ok (pc ∷ pcs)) (parse_peers-ArePeers (suc i) ps) (λ pcs k. (h, k)))

  -- A configuration in JSON that is accepted becomes one whose keys have 32 bytes, with the port, the
  -- mark and the flag as they were, and peer by peer, in their order, the name and the flags that
  -- the JSON has and an interval of as many nanoseconds as its seconds have, or none if it has none.
  -- Neither the port nor the mark is held to a range. The interval is not stated for seconds whose
  -- nanoseconds leave the range of 64 bits.
  pub parse_config-IsConfig : (c : Config) → OnOk (IsConfig c) (parse_config net c)
  unfolding parse_config
  parse_config-IsConfig c =
      OnOk-bind (Holds IsKey) (IsConfig c)
        (convert (λ t. map_err bad_private_key (parse_key t)) c.private_key) _
        (convert-OnOk IsKey (λ t. map_err bad_private_key (parse_key t)) c.private_key
          (key-OnOk bad_private_key))
        (λ key h.
          OnOk-bind (ArePeers c.peers) (IsConfig c) (parse_peers net 0 c.peers) _
            (parse_peers-ArePeers 0 c.peers)
            (λ pcs k. record {
              private_key = h;
              listen_port = refl;
              firewall_mark = refl;
              replace_peers = refl;
              peers = k;
            }))
