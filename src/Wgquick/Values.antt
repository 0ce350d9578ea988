-- ===== src/Wgquick/Values.antt =====
-- The ranges of the values that `Parse` of internal/wgquick/parse.go reads.
use wgctrl_go.Base.{
  ℕ, ◌-◌, ◌^◌, ◌≤◌, false, List, [], ◌∷◌, ◌++◌, Option, none, some, Text, codes, equal, ltb, ltb→le,
  if_either, ◌≡◌, ◌≢◌, refl, arith, All, Bool-cases, inl, inr,
}
use wgctrl_go.Base.Int.{pos}
use wgctrl_go.Base.Result.{ok, Result-cases}
use wgctrl_go.Std.Strings.{cut_prefix}
use wgctrl_go.Std.Strconv.{parse_uint, parse_bool}
use wgctrl_go.Types.{zero_key}
use wgctrl_go.Types.Keys.{IsKey}
use wgctrl_go.Types.Keys
use wgctrl_go.Wgconfig.Ranges.{
  Holds, IsUpTo, IsInterval, parse_uint_le, Holds-some, OnOk, OnOk-bind,
}
use wgctrl_go.Wgquick.Config.{PeerConfig, Config}
use wgctrl_go.Wgquick.Parse.{
  Net, at_most, parse_number, parse_mark, parse_fwmark, in_seconds, parse_keepalive, parse_key,
  parse_addresses, parse_networks, parse_ips, with_value, parse_interface, parse_peer,
}
use wgctrl_go.Wgquick.Lines.{parse_last, is_useless}

-- The keys have 32 bytes, and the interval whole seconds in 16 bits.
abbrev pub IsPeer : PeerConfig → Type 0
IsPeer p =
    IsKey p.public_key × Holds IsKey p.preshared_key × Holds IsInterval p.persistent_keepalive

-- The private key, the port, the mark, the MTU, and the peers.
abbrev pub IsConfig : Config → Type 0
IsConfig c =
    Holds IsKey c.private_key
    × Holds (IsUpTo 65535) c.listen_port
    × Holds (IsUpTo (2 ^ 32 - 1)) c.firewall_mark
    × IsUpTo 65535 c.mtu
    × All IsPeer c.peers

-- What `Parse` returns: the fields in their ranges, a key for every peer, and some setting.
pub record IsUsable (c : Config) : Type 0 where
  pub config : IsConfig c
  pub keys : All (λ (p : PeerConfig). p.public_key ≢ zero_key) c.peers
  pub useful : is_useless c ≡ false

at_most_le : (max : ℕ) (o : Option ℕ) → Holds (λ v. v ≤ max) (at_most max o)
at_most_le max none = tt
at_most_le max (some n) = elim (Bool-cases (ltb max n)) [
  | inl e ↦ rw e tt
  | inr e ↦ rw e (ltb→le max n e)
]

parse_number_le : (max : ℕ) (s : Text) → Holds (λ v. v ≤ max) (parse_number max s)
unfolding parse_number
parse_number_le max s = at_most_le max (parse_uint 10 64 s)

parse_mark_le :
    (s : Text) (lower upper : Option Text) → Holds (λ v. v ≤ 2 ^ 32 - 1) (parse_mark s lower upper)
parse_mark_le s (some d) upper = Holds-some (parse_uint 16 32 d) (parse_uint_le 16 32 d)
parse_mark_le s none (some d) = Holds-some (parse_uint 16 32 d) (parse_uint_le 16 32 d)
parse_mark_le s none none = Holds-some (parse_uint 10 32 s) (parse_uint_le 10 32 s)

parse_fwmark_le : (s : Text) → Holds (λ v. v ≤ 2 ^ 32 - 1) (parse_fwmark s)
unfolding parse_fwmark
parse_fwmark_le s =
    if_either (Holds (λ v. v ≤ 2 ^ 32 - 1)) (equal s (codes "off")) (omega arith)
      (parse_mark_le s (cut_prefix s (codes "0x")) (cut_prefix s (codes "0X")))

in_seconds-IsInterval :
    (o : Option ℕ) → Holds (λ v. v ≤ 65535) o → Holds (λ d. IsInterval (pos d)) (in_seconds o)
in_seconds-IsInterval none h = tt
in_seconds-IsInterval (some n) h = (n, refl, h)

parse_keepalive-IsInterval : (s : Text) → Holds (λ d. IsInterval (pos d)) (parse_keepalive s)
unfolding parse_keepalive
parse_keepalive-IsInterval s =
    if_either (Holds (λ d. IsInterval (pos d))) (equal s (codes "off")) (0, refl, omega arith)
      (in_seconds-IsInterval (parse_number 65535 s) (parse_number_le 65535 s))

parse_key-IsKey : (s : Text) → Holds IsKey (parse_key s)
unfolding parse_key
parse_key-IsKey s = elim (Result-cases (Keys.parse_key s)) [
  | inl (key, r) ↦ rw (r, parse_key) (Keys.parse_key-IsKey s r)
  | inr (x, r) ↦ rw (r, parse_key) tt
]

with_value-OnOk {ℓ κ ι} :
    {A : Type ℓ} {S : Type κ} (P : S → Type ι) (field : Text) (o : Option A) (change : A → S)
    → Holds (λ a. P (change a)) o
    → OnOk P (with_value field o change)
unfolding with_value
with_value-OnOk P field none change h = tt
with_value-OnOk P field (some a) change h = h

-- A value whose range does not matter.
with_any-OnOk {ℓ κ ι} :
    {A : Type ℓ} {S : Type κ} (P : S → Type ι) (field : Text) (o : Option A) (change : A → S)
    → ((a : A) → P (change a))
    → OnOk P (with_value field o change)
with_any-OnOk P field o change h = with_value-OnOk P field o change (Holds-some o (λ a _. h a))

Holds-map {ℓ κ ι} :
    {A : Type ℓ} (P : A → Type κ) (Q : A → Type ι) (o : Option A)
    → ((a : A) → P a → Q a)
    → Holds P o
    → Holds Q o
Holds-map P Q none h p = tt
Holds-map P Q (some a) h p = h a p

module _ (net : Net) (key value : Text) where
  pub parse_interface-IsConfig :
      (cfg : Config) → IsConfig cfg → OnOk IsConfig (parse_interface net cfg key value)
  unfolding parse_interface
  parse_interface-IsConfig cfg w =
      if_either (OnOk IsConfig) (equal key (codes "privatekey"))
        (with_value-OnOk IsConfig key (parse_key value) (λ k. record cfg { private_key = some k })
          (Holds-map IsKey (λ k. IsConfig (record cfg { private_key = some k })) (parse_key value)
            (λ k h. (h, w.1, w.2, w.3, w.4)) (parse_key-IsKey value)))
        (if_either (OnOk IsConfig) (equal key (codes "listenport"))
          (with_value-OnOk IsConfig key (parse_number 65535 value)
            (λ n. record cfg { listen_port = some (pos n) })
            (Holds-map (λ v. v ≤ 65535) (λ n. IsConfig (record cfg { listen_port = some (pos n) }))
              (parse_number 65535 value) (λ n h. (w.0, (n, refl, h), w.2, w.3, w.4))
              (parse_number_le 65535 value)))
          (if_either (OnOk IsConfig) (equal key (codes "fwmark"))
            (with_value-OnOk IsConfig key (parse_fwmark value)
              (λ n. record cfg { firewall_mark = some (pos n) })
              (Holds-map (λ v. v ≤ 2 ^ 32 - 1)
                (λ n. IsConfig (record cfg { firewall_mark = some (pos n) })) (parse_fwmark value)
                (λ n h. (w.0, w.1, (n, refl, h), w.3, w.4)) (parse_fwmark_le value)))
            (if_either (OnOk IsConfig) (equal key (codes "address"))
              (with_any-OnOk IsConfig key (parse_addresses net value)
                (λ as'. record cfg { addresses = cfg.addresses ++ as' }) (λ a. w))
              (if_either (OnOk IsConfig) (equal key (codes "dns"))
                (with_any-OnOk IsConfig key (parse_ips net value)
                  (λ ips. record cfg { dns = cfg.dns ++ ips }) (λ a. w))
                (if_either (OnOk IsConfig) (equal key (codes "mtu"))
                  (with_value-OnOk IsConfig key (parse_number 65535 value)
                    (λ n. record cfg { mtu = pos n })
                    (Holds-map (λ v. v ≤ 65535) (λ n. IsConfig (record cfg { mtu = pos n }))
                      (parse_number 65535 value) (λ n h. (w.0, w.1, w.2, (n, refl, h), w.4))
                      (parse_number_le 65535 value)))
                  (if_either (OnOk IsConfig) (equal key (codes "table")) w (
                    if_either (OnOk IsConfig) (equal key (codes "preup")) w (
                      if_either (OnOk IsConfig) (equal key (codes "postup")) w (
                        if_either (OnOk IsConfig) (equal key (codes "predown")) w (
                          if_either (OnOk IsConfig) (equal key (codes "postdown")) w (
                            if_either (OnOk IsConfig) (equal key (codes "saveconfig"))
                              (with_any-OnOk IsConfig key (parse_bool value)
                                (λ b. record cfg { save_config = b }) (λ a. w))
                              tt)))))))))))

  parse_peer-IsPeer : (p : PeerConfig) → IsPeer p → OnOk IsPeer (parse_peer net p key value)
  unfolding parse_peer
  parse_peer-IsPeer p w =
      if_either (OnOk IsPeer) (equal key (codes "publickey"))
        (with_value-OnOk IsPeer key (parse_key value) (λ k. record p { public_key = k })
          (Holds-map IsKey (λ k. IsPeer (record p { public_key = k })) (parse_key value)
            (λ k h. (h, w.1, w.2)) (parse_key-IsKey value)))
        (if_either (OnOk IsPeer) (equal key (codes "presharedkey"))
          (with_value-OnOk IsPeer key (parse_key value) (λ k. record p { preshared_key = some k })
            (Holds-map IsKey (λ k. IsPeer (record p { preshared_key = some k })) (parse_key value)
              (λ k h. (w.0, h, w.2)) (parse_key-IsKey value)))
          (if_either (OnOk IsPeer) (equal key (codes "allowedips"))
            (with_any-OnOk IsPeer key (parse_networks net value)
              (λ ns. record p { allowed_ips = p.allowed_ips ++ ns }) (λ a. w))
            (if_either (OnOk IsPeer) (equal key (codes "endpoint"))
              (with_any-OnOk IsPeer key (net.resolve_udp_addr value)
                (λ a. record p { endpoint = some a }) (λ a. w))
              (if_either (OnOk IsPeer) (equal key (codes "persistentkeepalive"))
                (with_value-OnOk IsPeer key (parse_keepalive value)
                  (λ d. record p { persistent_keepalive = some (pos d) })
                  (Holds-map (λ d. IsInterval (pos d))
                    (λ d. IsPeer (record p { persistent_keepalive = some (pos d) }))
                    (parse_keepalive value) (λ d h. (w.0, w.1, h))
                    (parse_keepalive-IsInterval value)))
                tt))))

  pub parse_last-IsPeer :
      (ps : List PeerConfig) → All IsPeer ps → OnOk (All IsPeer) (parse_last net ps key value)
  unfolding parse_last
  parse_last-IsPeer [] w = tt
  parse_last-IsPeer (p ∷ []) (w, ws) =
      OnOk-bind IsPeer (All IsPeer) (parse_peer net p key value) (λ p'. ok (p' ∷ []))
        (parse_peer-IsPeer p w) (λ p' h. (h, tt))
  parse_last-IsPeer (p ∷ q ∷ ps) (w, ws) =
      OnOk-bind (All IsPeer) (All IsPeer) (parse_last net (q ∷ ps) key value) (λ qs. ok (p ∷ qs))
        (parse_last-IsPeer (q ∷ ps) ws) (λ qs h. (w, h))
