-- ===== src/Wguser/Sticky.antt =====
-- What `deviceParser` keeps from one pair to the next.
use wgctrl_go.Base.{
  ℕ, zero, suc, ◌-◌, ◌<◌, true, false, ◌&&◌, List, [], ◌∷◌, Option, none, some, Text, codes, equal,
  length, length-append, length-set, get_elem?, ◌==◌, if◌then◌else◌, if_either, ◌≡◌, refl, sym,
  subst, ◌∙◌, All, All-append, All-set, arith, Bool-cases, inl, inr,
}
use wgctrl_go.Base.Int.{pos, is_zero, is_positive}
use wgctrl_go.Base.Result.{Result, ok, err, Result-cases}
use wgctrl_go.Std.Hex
use wgctrl_go.Std.Strconv.{parse_int}
use wgctrl_go.Types.{Key, IpNet, Peer, zero_key}
use wgctrl_go.Types.Keys.{new_key, new_key-eq-ok}
use wgctrl_go.Wguser.Parse.{
  UserError, errno, Outside, DeviceParser, keep_error, key_of_bytes, or_err, bad_int, address,
  network, parse_key, parse_number, parse_addr, parse_cidr, new_peer, add_network, Change,
  peer_change, cur_peer, peer_parse, device_parse, parse_field, enter_peer, parse,
}

-- The array of a key has its size.
abbrev pub HasSize : Key → Type 0
HasSize k = length k ≡ 32

pub record IsPeer (p : Peer) : Type 0 where
  pub public_key : HasSize p.public_key
  pub preshared_key : HasSize p.preshared_key

pub record IsParser (dp : DeviceParser) : Type 0 where
  pub private_key : HasSize dp.d.private_key
  pub all : All IsPeer dp.d.peers
  pub counted : length dp.d.peers ≡ dp.peers
  pub entered : dp.parse_peers ≡ true → 0 < dp.peers

-- An error is there to stay.
abbrev pub Keeps : Option UserError → Option UserError → Type 0
Keeps none after = Unit
Keeps (some e) after = after ≡ some e

keep_error-Keeps {ℓ} :
    {A : Type ℓ} (z : A) (r : Result UserError A) (e : Option UserError)
    → Keeps e (keep_error z r e).1
unfolding keep_error
keep_error-Keeps z r (some e) = refl
keep_error-Keeps z (ok v) none = tt
keep_error-Keeps z (err x) none = tt

pub Keeps-refl : (e : Option UserError) → Keeps e e
Keeps-refl none = tt
Keeps-refl (some e) = refl

key_of_bytes-HasSize :
    (o : Option (List ℕ)) (e : Option UserError)
    → HasSize (keep_error zero_key (key_of_bytes o) e).0
unfolding keep_error
key_of_bytes-HasSize o (some e) = refl
key_of_bytes-HasSize none none = refl
key_of_bytes-HasSize (some b) none = elim (Result-cases (new_key b)) [
  | inl (k, r) ↦ rw (r, keep_error) (new_key-eq-ok b r).1
  | inr (x, r) ↦ rw (r, keep_error) refl
]

parse_key-HasSize : (s : Text) (e : Option UserError) → HasSize (parse_key s e).0
unfolding parse_key
parse_key-HasSize s e = key_of_bytes-HasSize (Hex.decode s) e

parse_key-Keeps : (s : Text) (e : Option UserError) → Keeps e (parse_key s e).1
unfolding parse_key
parse_key-Keeps s e = keep_error-Keeps zero_key (key_of_bytes (Hex.decode s)) e

parse_number-Keeps : (s : Text) (e : Option UserError) → Keeps e (parse_number s e).1
unfolding parse_number
parse_number-Keeps s e = keep_error-Keeps (pos 0) (or_err bad_int (parse_int s)) e

parse_addr-Keeps :
    (outside : Outside) (s : Text) (e : Option UserError) → Keeps e (parse_addr outside s e).1
unfolding parse_addr
parse_addr-Keeps outside s e = keep_error-Keeps none (address (outside.resolve_udp_addr s)) e

parse_cidr-Keeps :
    (outside : Outside) (s : Text) (e : Option UserError) → Keeps e (parse_cidr outside s e).1
unfolding parse_cidr
parse_cidr-Keeps outside s e = keep_error-Keeps none (network (outside.parse_cidr s)) e

-- A change of a peer that keeps its keys whole and an earlier error.
record IsChange (before : Option UserError) (c : Change) : Type 0 where
  pub peer : IsPeer c.peer
  pub error : Keeps before c.error

add_network-IsPeer : (n : Option IpNet) (p : Peer) → IsPeer p → IsPeer (add_network n p)
add_network-IsPeer none p w = w
add_network-IsPeer (some n) p w = record {
  public_key = w.public_key;
  preshared_key = w.preshared_key;
}

peer_change-IsChange :
    (outside : Outside) (key value : Text) (p : Peer) (dp : DeviceParser)
    → IsPeer p
    → IsChange dp.error (peer_change outside key value p dp)
unfolding peer_change
peer_change-IsChange outside key value p dp w =
    let C = IsChange dp.error in
    let number = parse_number-Keeps value dp.error in
    if_either C (equal key (codes "preshared_key"))
      (record {
        peer = record {
          public_key = w.public_key;
          preshared_key = parse_key-HasSize value dp.error;
        };
        error = parse_key-Keeps value dp.error;
      })
      (if_either C (equal key (codes "endpoint"))
        (record {
          peer = record { public_key = w.public_key; preshared_key = w.preshared_key };
          error = parse_addr-Keeps outside value dp.error;
        })
        (if_either C (equal key (codes "last_handshake_time_sec"))
          (record { peer = w; error = number })
          (if_either C (equal key (codes "last_handshake_time_nsec"))
            (record {
              peer =
                  if_either IsPeer
                    (is_positive dp.hs_sec && is_positive (parse_number value dp.error).0)
                    (record { public_key = w.public_key; preshared_key = w.preshared_key }) w;
              error = number;
            })
            (if_either C (equal key (codes "tx_bytes"))
              (record {
                peer = record { public_key = w.public_key; preshared_key = w.preshared_key };
                error = number;
              })
              (if_either C (equal key (codes "rx_bytes"))
                (record {
                  peer = record { public_key = w.public_key; preshared_key = w.preshared_key };
                  error = number;
                })
                (if_either C (equal key (codes "persistent_keepalive_interval"))
                  (record {
                    peer = record { public_key = w.public_key; preshared_key = w.preshared_key };
                    error = number;
                  })
                  (if_either C (equal key (codes "allowed_ip"))
                    (record {
                      peer = add_network-IsPeer (parse_cidr outside value dp.error).0 p w;
                      error = parse_cidr-Keeps outside value dp.error;
                    })
                    (if_either C (equal key (codes "protocol_version"))
                      (record {
                        peer = record {
                          public_key = w.public_key;
                          preshared_key = w.preshared_key;
                        };
                        error = number;
                      })
                      (record { peer = w; error = Keeps-refl dp.error })))))))))

-- One step: no panic, and the parser and an earlier error are kept.
abbrev pub Steps : Option UserError → Option DeviceParser → Type 0
Steps before none = ⊥
Steps before (some dp) = IsParser dp × Keeps before dp.error

All-get {ℓ κ} :
    {A : Type ℓ} (P : A → Type κ) (xs : List A) (i : ℕ)
    → All P xs
    → i < length xs
    → (a : A) × (get_elem? xs i ≡ some a) × P a
All-get P [] i h lt = absurd (omega (arith, lt))
All-get P (x ∷ xs) zero (h, _) lt = (x, refl, h)
All-get P (x ∷ xs) (suc i) (_, h) lt = All-get P xs i h (omega (arith, lt))

not_zero : (n : ℕ) → 0 < n → (n == 0) ≡ false
not_zero n h = ground arith

peer_parse-Steps :
    (outside : Outside) (key value : Text) (dp : DeviceParser)
    → IsParser dp
    → 0 < dp.peers
    → Steps dp.error (peer_parse outside key value dp)
unfolding peer_parse
peer_parse-Steps outside key value dp w positive =
    let (p, e, good) =
      All-get IsPeer dp.d.peers (dp.peers - 1) w.all (omega (arith, w.counted, positive)) in
    let c = peer_change-IsChange outside key value p dp good in
    let there : cur_peer dp ≡ some p = rw (not_zero dp.peers positive) e in
    rw (there, peer_parse)
      (
        record {
          private_key = w.private_key;
          all =
              All-set IsPeer dp.d.peers (dp.peers - 1) (peer_change outside key value p dp).peer
                w.all c.peer;
          counted =
              length-set dp.d.peers (dp.peers - 1) (peer_change outside key value p dp).peer
              ∙ w.counted;
          entered = w.entered;
        },
        c.error,
      )

device_parse-IsParser :
    (key value : Text) (dp : DeviceParser) → IsParser dp → IsParser (device_parse key value dp)
unfolding device_parse
device_parse-IsParser key value dp w =
    if_either IsParser (equal key (codes "private_key"))
      (record {
        private_key = parse_key-HasSize value dp.error;
        all = w.all;
        counted = w.counted;
        entered = w.entered;
      })
      (if_either IsParser (equal key (codes "listen_port"))
        (record {
          private_key = w.private_key;
          all = w.all;
          counted = w.counted;
          entered = w.entered;
        })
        (if_either IsParser (equal key (codes "fwmark"))
          (record {
            private_key = w.private_key;
            all = w.all;
            counted = w.counted;
            entered = w.entered;
          })
          w))

device_parse-Keeps :
    (key value : Text) (dp : DeviceParser) → Keeps dp.error (device_parse key value dp).error
unfolding device_parse
device_parse-Keeps key value dp =
    let K = λ (q : DeviceParser). Keeps dp.error q.error in
    if_either K (equal key (codes "private_key")) (parse_key-Keeps value dp.error) (
      if_either K (equal key (codes "listen_port")) (parse_number-Keeps value dp.error) (
        if_either K (equal key (codes "fwmark")) (parse_number-Keeps value dp.error)
          (Keeps-refl dp.error)))

parse_field-Steps :
    (outside : Outside) (key value : Text) (dp : DeviceParser)
    → IsParser dp
    → Steps dp.error (parse_field outside key value dp)
parse_field-Steps outside key value dp w = elim (Bool-cases dp.parse_peers) [
  | inl e ↦
      subst
        (λ b.
          Steps dp.error
            (if b then peer_parse outside key value dp else some (device_parse key value dp)))
        (sym e) (peer_parse-Steps outside key value dp w (w.entered e))
  | inr e ↦
      subst
        (λ b.
          Steps dp.error
            (if b then peer_parse outside key value dp else some (device_parse key value dp)))
        (sym e) (device_parse-IsParser key value dp w, device_parse-Keeps key value dp)
]

enter_peer-IsParser :
    (value : Text) (dp : DeviceParser) → IsParser dp → IsParser (enter_peer value dp)
enter_peer-IsParser value dp w =
    let p = new_peer (parse_key value dp.error).0 in
    record {
      private_key = w.private_key;
      all =
          All-append IsPeer dp.d.peers (p ∷ []) w.all
            (record { public_key = parse_key-HasSize value dp.error; preshared_key = refl }, tt);
      counted = omega (arith, w.counted, length-append dp.d.peers (p ∷ []));
      entered = λ _. omega arith;
    }

pub Keeps-trans : (a b c : Option UserError) → Keeps a b → Keeps b c → Keeps a c
Keeps-trans none b c h k = tt
Keeps-trans (some e) b c h k = subst (λ x. Keeps x c) h k

Steps-earlier :
    (a b : Option UserError) (o : Option DeviceParser) → Keeps a b → Steps b o → Steps a o
Steps-earlier a b none h s = s
Steps-earlier a b (some dp) h (w, k) = (w, Keeps-trans a b dp.error h k)

-- Behind an error `parseInt` returns 0, so that an error number other than 0 comes with no error.
number_without_error :
    (s : Text) (e : Option UserError)
    → is_zero (parse_number s e).0 ≡ false
    → (x : Option UserError) → Keeps e x
unfolding parse_number keep_error
number_without_error s none h x = tt
number_without_error s (some e) h x = cc

-- `Parse` of one pair never indexes out of range, keeps every key at 32 bytes and the counter of
-- the peers in step with them, and keeps an earlier error.
pub parse-Steps :
    (outside : Outside) (key value : Text) (dp : DeviceParser)
    → IsParser dp
    → Steps dp.error (parse outside key value dp)
unfolding parse
parse-Steps outside key value dp w =
    let S = Steps dp.error in
    let n = parse_number value dp.error in
    let next : DeviceParser = record dp { error = n.1 } in
    let next-good : IsParser next = record {
      private_key = w.private_key;
      all = w.all;
      counted = w.counted;
      entered = w.entered;
    } in
    if_either S (equal key (codes "errno"))
      (elim (Bool-cases (is_zero n.0)) [
        | inl z ↦ rw z (
            Steps-earlier dp.error n.1 _ (parse_number-Keeps value dp.error)
              (parse_field-Steps outside key value next next-good))
        | inr z ↦ rw z (
          record {
            private_key = w.private_key;
            all = w.all;
            counted = w.counted;
            entered = w.entered;
          },
          number_without_error value dp.error z (some (errno n.0)),
        )
      ])
      (if_either S (equal key (codes "public_key"))
        (enter_peer-IsParser value dp w, parse_key-Keeps value dp.error)
        (parse_field-Steps outside key value dp w))
