-- ===== src/Wgconfig/States.antt =====
-- What holds of the state of `Parse` between two lines.
use wgctrl_go.Base.{
  ℕ, suc, ◌-◌, ◌^◌, ◌<◌, ◌≤◌, ◌≢◌, ◌||◌, Bool, true, false, not, List, [], ◌∷◌, Option, none, some,
  Text, length, ◌≡◌, refl, sym, ap, ◌∙◌, All, All-replicate, arith, Bool-cases, inl, inr,
}
use wgctrl_go.Base.Result.{Result, ok, err}
use wgctrl_go.Types.{AllowedIpConfig, UdpAddr, PeerConfig, Config, zero_key}
use wgctrl_go.Types.Keys.{IsKey}
use wgctrl_go.Std.Strings.{byte_len, contains}
use wgctrl_go.Wgconfig.Fields.{EntryError, bad_entry, no_first_byte, validate_peer_name}
use wgctrl_go.Wgconfig.Endpoint.{EndpointError}
use wgctrl_go.Wgconfig.Ranges.{Holds, IsUpTo, IsInterval, OnOk}
use wgctrl_go.Wgconfig.Entries.{IsHarmless}
use wgctrl_go.Wgconfig.Parse.{
  LineError, State, update_last, initial, change_peer, new_peer, with_value, with_address,
  valid_name, with_entries, index_out_of_range, Section, no_section, interface_section,
  peer_section,
}

-- The name of a peer: short, and in one line.
pub record IsName (name : Text) : Type 0 where
  pub size : byte_len name ≤ 255
  pub characters : All (λ (c : ℕ). (c ≢ 0) × (c ≢ 10) × (c ≢ 13)) name

-- What `Parse` makes for a section "Peer".
pub record IsPeer (p : PeerConfig) : Type 0 where
  pub public_key : IsKey p.public_key
  pub preshared_key : Holds IsKey p.preshared_key
  pub endpoint : Holds (λ (a : UdpAddr). IsUpTo 65535 a.port) p.endpoint
  pub interval : Holds IsInterval p.persistent_keepalive_interval
  pub name : Holds IsName p.name
  pub set_only : (p.remove ≡ false) × (p.update_only ≡ false) × (p.allowed_ips ≡ [])

pub record IsConfig (append_mode : Bool) (cfg : Config) : Type 0 where
  pub private_key : Holds IsKey cfg.private_key
  pub listen_port : Holds (IsUpTo 65535) cfg.listen_port
  pub firewall_mark : Holds (IsUpTo (2 ^ 32 - 1)) cfg.firewall_mark
  pub replace_peers : cfg.replace_peers ≡ not append_mode
  pub peers : All IsPeer cfg.peers

-- In the section of a peer there is a flag.
abbrev pub HasFlag : Section → List Bool → Type 0
HasFlag peer_section has = 1 ≤ length has
HasFlag interface_section has = Unit
HasFlag no_section has = Unit

pub HasFlag-length :
    (section : Section) (has other : List Bool)
    → length other ≡ length has
    → HasFlag section has
    → HasFlag section other
HasFlag-length no_section has other e h = tt
HasFlag-length interface_section has other e h = tt
HasFlag-length peer_section has other e h = omega (arith, e, h)

pub record IsState (append_mode : Bool) (s : State) : Type 0 where
  pub cfg : IsConfig append_mode s.cfg
  pub flags : length s.peer_has_public_key ≡ length s.cfg.peers
  pub section : HasFlag s.section s.peer_has_public_key

abbrev pub is_index : LineError → Bool
is_index index_out_of_range = true
is_index _ = false

-- A state with `I`, or an error that is no panic.
abbrev pub Kept : (State → Type 0) → Result LineError State → Type 0
Kept I (ok s) = I s
Kept I (err e) = is_index e ≡ false

pub length-update_last {ℓ} :
    {A : Type ℓ} (f : A → A) (xs : List A) → length (update_last f xs) ≡ length xs
unfolding update_last
length-update_last f [] = refl
length-update_last f (a ∷ []) = refl
length-update_last f (a ∷ b ∷ xs) = ap suc (length-update_last f (b ∷ xs))

All-update_last {ℓ κ} :
    {A : Type ℓ} (P : A → Type κ) (f : A → A) (xs : List A)
    → ((a : A) → P a → P (f a))
    → All P xs
    → All P (update_last f xs)
unfolding update_last
All-update_last P f [] h p = tt
All-update_last P f (a ∷ []) h (p, _) = (h a p, tt)
All-update_last P f (a ∷ b ∷ xs) h (p, ps) = (p, All-update_last P f (b ∷ xs) h ps)

zero_key-IsKey : IsKey zero_key
zero_key-IsKey = record {
  size = refl;
  bytes = All-replicate (λ (b : ℕ). b < 256) 32 {a = 0} (omega arith);
}

pub new_peer-IsPeer : IsPeer new_peer
new_peer-IsPeer = record {
  public_key = zero_key-IsKey;
  preshared_key = tt;
  endpoint = tt;
  interval = tt;
  name = tt;
  set_only = (refl, refl, refl);
}

pub initial-IsState : (append_mode : Bool) → IsState append_mode (initial append_mode)
initial-IsState true = record {
  cfg = record {
    private_key = tt;
    listen_port = tt;
    firewall_mark = tt;
    replace_peers = refl;
    peers = tt;
  };
  flags = refl;
  section = tt;
}
initial-IsState false = record {
  cfg = record {
    private_key = zero_key-IsKey;
    listen_port = (0, refl, omega arith);
    firewall_mark = (0, refl, omega arith);
    replace_peers = refl;
    peers = tt;
  };
  flags = refl;
  section = tt;
}

pub with_value-Kept {ℓ κ} :
    {A : Type ℓ} (P : A → Type κ) (I : State → Type 0) (e : LineError) (o : Option A)
    (change : A → State)
    → is_index e ≡ false
    → Holds P o
    → ((v : A) → P v → I (change v))
    → Kept I (with_value e o change)
unfolding with_value
with_value-Kept P I e none change k h f = k
with_value-Kept P I e (some v) change k h f = f v h

pub with_address-Kept {κ} :
    (P : UdpAddr → Type κ) (I : State → Type 0) (r : Result EndpointError UdpAddr)
    (change : UdpAddr → State)
    → OnOk P r
    → ((v : UdpAddr) → P v → I (change v))
    → Kept I (with_address r change)
unfolding with_address
with_address-Kept P I (err e) change h f = refl
with_address-Kept P I (ok v) change h f = f v h

pub with_entries-Kept :
    (I : State → Type 0) (r : Result EntryError (List AllowedIpConfig × Bool))
    (change : List AllowedIpConfig × Bool → State)
    → IsHarmless r
    → ((v : List AllowedIpConfig × Bool) → I (change v))
    → Kept I (with_entries r change)
unfolding with_entries
with_entries-Kept I (err bad_entry) change h f = refl
with_entries-Kept I (err no_first_byte) change h f = absurd cc
with_entries-Kept I (ok v) change h f = f v

allowed_characters :
    (name : Text)
    → (contains 0 name || contains 13 name || contains 10 name) ≡ false
    → All (λ (c : ℕ). (c ≢ 0) × (c ≢ 10) × (c ≢ 13)) name
unfolding contains
allowed_characters [] h = tt
allowed_characters (c ∷ s) h = (
  (λ e. ground (arith, h, e), λ e. ground (arith, h, e), λ e. ground (arith, h, e)),
  allowed_characters s (ground (arith, h)),
)

validate_peer_name-IsName : (name : Text) → validate_peer_name name ≡ true → IsName name
unfolding validate_peer_name
validate_peer_name-IsName name h = record {
  size = ground (arith, h);
  characters = allowed_characters name (ground (arith, h));
}

pub valid_name-Holds : (o : Option Text) → Holds IsName (valid_name o)
valid_name-Holds none = tt
valid_name-Holds (some name) = elim (Bool-cases (validate_peer_name name)) [
  | inl e ↦ rw e (validate_peer_name-IsName name e)
  | inr e ↦ rw e tt
]

module _ (append_mode : Bool) where
  abbrev pub Good : State → Type 0
  Good = IsState append_mode

  pub change_peer-IsState :
      (f : PeerConfig → PeerConfig) (s : State)
      → ((p : PeerConfig) → IsPeer p → IsPeer (f p))
      → Good s
      → Good (change_peer f s)
  change_peer-IsState f s h w = record {
    cfg = record {
      private_key = w.cfg.private_key;
      listen_port = w.cfg.listen_port;
      firewall_mark = w.cfg.firewall_mark;
      replace_peers = w.cfg.replace_peers;
      peers = All-update_last IsPeer f s.cfg.peers h w.cfg.peers;
    };
    flags = w.flags ∙ sym (length-update_last f s.cfg.peers);
    section = w.section;
  }
