-- ===== src/Wgconfig/Ranges.antt =====
-- The ranges of the values that the fields of a configuration take.
use wgctrl_go.Base.{
  ℕ, ◌+◌, ◌-◌, ◌*◌, ◌^◌, ◌≤◌, [], ◌∷◌, Option, none, some, Text, codes, equal, is_empty,
  if◌then◌else◌, if_either, ◌≡◌, refl, arith, Option-cases, Bool-cases, inl, inr, ltb, ltb→le,
}
use wgctrl_go.Base.Int.{ℤ, pos}
use wgctrl_go.Base.Result.{Result, ok, err, ◌>>=◌, Result-cases}
use wgctrl_go.Std.Strconv.{scan_digits, parse_uint, digit_of}
use wgctrl_go.Std.Strings.{equal_fold, cut_prefix, cut_last}
use wgctrl_go.Types.{Ip, UdpAddr, second}
use wgctrl_go.Types.Keys.{IsKey, key_string}
use wgctrl_go.Types.Keys
use wgctrl_go.Wgconfig.Net.{Net}
use wgctrl_go.Wgconfig.Fields.{parse_key, parse_number, parse_uint_or_off, parse_fwmark, parse_mark}
use wgctrl_go.Wgconfig.Endpoint.{
  EndpointError, bad_retries, unknown_port, missing_port, empty_endpoint, split_endpoint, Retries,
  endpoint_resolution_retries, or_error, with_address, first_of, literal, looked_up,
  resolve_literal, resolve_endpoint, resolve_host,
}

-- A value that is there satisfies `P`.
abbrev pub Holds {ℓ κ} : {A : Type ℓ} → (A → Type κ) → Option A → Type κ
Holds P none = Unit
Holds P (some a) = P a

abbrev pub IsUpTo : ℕ → ℤ → Type 0
IsUpTo max v = (n : ℕ) × (v ≡ pos n) × (n ≤ max)

-- Whole seconds that fit into 16 bits.
abbrev pub IsInterval : ℤ → Type 0
IsInterval d = (n : ℕ) × (d ≡ pos (n * second)) × (n ≤ 65535)

scan_digits_le :
    (base limit : ℕ) (s : Text) (n v : ℕ)
    → n ≤ limit
    → scan_digits base limit s n ≡ some v
    → v ≤ limit
unfolding scan_digits
scan_digits_le base limit [] n v h e = ground arith
scan_digits_le base limit (c ∷ s) n v h e = elim (Option-cases (digit_of base c)) [
  | inl f ↦ cc (rw (f, scan_digits) at e)
  | inr (d, f) ↦
      let m = n * base + d in
      elim (Bool-cases (ltb limit m)) [
        | inl g ↦ cc (rw g at (rw (f, scan_digits) at e))
        | inr g ↦
            scan_digits_le base limit s m v (ltb→le limit m g) (rw g at (rw (f, scan_digits) at e))
      ]
]

pub parse_uint_le :
    (base bits : ℕ) (s : Text) (v : ℕ) → parse_uint base bits s ≡ some v → v ≤ 2 ^ bits - 1
unfolding parse_uint
parse_uint_le base bits [] v e = cc
parse_uint_le base bits (c ∷ s) v e = scan_digits_le base (2 ^ bits - 1) (c ∷ s) 0 v (omega arith) e

-- What holds of every value holds of the one that is there.
pub Holds-some {ℓ κ} :
    {A : Type ℓ} {P : A → Type κ} (o : Option A) → ((a : A) → o ≡ some a → P a) → Holds P o
Holds-some none h = tt
Holds-some (some a) h = h a refl

pub parse_number_le : (max : ℕ) (s : Text) → Holds (λ v. v ≤ max) (parse_number max s)
parse_number_le max s = Holds-some (parse_number max s) (λ v e. unfold parse_number in ground arith)

pub parse_uint_or_off_le : (max : ℕ) (s : Text) → Holds (λ v. v ≤ max) (parse_uint_or_off max s)
unfolding parse_uint_or_off
parse_uint_or_off_le max s =
    if_either (Holds (λ v. v ≤ max)) (equal_fold s (codes "off")) (omega arith)
      (parse_number_le max s)

parse_mark_le :
    (s : Text) (digits : Option Text) → Holds (λ v. v ≤ 2 ^ 32 - 1) (parse_mark s digits)
parse_mark_le s none = parse_number_le (2 ^ 32 - 1) s
parse_mark_le s (some digits) =
    if_either (Holds (λ v. v ≤ 2 ^ 32 - 1)) (is_empty digits) tt
      (Holds-some (parse_uint 16 32 digits) (parse_uint_le 16 32 digits))

pub parse_fwmark_le : (s : Text) → Holds (λ v. v ≤ 2 ^ 32 - 1) (parse_fwmark s)
unfolding parse_fwmark
parse_fwmark_le s =
    if_either (Holds (λ v. v ≤ 2 ^ 32 - 1)) (equal_fold s (codes "off")) (omega arith)
      (parse_mark_le s (cut_prefix s (codes "0x")))

pub parse_key-IsKey : (s : Text) → Holds IsKey (parse_key s)
unfolding parse_key
parse_key-IsKey s = elim (Result-cases (Keys.parse_key s)) [
  | inl (key, r) ↦
      rw (r, parse_key)
        (if_either (Holds IsKey) (equal (key_string key) s) (Keys.parse_key-IsKey s r) tt)
  | inr (x, r) ↦ rw (r, parse_key) tt
]

-- The value of a result without an error.
abbrev pub OnOk {ℓ κ ι} : {E : Type ℓ} {A : Type κ} → (A → Type ι) → Result E A → Type ι
OnOk P (ok a) = P a
OnOk P (err e) = Unit

pub OnOk-bind {ℓ κ ι ν} :
    {E : Type ℓ} {A B : Type κ} (P : A → Type ι) (Q : B → Type ν) (r : Result E A)
    (f : A → Result E B)
    → OnOk P r
    → ((a : A) → P a → OnOk Q (f a))
    → OnOk Q (r >>= f)
OnOk-bind P Q (ok a) f p h = h a p
OnOk-bind P Q (err e) f p h = tt

OnOk-or_error {ℓ κ ι} :
    {E : Type ℓ} {A : Type κ} (P : A → Type ι) (e : E) (o : Option A)
    → Holds P o
    → OnOk P (or_error e o)
OnOk-or_error P e none h = tt
OnOk-or_error P e (some a) h = h

-- The resolver's ports have 16 bits.
abbrev pub HasPorts : Net → Type 0
HasPorts net = (s : Text) → Holds (λ port. port ≤ 65535) (net.lookup_port s)

abbrev HasPort : ℕ → UdpAddr → Type 0
HasPort port a = a.port ≡ pos port

with_address-HasPort :
    (port : ℕ) (zone : Text) (o : Option Ip) → Holds (HasPort port) (with_address port zone o)
with_address-HasPort port zone none = tt
with_address-HasPort port zone (some ip) = refl

first_of-Holds {ℓ κ} :
    {A : Type ℓ} (P : A → Type κ) (a b : Option A) → Holds P a → Holds P b → Holds P (first_of a b)
first_of-Holds P none b ha hb = hb
first_of-Holds P (some a) b ha hb = ha

literal-HasPort :
    (net : Net) (port : ℕ) (host : Text) (o : Option (Text × Text))
    → Holds (HasPort port) (literal net port host o)
literal-HasPort net port host none = with_address-HasPort port [] (net.parse_ip host)
literal-HasPort net port host (some (address, zone)) =
    first_of-Holds (HasPort port) (with_address port zone (net.parse_ip address))
      (with_address port [] (net.parse_ip host))
      (with_address-HasPort port zone (net.parse_ip address))
      (with_address-HasPort port [] (net.parse_ip host))

looked_up-HasPort :
    (port : ℕ) (r : Result EndpointError Ip) → OnOk (HasPort port) (looked_up port r)
looked_up-HasPort port (ok ip) = refl
looked_up-HasPort port (err e) = tt

resolve_literal-HasPort :
    (net : Net) (retries : Retries) (host : Text) (port : ℕ) (o : Option UdpAddr)
    → Holds (HasPort port) o
    → OnOk (HasPort port) (resolve_literal net retries host port o)
resolve_literal-HasPort net retries host port none h = looked_up-HasPort port _
resolve_literal-HasPort net retries host port (some a) h = h

OnOk-map {ℓ κ ι ν} :
    {E : Type ℓ} {A : Type κ} (P : A → Type ι) (Q : A → Type ν) (r : Result E A)
    → ((a : A) → P a → Q a)
    → OnOk P r
    → OnOk Q r
OnOk-map P Q (ok a) h p = h a p
OnOk-map P Q (err e) h p = tt

anything {ℓ κ} : {E : Type ℓ} {A : Type κ} (r : Result E A) → OnOk (λ _. Unit {0}) r
anything (ok a) = tt
anything (err e) = tt

-- A host with its port.
resolve_pair-port :
    (net : Net) (retries : Retries) (h : Text × Text)
    → HasPorts net
    → OnOk
        (λ (a : UdpAddr). IsUpTo 65535 a.port)
        (or_error unknown_port (net.lookup_port h.1) >>= resolve_host net retries h.0)
unfolding resolve_host
resolve_pair-port net retries h ports =
    OnOk-bind (λ port. port ≤ 65535) (λ (a : UdpAddr). IsUpTo 65535 a.port)
      (or_error unknown_port (net.lookup_port h.1)) (resolve_host net retries h.0)
      (OnOk-or_error (λ port. port ≤ 65535) unknown_port (net.lookup_port h.1) (ports h.1))
      (λ port small.
        let o = literal net port h.0 (cut_last b'%' h.0) in
        OnOk-map (HasPort port) (λ (a : UdpAddr). IsUpTo 65535 a.port)
          (resolve_literal net retries h.0 port o) (λ a e. (port, e, small))
          (resolve_literal-HasPort net retries h.0 port o
            (literal-HasPort net port h.0 (cut_last b'%' h.0))))

pub resolve_endpoint-port :
    (net : Net) (value : Text)
    → HasPorts net
    → OnOk (λ (a : UdpAddr). IsUpTo 65535 a.port) (resolve_endpoint net value)
unfolding resolve_endpoint
resolve_endpoint-port net value ports =
    let Q = λ (a : UdpAddr). IsUpTo 65535 a.port in
    let parts =
      if is_empty value
      then err empty_endpoint
      else or_error missing_port (split_endpoint net value) in
    let retries = or_error bad_retries (endpoint_resolution_retries net) in
    let host = λ (r : Retries) (h : Text × Text).
      or_error unknown_port (net.lookup_port h.1) >>= resolve_host net r h.0 in
    OnOk-bind (λ _. Unit {0}) Q retries (λ r. parts >>= host r) (anything retries)
      (λ r _.
        OnOk-bind (λ _. Unit {0}) Q parts (host r) (anything parts)
          (λ h _. resolve_pair-port net r h ports))
