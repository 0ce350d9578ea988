-- ===== src/Wgconfig/Endpoint.antt =====
-- `resolveEndpoint` of internal/wgconfig/parse.go and the functions it calls.
use wgctrl_go.Base.{
  ℕ, zero, suc, ◌*◌, ◌/◌, ◌^◌, Bool, true, false, not, ◌&&◌, ◌||◌, List, [], ◌∷◌, Option, none,
  some, Text, codes, equal, is_empty, ltb, if◌then◌else◌,
}
use wgctrl_go.Base.Int.{pos}
use wgctrl_go.Base.Result.{Result, ok, err, ◌>>=◌}
use wgctrl_go.Std.Strings.{cut_last, cut_prefix, has_prefix}
use wgctrl_go.Std.Strconv.{parse_uint}
use wgctrl_go.Types.{Ip, UdpAddr, second}
use wgctrl_go.Wgconfig.Net.{LookupError, dns, other, Net}

pub data EndpointError : Type 0 where
  bad_retries empty_endpoint missing_port unknown_port no_address : EndpointError
  lookup_failed : LookupError → EndpointError
  -- the fuel ran out: the loop goes on
  still_trying : EndpointError

-- `splitEndpoint`
unfoldable pub split_endpoint : Net → Text → Option (Text × Text)
unfolding has_prefix cut_last
split_endpoint net value =
    if has_prefix value (codes "[") then net.split_host_port value else cut_last b':' value

-- `permanentEndpointError`
unfoldable pub is_permanent : LookupError → Bool
is_permanent other = true
is_permanent (dns e) = e.is_not_found || (not e.is_temporary && not e.is_timeout)

unfoldable pub min_duration : ℕ → ℕ → ℕ
min_duration a b = if ltb a b then a else b

-- What `endpointResolutionRetries` returns: a number, or -1 for "infinity".
pub data Retries : Type 0 where
  finite : ℕ → Retries
  infinite : Retries

abbrev parse_retries : Text → Option Retries
parse_retries number = elim (parse_uint 10 31 number) [ none ↦ none | some v ↦ some (finite v) ]

-- `endpointResolutionRetries`
unfoldable pub endpoint_resolution_retries : Net → Option Retries
unfolding parse_uint cut_prefix equal
endpoint_resolution_retries net = elim net.retries_variable [
  | none ↦ some (finite 15)
  | some value ↦
      if equal value (codes "infinity")
      then some infinite
      else elim (cut_prefix value (codes "+")) [
        | some number ↦ parse_retries number
        | none ↦ parse_retries value
      ]
]

-- `retries == 0` and `if retries > 0 { retries-- }`
abbrev pub is_used_up : Retries → Bool
is_used_up (finite zero) = true
is_used_up (finite (suc n)) = false
is_used_up infinite = false

abbrev pub use_one : Retries → Retries
use_one (finite zero) = finite zero
use_one (finite (suc n)) = finite n
use_one infinite = infinite

-- The outcome of the loop and the times that it slept.
abbrev pub Lookups : Type 0
Lookups = Result EndpointError Ip × List ℕ

abbrev pub first_address : List Ip → Result EndpointError Ip
first_address [] = err no_address
first_address (ip ∷ _) = ok ip

abbrev pub slept : ℕ → Lookups → Lookups
slept backoff (r, sleeps) = (r, backoff ∷ sleeps)

-- The loop `for { … }`, where `answers` are those of the resolver from the next one on.
unfoldable pub look_up : ℕ → (ℕ → Result LookupError (List Ip)) → Retries → ℕ → Lookups
unfolding is_permanent min_duration
look_up zero answers retries backoff = (err still_trying, [])
look_up (suc fuel) answers retries backoff =
    let later =
      look_up fuel (λ n. answers (suc n)) (use_one retries)
        (min_duration (20 * second) (backoff * 6 / 5)) in
    elim (answers 0) [
      | ok ips ↦ (first_address ips, [])
      | err e ↦
          if is_permanent e || is_used_up retries
          then (err (lookup_failed e), [])
          else slept backoff later
    ]

-- As many rounds as there are lookups; an infinite loop is cut off after 2 ^ 20 of them.
abbrev pub rounds : Retries → ℕ
rounds (finite n) = suc n
rounds infinite = 2 ^ 20

abbrev pub as_address : ℕ → Text → Ip → UdpAddr
as_address port zone ip = record { ip = ip; port = pos port; zone = zone }

abbrev pub with_address : ℕ → Text → Option Ip → Option UdpAddr
with_address port zone none = none
with_address port zone (some ip) = some (as_address port zone ip)

abbrev pub first_of {ℓ} : {A : Type ℓ} → Option A → Option A → Option A
first_of none b = b
first_of (some a) b = some a

-- The address of a host that needs no lookup, with its parts around the last '%'.
abbrev pub literal : Net → ℕ → Text → Option (Text × Text) → Option UdpAddr
literal net port host none = with_address port [] (net.parse_ip host)
literal net port host (some (address, zone)) =
    first_of (with_address port zone (net.parse_ip address))
      (with_address port [] (net.parse_ip host))

abbrev pub looked_up : ℕ → Result EndpointError Ip → Result EndpointError UdpAddr
looked_up port (ok ip) = ok (as_address port [] ip)
looked_up port (err e) = err e

-- A host that has a literal address, or must be looked up.
abbrev pub resolve_literal :
    Net → Retries → Text → ℕ → Option UdpAddr → Result EndpointError UdpAddr
resolve_literal net retries host port (some address) = ok address
resolve_literal net retries host port none =
    looked_up port (look_up (rounds retries) (net.lookup_ips host) retries second).0

-- `resolveEndpoint` behind the port.
unfoldable pub resolve_host : Net → Retries → Text → ℕ → Result EndpointError UdpAddr
unfolding look_up cut_last
resolve_host net retries host port =
    resolve_literal net retries host port (literal net port host (cut_last b'%' host))

abbrev pub or_error {ℓ κ} : {E : Type ℓ} {A : Type κ} → E → Option A → Result E A
or_error e none = err e
or_error e (some a) = ok a

-- `resolveEndpoint`
unfoldable pub resolve_endpoint : Net → Text → Result EndpointError UdpAddr
unfolding resolve_host endpoint_resolution_retries split_endpoint
resolve_endpoint net value = do
  retries ← or_error bad_retries (endpoint_resolution_retries net)
  host_port ←
      if is_empty value
      then err empty_endpoint
      else or_error missing_port (split_endpoint net value)
  port ← or_error unknown_port (net.lookup_port host_port.1)
  resolve_host net retries host_port.0 port
