-- ===== src/Wgapi/Server.antt =====
-- internal/wgapi/server.go: the handlers, and the key that a request must carry. A handler turns a
-- request and the state of the back end and the disk into a response and the next state; `s.mu`
-- keeps two writes from mixing, so each is one step.
use Prim.Native.Nat.{bit_or, bit_xor}
use wgctrl_go.Base.{
  ℕ, Bool, true, false, not, List, ◌∷◌, Option, none, some, Text, codes, equal, length, ◌==◌,
  if◌then◌else◌,
}
use wgctrl_go.Base.Result.{Result}
use wgctrl_go.Std.Scanner.{Reader}
use wgctrl_go.Types.{Key}
use wgctrl_go.Types
use wgctrl_go.Meta.Path.{Os}
use wgctrl_go.Meta.Store.{Disk, Calls, StoreError}
use wgctrl_go.Meta.Store
use wgctrl_go.Conf.{ClientError, not_exist, other, Client, ApplyError, apply, sync, attach_names}
use wgctrl_go.Conf
use wgctrl_go.Wgconfig.Net
use wgctrl_go.Wgconfig.Encode.{EncodeError}
use wgctrl_go.Wgapi.Json.{Device, Config, Formats, Net}

-- What comes from outside: the parsers and printers, `json.Decode`, `url.PathUnescape`, the reader of
-- `http.MaxBytesReader`, random bytes for keys, and `Key.PublicKey`.
pub record Outside : Type 0 where
  pub formats : Formats
  pub net : Net
  pub config_net : Net.Net
  pub os : Os
  pub calls : Calls
  pub json : Store.Json
  pub decode_config : Reader → Option Config
  pub decode_key : Reader → Option Text
  pub path_unescape : Text → Option Text
  pub max_bytes : Reader → Reader
  pub random : Option (List ℕ)
  pub public_key : Key → Key
  -- whether an error of the store is `os.ErrNotExist`
  pub is_not_exist : StoreError → Bool

-- A request, where a header or a parameter that is missing is empty.
pub record Request : Type 0 where
  pub method : Text
  pub path : Text
  pub api_key : Text
  pub mode : Text
  pub body : Reader

pub data Body : Type 0 where
  error_body status_ok healthy : Body
  version_body : Text → Text → Text → Body
  names_body : List Text → Body
  devices_body : List Device → Body
  device_body : Device → Body
  key_body : Text → Body
  plain : Text → Body
  -- the text of `Encode`, which is cut off where it returns an error
  conf_body : Result EncodeError Text → Body

-- The status, the header `Allow`, whether `WWW-Authenticate` asks for a key, and the body.
pub record Response : Type 0 where
  pub status : ℕ
  pub allow : Option Text
  pub challenge : Bool
  pub body : Body

-- `writeJSON`, `writeError` and `methodNotAllowed`.
abbrev pub respond : ℕ → Body → Response
respond status body = record { status = status; allow = none; challenge = false; body = body }

abbrev pub write_error : ℕ → Response
write_error status = respond status error_body

abbrev pub method_not_allowed : Text → Response
method_not_allowed allow = record {
  status = 405;
  allow = some allow;
  challenge = false;
  body = error_body;
}

-- `deviceErrorStatus`, on the errors of a client and of `Apply`, which `errors.Is` looks through.
abbrev pub error_status : ClientError → ℕ
error_status not_exist = 404
error_status (other t) = 500

abbrev pub apply_status : Outside → ApplyError → ℕ
apply_status o (Conf.client_error e) = error_status e
apply_status o (Conf.state_error e) = error_status e
apply_status o (Conf.names_error e) = if o.is_not_exist e then 404 else 500

-- The loop of `constantTimeEq` over strings of one length.
unfoldable pub difference : Text → Text → ℕ → ℕ
difference (a ∷ as') (b ∷ bs) diff = difference as' bs (bit_or diff (bit_xor a b))
difference _ _ diff = diff

-- `constantTimeEq`, on bytes.
unfoldable pub constant_time_eq : Text → Text → Bool
unfolding difference
constant_time_eq a b = if not (length a == length b) then false else difference a b 0 == 0

-- `appendMode`, `replacePeers` and `syncPeers`.
pub record Mode : Type 0 where
  pub append_mode : Bool
  pub replace_peers : Bool
  pub sync_peers : Bool

-- `confMode`
unfoldable pub conf_mode : Text → Option Mode
conf_mode mode =
    if equal mode (codes "add")
    then some (record { append_mode = true; replace_peers = false; sync_peers = false })
    else if equal mode (codes "set")
    then some (record { append_mode = false; replace_peers = true; sync_peers = false })
    else if equal mode (codes "sync")
    then some (record { append_mode = false; replace_peers = false; sync_peers = true })
    else none

-- `wgctrl.Client`: a client that also lists its devices.
pub record DeviceClient (W : Type 0) : Type 0 where
  pub client : Client W
  pub devices : W → Result ClientError (List Types.Device)

pub record Server (W : Type 0) : Type 0 where
  pub client : DeviceClient W
  pub metadata : Text
  pub hide_keys : Bool
  pub version : Text
  pub build_time : Text
  pub platform : Text
  pub api_key : Text

abbrev pub State : Type 0 → Type 0
State W = W × Disk

abbrev pub Handler : Type 0 → Type 0
Handler W = Request → State W → Response × State W
