-- ===== src/Wgquick/Save.antt =====
-- internal/wgquick/save.go. A disk is the content of each path; whether a call of the system fails
-- is chosen by the record `Calls`.
use wgctrl_go.Base.{
  Bool, true, false, not, ◌||◌, List, ◌++◌, map, Option, none, some, Text, codes, equal,
  if◌then◌else◌,
}
use wgctrl_go.Base.Int.{ℤ, is_zero}
use wgctrl_go.Base.Result.{Result, ok, err}
use wgctrl_go.Std.Scanner.{Reader}
use wgctrl_go.Types.{Peer, Device, zero_key}
use wgctrl_go.Meta.Store.{Disk, put}
use wgctrl_go.Conf.{ClientError}
use wgctrl_go.Wguser.Client.{trim_suffix}
use wgctrl_go.Wgquick.Config.{PeerConfig, Config, empty_config}
use wgctrl_go.Wgquick.Parse.{Net, ParseError}
use wgctrl_go.Wgquick.Lines.{parse}
use wgctrl_go.Wgquick.Encode.{Printer, encode}

abbrev pub unless_zero : ℤ → Option ℤ
unless_zero n = if not (is_zero n) then some n else none

-- One round of the loop in `peersFromDevice`.
abbrev pub peer_from_device : Peer → PeerConfig
peer_from_device p = record {
  public_key = p.public_key;
  preshared_key = if not (equal p.preshared_key zero_key) then some p.preshared_key else none;
  allowed_ips = p.allowed_ips;
  endpoint = p.endpoint;
  persistent_keepalive = unless_zero p.persistent_keepalive_interval;
}

-- `peersFromDevice`
abbrev pub peers_from_device : Device → List PeerConfig
peers_from_device dev = map peer_from_device dev.peers

-- `applyDevice`
unfoldable pub apply_device : Config → Device → Config
apply_device cfg dev = record cfg {
  private_key = if dev.has_private_key then some dev.private_key else none;
  listen_port = unless_zero dev.listen_port;
  firewall_mark = unless_zero dev.firewall_mark;
  peers = peers_from_device dev;
}

pub record Calls : Type 0 where
  -- opening and reading an existing file, opening the temporary one, writing, closing and renaming it
  pub open_fails : Bool
  pub read_fails : Bool
  pub create_fails : Bool
  pub write_fails : Bool
  pub close_fails : Bool
  pub rename_fails : Bool
  -- what a failing read gave of the file, and what a failing write left in it
  pub read_part : Text
  pub partial : Text

pub data SaveError : Type 0 where
  open_error write_error : SaveError
  parse_error : ParseError → SaveError
  device_error : ClientError → SaveError

abbrev pub tmp_path : Text → Text
tmp_path path = path ++ codes ".tmp"

-- `writeFileAtomic` for the text that `Encode` makes. A temporary file whose renaming fails stays.
unfoldable pub write_file_atomic : Calls → Text → Text → Disk → Result SaveError (Unit {0}) × Disk
unfolding put
write_file_atomic calls path text disk =
    if calls.create_fails
    then (err write_error, disk)
    else if calls.write_fails || calls.close_fails
    then (
      err write_error,
      put (tmp_path path) none
          (put (tmp_path path) (some (if calls.write_fails then calls.partial else text)) disk),
    )
    else if calls.rename_fails
    then (err write_error, put (tmp_path path) (some text) disk)
    else (ok tt, put path (some text) (put (tmp_path path) none disk))

-- `interfaceNameFromPath`, with `filepath.Base` and `filepath.Ext`.
unfoldable pub interface_name_from_path : (Text → Text) → (Text → Text) → Text → Text
unfolding trim_suffix
interface_name_from_path base ext path = trim_suffix (base path) (ext (base path))

-- The configuration that `Save` starts from.
abbrev pub parsed : Result ParseError Config → Result SaveError Config
parsed (ok cfg) = ok cfg
parsed (err e) = err (parse_error e)

-- The file as a reader, which may fail behind a part of it.
abbrev pub reader : Calls → Text → Reader
reader calls content =
    if calls.read_fails
    then record { content = calls.read_part; failed = true }
    else record { content = content; failed = false }

-- `os.Open` and what follows it, for what stands under the path.
unfoldable pub stored_at : Net → Calls → Option Text → Result SaveError Config
unfolding parse
stored_at net calls none = if calls.open_fails then err open_error else ok empty_config
stored_at net calls (some content) =
    if calls.open_fails then err open_error else parsed (parse net (reader calls content))

unfoldable pub stored : Net → Calls → Text → Disk → Result SaveError Config
unfolding stored_at
stored net calls path disk = stored_at net calls (disk path)

-- `Save` behind the reading of the file, where `device` is what the client answers for a name.
abbrev pub save_onto :
    Printer
    → Calls
    → Text
    → Text
    → (Text → Result ClientError Device)
    → Result SaveError Config
    → Disk
    → Result SaveError (Unit {0}) × Disk
save_onto out calls name path device (err e) disk = (err e, disk)
save_onto out calls name path device (ok cfg) disk = elim (device name) [
  | err e ↦ (err (device_error e), disk)
  | ok dev ↦
      write_file_atomic calls path (encode out (apply_device (record cfg { name = name }) dev)) disk
]

-- `Save`, for the name of the interface.
unfoldable pub save :
    Net
    → Printer
    → Calls
    → Text
    → Text
    → (Text → Result ClientError Device)
    → Disk
    → Result SaveError (Unit {0}) × Disk
unfolding stored write_file_atomic encode apply_device
save net out calls name path device disk =
    save_onto out calls name path device (stored net calls path disk) disk
