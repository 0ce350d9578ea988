-- ===== src/Meta/Store.antt =====
-- `Store` of internal/wgmeta/store.go. A disk is the content of each path; whether a system call
-- fails is chosen by the record `Calls`, and `Json` stands for `encoding/json`.
use wgctrl_go.Base.{
  Bool, false, not, List, [], ◌++◌, Option, none, some, Text, codes, equal, if◌then◌else◌, ◌==◌,
  ◌≡◌,
}
use wgctrl_go.Base.Int.{ℤ, pos, negsuc}
use wgctrl_go.Base.Result.{Result, ok, err, ◌>>=◌, map_err}
use wgctrl_go.Types.Keys.{KeyError}
use wgctrl_go.Meta.Names.{Names, encode_names, decode_names}
use wgctrl_go.Meta.Path.{Os, resolve_file}

abbrev pub Disk : Type 0
Disk = Text → Option Text

unfoldable pub put : Text → Option Text → Disk → Disk
put path content disk p = if equal path p then content else disk p

-- `names` is `none` for a nil map.
pub record FileData : Type 0 where
  pub version : ℤ
  pub names : Option (List (Text × Text))

-- The value that `read` starts from.
abbrev pub fresh : FileData
fresh = record { version = pos 1; names = some [] }

-- `json.Unmarshal(b, &data)` for a `data` that is fresh, and `json.MarshalIndent`. What is
-- marshalled is read back.
pub record Json : Type 0 where
  pub unmarshal : Text → Option FileData
  pub marshal : FileData → Text
  pub unmarshal-marshal :
      (names : List (Text × Text))
      → unmarshal (marshal (record { version = pos 1; names = some names }))
        ≡ some (record { version = pos 1; names = some names })

pub record Calls : Type 0 where
  -- `lockFile` before and behind the creation of the file
  pub lock_fails : Bool
  pub flock_fails : Bool
  pub read_fails : Bool
  pub mkdir_fails : Bool
  pub create_fails : Bool
  pub chmod_fails : Bool
  pub write_fails : Bool
  pub sync_fails : Bool
  pub close_fails : Bool
  pub rename_fails : Bool
  -- the name that `os.CreateTemp` chose, and what a failing write left in the file
  pub tmp_name : Text
  pub partial : Text

pub data StoreError : Type 0 where
  lock_error read_error parse_error mkdir_error write_error : StoreError
  bad_version : ℤ → StoreError
  bad_key : KeyError → StoreError

abbrev is_one : ℤ → Bool
is_one (pos n) = n == 1
is_one (negsuc n) = false

abbrev or_empty : FileData → FileData
or_empty data' = elim data'.names [ none ↦ record data' { names = some [] } | some _ ↦ data' ]

abbrev pub check_version : FileData → Result StoreError FileData
check_version file =
    if not (is_one file.version) then err (bad_version file.version) else ok (or_empty file)

-- `read`
unfoldable pub read : Json → Calls → Disk → Text → Result StoreError FileData
read json calls disk path = elim (disk path) [
  | none ↦ if calls.read_fails then err read_error else ok fresh
  | some b ↦
      if calls.read_fails
      then err read_error
      else elim (json.unmarshal b) [ none ↦ err parse_error | some file ↦ check_version file ]
]

-- The map of a file that was read.
abbrev pub entries : FileData → List (Text × Text)
entries file = elim file.names [ none ↦ [] | some es ↦ es ]

-- The steps behind `os.CreateTemp`; what they leave in the temporary file, and whether the rename
-- was made.
abbrev pub tmp_steps : Calls → Text → Text → Disk → Result StoreError (Unit {0}) × Disk
tmp_steps calls path b disk =
    if calls.chmod_fails
    then (err write_error, disk)
    else if calls.write_fails
    then (err write_error, put calls.tmp_name (some calls.partial) disk)
    else let written = put calls.tmp_name (some b) disk in
      if calls.sync_fails
      then (err write_error, written)
      else if calls.close_fails
      then (err write_error, written)
      else if calls.rename_fails
      then (err write_error, written)
      else (ok tt, put calls.tmp_name none (put path (some b) written))

-- `atomicWriteFile`; the deferred `os.Remove(tmpName)` runs behind all steps.
unfoldable pub atomic_write_file : Calls → Text → Text → Disk → Result StoreError (Unit {0}) × Disk
unfolding put
atomic_write_file calls path b disk =
    if calls.create_fails
    then (err write_error, disk)
    else let (r, disk') = tmp_steps calls path b (put calls.tmp_name (some []) disk) in
      (r, put calls.tmp_name none disk')

-- `write`
unfoldable pub write : Json → Calls → Text → FileData → Disk → Result StoreError (Unit {0}) × Disk
unfolding atomic_write_file put
write json calls path file disk =
    if calls.mkdir_fails
    then (err mkdir_error, disk)
    else atomic_write_file calls path (json.marshal file) disk

-- `Names`
unfoldable pub names : Json → Os → Calls → Text → Text → Disk → Result StoreError Names
unfolding read resolve_file
names json os calls base_path iface disk = do
  file ← read json calls disk (resolve_file os base_path iface)
  map_err bad_key (decode_names (entries file))

abbrev pub lock_path : Text → Text
lock_path path = path ++ codes ".lock"

-- The lock file is created if it is not there.
abbrev pub with_lock : Text → Disk → Disk
with_lock path disk = elim (disk (lock_path path)) [
  | none ↦ put (lock_path path) (some []) disk
  | some _ ↦ disk
]

-- `Update` behind the lock.
unfoldable pub update_locked :
    Json → Calls → Text → (Names → Names) → Disk → Result StoreError (Unit {0}) × Disk
unfolding read write
update_locked json calls path change disk = elim (read json calls disk path) [
  | err e ↦ (err e, disk)
  | ok file ↦ elim (decode_names (entries file)) [
    | err e ↦ (err (bad_key e), disk)
    | ok ns ↦ write json calls path (record file { names = some (encode_names (change ns)) }) disk
  ]
]

-- `Update`
unfoldable pub update :
    Json → Os → Calls → Text → Text → (Names → Names) → Disk → Result StoreError (Unit {0}) × Disk
unfolding update_locked resolve_file
update json os calls base_path iface change disk =
    let path = resolve_file os base_path iface in
    if calls.lock_fails
    then (err lock_error, disk)
    else if calls.flock_fails
    then (err lock_error, with_lock path disk)
    else update_locked json calls path change (with_lock path disk)
