-- ===== src/Meta/Tests.antt =====
-- The store with a small format in place of JSON and a disk of no files.
use wgctrl_go.Base.{
  ℕ, zero, suc, false, List, [], ◌∷◌, none, some, Text, codes, ◌≡◌, ◌≢◌, refl, ap, replicate,
  All-replicate, ◌<◌, arith, ◌==◌, equal,
}
use wgctrl_go.Base.Int.{pos}
use wgctrl_go.Base.Result.{ok}
use wgctrl_go.Std.Strings.{trim_space, fold}
use wgctrl_go.Types.{Key}
use wgctrl_go.Types.Keys.{IsKey}
use wgctrl_go.Meta.Names.{
  Names, name_of, assign, IsMap-assign, encode_names, decode_names, decode_names-encode_names,
}
use wgctrl_go.Meta.Path.{Os, resolve_file}
use wgctrl_go.Meta.Store.{Disk, FileData, Json, Calls, atomic_write_file, names, update}
use wgctrl_go.Meta.Update.{Replaces, atomic_write_file-Replaces}
use wgctrl_go.Meta.Reread.{Outcome, update-Outcome, names-update}

-- A text is written with 2 added to each code; 0 stands before a key and 1 before a value.
abbrev write_text : Text → Text → Text
write_text [] rest = rest
write_text (c ∷ s) rest = suc (suc c) ∷ write_text s rest

abbrev write_entries : List (Text × Text) → Text
write_entries [] = []
write_entries ((key, value) ∷ es) = 0 ∷ write_text key (1 ∷ write_text value (write_entries es))

-- The text, the value and the entries that a rest of the file holds.
abbrev read_entries : Text → Text × Text × List (Text × Text)
read_entries [] = ([], [], [])
read_entries (zero ∷ s) = let (t, v, es) = read_entries s in ([], [], (t, v) ∷ es)
read_entries (suc zero ∷ s) = let (t, v, es) = read_entries s in ([], t, es)
read_entries (suc (suc c) ∷ s) = let (t, v, es) = read_entries s in (c ∷ t, v, es)

pub read-write_text :
    (s rest : Text) (v : Text) (es : List (Text × Text))
    → read_entries rest ≡ ([], v, es)
    → read_entries (write_text s rest) ≡ (s, v, es)
read-write_text [] rest v es h = h
read-write_text (c ∷ s) rest v es h =
    ap (λ (r : Text × Text × List (Text × Text)). (c ∷ r.0, r.1, r.2))
      (read-write_text s rest v es h)

pub read-write_entries : (es : List (Text × Text)) → read_entries (write_entries es) ≡ ([], [], es)
read-write_entries [] = refl
read-write_entries ((key, value) ∷ es) =
    ap (λ (r : Text × Text × List (Text × Text)). ([], [], (r.0, r.1) ∷ r.2))
      (read-write_text key (1 ∷ write_text value (write_entries es)) value es (
        ap (λ (r : Text × Text × List (Text × Text)). ([], r.0, r.2))
          (read-write_text value (write_entries es) [] es (read-write_entries es))))

abbrev names_of : FileData → List (Text × Text)
names_of file = elim file.names [ none ↦ [] | some es ↦ es ]

unfoldable pub json : Json
json = record {
  unmarshal = λ s. some (record { version = pos 1; names = some (read_entries s).2 });
  marshal = λ file. write_entries (names_of file);
  unmarshal-marshal = λ es.
      ap
        (λ (r : Text × Text × List (Text × Text)).
          some (record { version = pos 1; names = some r.2 }))
        (read-write_entries es);
}

abbrev pub os : Os
os = record {
  goos = codes "linux";
  getenv = λ _. [];
  stat = λ _. none;
  join = λ parts. elim parts [ [] ↦ [] | p ∷ _ ↦ p ];
  is_separator = λ c. c == b'/';
}

-- Every call succeeds.
abbrev pub calls : Calls
calls = record {
  lock_fails = false;
  flock_fails = false;
  read_fails = false;
  mkdir_fails = false;
  create_fails = false;
  chmod_fails = false;
  write_fails = false;
  sync_fails = false;
  close_fails = false;
  rename_fails = false;
  tmp_name = [];
  partial = [];
}

abbrev pub no_files : Disk
no_files _ = none

abbrev pub base_path : Text
base_path = codes "n.json"

abbrev pub iface : Text
iface = codes "wg0"

abbrev pub key : Key
key = replicate 32 7

pub key-IsKey : IsKey key
key-IsKey = record {
  size = refl;
  bytes = All-replicate (λ (b : ℕ). b < 256) 32 {a = 7} (omega arith);
}

nil_ne : {c : ℕ} {s : Text} → [] ≢ c ∷ s
nil_ne = ground arith

pub apart : calls.tmp_name ≢ resolve_file os base_path iface
unfolding resolve_file trim_space fold equal
apart = nil_ne

abbrev change : Names → Names
change ns = assign key (codes "laptop") ns

decode_names-encode_names_example :
    (r : Names) × (decode_names (encode_names (change [])) ≡ ok r)
    × ((k : Key) → name_of k r ≡ name_of k (change []))
decode_names-encode_names_example =
    decode_names-encode_names (change []) (IsMap-assign key (codes "laptop") [] key-IsKey tt)

atomic_write_file-Replaces_example :
    Replaces []
      (codes "n.json")
      (codes "x")
      no_files
      (atomic_write_file calls (codes "n.json") (codes "x") no_files)
atomic_write_file-Replaces_example =
    atomic_write_file-Replaces calls (codes "n.json") (codes "x") nil_ne no_files

update-Outcome_example :
    Outcome json os calls base_path iface change no_files
      (update json os calls base_path iface change no_files)
update-Outcome_example = update-Outcome json os calls base_path iface apart change no_files

updated : (update json os calls base_path iface change no_files).0 ≡ ok tt
unfolding update json decode_names equal trim_space fold
updated = refl

names-update_example :
    (ns r : Names) × (names json os calls base_path iface no_files ≡ ok ns)
    × (names json os calls base_path iface (update json os calls base_path iface change no_files).1
        ≡ ok r)
    × ((k : Key) → name_of k r ≡ name_of k (change ns))
names-update_example =
    names-update json os calls calls base_path iface change no_files apart
      (λ ns m. IsMap-assign key (codes "laptop") ns key-IsKey m) refl updated
