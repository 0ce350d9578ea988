-- ===== src/Meta/Reread.antt =====
-- `Update` with its lock, and `Names` after it.
use mathlib.Core.Path.{subst}
use wgctrl_go.Base.{
  false, [], some, Text, codes, length, length-append, if_either, ◌≡◌, ◌≢◌, ◌⊎◌, inl, inr, refl,
  sym, ◌∙◌, ap, arith, Option-cases,
}
use wgctrl_go.Base.Int.{pos}
use wgctrl_go.Base.Result.{Result, ok, err, map_err, >>=-eq-ok, Result-cases}
use wgctrl_go.Types.{Key}
use wgctrl_go.Meta.Names.{
  Names, IsMap, name_of, encode_names, decode_names, decode_names-encode_names, decode_names-IsMap,
}
use wgctrl_go.Meta.Path.{Os, resolve_file}
use wgctrl_go.Meta.Store.{
  Disk, FileData, Json, Calls, StoreError, lock_error, bad_key, read, entries, names, lock_path,
  with_lock, update_locked, update,
}
use wgctrl_go.Meta.Update.{put_ne, read_written, update_locked-Updates}

lock_path_ne : (path : Text) → lock_path path ≢ path
lock_path_ne path e = omega (arith, length-append path (codes ".lock"), ap length e)

with_lock_ne : (path p : Text) (disk : Disk) → lock_path path ≢ p → with_lock path disk p ≡ disk p
with_lock_ne path p disk h = elim (Option-cases (disk (lock_path path))) [
  | inl e ↦ rw (e, with_lock) (put_ne (lock_path path) p (some []) disk h)
  | inr (c, e) ↦ rw (e, with_lock)
]

module _ (json : Json) (os : Os) (calls : Calls) (base_path iface : Text) where
  abbrev path : Text
  path = resolve_file os base_path iface

  read-with_lock :
      (disk : Disk) → read json calls (with_lock path disk) path ≡ read json calls disk path
  unfolding read
  read-with_lock disk = rw (with_lock_ne path path disk (lock_path_ne path), read) refl

  names-read :
      (disk : Disk) {file : FileData} {ns : Names}
      → read json calls disk path ≡ ok file
      → decode_names (entries file) ≡ ok ns
      → names json os calls base_path iface disk ≡ ok ns
  unfolding names
  names-read disk r d = rw r (rw d)

  names-IsMap :
      (disk : Disk) {ns : Names} → names json os calls base_path iface disk ≡ ok ns → IsMap ns
  unfolding names
  names-IsMap disk h =
      let (file, d, r) =
        >>=-eq-ok (λ file. map_err bad_key (decode_names (entries file)))
          (read json calls disk path) h in
      elim (Result-cases (decode_names (entries file))) [
        | inl (ns, e) ↦ subst IsMap (cc (rw e at d)) (decode_names-IsMap (entries file) e)
        | inr (x, e) ↦ cc (rw e at d)
      ]

  -- The outcome of `Update`: the change is written to the file of the interface, or the file is as
  -- it was and there is an error.
  pub record Outcome (change : Names → Names) (disk : Disk)
      (out : Result StoreError (Unit {0}) × Disk) : Type 0 where
    pub at_path :
        ((ns : Names) × (names json os calls base_path iface disk ≡ ok ns)
          × (out.0 ≡ ok tt)
          × (out.1 path
              ≡ some (
                  json.marshal
                    (record { version = pos 1; names = some (encode_names (change ns)) }))))
        ⊎ ((e : StoreError) × (out.0 ≡ err e) × (out.1 path ≡ disk path))
    pub elsewhere :
        (p : Text) → path ≢ p → lock_path path ≢ p → calls.tmp_name ≢ p → out.1 p ≡ disk p

  module _ (apart : calls.tmp_name ≢ path) (change : Names → Names) where
    locked :
        (disk : Disk)
        → Outcome change disk (update_locked json calls path change (with_lock path disk))
    locked disk =
        let u = update_locked-Updates json calls path apart change (with_lock path disk) in
        record {
          at_path = elim u.at_path [
            | inl (ns, file, r, d, o, e) ↦
                inl (ns, names-read disk (sym (read-with_lock disk) ∙ r) d, o, e)
            | inr (x, o, e) ↦ inr (x, o, e ∙ with_lock_ne path path disk (lock_path_ne path))
          ];
          elsewhere = λ p hp hl ht. u.elsewhere p hp ht ∙ with_lock_ne path p disk hl;
        }

    unlocked :
        (disk d : Disk)
        → ((p : Text) → lock_path path ≢ p → d p ≡ disk p)
        → Outcome change disk (err lock_error, d)
    unlocked disk d same = record {
      at_path = inr (lock_error, refl, same path (lock_path_ne path));
      elsewhere = λ p _ hl _. same p hl;
    }

    -- `Update` is atomic, whichever system call fails: either it succeeds, the file of the
    -- interface was readable and now holds the changed names, or it returns an error and the file
    -- is as it was. No other file is touched but the lock and the temporary file, whose name must
    -- differ from that of the file.
    pub update-Outcome :
        (disk : Disk) → Outcome change disk (update json os calls base_path iface change disk)
    unfolding update
    update-Outcome disk =
        let P = Outcome change disk in
        if_either P calls.lock_fails (unlocked disk disk (λ p _. refl)) (
          if_either P calls.flock_fails
            (unlocked disk (with_lock path disk) (λ p h. with_lock_ne path p disk h)) (locked disk))

  -- What a later `Names` returns for a file with these names in it.
  reread :
      (disk : Disk) (ns : Names)
      → IsMap ns
      → calls.read_fails ≡ false
      → disk path ≡ some (json.marshal (record { version = pos 1; names = some (encode_names ns) }))
      → (r : Names) × (names json os calls base_path iface disk ≡ ok r)
        × ((k : Key) → name_of k r ≡ name_of k ns)
  reread disk ns m h e =
      let (r, d, same) = decode_names-encode_names ns m in
      (r, names-read disk (read_written json calls disk path (encode_names ns) h e) d, same)

-- After a successful `Update`, `Names` gives each key the name that the change gave it. The change
-- must keep maps with keys of 32 bytes such maps; `later` are the system calls of the second operation,
-- whose reading must not fail.
pub names-update :
    (json : Json) (os : Os) (calls later : Calls) (base_path iface : Text) (change : Names → Names)
    (disk : Disk)
    → calls.tmp_name ≢ resolve_file os base_path iface
    → ((ns : Names) → IsMap ns → IsMap (change ns))
    → later.read_fails ≡ false
    → (update json os calls base_path iface change disk).0 ≡ ok tt
    → (ns r : Names) × (names json os calls base_path iface disk ≡ ok ns)
      × (names json os later base_path iface (update json os calls base_path iface change disk).1
          ≡ ok r)
      × ((k : Key) → name_of k r ≡ name_of k (change ns))
names-update json os calls later base_path iface change disk apart map_kept h done =
    elim (update-Outcome json os calls base_path iface apart change disk).at_path [
      | inl (ns, before, _, e) ↦
          let (r, after, same) =
            reread json os later base_path iface _ (change ns)
              (map_kept ns (names-IsMap json os calls base_path iface disk before)) h e in
          (ns, r, before, after, same)
      | inr (x, failed, _) ↦ cc (failed, done)
    ]
