-- ===== src/Meta/Update.antt =====
-- What `Update` leaves on the disk, and what `Names` then reads.
use wgctrl_go.Base.{
  false, List, [], Option, none, some, Text, equal, equal_iff, equal_refl, if_either, ◌≡◌, ◌≢◌, ◌⊎◌,
  inl, inr, refl, ◌∙◌, ap, arith, Bool-cases,
}
use wgctrl_go.Base.Int.{pos}
use wgctrl_go.Base.Result.{Result, ok, err, Result-cases}
use wgctrl_go.Meta.Names.{Names, encode_names, decode_names}
use wgctrl_go.Meta.Store.{
  Disk, put, FileData, Json, Calls, StoreError, check_version, read, entries, tmp_steps,
  atomic_write_file, write_error, mkdir_error, bad_key, write, update_locked,
}

pub put_self :
    (path : Text) (content : Option Text) (disk : Disk) → put path content disk path ≡ content
unfolding put
put_self path content disk = rw (equal_refl path)

pub put_ne :
    (path p : Text) (content : Option Text) (disk : Disk)
    → path ≢ p
    → put path content disk p ≡ disk p
unfolding put
put_ne path p content disk h = elim (Bool-cases (equal path p)) [
  | inl same ↦ absurd (h ((equal_iff path p).0 same))
  | inr other ↦ rw other
]

-- A write to `path` through a temporary file: done, or nothing happened to `path`; and no other
-- path but the temporary one is touched.
pub record Replaces (tmp path b : Text) (disk : Disk) (out : Result StoreError (Unit {0}) × Disk)
    : Type 0 where
  pub at_path :
      ((out.0 ≡ ok tt) × (out.1 path ≡ some b))
      ⊎ ((e : StoreError) × (out.0 ≡ err e) × (out.1 path ≡ disk path))
  pub elsewhere : (p : Text) → path ≢ p → tmp ≢ p → out.1 p ≡ disk p

module _ (calls : Calls) (path b : Text) (apart : calls.tmp_name ≢ path) where
  Replaces-fail :
      (d d' : Disk) (e : StoreError)
      → ((p : Text) → calls.tmp_name ≢ p → d' p ≡ d p)
      → Replaces calls.tmp_name path b d (err e, d')
  Replaces-fail d d' e same = record {
    at_path = inr (e, refl, same path apart);
    elsewhere = λ p _ h. same p h;
  }

  renamed :
      (d : Disk)
      → Replaces calls.tmp_name path b d
          (ok tt, put calls.tmp_name none (put path (some b) (put calls.tmp_name (some b) d)))
  renamed d = record {
    at_path = inl (refl, put_ne _ path _ _ apart ∙ put_self path (some b) _);
    elsewhere = λ p hp ht. put_ne _ p _ _ ht ∙ put_ne path p _ _ hp ∙ put_ne _ p _ _ ht;
  }

  tmp_steps-Replaces : (d : Disk) → Replaces calls.tmp_name path b d (tmp_steps calls path b d)
  tmp_steps-Replaces d =
      let P = Replaces calls.tmp_name path b d in
      let stopped = λ (content : Text).
        Replaces-fail d (put calls.tmp_name (some content) d) write_error (λ p. put_ne _ p _ d) in
      if_either P calls.chmod_fails (Replaces-fail d d write_error (λ p _. refl)) (
        if_either P calls.write_fails (stopped calls.partial) (
          if_either P calls.sync_fails (stopped b) (
            if_either P calls.close_fails (stopped b)
              (if_either P calls.rename_fails (stopped b) (renamed d)))))

  -- The creation before and the removal behind the steps touch the temporary path alone.
  around :
      (d : Disk) (out : Result StoreError (Unit {0}) × Disk) (content : Option Text)
      → Replaces calls.tmp_name path b (put calls.tmp_name content d) out
      → Replaces calls.tmp_name path b d (out.0, put calls.tmp_name none out.1)
  around d out content h = record {
    at_path = elim h.at_path [
      | inl (r, e) ↦ inl (r, put_ne _ path _ _ apart ∙ e)
      | inr (x, r, e) ↦ inr (x, r, put_ne _ path _ _ apart ∙ e ∙ put_ne _ path _ d apart)
    ];
    elsewhere = λ p hp ht. put_ne _ p _ _ ht ∙ h.elsewhere p hp ht ∙ put_ne _ p _ d ht;
  }

  -- `atomicWriteFile` either writes all of the content or leaves the path as it was, and touches
  -- no other path but that of its temporary file.
  pub atomic_write_file-Replaces :
      (d : Disk) → Replaces calls.tmp_name path b d (atomic_write_file calls path b d)
  unfolding atomic_write_file
  atomic_write_file-Replaces d =
      if_either (Replaces calls.tmp_name path b d) calls.create_fails
        (Replaces-fail d d write_error (λ p _. refl))
        (around d _ (some []) (tmp_steps-Replaces (put calls.tmp_name (some []) d)))

check_version-one : (f : FileData) {g : FileData} → check_version f ≡ ok g → g.version ≡ pos 1
check_version-one f h = ground arith

module _ (json : Json) (calls : Calls) where
  read_version :
      (disk : Disk) (path : Text) {file : FileData}
      → read json calls disk path ≡ ok file
      → file.version ≡ pos 1
  unfolding read
  read_version disk path h = ground arith

  -- A file that this program wrote is read back.
  pub read_written :
      (disk : Disk) (path : Text) (es : List (Text × Text))
      → calls.read_fails ≡ false
      → disk path ≡ some (json.marshal (record { version = pos 1; names = some es }))
      → read json calls disk path ≡ ok (record { version = pos 1; names = some es })
  unfolding read
  read_written disk path es h e = rw (e, read, h, json.unmarshal-marshal es)

  -- What `Update` does under the lock: nothing, with an error, or the change.
  pub record Updates (path : Text) (change : Names → Names) (disk : Disk)
      (out : Result StoreError (Unit {0}) × Disk) : Type 0 where
    pub at_path :
        ((ns : Names) × (file : FileData) × (read json calls disk path ≡ ok file)
          × (decode_names (entries file) ≡ ok ns)
          × (out.0 ≡ ok tt)
          × (out.1 path
              ≡ some (
                  json.marshal
                    (record { version = pos 1; names = some (encode_names (change ns)) }))))
        ⊎ ((e : StoreError) × (out.0 ≡ err e) × (out.1 path ≡ disk path))
    pub elsewhere : (p : Text) → path ≢ p → calls.tmp_name ≢ p → out.1 p ≡ disk p

  Updates-fail :
      (path : Text) (change : Names → Names) (disk : Disk) (e : StoreError)
      → Updates path change disk (err e, disk)
  Updates-fail path change disk e = record {
    at_path = inr (e, refl, refl);
    elsewhere = λ p _ _. refl;
  }

  module _ (path : Text) (apart : calls.tmp_name ≢ path) (change : Names → Names) where
    write-Updates :
        (disk : Disk) (file : FileData) (ns : Names)
        → read json calls disk path ≡ ok file
        → decode_names (entries file) ≡ ok ns
        → Updates path change disk
            (write json calls path (record file { names = some (encode_names (change ns)) }) disk)
    unfolding write
    write-Updates disk file ns r d =
        let b = json.marshal (record file { names = some (encode_names (change ns)) }) in
        let done = atomic_write_file-Replaces calls path b apart disk in
        if_either (Updates path change disk) calls.mkdir_fails
          (Updates-fail path change disk mkdir_error)
          (record {
            at_path = elim done.at_path [
              | inl (o, e) ↦ inl (
                ns,
                file,
                r,
                d,
                o,
                e
                    ∙ ap
                        (λ v. some (
                          json.marshal
                            (record { version = v; names = some (encode_names (change ns)) })))
                        (read_version disk path r),
              )
              | inr x ↦ inr x
            ];
            elsewhere = done.elsewhere;
          })

    pub update_locked-Updates :
        (disk : Disk) → Updates path change disk (update_locked json calls path change disk)
    unfolding update_locked
    update_locked-Updates disk = elim (Result-cases (read json calls disk path)) [
      | inr (e, r) ↦ rw (r, update_locked) (Updates-fail path change disk e)
      | inl (file, r) ↦ elim (Result-cases (decode_names (entries file))) [
        | inr (e, d) ↦
            rw (r, update_locked)
              (rw (d, update_locked) (Updates-fail path change disk (bad_key e)))
        | inl (ns, d) ↦
            rw (r, update_locked) (rw (d, update_locked) (write-Updates disk file ns r d))
      ]
    ]
