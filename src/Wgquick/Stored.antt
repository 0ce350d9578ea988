-- ===== src/Wgquick/Stored.antt =====
-- The configuration that `Save` starts from.
use wgctrl_go.Base.{
  ℕ, Bool, true, false, List, [], ◌∷◌, Option, none, some, Text, leb, if◌then◌else◌, ◌≡◌, refl,
  Bool-cases, inl, inr,
}
use wgctrl_go.Base.Result.{Result, ok, err, Result-cases}
use wgctrl_go.Std.Strings.{byte_len}
use wgctrl_go.Std.Scanner.{ScanError, read_failed, too_long, scan_lines, scan, raw_lines}
use wgctrl_go.Meta.Store.{Disk}
use wgctrl_go.Wgquick.Config.{Config, empty_config}
use wgctrl_go.Wgquick.Parse.{Net, ParseError}
use wgctrl_go.Wgquick.Lines.{read_lines, parse_lines, parse}
use wgctrl_go.Wgconfig.Parse.{no_section}
use wgctrl_go.Wgquick.Save.{Calls, SaveError, open_error, parsed, reader, stored_at, stored}

-- The empty configuration for no file, and what the whole file says for another.
abbrev pub Says : Net → Option Text → Config → Type 0
Says net none cfg = cfg ≡ empty_config
Says net (some content) cfg = parse net (record { content = content; failed = false }) ≡ ok cfg

scan_lines-failed :
    (limit : ℕ) (ls : List Text) → (e : ScanError) × ((scan_lines limit true ls).1 ≡ some e)
unfolding scan_lines
scan_lines-failed limit [] = (read_failed, refl)
scan_lines-failed limit (l ∷ ls) = elim (Bool-cases (leb limit (byte_len l))) [
  | inl e ↦ rw e (too_long, refl)
  | inr e ↦ rw e (scan_lines-failed limit ls)
]

stopped :
    (net : Net) (x : List Text × Option ScanError) (e : ScanError) (cfg : Config) {A : Type 0}
    → x.1 ≡ some e
    → parse_lines net x ≡ ok cfg
    → A
unfolding parse_lines
stopped net (lines, failure) e cfg f h =
    elim (Result-cases
      (read_lines net 0 lines (record { cfg = empty_config; section = no_section }))) [
        | inl (s, r) ↦ absurd (cc (rw (r, f, parse_lines) at h))
        | inr (x, r) ↦ absurd (cc (rw (r, parse_lines) at h))
      ]

-- No configuration comes of a file whose reading fails.
unread :
    (net : Net) (content : Text) (cfg : Config) {A : Type 0}
    → parse net (record { content = content; failed = true }) ≡ ok cfg
    → A
unfolding parse scan
unread net content cfg h =
    let (e, f) = scan_lines-failed 1_048_576 (raw_lines content) in
    stopped net (scan_lines 1_048_576 true (raw_lines content)) e cfg f h

opened :
    (b : Bool) (x : Result SaveError Config) {cfg : Config}
    → (if b then err open_error else x) ≡ ok cfg
    → x ≡ ok cfg
opened true x h = absurd cc
opened false x h = h

parsed_ok : (r : Result ParseError Config) {cfg : Config} → parsed r ≡ ok cfg → r ≡ ok cfg
parsed_ok (ok cfg) h = cc
parsed_ok (err e) h = absurd cc

read_whole :
    (net : Net) (calls : Calls) (content : Text) (cfg : Config)
    → parse net (reader calls content) ≡ ok cfg
    → parse net (record { content = content; failed = false }) ≡ ok cfg
read_whole net calls content cfg h = elim (Bool-cases calls.read_fails) [
  | inl e ↦ unread net calls.read_part cfg (rw e at h)
  | inr e ↦ rw e at h
]

stored_at-Says :
    (net : Net) (calls : Calls) (o : Option Text) (cfg : Config)
    → stored_at net calls o ≡ ok cfg
    → Says net o cfg
unfolding stored_at
stored_at-Says net calls none cfg h = cc (opened calls.open_fails (ok empty_config) h)
stored_at-Says net calls (some content) cfg h =
    read_whole net calls content cfg
      (parsed_ok (parse net (reader calls content)) (opened calls.open_fails _ h))

pub stored-Says :
    (net : Net) (calls : Calls) (path : Text) (disk : Disk) (cfg : Config)
    → stored net calls path disk ≡ ok cfg
    → Says net (disk path) cfg
unfolding stored
stored-Says net calls path disk cfg h = stored_at-Says net calls (disk path) cfg h
