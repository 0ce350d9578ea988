-- ===== src/Wgcli/Durations.antt =====
-- internal/wgcli/format.go: styles, durations and byte counts.
use wgctrl_go.Base.{
  ℕ, zero, suc, ◌+◌, ◌-◌, ◌*◌, ◌/◌, ◌%◌, ◌^◌, ◌≤◌, ◌<◌, Bool, List, [], ◌∷◌, ◌++◌, map, Text, codes,
  leb, ◌==◌, if◌then◌else◌,
}
use wgctrl_go.Base.Int.{ℤ, pos, negsuc}
use wgctrl_go.Std.Strings.{join}
use wgctrl_go.Std.Strconv.{format_int}
use wgctrl_go.Types.{Duration, second}

abbrev pub ansi : Text → Text
ansi code = 27 ∷ b'[' ∷ code

abbrev pub ansi_reset : Text
ansi_reset = ansi (codes "0m")

abbrev pub ansi_bold : Text
ansi_bold = ansi (codes "1m")

abbrev pub ansi_red : Text
ansi_red = ansi (codes "31m")

abbrev pub ansi_green : Text
ansi_green = ansi (codes "32m")

abbrev pub ansi_yellow : Text
ansi_yellow = ansi (codes "33m")

abbrev pub ansi_cyan : Text
ansi_cyan = ansi (codes "36m")

-- `styled` and `bold`
unfoldable pub styled : Bool → Text → Text → Text
styled color code value = if color then code ++ (value ++ ansi_reset) else value

abbrev pub bold : Bool → Text → Text
bold color value = styled color ansi_bold value

-- The units of `prettyDuration`, and what one contributes.
abbrev pub units : List (ℕ × Text)
units =
    (31_536_000, codes "year")
    ∷ (86_400, codes "day")
    ∷ (3_600, codes "hour")
    ∷ (60, codes "minute")
    ∷ (1, codes "second")
    ∷ []

-- The loop: how often each unit goes into what is left, for the units that do.
unfoldable pub split_units : List (ℕ × Text) → ℕ → List (ℕ × ℕ × Text)
split_units [] v = []
split_units ((n, s) ∷ us) v =
    let kept = split_units us v in
    let rest = split_units us (v % n) in if leb n v then (v / n, n, s) ∷ rest else kept

abbrev pub unit_text : Bool → ℕ × ℕ × Text → Text
unit_text color (count, n, s) =
    format_int (pos count)
    ++ (32 ∷ styled color ansi_cyan (if count == 1 then s else s ++ codes "s"))

-- `prettyDuration`
unfoldable pub pretty_duration : ℕ → Bool → Text
unfolding split_units styled join format_int
pretty_duration v color = join (codes ", ") (map (unit_text color) (split_units units v))

-- `uint64(d / time.Second)`
abbrev pub unsigned_seconds : Duration → ℕ
unsigned_seconds (pos n) = n / second
unsigned_seconds (negsuc n) = (2 ^ 64 - suc n / second) % 2 ^ 64

-- `durationText`
unfoldable pub duration_text : Duration → Bool → Text
unfolding pretty_duration
duration_text d color = pretty_duration (unsigned_seconds d) color

-- `ago`, from the nanoseconds between the two times.
unfoldable pub ago : Duration → Bool → Text
unfolding pretty_duration styled
ago (pos zero) color = codes "Now"
ago (pos (suc n)) color = pretty_duration (suc n / second) color ++ codes " ago"
ago (negsuc n) color =
    40
    ∷ (styled color ansi_red (codes "System clock wound backward; connection problems may ensue.")
        ++ 41 ∷ [])

-- `nonNegative`
abbrev pub non_negative : ℤ → ℕ
non_negative (pos n) = n
non_negative (negsuc n) = 0

-- The loop of `byteCount`: the unit for `n`, in multiples of `size`, with `left` larger ones.
unfoldable pub byte_unit : ℕ → ℕ → List Text → ℕ × Text
byte_unit n size [] = (size, [])
byte_unit n size (u ∷ []) = (size, u)
byte_unit n size (u ∷ u' ∷ us) =
    let larger = byte_unit n (size * 1024) (u' ∷ us) in
    if leb (size * 1024) n then larger else (size, u)

-- `byteCount`, where `decimals n size` is `n / size` with two decimals.
unfoldable pub byte_count : (ℕ → ℕ → Text) → ℤ → Bool → Text
unfolding byte_unit styled format_int
byte_count decimals v color =
    let n = non_negative v in
    let unit =
      byte_unit n 1 (codes "B" ∷ codes "KiB" ∷ codes "MiB" ∷ codes "GiB" ∷ codes "TiB" ∷ []) in
    (if unit.0 == 1 then format_int (pos n) else decimals n unit.0)
    ++ (32 ∷ styled color ansi_cyan unit.1)

-- The seconds that the parts of a duration stand for.
abbrev pub total : List (ℕ × ℕ × Text) → ℕ
total [] = 0
total ((count, n, s) ∷ ps) = count * n + total ps

-- The parts are sorted by their units: each part leaves less than its unit.
abbrev pub IsSplit : List (ℕ × ℕ × Text) → Type 0
IsSplit [] = Unit
IsSplit ((count, n, s) ∷ ps) = (1 ≤ count) × (total ps < n) × IsSplit ps
