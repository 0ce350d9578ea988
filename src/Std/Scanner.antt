-- ===== src/Std/Scanner.antt =====
-- `bufio.Scanner` over a whole input: the lines, without their ends, and the error that stops it.
use wgctrl_go.Base.{
  ℕ, Bool, false, List, [], ◌∷◌, Option, none, some, Text, codes, leb, ◌==◌, if◌then◌else◌, ◌≡◌,
  refl,
}
use wgctrl_go.Std.Strings.{byte_len}

-- What an `io.Reader` yields up to its end or its error.
pub record Reader : Type 0 where
  pub content : Text
  pub failed : Bool

pub data ScanError : Type 0 where
  too_long read_failed : ScanError

-- The raw lines: a last line without '\n' counts if it is not empty.
abbrev pub onto_line : ℕ → List Text → List Text
onto_line c [] = (c ∷ []) ∷ []
onto_line c (l ∷ ls) = (c ∷ l) ∷ ls

unfoldable pub raw_lines : Text → List Text
raw_lines [] = []
raw_lines (c ∷ s) = if c == 10 then [] ∷ raw_lines s else onto_line c (raw_lines s)

-- One '\r' at the end of a line is dropped.
unfoldable pub drop_cr : Text → Text
drop_cr [] = []
drop_cr (c ∷ []) = if c == 13 then [] else c ∷ []
drop_cr (c ∷ d ∷ s) = c ∷ drop_cr (d ∷ s)

-- The lines that `Scan` yields, and what `Err` reports. A line that fills the buffer of `limit`
-- bytes stops the scan.
unfoldable pub scan_lines : ℕ → Bool → List Text → List Text × Option ScanError
unfolding drop_cr
scan_lines limit failed [] = ([], if failed then some read_failed else none)
scan_lines limit failed (l ∷ ls) =
    let rest = scan_lines limit failed ls in
    if leb limit (byte_len l) then ([], some too_long) else (drop_cr l ∷ rest.0, rest.1)

unfoldable pub scan : ℕ → Reader → List Text × Option ScanError
unfolding scan_lines raw_lines byte_len
scan limit r = scan_lines limit r.failed (raw_lines r.content)

sample :
    scan 8 (record { content = codes "a=1\r\n\nb"; failed = false })
    ≡ (codes "a=1" ∷ [] ∷ codes "b" ∷ [], none)
unfolding scan
sample = refl

sample_too_long :
    scan 4 (record { content = codes "a\nbcde\nf\n"; failed = false })
    ≡ (codes "a" ∷ [], some too_long)
unfolding scan
sample_too_long = refl
