-- ===== src/Meta/Path.antt =====
-- internal/wgmeta/path.go: which file holds the names of an interface. What the operating system
-- answers is the record `Os`; `join` stands for `filepath.Join`.
use wgctrl_go.Base.{
  ℕ, Bool, true, false, not, ◌&&◌, ◌||◌, List, [], ◌∷◌, ◌++◌, Option, none, some, Text, codes,
  equal, is_empty, ◌==◌, if◌then◌else◌,
}
use wgctrl_go.Std.Strings.{trim_space, equal_fold}

pub record Os : Type 0 where
  pub goos : Text
  pub getenv : Text → Text
  -- `os.Stat`: `none` if it fails, else whether the path is a directory.
  pub stat : Text → Option Bool
  pub join : List Text → Text
  pub is_separator : ℕ → Bool

abbrev pub exists : Os → Text → Bool
exists os path = elim (os.stat path) [ none ↦ false | some _ ↦ true ]

unfoldable pub default_path : Os → Text
default_path os =
    let value = os.getenv (codes "WGCTRL_PEER_METADATA_DIR") in
    if not (is_empty value)
    then value
    else if equal os.goos (codes "windows")
    then os.join (
        os.getenv (codes "ProgramFiles")
        ∷ codes "WireGuard"
        ∷ codes "Data"
        ∷ codes "Configurations"
        ∷ [])
    else if equal os.goos (codes "darwin")
    then (if exists os (codes "/opt/homebrew/etc/wireguard")
        then codes "/opt/homebrew/etc/wireguard"
        else codes "/usr/local/etc/wireguard")
    else if exists os (codes "/etc/wireguard")
    then codes "/etc/wireguard"
    else if exists os (codes "/opt/wireguard")
    then codes "/opt/wireguard"
    else codes "/etc/wireguard"

unfoldable pub metadata_file_name_for : Text → Text
metadata_file_name_for iface =
    let name = trim_space iface in
    (if is_empty name then codes "unknown" else name) ++ codes ".names.json"

unfoldable pub default_file_for : Os → Text → Text
unfolding default_path metadata_file_name_for
default_file_for os iface = os.join (default_path os ∷ metadata_file_name_for iface ∷ [])

abbrev has_separator : Os → Text → Bool
has_separator os [] = false
has_separator os (c ∷ s) = os.is_separator c || has_separator os s

abbrev ext_later : Os → ℕ → Text → Option Text → Option Text
ext_later os c s (some e) = some e
ext_later os c s none = if c == b'.' && not (has_separator os s) then some (c ∷ s) else none

-- `filepath.Ext`: from the last dot of the last element on.
unfoldable pub last_dot : Os → Text → Option Text
last_dot os [] = none
last_dot os (c ∷ s) = ext_later os c s (last_dot os s)

unfoldable pub path_ext : Os → Text → Text
unfolding last_dot
path_ext os path = elim (last_dot os path) [ none ↦ [] | some e ↦ e ]

unfoldable pub is_likely_dir : Os → Text → Bool
unfolding path_ext
is_likely_dir os path = elim (os.stat path) [
  | some is_dir ↦ is_dir
  | none ↦ not (equal_fold (path_ext os path) (codes ".json"))
]

unfoldable pub resolve_file : Os → Text → Text → Text
unfolding default_file_for metadata_file_name_for is_likely_dir
resolve_file os base_path iface =
    let base = trim_space base_path in
    if is_empty base
    then default_file_for os iface
    else if is_likely_dir os base
    then os.join (base ∷ metadata_file_name_for iface ∷ [])
    else base
