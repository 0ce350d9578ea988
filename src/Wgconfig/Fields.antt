-- ===== src/Wgconfig/Fields.antt =====
-- The values of single fields in internal/wgconfig/parse.go.
use wgctrl_go.Base.{
  ℕ, ◌-◌, ◌^◌, Bool, true, false, not, ◌&&◌, ◌||◌, List, [], ◌∷◌, ◌++◌, Option, none, some, Text,
  codes, equal, is_empty, length, ltb, leb, ◌==◌, take, replicate, if◌then◌else◌,
}
use wgctrl_go.Base.Result.{Result, ok, err, ◌>>=◌}
use wgctrl_go.Std.Strings.{
  trim_space, cut_prefix, has_prefix, before, split, contains, fold, equal_fold, byte_len,
}
use wgctrl_go.Std.Strconv.{parse_uint}
use wgctrl_go.Types.{
  Key, Ip, IpNet, AllowedIpOperation, AllowedIpConfig, allowed_ip_set, allowed_ip_add,
  allowed_ip_remove,
}
use wgctrl_go.Types.Keys.{key_string}
use wgctrl_go.Types.Keys
use wgctrl_go.Wgconfig.Net.{Net}

-- `peerNameComment`
abbrev pub name_behind_prefix : Text → Option Text
name_behind_prefix rest = elim (cut_prefix (trim_space rest) (codes "=")) [
  | none ↦ none
  | some name ↦ some (trim_space name)
]

unfoldable pub peer_name_comment : Text → Option Text
unfolding trim_space cut_prefix
peer_name_comment line = elim (cut_prefix (trim_space line) (codes "# wgctrl-peer-name")) [
  | none ↦ none
  | some rest ↦ name_behind_prefix rest
]

-- `validatePeerName`; a text is one of code points, and so valid UTF-8.
unfoldable pub validate_peer_name : Text → Bool
unfolding byte_len contains
validate_peer_name name =
    not (ltb 255 (byte_len name)) && not (contains 0 name || contains 13 name || contains 10 name)

-- The characters that `cleanLine` drops.
abbrev pub is_blank : ℕ → Bool
is_blank c = c == 32 || (leb 9 c && leb c 13)

abbrev pub drop_blank : Text → Text
drop_blank [] = []
drop_blank (c ∷ s) = if is_blank c then drop_blank s else c ∷ drop_blank s

-- `cleanLine`
unfoldable pub clean_line : Text → Text
unfolding before
clean_line input = drop_blank (before b'#' input)

-- `parseKey`
unfoldable pub parse_key : Text → Option Key
parse_key value = elim (Keys.parse_key value) [
  | err _ ↦ none
  | ok key ↦ if equal (key_string key) value then some key else none
]

abbrev at_most : ℕ → Option ℕ → Option ℕ
at_most max none = none
at_most max (some v) = if ltb max v then none else some v

-- `parseUint`
unfoldable pub parse_number : ℕ → Text → Option ℕ
unfolding has_prefix
parse_number max value =
    if is_empty value || has_prefix value (codes "+") || has_prefix value (codes "-")
    then none
    else at_most max (parse_uint 10 64 value)

-- `parseUintOrOff`
unfoldable pub parse_uint_or_off : ℕ → Text → Option ℕ
unfolding parse_number fold
parse_uint_or_off max value =
    if equal_fold value (codes "off") then some 0 else parse_number max value

-- A mark with its digits behind "0x", or none.
abbrev pub parse_mark : Text → Option Text → Option ℕ
parse_mark value (some digits) = if is_empty digits then none else parse_uint 16 32 digits
parse_mark value none = parse_number (2 ^ 32 - 1) value

-- `parseFwmark`
unfoldable pub parse_fwmark : Text → Option ℕ
unfolding parse_number fold cut_prefix
parse_fwmark value =
    if equal_fold value (codes "off")
    then some 0
    else parse_mark value (cut_prefix value (codes "0x"))

-- `ip.To4() != nil`
unfoldable pub is_ipv4 : Ip → Bool
is_ipv4 ip =
    length ip == 4 || (length ip == 16 && equal (take 12 ip) (replicate 10 0 ++ 255 ∷ 255 ∷ []))

-- The network of one entry, whose address keeps its host bits; a lone address gets a full mask.
unfoldable pub parse_network : Net → Text → Option IpNet
unfolding is_ipv4 contains
parse_network net part = elim (net.parse_cidr part) [
  | some (ip, n) ↦ some (record n { ip = ip })
  | none ↦ if contains b'/' part then none else elim (net.parse_ip part) [
    | none ↦ none
    | some ip ↦ some (record { ip = ip; mask = replicate (if is_ipv4 ip then 4 else 16) 255 })
  ]
]

-- An entry that is no network, and `part[0]` of an empty one, which panics.
pub data EntryError : Type 0 where
  bad_entry no_first_byte : EntryError

-- The operation that `part[0]` asks for, and the rest of the entry.
unfoldable pub entry_operation : Text → Result EntryError (AllowedIpOperation × Text)
entry_operation [] = err no_first_byte
entry_operation (c ∷ s) =
    if c == b'+'
    then ok (allowed_ip_add, s)
    else if c == b'-'
    then ok (allowed_ip_remove, s)
    else ok (allowed_ip_set, c ∷ s)

abbrev pub entry_network : AllowedIpOperation → Option IpNet → Result EntryError AllowedIpConfig
entry_network op none = err bad_entry
entry_network op (some n) = ok (record { ip_net = n; operation = op })

-- An entry behind the test for an empty one.
unfoldable pub parse_operation : Net → Text → Result EntryError AllowedIpConfig
unfolding entry_operation parse_network
parse_operation net trimmed = do
  (op, address) ← entry_operation trimmed
  entry_network op (parse_network net address)

abbrev pub is_set : AllowedIpOperation → Bool
is_set allowed_ip_set = true
is_set allowed_ip_add = false
is_set allowed_ip_remove = false

-- One round of the loop in `parseAllowedIPs`.
unfoldable pub parse_entry : Net → Text → Result EntryError AllowedIpConfig
unfolding parse_operation trim_space
parse_entry net part =
    let trimmed = trim_space part in
    if is_empty trimmed then err bad_entry else parse_operation net trimmed

-- The loop of `parseAllowedIPs`, which appends to `ops` and sets `incremental`.
unfoldable pub parse_entries :
    Net → List Text → List AllowedIpConfig → Bool → Result EntryError (List AllowedIpConfig × Bool)
unfolding parse_entry
parse_entries net [] ops incremental = ok (ops, incremental)
parse_entries net (part ∷ parts) ops incremental = do
  op ← parse_entry net part
  parse_entries net parts (ops ++ op ∷ []) (incremental || not (is_set op.operation))

-- `parseAllowedIPs`
unfoldable pub parse_allowed_ips : Net → Text → Result EntryError (List AllowedIpConfig × Bool)
unfolding parse_entries split
parse_allowed_ips net value =
    if is_empty value then ok ([], false) else parse_entries net (split b',' value) [] false
