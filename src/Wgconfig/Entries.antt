-- ===== src/Wgconfig/Entries.antt =====
-- No entry of a list of allowed IPs is read in front of its first byte.
use wgctrl_go.Base.{
  ℕ, Bool, true, false, not, ◌||◌, List, [], ◌∷◌, ◌++◌, Option, none, some, Text, is_empty, ◌==◌,
  if◌then◌else◌, if_either, ◌≡◌, Bool-cases, inl, inr,
}
use wgctrl_go.Base.Result.{Result, ok, err, ◌>>=◌}
use wgctrl_go.Std.Strings.{trim_space, split}
use wgctrl_go.Types.{
  IpNet, AllowedIpOperation, AllowedIpConfig, allowed_ip_set, allowed_ip_add, allowed_ip_remove,
}
use wgctrl_go.Wgconfig.Net.{Net}
use wgctrl_go.Wgconfig.Fields.{
  EntryError, bad_entry, no_first_byte, is_set, entry_operation, entry_network, parse_network,
  parse_operation, parse_entry, parse_entries, parse_allowed_ips,
}

-- A list of entries, or an error that is no panic.
abbrev pub IsHarmless : {A : Type 0} → Result EntryError A → Type 0
IsHarmless (ok _) = Unit
IsHarmless (err bad_entry) = Unit
IsHarmless (err no_first_byte) = false ≡ true

entry_network-IsHarmless :
    (op : AllowedIpOperation) (n : Option IpNet) → IsHarmless (entry_network op n)
entry_network-IsHarmless op none = tt
entry_network-IsHarmless op (some n) = tt

parse_operation-IsHarmless :
    (net : Net) (c : ℕ) (s : Text) → IsHarmless (parse_operation net (c ∷ s))
unfolding parse_operation entry_operation
parse_operation-IsHarmless net c s = elim (Bool-cases (c == b'+')) [
  | inl e ↦ rw e (entry_network-IsHarmless allowed_ip_add (parse_network net s))
  | inr e ↦ rw e (elim (Bool-cases (c == b'-')) [
    | inl f ↦ rw f (entry_network-IsHarmless allowed_ip_remove (parse_network net s))
    | inr f ↦ rw f (entry_network-IsHarmless allowed_ip_set (parse_network net (c ∷ s)))
  ])
]

trimmed-IsHarmless :
    (net : Net) (s : Text)
    → IsHarmless (if is_empty s then err bad_entry else parse_operation net s)
trimmed-IsHarmless net [] = tt
trimmed-IsHarmless net (c ∷ s) = parse_operation-IsHarmless net c s

parse_entry-IsHarmless : (net : Net) (part : Text) → IsHarmless (parse_entry net part)
unfolding parse_entry
parse_entry-IsHarmless net part = trimmed-IsHarmless net (trim_space part)

bind-IsHarmless :
    {A B : Type 0} (r : Result EntryError A) (f : A → Result EntryError B)
    → IsHarmless r
    → ((a : A) → IsHarmless (f a))
    → IsHarmless (r >>= f)
bind-IsHarmless (ok a) f h k = k a
bind-IsHarmless (err bad_entry) f h k = tt
bind-IsHarmless (err no_first_byte) f h k = h

parse_entries-IsHarmless :
    (net : Net) (parts : List Text) (ops : List AllowedIpConfig) (incremental : Bool)
    → IsHarmless (parse_entries net parts ops incremental)
unfolding parse_entries
parse_entries-IsHarmless net [] ops incremental = tt
parse_entries-IsHarmless net (part ∷ parts) ops incremental =
    bind-IsHarmless (parse_entry net part) _ (parse_entry-IsHarmless net part) (λ op.
      parse_entries-IsHarmless net parts (ops ++ op ∷ [])
        (incremental || not (is_set op.operation)))

pub parse_allowed_ips-IsHarmless :
    (net : Net) (value : Text) → IsHarmless (parse_allowed_ips net value)
unfolding parse_allowed_ips
parse_allowed_ips-IsHarmless net value =
    if_either IsHarmless (is_empty value) tt
      (parse_entries-IsHarmless net (split b',' value) [] false)
