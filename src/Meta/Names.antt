-- ===== src/Meta/Names.antt =====
-- `encodeNames` and `decodeNames` of internal/wgmeta/store.go. A Go map is a list of entries, of
-- which the first with a key counts; its iteration, whose order Go leaves open, goes through the
-- list.
use mathlib.Core.Path.{subst}
use wgctrl_go.Base.{
  ℕ, Bool, true, false, ◌||◌, List, [], ◌∷◌, Text, equal, equal_iff, is_empty, if◌then◌else◌,
  if_either, ◌≡◌, refl, ◌∙◌, ap, arith, Bool-cases, inl, inr,
}
use wgctrl_go.Base.Result.{Result, ok, ◌>>=◌, >>=-eq-ok}
use wgctrl_go.Types.{Key}
use wgctrl_go.Types.Keys.{
  KeyError, IsKey, parse_key, key_string, parse_key-key_string, parse_key-IsKey,
}

-- `map[wgtypes.Key]string` and `map[string]string`: keys are byte strings and texts alike.
abbrev pub Names : Type 0
Names = List (Key × Text)

-- `names[key]`, with the zero value for a missing key.
unfoldable pub name_of : Key → Names → Text
name_of key [] = []
name_of key ((k, v) ∷ ns) = if equal k key then v else name_of key ns

-- `delete(names, key)`
unfoldable pub delete : Key → Names → Names
delete key [] = []
delete key ((k, v) ∷ ns) = let rest = delete key ns in if equal k key then rest else (k, v) ∷ rest

-- `names[key] = name`
unfoldable pub assign : Key → Text → Names → Names
unfolding delete
assign key name ns = (key, name) ∷ delete key ns

unfoldable pub encode_names : Names → List (Text × Text)
encode_names [] = []
encode_names ((key, name) ∷ ns) =
    let rest = encode_names ns in if is_empty name then rest else (key_string key, name) ∷ rest

-- Later entries are written over earlier ones.
unfoldable pub decode_onto : Names → List (Text × Text) → Result KeyError Names
unfolding assign
decode_onto names [] = ok names
decode_onto names ((value, name) ∷ rest) = do
  key ← parse_key value
  decode_onto (assign key name names) rest

unfoldable pub decode_names : List (Text × Text) → Result KeyError Names
unfolding decode_onto
decode_names encoded = decode_onto [] encoded

pub name_of-delete :
    (key k : Key) (ns : Names)
    → name_of k (delete key ns) ≡ (if equal key k then [] else name_of k ns)
unfolding name_of delete
name_of-delete key k [] = ground arith
name_of-delete key k ((j, v) ∷ ns) =
    ground (arith, name_of-delete key k ns, equal_iff j key, equal_iff j k, equal_iff key k)

pub name_of-assign :
    (key k : Key) (name : Text) (ns : Names)
    → name_of k (assign key name ns) ≡ (if equal key k then name else name_of k ns)
unfolding name_of assign
name_of-assign key k name ns = rw (name_of-delete key k ns) (ground arith)

unfoldable pub has_key : Key → Names → Bool
has_key key [] = false
has_key key ((k, v) ∷ ns) = equal k key || has_key key ns

-- A map: keys of 32 bytes, each once.
abbrev pub IsMap : Names → Type 0
IsMap [] = Unit
IsMap ((k, v) ∷ ns) = IsKey k × (has_key k ns ≡ false) × IsMap ns

has_key-delete :
    (key k : Key) (ns : Names) → has_key k ns ≡ false → has_key k (delete key ns) ≡ false
unfolding has_key delete
has_key-delete key k [] h = refl
has_key-delete key k ((j, v) ∷ ns) h = ground (arith, has_key-delete key k ns)

has_key-delete_self : (key : Key) (ns : Names) → has_key key (delete key ns) ≡ false
unfolding has_key delete
has_key-delete_self key [] = refl
has_key-delete_self key ((j, v) ∷ ns) = ground (arith, has_key-delete_self key ns)

pub IsMap-delete : (key : Key) (ns : Names) → IsMap ns → IsMap (delete key ns)
unfolding delete
IsMap-delete key [] m = m
IsMap-delete key ((j, v) ∷ ns) (w, absent, m) =
    if_either IsMap (equal j key) (IsMap-delete key ns m)
      (w, has_key-delete key j ns absent, IsMap-delete key ns m)

pub IsMap-assign :
    (key name : Text) (ns : Names) → IsKey key → IsMap ns → IsMap (assign key name ns)
unfolding assign
IsMap-assign key name ns w m = (w, has_key-delete_self key ns, IsMap-delete key ns m)

name_of-has_key : (key : Key) (ns : Names) → has_key key ns ≡ false → name_of key ns ≡ []
unfolding name_of has_key
name_of-has_key key [] h = refl
name_of-has_key key ((k, v) ∷ ns) h = ground (arith, name_of-has_key key ns)

name_of_same :
    (key k : Key) (ns : Names) → equal key k ≡ true → has_key key ns ≡ false → name_of k ns ≡ []
name_of_same key k ns same absent =
    subst (λ j. name_of j ns ≡ []) ((equal_iff key k).0 same) (name_of-has_key key ns absent)

-- The name in one map, or else that in the other.
abbrev pub or_else : Text → Text → Text
or_else [] other = other
or_else (c ∷ s) other = c ∷ s

-- What a decoded map holds, if the entries before it are `names`.
record Decoded (names ns : Names) (encoded : List (Text × Text)) : Type 0 where
  result : Names
  decodes : decode_onto names encoded ≡ ok result
  holds : (k : Key) → name_of k result ≡ or_else (name_of k ns) (name_of k names)

Decoded-skip :
    (names ns : Names) (key : Key)
    → Decoded names ns (encode_names ns)
    → has_key key ns ≡ false
    → Decoded names ((key, []) ∷ ns) (encode_names ((key, []) ∷ ns))
unfolding encode_names name_of
Decoded-skip names ns key d absent = record {
  result = d.result;
  decodes = d.decodes;
  holds = λ k. elim (Bool-cases (equal key k)) [
    | inl same ↦
        rw same
          (d.holds k ∙ ap (λ n. or_else n (name_of k names)) (name_of_same key k ns same absent))
    | inr other ↦ rw other (d.holds k)
  ];
}

or_else-assign :
    (key k : Key) (c : ℕ) (s : Text) (names ns : Names)
    → has_key key ns ≡ false
    → or_else (name_of k ns) (name_of k (assign key (c ∷ s) names))
      ≡ or_else (name_of k ((key, c ∷ s) ∷ ns)) (name_of k names)
unfolding name_of
or_else-assign key k c s names ns absent = elim (Bool-cases (equal key k)) [
  | inl same ↦ rw (name_of-assign key k (c ∷ s) names, same, name_of_same key k ns same absent)
  | inr other ↦ rw (name_of-assign key k (c ∷ s) names, other)
]

decode_onto-encode : (names ns : Names) → IsMap ns → Decoded names ns (encode_names ns)
unfolding encode_names decode_onto
decode_onto-encode names [] _ = record {
  result = names;
  decodes = refl;
  holds = λ k. unfold name_of in refl;
}
decode_onto-encode names ((key, []) ∷ ns) (w, absent, m) =
    Decoded-skip names ns key (decode_onto-encode names ns m) absent
decode_onto-encode names ((key, c ∷ s) ∷ ns) (w, absent, m) =
    let d = decode_onto-encode (assign key (c ∷ s) names) ns m in
    record {
      result = d.result;
      decodes = rw (parse_key-key_string w) d.decodes;
      holds = λ k. d.holds k ∙ or_else-assign key k c s names ns absent;
    }

or_else-nil : (s : Text) → or_else s [] ≡ s
or_else-nil [] = refl
or_else-nil (c ∷ s) = refl

-- Every map of names is read back from its encoded form, up to entries with an empty name, which
-- look up like missing ones: the decoded map gives each key the same name.
pub decode_names-encode_names :
    (ns : Names)
    → IsMap ns
    → (r : Names) × (decode_names (encode_names ns) ≡ ok r)
      × ((k : Key) → name_of k r ≡ name_of k ns)
unfolding decode_names
decode_names-encode_names ns m =
    let d = decode_onto-encode [] ns m in
    (d.result, d.decodes, λ k. d.holds k ∙ unfold name_of in or_else-nil (name_of k ns))

decode_onto-IsMap :
    (names : Names) (encoded : List (Text × Text)) {r : Names}
    → IsMap names
    → decode_onto names encoded ≡ ok r
    → IsMap r
unfolding decode_onto
decode_onto-IsMap names [] m h = subst IsMap (cc) m
decode_onto-IsMap names ((value, name) ∷ rest) m h =
    let (key, later, parsed) =
      >>=-eq-ok (λ key. decode_onto (assign key name names) rest) (parse_key value) h in
    decode_onto-IsMap (assign key name names) rest
      (IsMap-assign key name names (parse_key-IsKey value parsed) m) later

-- What is decoded is a map with keys of 32 bytes.
pub decode_names-IsMap :
    (encoded : List (Text × Text)) {r : Names} → decode_names encoded ≡ ok r → IsMap r
unfolding decode_names
decode_names-IsMap encoded h = decode_onto-IsMap [] encoded tt h
