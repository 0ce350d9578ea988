-- ===== src/Wgconfig/Names.antt =====
-- When `Encode` refuses a device.
use wgctrl_go.Base.{
  Bool, true, false, ◌&&◌, ◌||◌, List, [], ◌∷◌, ◌++◌, Option, none, some, Text, codes, is_empty,
  if◌then◌else◌, ◌≡◌, refl, ◌∙◌, ap, Bool-cases, inl, inr,
}
use wgctrl_go.Base.Result.{Result, ok, err, ◌>>=◌}
use wgctrl_go.Types.{Peer, Device}
use wgctrl_go.Wgconfig.Fields.{validate_peer_name}
use wgctrl_go.Wgconfig.Encode.{
  Printer, EncodeError, name_line, peer_lines, encode_peer, encode_peers, interface_lines, encode,
}

abbrev pub is_ok {ℓ} : {A : Type ℓ} → Result EncodeError A → Bool
is_ok (ok _) = true
is_ok (err _) = false

-- A name that can be written: none, the empty one or a valid one.
abbrev pub can_write : Option Text → Bool
can_write none = true
can_write (some name) = is_empty name || validate_peer_name name

abbrev pub all_can_write : List Peer → Bool
all_can_write [] = true
all_can_write (p ∷ ps) = can_write p.name && all_can_write ps

name_line-can_write :
    (out : Printer) (name : Option Text) → is_ok (name_line out name) ≡ can_write name
name_line-can_write out none = refl
name_line-can_write out (some []) = refl
name_line-can_write out (some (c ∷ s)) = elim (Bool-cases (validate_peer_name (c ∷ s))) [
  | inl e ↦ rw e refl
  | inr e ↦ rw e refl
]

is_ok-bind :
    {A B : Type 0} (r : Result EncodeError A) (f : A → Result EncodeError B) (b : Bool)
    → ((a : A) → is_ok (f a) ≡ b)
    → is_ok (r >>= f) ≡ (is_ok r && b)
is_ok-bind (ok a) f b h = h a
is_ok-bind (err e) f b h = refl

and_true : (b : Bool) → (b && true) ≡ b
and_true true = refl
and_true false = refl

encode_peer-can_write : (out : Printer) (p : Peer) → is_ok (encode_peer out p) ≡ can_write p.name
unfolding encode_peer
encode_peer-can_write out p =
    is_ok-bind (name_line out p.name) (λ name. ok (codes "[Peer]\n" ++ (name ++ peer_lines out p)))
      true (λ _. refl)
    ∙ and_true (is_ok (name_line out p.name))
    ∙ name_line-can_write out p.name

encode_peers-can_write :
    (out : Printer) (first : Bool) (ps : List Peer)
    → is_ok (encode_peers out first ps) ≡ all_can_write ps
unfolding encode_peers
encode_peers-can_write out first [] = refl
encode_peers-can_write out first (p ∷ ps) =
    is_ok-bind (encode_peer out p)
      (λ text.
        encode_peers out false ps
        >>= (λ rest. ok ((if first then [] else 10 ∷ []) ++ (text ++ rest))))
      (all_can_write ps)
      (λ text.
        is_ok-bind (encode_peers out false ps)
          (λ rest. ok ((if first then [] else 10 ∷ []) ++ (text ++ rest))) true (λ _. refl)
        ∙ and_true (is_ok (encode_peers out false ps))
        ∙ encode_peers-can_write out false ps)
    ∙ ap (λ b. b && all_can_write ps) (encode_peer-can_write out p)

-- `Encode` into a buffer succeeds exactly when every peer has no name, the empty name or a valid
-- one.
pub encode-can_write : (out : Printer) (d : Device) → is_ok (encode out d) ≡ all_can_write d.peers
unfolding encode
encode-can_write out d =
    is_ok-bind (encode_peers out true d.peers) (λ peers. ok (interface_lines d ++ peers)) true
      (λ _. refl)
    ∙ and_true (is_ok (encode_peers out true d.peers))
    ∙ encode_peers-can_write out true d.peers
