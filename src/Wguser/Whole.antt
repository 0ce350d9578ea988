-- ===== src/Wguser/Whole.antt =====
-- `parseDevice` over a whole answer.
use wgctrl_go.Base.{List, [], ◌∷◌, Option, none, some, Text, ◌≡◌, refl, All, Option-cases, inl, inr}
use wgctrl_go.Base.Result.{Result, ok, err}
use wgctrl_go.Std.Strings.{split}
use wgctrl_go.Std.Scanner.{Reader, ScanError, scan}
use wgctrl_go.Types.{Device}
use wgctrl_go.Wguser.Parse.{
  UserError, Outside, DeviceParser, start, parse, device, parsed, parse_pair, read_lines, finish,
  parse_device,
}
use wgctrl_go.Wguser.Sticky.{
  HasSize, IsPeer, IsParser, Keeps, Keeps-refl, Keeps-trans, Steps, parse-Steps,
}

-- What the loop leaves of a parser with the error `before`: no panic, and a parser that keeps it.
abbrev IsRead : Option UserError → Option (Result UserError DeviceParser) → Type 0
IsRead before none = ⊥
IsRead before (some (err e)) = Unit
IsRead before (some (ok dp)) = IsParser dp × Keeps before dp.error

parsed-IsRead :
    (before : Option UserError) (o : Option DeviceParser)
    → Steps before o
    → IsRead before (parsed o)
parsed-IsRead before none h = h
parsed-IsRead before (some dp) h = h

parse_pair-IsRead :
    (outside : Outside) (kvs : List Text) (dp : DeviceParser)
    → IsParser dp
    → IsRead dp.error (parse_pair outside kvs dp)
parse_pair-IsRead outside [] dp w = tt
parse_pair-IsRead outside (key ∷ []) dp w = tt
parse_pair-IsRead outside (key ∷ value ∷ []) dp w =
    parsed-IsRead dp.error (parse outside key value dp) (parse-Steps outside key value dp w)
parse_pair-IsRead outside (key ∷ value ∷ x ∷ xs) dp w = tt

IsRead-earlier :
    (a b : Option UserError) (o : Option (Result UserError DeviceParser))
    → Keeps a b
    → IsRead b o
    → IsRead a o
IsRead-earlier a b none h r = r
IsRead-earlier a b (some (err e)) h r = tt
IsRead-earlier a b (some (ok dp)) h (w, k) = (w, Keeps-trans a b dp.error h k)

-- The rest of the loop behind one pair.
abbrev rest :
    Outside
    → List Text
    → Option ScanError
    → Option (Result UserError DeviceParser)
    → Option (Result UserError DeviceParser)
rest outside ls failure o = elim o [
  | none ↦ none
  | some r ↦ elim r [ err e ↦ some (err e) | ok dp' ↦ read_lines outside ls failure dp' ]
]

rest-IsRead :
    (outside : Outside) (ls : List Text) (failure : Option ScanError) (before : Option UserError)
    (o : Option (Result UserError DeviceParser))
    → ((dp : DeviceParser) → IsParser dp → IsRead dp.error (read_lines outside ls failure dp))
    → IsRead before o
    → IsRead before (rest outside ls failure o)
rest-IsRead outside ls failure before none h r = r
rest-IsRead outside ls failure before (some (err e)) h r = tt
rest-IsRead outside ls failure before (some (ok dp)) h (w, k) =
    IsRead-earlier before dp.error (read_lines outside ls failure dp) k (h dp w)

read_lines-IsRead :
    (outside : Outside) (ls : List Text) (failure : Option ScanError) (dp : DeviceParser)
    → IsParser dp
    → IsRead dp.error (read_lines outside ls failure dp)
unfolding read_lines
read_lines-IsRead outside [] none dp w = (w, Keeps-refl dp.error)
read_lines-IsRead outside [] (some e) dp w = tt
read_lines-IsRead outside ([] ∷ ls) failure dp w = (w, Keeps-refl dp.error)
read_lines-IsRead outside ((c ∷ l) ∷ ls) failure dp w =
    rest-IsRead outside ls failure dp.error (parse_pair outside (split b'=' (c ∷ l)) dp)
      (λ q h. read_lines-IsRead outside ls failure q h)
      (parse_pair-IsRead outside (split b'=' (c ∷ l)) dp w)

-- A device whose keys have their size and whose public key is that of its private key.
pub record IsDevice (outside : Outside) (d : Device) : Type 0 where
  pub private_key : HasSize d.private_key
  pub public_key : d.public_key ≡ outside.public_key d.private_key
  pub has_public_key : d.has_public_key ≡ d.has_private_key
  pub peers : All IsPeer d.peers

abbrev pub IsAnswer : Outside → Option (Result UserError Device) → Type 0
IsAnswer outside none = ⊥
IsAnswer outside (some (err e)) = Unit
IsAnswer outside (some (ok d)) = IsDevice outside d

device-IsDevice :
    (outside : Outside) (dp : DeviceParser)
    → IsParser dp
    → IsAnswer outside (some (device outside dp))
device-IsDevice outside dp w = elim (Option-cases dp.error) [
  | inr (e, h) ↦ rw h tt
  | inl h ↦ rw h (record {
    private_key = w.private_key;
    public_key = refl;
    has_public_key = refl;
    peers = w.all;
  })
]

finish-IsAnswer :
    (outside : Outside) (before : Option UserError) (o : Option (Result UserError DeviceParser))
    → IsRead before o
    → IsAnswer outside (finish outside o)
finish-IsAnswer outside before none r = r
finish-IsAnswer outside before (some (err e)) r = tt
finish-IsAnswer outside before (some (ok dp)) (w, _) = device-IsDevice outside dp w

pub start-IsParser : IsParser start
start-IsParser = record { private_key = refl; all = tt; counted = refl; entered = λ e. cc }

-- Whatever a device answers, `parseDevice` does not panic, and in a device that it returns every key
-- has 32 bytes and the public key is computed from the private key.
pub parse_device-IsAnswer :
    (outside : Outside) (r : Reader) → IsAnswer outside (parse_device outside r)
unfolding parse_device
parse_device-IsAnswer outside r =
    finish-IsAnswer outside none (read_lines outside (scan 65536 r).0 (scan 65536 r).1 start)
      (read_lines-IsRead outside (scan 65536 r).0 (scan 65536 r).1 start start-IsParser)
