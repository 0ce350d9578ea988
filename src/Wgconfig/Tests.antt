-- ===== src/Wgconfig/Tests.antt =====
-- A file with a name, a comment and a peer, parsed with little of a network.
use wgctrl_go.Base.{
  ℕ, true, false, List, [], ◌∷◌, ◌++◌, none, some, Text, codes, ◌≡◌, refl, replicate, ◌==◌,
  if◌then◌else◌, ◌<◌, arith, inl,
}
use wgctrl_go.Base.Int.{pos}
use wgctrl_go.Base.Result.{Result, ok, err}
use wgctrl_go.Std.Strconv.{parse_uint}
use wgctrl_go.Std.Base64
use wgctrl_go.Std.Scanner.{Reader, scan}
use wgctrl_go.Types.{Ip, second, Config, IpNet, zero_key, allowed_ip_set, allowed_ip_add}
use wgctrl_go.Wgconfig.Net.{Net, LookupError, dns, other}
use wgctrl_go.Wgconfig.Parse.{parse, parse_lines, new_peer}
use wgctrl_go.Wgconfig.Endpoint.{look_up, rounds, finite, is_permanent}
use wgctrl_go.Wguser.Parse.{start}
use wgctrl_go.Wgconfig.Encode.{Printer, encode}
use wgctrl_go.Wgconfig.Names.{is_ok, all_can_write, encode-can_write}
use wgctrl_go.Wgconfig.Ranges.{HasPorts}
use wgctrl_go.Wgconfig.Valid.{IsParsed, parse-IsParsed}
use wgctrl_go.Wgconfig.Lines.{unnumbered, significant, parse_lines-significant}
use wgctrl_go.Wgconfig.Retries.{
  IsBounded, look_up-IsBounded, IsTemporary, EndsIn, look_up-first_address,
}
use wgctrl_go.Wgconfig.Fields.{
  clean_line, peer_name_comment, parse_number, parse_fwmark, parse_allowed_ips, parse_key,
  parse_uint_or_off,
}
use wgctrl_go.Types.Keys

abbrev net : Net
net = record {
  parse_ip = λ _. none;
  parse_cidr = λ _.
      some (10 ∷ 0 ∷ 0 ∷ 1 ∷ [], record { ip = 10 ∷ 0 ∷ 0 ∷ 0 ∷ []; mask = 255 ∷ 0 ∷ 0 ∷ 0 ∷ [] });
  split_host_port = λ _. none;
  lookup_port = λ _. some 51820;
  lookup_ips = λ _ n. if n == 0 then err other else ok ((1 ∷ 2 ∷ 3 ∷ 4 ∷ []) ∷ []);
  retries_variable = none;
  unquote = λ s. some s;
}

abbrev key_text : Text
key_text = replicate 43 b'A' ++ codes "="

abbrev content : Text
content =
    codes
      "[Interface]\nListenPort = 51820 # home\nFwMark = 0x10\n\n[Peer]\n# wgctrl-peer-name = laptop\nPublicKey = "
    ++ (key_text ++ codes "\nAllowedIPs = 10.0.0.1/8, +10.0.0.1/8\nPersistentKeepalive = 25\n")

abbrev network : IpNet
network = record { ip = 10 ∷ 0 ∷ 0 ∷ 1 ∷ []; mask = 255 ∷ 0 ∷ 0 ∷ 0 ∷ [] }

abbrev expected : Config
expected = record {
  private_key = some zero_key;
  listen_port = some (pos 51820);
  firewall_mark = some (pos 16);
  replace_peers = true;
  peers =
      record new_peer {
        name = some (codes "laptop");
        persistent_keepalive_interval = some (pos 25_000_000_000);
        replace_allowed_ips = false;
        allowed_ip_operations =
            record { ip_net = network; operation = allowed_ip_set }
            ∷ record { ip_net = network; operation = allowed_ip_add }
            ∷ [];
      }
      ∷ [];
}

abbrev reader : Reader
reader = record { content = content; failed = false }

sample_parsed : parse net reader false ≡ ok expected
unfolding parse parse_uint Base64.encode Base64.decode scan clean_line peer_name_comment
    parse_number parse_fwmark parse_key Keys.parse_key Keys.key_string parse_allowed_ips
    parse_uint_or_off
sample_parsed = refl

net-HasPorts : HasPorts net
net-HasPorts s = omega arith

parse-IsParsed_example : IsParsed false (parse net reader false)
parse-IsParsed_example = parse-IsParsed net reader false net-HasPorts

abbrev lines : List Text
lines = codes "# a comment" ∷ codes "[Interface]" ∷ codes " " ∷ codes "ListenPort = x" ∷ []

parse_lines-significant_example :
    unnumbered (parse_lines net true (lines, none))
    ≡ unnumbered (parse_lines net true (significant lines, none))
parse_lines-significant_example = parse_lines-significant net true lines none

-- The resolver fails once for a time, and then knows an address.
abbrev answers : ℕ → Result LookupError (List Ip)
answers n =
    if n == 0
    then err (dns (record { is_not_found = false; is_temporary = true; is_timeout = false }))
    else ok ((1 ∷ 2 ∷ 3 ∷ 4 ∷ []) ∷ [])

look_up-IsBounded_example : IsBounded 15 (look_up (rounds (finite 15)) answers (finite 15) second)
look_up-IsBounded_example = look_up-IsBounded 15 answers second (omega arith, omega arith)

first-IsTemporary : (i : ℕ) → i < 1 → IsTemporary (answers i)
unfolding is_permanent
first-IsTemporary ℕ.zero h = (refl, inl refl)
first-IsTemporary (ℕ.suc i) h = absurd (omega (arith, h))

look_up-first_address_example :
    EndsIn ((1 ∷ 2 ∷ 3 ∷ 4 ∷ []) ∷ []) (look_up (rounds (finite 15)) answers (finite 15) second).0
look_up-first_address_example =
    look_up-first_address 15 1 answers ((1 ∷ 2 ∷ 3 ∷ 4 ∷ []) ∷ []) second (omega arith)
      first-IsTemporary refl

abbrev printer : Printer
printer = record {
  ip_string = λ _. codes "10.0.0.1";
  net_string = λ _. codes "10.0.0.1/8";
  join_host_port = λ host port. host ++ (codes ":" ++ port);
  quote = λ s. s;
}

encode-can_write_example : is_ok (encode printer start.d) ≡ all_can_write start.d.peers
encode-can_write_example = encode-can_write printer start.d
