-- ===== src/Wguser/Tests.antt =====
-- The answer of a device with one peer.
use wgctrl_go.Base.{ℕ, All-replicate, ◌<◌, arith}
use wgctrl_go.Types.Keys.{IsKey}
use wgctrl_go.Wguser.Parse.{parse_key}
use wgctrl_go.Wguser.Configure.{hex_key, parse_key-hex_key}
use wgctrl_go.Base.{true, false, [], ◌∷◌, ◌++◌, none, some, codes, equal, replicate, ◌≡◌, refl}
use wgctrl_go.Base.Int.{pos}
use wgctrl_go.Base.Result.{ok}
use wgctrl_go.Std.Strconv.{parse_int}
use wgctrl_go.Std.Hex
use wgctrl_go.Std.Scanner.{Reader}
use wgctrl_go.Types.{Key}
use wgctrl_go.Types.Keys.{new_key}
use wgctrl_go.Wguser.Parse.{Outside, start, parse, new_peer, parse_device}
use wgctrl_go.Wguser.Client.{Sockets, IsNamed, device, device-IsNamed}
use wgctrl_go.Wguser.Sticky.{Steps, parse-Steps}
use wgctrl_go.Wguser.Whole.{IsAnswer, start-IsParser, parse_device-IsAnswer}

abbrev outside : Outside
outside = record { resolve_udp_addr = λ _. none; parse_cidr = λ _. none; public_key = λ k. k }

abbrev one : Key
one = replicate 32 17

abbrev answer : Reader
answer = record {
  content =
      codes "private_key="
      ++ (replicate 64 b'1'
          ++ (codes "\nlisten_port=51820\npublic_key="
              ++ (replicate 64 b'1'
                  ++ codes
                      "\npersistent_keepalive_interval=25\nlast_handshake_time_sec=5\nlast_handshake_time_nsec=0\nrx_bytes=7\nerrno=0\n\n")));
  failed = false;
}

-- A handshake at a whole second is taken for none.
sample_parsed :
    parse_device outside answer
    ≡ some (
        ok (record start.d {
          private_key = one;
          has_private_key = true;
          public_key = one;
          has_public_key = true;
          listen_port = pos 51820;
          has_listen_port = true;
          peers =
              record (new_peer one) {
                persistent_keepalive_interval = pos 25_000_000_000;
                has_persistent_keepalive_interval = true;
                receive_bytes = pos 7;
              }
              ∷ [];
        }))
unfolding parse_device Hex.decode parse_int equal new_key
sample_parsed = refl

parse-Steps_example : Steps none (parse outside (codes "listen_port") (codes "51820") start)
parse-Steps_example = parse-Steps outside (codes "listen_port") (codes "51820") start start-IsParser

parse_device-IsAnswer_example : IsAnswer outside (parse_device outside answer)
parse_device-IsAnswer_example = parse_device-IsAnswer outside answer

one-IsKey : IsKey one
one-IsKey = record {
  size = refl;
  bytes = All-replicate (λ (b : ℕ). b < 256) 32 {a = 17} (omega arith);
}

parse_key-hex_key_example : parse_key (hex_key one) none ≡ (one, none)
parse_key-hex_key_example = parse_key-hex_key {k = one} one-IsKey

abbrev sockets : Sockets
sockets = record {
  find = some (codes "wg0.sock" ∷ []);
  ask = λ _ _. some answer;
  base = λ s. s;
  ext = λ _. codes ".sock";
}

device-IsNamed_example : IsNamed (codes "wg0") (device sockets outside (codes "wg0"))
device-IsNamed_example = device-IsNamed sockets outside (codes "wg0")
