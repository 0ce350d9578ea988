-- ===== src/Wgquick/Tests.antt =====
-- A file of wg-quick, parsed, printed, saved, and brought up and down on a small system.
use wgctrl_go.Base.{
  ℕ, zero, suc, Bool, true, false, List, [], ◌∷◌, ◌++◌, Option, none, some, Text, codes, replicate,
  ◌==◌, if◌then◌else◌, ◌≡◌, refl, arith,
}
use wgctrl_go.Base.Int.{pos}
use wgctrl_go.Base.Result.{ok, err}
use wgctrl_go.Types.{IpNet, Device, zero_key, userspace}
use wgctrl_go.Conf.{ClientError, Client}
use wgctrl_go.Wgquick.Config.{Config, empty_config, wireguard_config, route_table}
use wgctrl_go.Wgquick.Parse.{Net, ParseError}
use wgctrl_go.Wgquick.Lines.{new_peer, parse}
use wgctrl_go.Wgquick.Values.{IsUsable}
use wgctrl_go.Wgquick.Valid.{parse-IsUsable}
use wgctrl_go.Wgquick.Encode.{Printer, encode}
use wgctrl_go.Wgquick.Save.{Calls, apply_device}
use wgctrl_go.Wgquick.Saved.{Restores, apply_device-Restores}
use wgctrl_go.Wgquick.Commands.{
  Family, v4, Command, hook, link_add, link_up, address_add, route_add_table, rule_add_mark,
  rule_add_main, UpError, System, State,
}
use wgctrl_go.Wgquick.Commands
use wgctrl_go.Wgquick.Run.{up, down}
use wgctrl_go.Wgquick.Owned.{IsUndone}
use wgctrl_go.Wgquick.Undone.{up-IsUndone}
use wgctrl_go.Wgquick.Plan.{plan, performed, onto}
use wgctrl_go.Wgquick.Planned.{up-plan}
use wgctrl_go.Wgquick.Clearable.{IsCleared}
use wgctrl_go.Wgquick.Cleared.{down-up-IsCleared}

abbrev network : IpNet
network = record { ip = 0 ∷ 0 ∷ 0 ∷ 0 ∷ []; mask = 0 ∷ 0 ∷ 0 ∷ 0 ∷ [] }

abbrev net : Net
net = record {
  parse_ip = λ _. none;
  parse_cidr = λ _. some (0 ∷ 0 ∷ 0 ∷ 0 ∷ [], network);
  resolve_udp_addr = λ _. none;
}

abbrev one_key : Text
one_key = codes "AQAAAAAAAAAAAAAAAAAAAAAAAAAAAAAAAAAAAAAAAAA="

abbrev content : Text
content =
    codes "[Interface]\nListenPort = 51820 # home\nMTU = 1400\nPostUp = echo\n[Peer]\nPublicKey = "
    ++ (one_key ++ codes "\nAllowedIPs = 0.0.0.0/0\nPersistentKeepalive = 25\n")

abbrev expected : Config
expected = record empty_config {
  listen_port = some (pos 51820);
  mtu = pos 1400;
  post_up = codes "echo" ∷ [];
  peers =
      record new_peer {
        public_key = 1 ∷ replicate 31 0;
        allowed_ips = network ∷ [];
        persistent_keepalive = some (pos 25_000_000_000);
      }
      ∷ [];
}

parse_sample : parse net (record { content = content; failed = false }) ≡ ok expected
unfolding parse wgctrl_go.Wgquick.Parse.clean_line wgctrl_go.Wgquick.Parse.parse_number
    wgctrl_go.Wgquick.Parse.parse_key wgctrl_go.Std.Base64.decode
    wgctrl_go.Wgquick.Parse.parse_networks wgctrl_go.Wgquick.Parse.parse_keepalive
parse_sample = refl

parse-IsUsable_example : IsUsable expected
unfolding parse wgctrl_go.Wgquick.Parse.clean_line wgctrl_go.Wgquick.Parse.parse_number
    wgctrl_go.Wgquick.Parse.parse_key wgctrl_go.Std.Base64.decode
    wgctrl_go.Wgquick.Parse.parse_networks wgctrl_go.Wgquick.Parse.parse_keepalive
parse-IsUsable_example = parse-IsUsable net (record { content = content; failed = false })

abbrev out : Printer
out = record {
  ip_string = λ _. codes "10.0.0.1";
  net_string = λ _. codes "0.0.0.0/0";
  address_string = λ _. codes "1.2.3.4:51820";
  whole_seconds = λ _. pos 25;
}

encode_sample :
    encode out (record expected { peers = [] })
    ≡ codes "[Interface]\nListenPort = 51820\nMTU = 1400\nPostUp = echo\n"
unfolding encode
encode_sample = refl

-- A state of the system is the number of commands that succeed before all fail.
abbrev answer : ℕ → (Bool × Text) × ℕ
answer zero = ((false, []), zero)
answer (suc n) = ((true, []), n)

abbrev client : Client ℕ
client = record {
  device = λ _ _. err ClientError.not_exist;
  configure_device = λ _ _ w. (ok tt, w);
}

abbrev sys : System ℕ
sys = record {
  exec = λ _ _ w. answer w;
  has_resolvconf = λ _. false;
  new_client = λ w. (ok client, w);
}

abbrev cfg : Config
cfg = record expected { name = codes "wg0"; addresses = network ∷ [] }

abbrev begin : ℕ → State ℕ
begin n = record { world = n; log = []; added = [] }

-- The second rule fails: the first one is not deleted.
up_failing :
    (up sys out cfg (begin 5)).1.log
    ≡ (Commands.link_del (codes "wg0"), false)
      ∷ (rule_add_main v4, false)
      ∷ (rule_add_mark v4 (codes "51820"), true)
      ∷ (route_add_table (codes "wg0") network (codes "51820"), true)
      ∷ (Commands.mtu_up (codes "wg0") (pos 1400), true)
      ∷ (address_add (codes "wg0") network, true)
      ∷ (link_add (codes "wg0"), true)
      ∷ []
unfolding up Commands.run wgctrl_go.Base.equal Commands.attempt wgctrl_go.Std.Strconv.format_int
up_failing = refl

up-IsUndone_example : IsUndone (up sys out cfg (begin 6)).1.log
unfolding up Commands.run wgctrl_go.Base.equal
up-IsUndone_example =
    up-IsUndone sys out cfg (begin 6) (UpError.command_failed (hook (codes "echo"))) refl refl

up-plan_example : performed (up sys out cfg (begin 20)).1.log ≡ onto (plan cfg) []
unfolding up Commands.run wgctrl_go.Base.equal
up-plan_example = up-plan sys out cfg (begin 20) refl refl

plan_sample :
    plan cfg
    ≡ link_add (codes "wg0")
      ∷ address_add (codes "wg0") network
      ∷ Commands.mtu_up (codes "wg0") (pos 1400)
      ∷ route_add_table (codes "wg0") network (codes "51820")
      ∷ rule_add_mark v4 (codes "51820")
      ∷ rule_add_main v4
      ∷ hook (codes "echo")
      ∷ []
unfolding plan wgctrl_go.Base.equal wgctrl_go.Std.Strconv.format_int
plan_sample = refl

down-up-IsCleared_example : IsCleared (down sys out cfg (up sys out cfg (begin 20)).1).1.log
unfolding up
down-up-IsCleared_example = down-up-IsCleared sys out cfg (begin 20) refl refl refl

abbrev dev : Device
dev = record {
  name = codes "wg0";
  type = userspace;
  private_key = 1 ∷ replicate 31 0;
  has_private_key = true;
  public_key = zero_key;
  has_public_key = false;
  listen_port = pos 51820;
  has_listen_port = true;
  firewall_mark = pos 0;
  has_firewall_mark = false;
  peers = [];
}

abbrev calls : Calls
calls = record {
  open_fails = false;
  read_fails = false;
  read_part = [];
  create_fails = false;
  write_fails = false;
  close_fails = false;
  rename_fails = false;
  partial = [];
}

apply_device-Restores_example : Restores dev (wireguard_config (apply_device cfg dev))
apply_device-Restores_example = apply_device-Restores cfg dev

-- A table named "main" stands for the default one, and `FwMark = off` for the main table's number 0.
table_main : route_table (record cfg { table = codes "main" }) ≡ pos 51820
unfolding route_table wgctrl_go.Base.equal
table_main = refl

table_off : route_table (record cfg { firewall_mark = some (pos 0) }) ≡ pos 0
unfolding route_table
table_off = refl
