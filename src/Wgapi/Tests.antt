-- ===== src/Wgapi/Tests.antt =====
-- Requests to a server with one device, whose back end keeps the last configuration.
use wgctrl_go.Base.{
  ℕ, true, false, List, [], ◌∷◌, ◌++◌, Option, none, some, Text, codes, replicate, ◌==◌,
  if◌then◌else◌, ◌≡◌, refl, arith,
}
use wgctrl_go.Base.Int.{pos}
use wgctrl_go.Base.Result.{ok, err}
use wgctrl_go.Std.Scanner.{Reader}
use wgctrl_go.Types
use wgctrl_go.Meta.Tests.{json, os, calls, no_files, base_path, iface, apart}
use wgctrl_go.Conf.Tests.{client, device}
use wgctrl_go.Wgconfig.Net
use wgctrl_go.Wgconfig.Ranges.{OnOk}
use wgctrl_go.Wgapi.Json.{Config, Formats, Net, parse_config}
use wgctrl_go.Wgapi.Values.{IsConfig, parse_config-IsConfig}
use wgctrl_go.Wgapi.Server.{Outside, Request, DeviceClient, Server, State, respond, names_body}
use wgctrl_go.Wgapi.Handlers.{
  handle_devices, handle_device_resource, handle_device_conf, mux, with_auth,
}
use wgctrl_go.Wgapi.Auth.{refusal, with_auth-is_permitted}
use wgctrl_go.Wgapi.ReadOnly.{with_auth-Keeps}
use wgctrl_go.Wgapi.Hidden.{hidden_client, queries-hidden}
use wgctrl_go.Wgapi.Applied.{IsInEffect, put-IsInEffect}
use wgctrl_go.Wgapi.Logging.{
  ends, cut_off, peek_request_body, Call, header, chunk, new_recorder, record_calls,
}
use wgctrl_go.Wgapi.Recorded.{IsLogged, record_calls-IsLogged, peek_request_body-joined}

abbrev net : Net
net = record { resolve_udp_addr = λ _. none; parse_cidr = λ _. none }

abbrev config_net : Net.Net
config_net = record {
  parse_ip = λ _. none;
  parse_cidr = λ _. none;
  split_host_port = λ _. none;
  lookup_port = λ _. none;
  lookup_ips = λ _ _. err Net.other;
  retries_variable = none;
  unquote = λ s. some s;
}

abbrev formats : Formats
formats = record {
  printer = record {
    ip_string = λ _. codes "10.0.0.1";
    net_string = λ _. codes "10.0.0.0/8";
    join_host_port = λ h p. h ++ (b':' ∷ p);
    quote = λ s. s;
  };
  rfc3339 = λ _. [];
}

abbrev o : Outside
o = record {
  formats = formats;
  net = net;
  config_net = config_net;
  os = os;
  calls = calls;
  json = json;
  decode_config = λ _. none;
  decode_key = λ _. none;
  path_unescape = λ s. some s;
  max_bytes = λ r. r;
  random = none;
  public_key = λ k. k;
  is_not_exist = λ _. false;
}

abbrev devices : DeviceClient (List Types.Config)
devices = record { client = client; devices = λ _. ok (device ∷ []) }

abbrev srv : Server (List Types.Config)
srv = record {
  client = devices;
  metadata = base_path;
  hide_keys = true;
  version = codes "v0.0.2";
  build_time = [];
  platform = [];
  api_key = codes "secret";
}

abbrev start : State (List Types.Config)
start = ([], no_files)

abbrev get : Text → Request
get path = record {
  method = codes "GET";
  path = path;
  api_key = codes "secret";
  mode = [];
  body = record { content = []; failed = false };
}

interfaces_sample :
    with_auth o srv (mux o srv) (get (codes "/api/v1/interfaces")) start
    ≡ (respond 200 (names_body (iface ∷ [])), start)
unfolding with_auth wgctrl_go.Base.equal mux
interfaces_sample = refl

with_auth-is_permitted_example :
    with_auth o srv
      (mux o srv)
      (record (get (codes "/api/v1/genkey")) { api_key = codes "guess" })
      start
    ≡ (refusal (codes "secret"), start)
unfolding with_auth wgctrl_go.Base.equal
with_auth-is_permitted_example =
    with_auth-is_permitted o srv (mux o srv)
      (record (get (codes "/api/v1/genkey")) { api_key = codes "guess" }) start

with_auth-Keeps_example :
    (with_auth o srv (mux o srv) (get (codes "/api/v1/devices/wg0/conf")) start).1 ≡ start
with_auth-Keeps_example = with_auth-Keeps o srv (get (codes "/api/v1/devices/wg0/conf")) start refl

queries-hidden_example :
    (handle_devices o srv (get []) start
      ≡ handle_devices o (record srv { client = hidden_client devices }) (get []) start)
    × (handle_device_resource o srv iface (get []) start
        ≡ handle_device_resource o
            (record srv { client = hidden_client devices })
            iface
            (get [])
            start)
queries-hidden_example = queries-hidden o srv (get []) start iface refl refl

abbrev put : Request
put = record {
  method = codes "PUT";
  path = [];
  api_key = codes "secret";
  mode = [];
  body = record { content = codes "[Interface]\nListenPort = 51820\n"; failed = false };
}

put-IsInEffect_example :
    IsInEffect o srv calls iface start put.body (handle_device_conf o srv iface put start)
unfolding handle_device_conf wgctrl_go.Std.Scanner.scan wgctrl_go.Wgconfig.Fields.peer_name_comment
    wgctrl_go.Wgconfig.Fields.clean_line wgctrl_go.Wgconfig.Fields.parse_number
    wgctrl_go.Std.Strconv.parse_uint wgctrl_go.Meta.Store.update wgctrl_go.Std.Strings.fold
    wgctrl_go.Meta.Names.decode_names
put-IsInEffect_example =
    put-IsInEffect o srv calls iface start apart refl (λ s. tt) put refl refl refl

-- A body that the client cut off in its first line reaches the parser as if it were whole.
peek_request_body-joined_example :
    (peek_request_body (pos 60) (record { content = codes "[Interface]"; ending = cut_off })).0
    ≡ record { content = codes "[Interface]"; ending = ends }
peek_request_body-joined_example =
    peek_request_body-joined (pos 60) (record { content = codes "[Interface]"; ending = cut_off })
      refl refl

abbrev written_calls : List Call
written_calls =
    header 201 ∷ chunk (replicate 1000 65) 1000 ∷ header 500 ∷ chunk (replicate 50 66) 50 ∷ []

record_calls-IsLogged_example : IsLogged written_calls (record_calls written_calls new_recorder)
record_calls-IsLogged_example = record_calls-IsLogged written_calls (refl, (refl, tt))

abbrev config : Config
config = record {
  private_key = none;
  listen_port = some (pos 100_000);
  firewall_mark = none;
  replace_peers = false;
  peers =
      record {
        name = none;
        public_key = codes "AQAAAAAAAAAAAAAAAAAAAAAAAAAAAAAAAAAAAAAAAAA=";
        remove = false;
        update_only = false;
        preshared_key = none;
        endpoint = none;
        persistent_keepalive_seconds = some (pos 25);
        replace_allowed_ips = false;
        allowed_ips = [];
      }
      ∷ [];
}

parse_config-IsConfig_example : OnOk (IsConfig config) (parse_config net config)
parse_config-IsConfig_example = parse_config-IsConfig net config
