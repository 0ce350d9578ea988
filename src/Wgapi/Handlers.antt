-- ===== src/Wgapi/Handlers.antt =====
-- internal/wgapi/server.go: the handlers of the requests, their choice by path, and `withAuth`.
use wgctrl_go.Base.{
  ℕ, true, not, ◌||◌, List, [], ◌∷◌, map, Option, none, some, Text, codes, equal, is_empty, ◌==◌,
  if◌then◌else◌,
}
use wgctrl_go.Base.Result.{Result, ok, err}
use wgctrl_go.Std.Strings.{trim_space, cut_prefix, has_prefix, split}
use wgctrl_go.Std.Scanner.{Reader}
use wgctrl_go.Types.{Key}
use wgctrl_go.Types
use wgctrl_go.Types.Keys.{KeyError, parse_key, key_string, generate_key, generate_private_key}
use wgctrl_go.Meta.Store.{StoreError, Disk}
use wgctrl_go.Conf.{ClientError, ApplyError, apply, sync, attach_names}
use wgctrl_go.Wgconfig.Parse.{ParseError, parse}
use wgctrl_go.Wgconfig.Encode.{encode}
use wgctrl_go.Wgapi.Json.{Config, ConfigError, device_to_json, parse_config}
use wgctrl_go.Wgapi.Server.{
  Outside, Body, status_ok, healthy, version_body, names_body, devices_body, device_body, key_body,
  plain, conf_body, Response, respond, write_error, method_not_allowed, error_status, apply_status,
  constant_time_eq, Mode, conf_mode, Server, State, Handler,
}

-- A device whose names could not be read is shown without them.
abbrev pub or_same : Types.Device → Result StoreError Types.Device → Types.Device
or_same d (ok named) = named
or_same d (err e) = d

abbrev pub or_default : Text → Text → Text
or_default fallback value = if is_empty value then fallback else value

-- A string without the prefix, or itself.
abbrev pub without_prefix : Text → Option Text → Text
without_prefix s (some rest) = rest
without_prefix s none = s

-- `strings.Trim(s, "/")`
unfoldable pub trim_slashes_left : Text → Text
trim_slashes_left [] = []
trim_slashes_left (c ∷ s) = let rest = trim_slashes_left s in if c == b'/' then rest else c ∷ s

abbrev pub keep_slashes : ℕ → Text → Text
keep_slashes c [] = if c == b'/' then [] else c ∷ []
keep_slashes c (d ∷ s) = c ∷ d ∷ s

unfoldable pub trim_slashes_right : Text → Text
trim_slashes_right [] = []
trim_slashes_right (c ∷ s) = keep_slashes c (trim_slashes_right s)

abbrev pub key_response : Result KeyError Key → Response
key_response (ok key) = respond 200 (key_body (key_string key))
key_response (err e) = write_error 500

module _ {W : Type 0} (o : Outside) (srv : Server W) where
  -- `AttachNames`, whose error is only logged.
  abbrev pub named : Disk → Types.Device → Types.Device
  named disk d = or_same d (attach_names o.json o.os o.calls d srv.metadata disk)

  unfoldable pub handle_autotest : Handler W
  handle_autotest r s = (
    if equal r.method (codes "GET")
        then respond 200 (plain (codes "OK"))
        else method_not_allowed (codes "GET"),
    s,
  )

  unfoldable pub handle_health : Handler W
  handle_health r s = (respond 200 healthy, s)

  unfoldable pub handle_version : Handler W
  handle_version r s = (respond 200 (version_body srv.version srv.build_time srv.platform), s)

  abbrev pub list_response :
      (List Types.Device → Body) → Result ClientError (List Types.Device) → Response
  list_response body (err e) = write_error 500
  list_response body (ok ds) = respond 200 (body ds)

  unfoldable pub handle_interfaces : Handler W
  handle_interfaces r s = (
    list_response (λ ds. names_body (map (λ (d : Types.Device). d.name) ds))
        (srv.client.devices s.0),
    s,
  )

  unfoldable pub handle_devices : Handler W
  unfolding attach_names device_to_json
  handle_devices r s = (
    list_response
        (λ ds. devices_body (map (λ d. device_to_json o.formats srv.hide_keys (named s.1 d)) ds))
        (srv.client.devices s.0),
    s,
  )

  abbrev pub device_response : (Types.Device → Body) → Result ClientError Types.Device → Response
  device_response body (err e) = write_error (error_status e)
  device_response body (ok d) = respond 200 (body d)

  -- What a call of `Apply` or `Sync` answers.
  abbrev pub applied : Result ApplyError (Unit {0}) × W × Disk → Response × State W
  applied (err e, w, disk) = (write_error (apply_status o e), (w, disk))
  applied (ok _, w, disk) = (respond 200 status_ok, (w, disk))

  abbrev pub apply_parsed : Text → Result ConfigError Types.Config → State W → Response × State W
  apply_parsed name (err e) s = (write_error 400, s)
  apply_parsed name (ok cfg) s =
      applied (apply srv.client.client o.json o.os o.calls name cfg srv.metadata s.0 s.1)

  abbrev pub apply_decoded : Text → Option Config → State W → Response × State W
  apply_decoded name none s = (write_error 400, s)
  apply_decoded name (some c) s = apply_parsed name (parse_config o.net c) s

  unfoldable pub handle_device_resource : Text → Handler W
  unfolding attach_names device_to_json apply parse_config
  handle_device_resource name r s =
      if equal r.method (codes "GET")
      then (
        device_response (λ d. device_body (device_to_json o.formats srv.hide_keys (named s.1 d)))
            (srv.client.client.device name s.0),
        s,
      )
      else if equal r.method (codes "POST")
      then apply_decoded name (o.decode_config (o.max_bytes r.body)) s
      else (method_not_allowed (codes "GET, POST"), s)

  -- `Sync` or `Apply` for a parsed file.
  abbrev pub conf_parsed :
      Text → Mode → Result ParseError Types.Config → State W → Response × State W
  conf_parsed name m (err e) s = (write_error 400, s)
  conf_parsed name m (ok cfg) s =
      let cfg' = record cfg { replace_peers = m.replace_peers } in
      if m.sync_peers
      then applied (sync srv.client.client o.json o.os o.calls name cfg' srv.metadata s.0 s.1)
      else applied (apply srv.client.client o.json o.os o.calls name cfg' srv.metadata s.0 s.1)

  abbrev pub conf_in_mode : Text → Reader → Option Mode → State W → Response × State W
  conf_in_mode name body none s = (write_error 400, s)
  conf_in_mode name body (some m) s =
      conf_parsed name m (parse o.config_net (o.max_bytes body) m.append_mode) s

  unfoldable pub handle_device_conf : Text → Handler W
  unfolding attach_names encode conf_mode parse apply sync
  handle_device_conf name r s =
      if equal r.method (codes "GET")
      then (
        device_response (λ d. conf_body (encode o.formats.printer (named s.1 d)))
            (srv.client.client.device name s.0),
        s,
      )
      else if equal r.method (codes "PUT")
      then conf_in_mode name r.body (conf_mode (or_default (codes "set") r.mode)) s
      else if equal r.method (codes "POST")
      then conf_in_mode name r.body (conf_mode (or_default (codes "add") r.mode)) s
      else (method_not_allowed (codes "GET, PUT, POST"), s)

  -- The parts of the path behind `/api/v1/devices/`.
  abbrev pub device_parts : List Text → Handler W
  device_parts [] r s = (write_error 404, s)
  device_parts (name ∷ []) r s =
      if is_empty name then (write_error 404, s) else handle_device_resource name r s
  device_parts (name ∷ part ∷ []) r s =
      if is_empty name
      then (write_error 404, s)
      else if equal part (codes "conf")
      then handle_device_conf name r s
      else (write_error 404, s)
  device_parts (name ∷ part ∷ part' ∷ parts) r s = (write_error 404, s)

  abbrev pub device_rest : Option Text → Handler W
  device_rest none r s = (write_error 400, s)
  device_rest (some rest) r s =
      device_parts (split b'/' (trim_slashes_right (trim_slashes_left rest))) r s

  unfoldable pub handle_device : Handler W
  unfolding split trim_slashes_left trim_slashes_right handle_device_resource handle_device_conf
  handle_device r s =
      device_rest
        (o.path_unescape (without_prefix r.path (cut_prefix r.path (codes "/api/v1/devices/")))) r s

  unfoldable pub handle_genkey : Handler W
  unfolding generate_private_key
  handle_genkey r s = (key_response (generate_private_key o.random), s)

  unfoldable pub handle_genpsk : Handler W
  unfolding generate_key
  handle_genpsk r s = (key_response (generate_key o.random), s)

  abbrev pub public_response : Result KeyError Key → Response
  public_response (ok key) = respond 200 (key_body (key_string (o.public_key key)))
  public_response (err e) = write_error 400

  abbrev pub pubkey_response : Option Text → Response
  pubkey_response none = write_error 400
  pubkey_response (some text) = public_response (parse_key (trim_space text))

  unfoldable pub handle_pubkey : Handler W
  unfolding parse_key trim_space
  handle_pubkey r s = (pubkey_response (o.decode_key (o.max_bytes r.body)), s)

  -- The handlers of `Handler`, for paths that `http.ServeMux` need not clean up.
  unfoldable pub mux : Handler W
  unfolding handle_autotest handle_health handle_version handle_interfaces handle_devices
      handle_device handle_genkey handle_genpsk handle_pubkey
  mux r s =
      if equal r.path (codes "/autotest")
      then handle_autotest r s
      else if equal r.path (codes "/api/v1/health")
      then handle_health r s
      else if equal r.path (codes "/api/v1/version")
      then handle_version r s
      else if equal r.path (codes "/api/v1/interfaces")
      then handle_interfaces r s
      else if equal r.path (codes "/api/v1/devices")
      then handle_devices r s
      else if equal r.path (codes "/api/v1/genkey")
      then handle_genkey r s
      else if equal r.path (codes "/api/v1/genpsk")
      then handle_genpsk r s
      else if equal r.path (codes "/api/v1/pubkey")
      then handle_pubkey r s
      else if has_prefix r.path (codes "/api/v1/devices/")
      then handle_device r s
      else (respond 404 (plain (codes "404 page not found\n")), s)

  -- `withAuth`
  unfoldable pub with_auth : Handler W → Handler W
  unfolding constant_time_eq
  with_auth next r s =
      if equal r.path (codes "/autotest") || equal r.path (codes "/api/v1/health")
      then next r s
      else if is_empty srv.api_key
      then (record (write_error 500) { challenge = true }, s)
      else if is_empty r.api_key
      then (record (write_error 401) { challenge = true }, s)
      else if not (constant_time_eq srv.api_key r.api_key)
      then (record (write_error 401) { challenge = true }, s)
      else next r s
