-- ===== src/Wgapi/ReadOnly.antt =====
-- A GET request changes neither a device nor the disk.
use wgctrl_go.Base.{
  true, ◌||◌, List, [], ◌∷◌, Option, none, some, Text, codes, equal, equal_refl, is_empty,
  if_either, ◌≡◌, refl,
}
use wgctrl_go.Std.Strings.{has_prefix, split, cut_prefix}
use wgctrl_go.Wgapi.Server.{Outside, Request, Response, Server, State}
use wgctrl_go.Wgapi.Handlers.{
  handle_device_resource, handle_device_conf, device_parts, device_rest, trim_slashes_left,
  trim_slashes_right, without_prefix, handle_autotest, handle_health, handle_version,
  handle_interfaces, handle_devices, handle_genkey, handle_genpsk, handle_pubkey, handle_device,
  mux, with_auth,
}

module _ {W : Type 0} (o : Outside) (srv : Server W) where
  -- The state behind an answer is the one in front of it.
  abbrev Keeps : State W → Response × State W → Type 0
  Keeps s x = x.1 ≡ s

  module _ (r : Request) (s : State W) (get : r.method ≡ codes "GET") where
    is_get : equal r.method (codes "GET") ≡ true
    is_get = rw get (equal_refl (codes "GET"))

    resource-Keeps : (name : Text) → Keeps s (handle_device_resource o srv name r s)
    unfolding handle_device_resource
    resource-Keeps name = rw is_get refl

    conf-Keeps : (name : Text) → Keeps s (handle_device_conf o srv name r s)
    unfolding handle_device_conf
    conf-Keeps name = rw is_get refl

    device_parts-Keeps : (parts : List Text) → Keeps s (device_parts o srv parts r s)
    device_parts-Keeps [] = refl
    device_parts-Keeps (name ∷ []) = if_either (Keeps s) (is_empty name) refl (resource-Keeps name)
    device_parts-Keeps (name ∷ part ∷ []) =
        if_either (Keeps s) (is_empty name) refl
          (if_either (Keeps s) (equal part (codes "conf")) (conf-Keeps name) refl)
    device_parts-Keeps (name ∷ part ∷ part' ∷ parts) = refl

    device_rest-Keeps : (rest : Option Text) → Keeps s (device_rest o srv rest r s)
    device_rest-Keeps none = refl
    device_rest-Keeps (some rest) =
        device_parts-Keeps (split b'/' (trim_slashes_right (trim_slashes_left rest)))

    handle_device-Keeps : Keeps s (handle_device o srv r s)
    unfolding handle_device
    handle_device-Keeps =
        device_rest-Keeps
          (o.path_unescape (without_prefix r.path (cut_prefix r.path (codes "/api/v1/devices/"))))

    mux-Keeps : Keeps s (mux o srv r s)
    unfolding mux handle_autotest handle_health handle_version handle_interfaces handle_devices
        handle_genkey handle_genpsk handle_pubkey
    mux-Keeps = if_either (Keeps s) (equal r.path (codes "/autotest")) refl (
        if_either (Keeps s) (equal r.path (codes "/api/v1/health")) refl (
          if_either (Keeps s) (equal r.path (codes "/api/v1/version")) refl (
            if_either (Keeps s) (equal r.path (codes "/api/v1/interfaces")) refl (
              if_either (Keeps s) (equal r.path (codes "/api/v1/devices")) refl (
                if_either (Keeps s) (equal r.path (codes "/api/v1/genkey")) refl (
                  if_either (Keeps s) (equal r.path (codes "/api/v1/genpsk")) refl (
                    if_either (Keeps s) (equal r.path (codes "/api/v1/pubkey")) refl (
                      if_either (Keeps s) (has_prefix r.path (codes "/api/v1/devices/"))
                        handle_device-Keeps refl))))))))

    -- Whatever its path, key, mode and body, a GET request leaves the state of the devices and the
    -- disk as it was.
    pub with_auth-Keeps : (with_auth o srv (mux o srv) r s).1 ≡ s
    unfolding with_auth
    with_auth-Keeps =
        if_either (Keeps s)
          (equal r.path (codes "/autotest") || equal r.path (codes "/api/v1/health")) mux-Keeps
          (if_either (Keeps s) (is_empty srv.api_key) refl
            (if_either (Keeps s) (is_empty r.api_key) refl (if_either (Keeps s) _ refl mux-Keeps)))
