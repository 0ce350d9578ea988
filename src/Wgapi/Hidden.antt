-- ===== src/Wgapi/Hidden.antt =====
-- With `HideKeys`, what the device queries answer does not depend on the secret keys.
use wgctrl_go.Base.{
  true, List, [], ◌∷◌, map, Text, codes, equal_refl, is_empty, ◌≡◌, refl, sym, ap, Bool-cases, inl,
  inr,
}
use wgctrl_go.Base.Result.{Result, ok, err, Result-cases}
use wgctrl_go.Types.{Peer, Device, zero_key}
use wgctrl_go.Meta.Names.{Names, name_of}
use wgctrl_go.Meta.Store.{StoreError, Disk}
use wgctrl_go.Meta.Store
use wgctrl_go.Conf.{ClientError, attach_name, attach_names}
use wgctrl_go.Wgapi.Json.{Formats, peer_to_json, device_to_json}
use wgctrl_go.Wgapi.Server.{
  Outside, Request, DeviceClient, Server, State, devices_body, device_body,
}
use wgctrl_go.Wgapi.Handlers.{
  named, list_response, device_response, handle_devices, handle_device_resource,
}

-- A peer and a device without their secrets.
abbrev pub hide_peer : Peer → Peer
hide_peer p = record p { preshared_key = zero_key }

abbrev pub hide : Device → Device
hide d = record d { private_key = zero_key; peers = map hide_peer d.peers }

abbrev hide_answer : Result ClientError Device → Result ClientError Device
hide_answer (ok d) = ok (hide d)
hide_answer (err e) = err e

abbrev hide_answers : Result ClientError (List Device) → Result ClientError (List Device)
hide_answers (ok ds) = ok (map hide ds)
hide_answers (err e) = err e

-- A client that never shows a secret.
abbrev pub hidden_client : {W : Type 0} → DeviceClient W → DeviceClient W
hidden_client c = record {
  client = record {
    device = λ name w. hide_answer (c.client.device name w);
    configure_device = c.client.configure_device;
  };
  devices = λ w. hide_answers (c.devices w);
}

peers_hidden :
    (out : Formats) (ps : List Peer)
    → map (peer_to_json out true) (map hide_peer ps) ≡ map (peer_to_json out true) ps
unfolding peer_to_json
peers_hidden out [] = refl
peers_hidden out (p ∷ ps) = ap (◌∷◌ (peer_to_json out true p)) (peers_hidden out ps)

device_to_json-hide :
    (out : Formats) (d : Device) → device_to_json out true (hide d) ≡ device_to_json out true d
unfolding device_to_json
device_to_json-hide out d = rw (peers_hidden out d.peers) refl

attach_name-hide :
    (ns : Names) (p : Peer) → attach_name ns (hide_peer p) ≡ hide_peer (attach_name ns p)
attach_name-hide ns p = elim (Bool-cases (is_empty (name_of p.public_key ns))) [
  | inl e ↦ rw e refl
  | inr e ↦ rw e refl
]

attach_peers-hide :
    (ns : Names) (ps : List Peer)
    → map (attach_name ns) (map hide_peer ps) ≡ map hide_peer (map (attach_name ns) ps)
attach_peers-hide ns [] = refl
attach_peers-hide ns (p ∷ ps) = cc (attach_name-hide ns p, attach_peers-hide ns ps)

module _ {W : Type 0} (o : Outside) (srv : Server W) where
  named-hide : (disk : Disk) (d : Device) → named o srv disk (hide d) ≡ hide (named o srv disk d)
  unfolding attach_names
  named-hide disk d =
      elim (Result-cases (Store.names o.json o.os o.calls srv.metadata d.name disk)) [
        | inl (ns, e) ↦ rw e (rw (attach_peers-hide ns d.peers) refl)
        | inr (x, e) ↦ rw e refl
      ]

  shown :
      (disk : Disk) (d : Device)
      → device_to_json o.formats true (named o srv disk (hide d))
        ≡ device_to_json o.formats true (named o srv disk d)
  shown disk d = rw (named-hide disk d) (device_to_json-hide o.formats (named o srv disk d))

  shown_list :
      (disk : Disk) (ds : List Device)
      → map (λ d. device_to_json o.formats true (named o srv disk d)) (map hide ds)
        ≡ map (λ d. device_to_json o.formats true (named o srv disk d)) ds
  shown_list disk [] = refl
  shown_list disk (d ∷ ds) = cc (shown disk d, shown_list disk ds)

  abbrev hidden : Server W
  hidden = record srv { client = hidden_client srv.client }

  list_hidden :
      (disk : Disk) (x : Result ClientError (List Device))
      → list_response o srv
          (λ ds. devices_body (map (λ d. device_to_json o.formats true (named o srv disk d)) ds))
          (hide_answers x)
        ≡ list_response o srv
            (λ ds. devices_body (map (λ d. device_to_json o.formats true (named o srv disk d)) ds))
            x
  list_hidden disk (ok ds) = rw (shown_list disk ds) refl
  list_hidden disk (err e) = refl

  device_hidden :
      (disk : Disk) (x : Result ClientError Device)
      → device_response o srv
          (λ d. device_body (device_to_json o.formats true (named o srv disk d)))
          (hide_answer x)
        ≡ device_response o srv
            (λ d. device_body (device_to_json o.formats true (named o srv disk d)))
            x
  device_hidden disk (ok d) = rw (shown disk d) refl
  device_hidden disk (err e) = refl

  -- A server with `HideKeys` answers the queries of all devices and of one device as it would if its
  -- client gave it every private key and every preshared key as zero.
  pub queries-hidden :
      (r : Request) (s : State W) (name : Text)
      → srv.hide_keys ≡ true
      → r.method ≡ codes "GET"
      → (handle_devices o srv r s
          ≡ handle_devices o (record srv { client = hidden_client srv.client }) r s)
        × (handle_device_resource o srv name r s
            ≡ handle_device_resource o (record srv { client = hidden_client srv.client }) name r s)
  unfolding handle_devices handle_device_resource
  queries-hidden r s name h get = (
    rw h (ap (λ x. (x, s)) (sym (list_hidden s.1 (srv.client.devices s.0)))),
    rw (get, equal_refl (codes "GET"), h)
        (ap (λ x. (x, s)) (sym (device_hidden s.1 (srv.client.client.device name s.0)))),
  )
