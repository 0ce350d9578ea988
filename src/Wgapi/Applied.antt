-- ===== src/Wgapi/Applied.antt =====
-- A configuration file sent to the server, from the request to the device and the names of its peers.
use wgctrl_go.Base.{
  true, false, List, [], ◌∷◌, Text, codes, equal, ◌≡◌, ◌≢◌, refl, All, Bool-cases, inl, inr, arith,
}
use wgctrl_go.Base.Result.{Result, ok, err}
use wgctrl_go.Std.Scanner.{Reader}
use wgctrl_go.Types.{PeerConfig, Config}
use wgctrl_go.Types.Keys.{IsKey}
use wgctrl_go.Meta.Path.{resolve_file}
use wgctrl_go.Meta.Store.{Calls, Disk}
use wgctrl_go.Conf.{ClientError, not_exist, other, ApplyError, apply}
use wgctrl_go.Conf
use wgctrl_go.Conf.PeerNames.{Applied, apply-Applied}
use wgctrl_go.Wgconfig.Parse.{ParseError, parse}
use wgctrl_go.Wgconfig.Ranges.{HasPorts}
use wgctrl_go.Wgconfig.States.{IsPeer, IsConfig}
use wgctrl_go.Wgconfig.Valid.{IsParsed, parse-IsParsed}
use wgctrl_go.Wgapi.Server.{
  Outside, Request, Response, error_status, apply_status, Mode, conf_mode, Server, State,
}
use wgctrl_go.Wgapi.Handlers.{or_default, applied, conf_parsed, handle_device_conf}

peers-keys :
    (ps : List PeerConfig) → All IsPeer ps → All (λ (p : PeerConfig). IsKey p.public_key) ps
peers-keys [] h = tt
peers-keys (p ∷ ps) (h, hs) = (h.public_key, peers-keys ps hs)

error_status-ne : (e : ClientError) → error_status e ≢ 200
error_status-ne not_exist = ground arith
error_status-ne (other t) = ground arith

apply_status-ne : (o : Outside) (e : ApplyError) → apply_status o e ≢ 200
apply_status-ne o (Conf.client_error e) = error_status-ne e
apply_status-ne o (Conf.state_error e) = error_status-ne e
apply_status-ne o (Conf.names_error e) = elim (Bool-cases (o.is_not_exist e)) [
  | inl h ↦ rw h (ground arith)
  | inr h ↦ rw h (ground arith)
]

-- The mode of a whole file.
abbrev set_mode : Mode
set_mode = record { append_mode = false; replace_peers = true; sync_peers = false }

module _ {W : Type 0} (o : Outside) (srv : Server W) (later : Calls) (name : Text)
    (s : State W) where
  -- The file is valid, the back end has taken it, and the names of the peers are those of the file.
  pub record IsInEffect (body : Reader) (x : Response × State W) : Type 0 where
    pub cfg : Config
    pub parsed : parse o.config_net (o.max_bytes body) false ≡ ok cfg
    pub valid : IsConfig false cfg
    pub in_effect :
        Applied srv.client.client o.json o.os o.calls later name
          (record cfg { replace_peers = true })
          srv.metadata
          s.0
          s.1
          (ok tt, x.1.0, x.1.1)

  module _ (apart : o.calls.tmp_name ≢ resolve_file o.os srv.metadata name)
      (readable : later.read_fails ≡ false) (ports : HasPorts o.config_net) where
    applied-ok :
        (cfg : Config) (x : Result ApplyError (Unit {0}) × W × Disk)
        → (x.0 ≡ ok tt
            → Applied srv.client.client o.json o.os o.calls later name cfg srv.metadata s.0 s.1 x)
        → (applied o srv x).0.status ≡ 200
        → Applied srv.client.client o.json o.os o.calls later name cfg srv.metadata s.0 s.1
            (ok tt, (applied o srv x).1.0, (applied o srv x).1.1)
    applied-ok cfg (err e, w, disk) k h = absurd (apply_status-ne o e h)
    applied-ok cfg (ok tt, w, disk) k h = k refl

    parsed-IsInEffect :
        (body : Reader) (x : Result ParseError Config)
        → parse o.config_net (o.max_bytes body) false ≡ x
        → IsParsed false x
        → (conf_parsed o srv name set_mode x s).0.status ≡ 200
        → IsInEffect body (conf_parsed o srv name set_mode x s)
    parsed-IsInEffect body (err e) p v h = absurd (ground arith)
    parsed-IsInEffect body (ok cfg) p v h = record {
      cfg = cfg;
      parsed = p;
      valid = v;
      in_effect =
          applied-ok (record cfg { replace_peers = true })
            (apply srv.client.client o.json o.os o.calls name (record cfg { replace_peers = true })
              srv.metadata s.0 s.1)
            (apply-Applied srv.client.client o.json o.os o.calls later name
              (record cfg { replace_peers = true }) srv.metadata s.0 s.1 apart
              (peers-keys cfg.peers v.peers) readable)
            h;
    }

    -- A `PUT` of a file in the mode "set" that is answered with status 200: the file was parsed to a
    -- valid configuration, the back end has taken it with its peers in place of the old ones, and
    -- the names read afterwards are, key by key, the ones that the file and the device's peers call
    -- for. The system's ports have 16 bits, the temporary file is not the file of names itself, and
    -- the later reading does not fail.
    pub put-IsInEffect :
        (r : Request)
        → r.method ≡ codes "PUT"
        → or_default (codes "set") r.mode ≡ codes "set"
        → (handle_device_conf o srv name r s).0.status ≡ 200
        → IsInEffect r.body (handle_device_conf o srv name r s)
    unfolding handle_device_conf conf_mode equal
    put-IsInEffect r put mode =
        rw (put, mode)
          (parsed-IsInEffect r.body (parse o.config_net (o.max_bytes r.body) false) refl
            (parse-IsParsed o.config_net (o.max_bytes r.body) false ports))
