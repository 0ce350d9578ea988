-- ===== src/Linux/Batch/Tests.antt =====
-- A configuration of 33 peers, one more than a message takes.
use wgctrl_go.Base.{ℕ, true, false, List, [], ◌∷◌, none, some, ◌≡◌, replicate, All}
use wgctrl_go.Types.{PeerConfig, Config}
use wgctrl_go.Linux.Batch.{build_batches}
use wgctrl_go.Linux.Batch.Requests.{batch_requests, peer_requests, build_batches-requests}
use wgctrl_go.Linux.Batch.Limits.{IsMessage, ReplacesOnce, build_batches-messages}

abbrev entry : ℕ → PeerConfig
entry n = record {
  name = none;
  public_key = n ∷ replicate 31 1;
  remove = false;
  update_only = false;
  preshared_key = none;
  endpoint = none;
  persistent_keepalive_interval = none;
  replace_allowed_ips = true;
  allowed_ips = record { ip = 10 ∷ 0 ∷ 0 ∷ n ∷ []; mask = replicate 4 255 } ∷ [];
  allowed_ip_operations = [];
}

abbrev up_to : ℕ → List PeerConfig
up_to ℕ.zero = []
up_to (ℕ.suc n) = entry n ∷ up_to n

abbrev many : Config
many = record {
  private_key = none;
  listen_port = none;
  firewall_mark = none;
  replace_peers = true;
  peers = up_to 33;
}

build_batches-requests_example :
    (bs : List Config) × (build_batches many ≡ some bs)
    × (batch_requests bs ≡ peer_requests many.peers)
build_batches-requests_example = build_batches-requests many

build_batches-messages_example :
    (bs : List Config) × (build_batches many ≡ some bs)
    × All (IsMessage many) bs
    × ReplacesOnce many bs
build_batches-messages_example = build_batches-messages many
