-- ===== src/Wg/Tests.antt =====
-- The list of a device with peers behind addresses of every kind.
use wgctrl_go.Base.{List, [], ◌∷◌, codes, ◌≡◌, refl, replicate}
use mathlib.Core.List.{Perm}
use wgctrl_go.Types.{Ip, Peer}
use wgctrl_go.Conf.Tests.{device}
use wgctrl_go.Wg.List.{sorted_peers, list_peer_key}
use wgctrl_go.Wg.Order.{AreRising, sorted_peers-IsSorted}

abbrev at_ip : Ip → Peer → Peer
at_ip ip p = record p { allowed_ips = record { ip = ip; mask = replicate 4 255 } ∷ [] }

abbrev spread : List Peer → List Peer
spread [] = []
spread (p ∷ ps) =
    p
    ∷ at_ip (10 ∷ 0 ∷ 0 ∷ 7 ∷ []) p
    ∷ at_ip (0 ∷ 0 ∷ 0 ∷ 0 ∷ 0 ∷ 0 ∷ 0 ∷ 0 ∷ 0 ∷ 0 ∷ 255 ∷ 255 ∷ 10 ∷ 0 ∷ 0 ∷ 5 ∷ []) p
    ∷ at_ip (replicate 16 1) p
    ∷ ps

sorted_peers-IsSorted_example :
    Perm (sorted_peers (spread device.peers)) (spread device.peers)
    × AreRising (sorted_peers (spread device.peers))
sorted_peers-IsSorted_example = sorted_peers-IsSorted (spread device.peers)

key_sample : list_peer_key device.public_key ≡ codes "AAAAA***AAA="
unfolding list_peer_key wgctrl_go.Std.Base64.encode
key_sample = refl
