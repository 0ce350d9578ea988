-- ===== src/Wgcli/Tests.antt =====
-- A device with two peers, shown.
use wgctrl_go.Base.{
  ℕ, Bool, true, false, List, [], ◌∷◌, ◌++◌, Option, none, some, Text, codes, ltb, if◌then◌else◌,
  ◌≡◌, refl,
}
use wgctrl_go.Base.Int.{ℤ, pos, negsuc}
use wgctrl_go.Types.{Peer, Device}
use wgctrl_go.Conf.Tests.{device}
use wgctrl_go.Wgapi.Hidden.{hide}
use wgctrl_go.Wgcli.Durations.{units, split_units, total, IsSplit, pretty_duration, byte_count}
use wgctrl_go.Wgcli.Show.{Texts, pretty}
use wgctrl_go.Wgcli.Fields.{field}
use wgctrl_go.Wgcli.Shown.{split_units-IsSplit, pretty-hide}

abbrev after : ℤ → ℤ → Bool
after (pos a) (pos b) = ltb b a
after (pos a) (negsuc b) = true
after (negsuc a) (pos b) = false
after (negsuc a) (negsuc b) = ltb a b

abbrev out : Texts
out = record {
  net_string = λ _. codes "10.0.0.0/8";
  address_string = λ _. codes "1.2.3.4:51820";
  since = λ _. pos 0;
  after = λ a b. after a.sec b.sec;
  decimals = λ n size. codes "1.50";
}

-- The device with a peer without a handshake, one with an early and one with a late handshake.
abbrev seen : ℕ → Peer → Peer
seen sec p = record p { last_handshake_time = some (record { sec = pos sec; nsec = pos 0 }) }

abbrev idle : Peer → Peer
idle p = record p { last_handshake_time = none }

abbrev spread : List Peer → List Peer
spread [] = []
spread (p ∷ ps) = idle p ∷ seen 10 p ∷ seen 20 p ∷ []

abbrev busy : Device
busy = record device { peers = spread device.peers }

duration_sample : pretty_duration 93_784 false ≡ codes "1 day, 2 hours, 3 minutes, 4 seconds"
unfolding pretty_duration
duration_sample = refl

bytes_sample : byte_count out.decimals (pos 1536) false ≡ codes "1.50 KiB"
unfolding byte_count
bytes_sample = refl

fwmark_sample : field out device (codes "fwmark") true ≡ some (device.name ++ codes "\toff\n")
unfolding field wgctrl_go.Base.equal
fwmark_sample = refl

split_units-IsSplit_example :
    (total (split_units units 93_784) ≡ 93_784) × IsSplit (split_units units 93_784)
split_units-IsSplit_example = split_units-IsSplit 93_784

pretty-hide_example : pretty out (hide device) false true ≡ pretty out device false true
pretty-hide_example = pretty-hide out device true
