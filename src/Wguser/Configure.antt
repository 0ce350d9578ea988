-- ===== src/Wguser/Configure.antt =====
-- internal/wguser/configure.go: the request that configures a device, and its answer.
use wgctrl_go.Base.{
  Bool, List, [], ◌∷◌, ◌++◌, Option, none, some, Text, codes, equal, if◌then◌else◌, ◌≡◌, refl, ap,
}
use wgctrl_go.Base.Int.{ℤ}
use wgctrl_go.Base.Result.{ok}
use wgctrl_go.Std.Strings.{trim_space}
use wgctrl_go.Std.Strconv.{format_int}
use wgctrl_go.Std.Hex
use wgctrl_go.Types.{
  Key, zero_key, IpNet, UdpAddr, AllowedIpConfig, AllowedIpOperation, allowed_ip_set,
  allowed_ip_add, allowed_ip_remove, PeerConfig, Config,
}
use wgctrl_go.Types.Keys.{IsKey, new_key-IsKey}
use wgctrl_go.Wguser.Parse.{keep_error, key_of_bytes, parse_key}

-- `UDPAddr.String`, `IPNet.String`, and `int(d.Seconds())`, which goes through a float.
pub record Printer : Type 0 where
  pub address_string : UdpAddr → Text
  pub net_string : IpNet → Text
  pub whole_seconds : ℤ → ℤ

-- `hexKey`
unfoldable pub hex_key : Key → Text
hex_key k = Hex.encode k

abbrev pub pair : Text → Text → Text
pair key value = key ++ (b'=' ∷ value ++ 10 ∷ [])

abbrev pub pair_of {ℓ} : {A : Type ℓ} → Text → (A → Text) → Option A → Text
pair_of key show none = []
pair_of key show (some a) = pair key (show a)

abbrev pub flag : Text → Bool → Text
flag key b = if b then pair key (codes "true") else []

abbrev pub concat_map {ℓ} : {A : Type ℓ} → (A → Text) → List A → Text
concat_map f [] = []
concat_map f (a ∷ as') = f a ++ concat_map f as'

abbrev pub network_line : Printer → IpNet → Text
network_line out n = pair (codes "allowed_ip") (out.net_string n)

-- A removal has a minus sign in front of the network; setting and adding look alike.
abbrev pub sign : AllowedIpOperation → Text
sign allowed_ip_remove = codes "-"
sign allowed_ip_set = []
sign allowed_ip_add = []

abbrev pub operation_line : Printer → AllowedIpConfig → Text
operation_line out op = pair (codes "allowed_ip") (sign op.operation ++ out.net_string op.ip_net)

-- The lines of one peer.
unfoldable pub peer_config_lines : Printer → PeerConfig → Text
unfolding hex_key format_int
peer_config_lines out p =
    pair (codes "public_key") (hex_key p.public_key)
    ++ (flag (codes "remove") p.remove
        ++ (flag (codes "update_only") p.update_only
            ++ (pair_of (codes "preshared_key") hex_key p.preshared_key
                ++ (pair_of (codes "endpoint") out.address_string p.endpoint
                    ++ (pair_of (codes "persistent_keepalive_interval")
                          (λ d. format_int (out.whole_seconds d)) p.persistent_keepalive_interval
                        ++ (flag (codes "replace_allowed_ips") p.replace_allowed_ips
                            ++ (concat_map (network_line out) p.allowed_ips
                                ++ concat_map (operation_line out) p.allowed_ip_operations)))))))

-- `writeConfig`
unfoldable pub write_config : Printer → Config → Text
unfolding peer_config_lines
write_config out cfg =
    pair_of (codes "private_key") hex_key cfg.private_key
    ++ (pair_of (codes "listen_port") format_int cfg.listen_port
        ++ (pair_of (codes "fwmark") format_int cfg.firewall_mark
            ++ (flag (codes "replace_peers") cfg.replace_peers
                ++ concat_map (peer_config_lines out) cfg.peers)))

-- What `configureDevice` sends.
unfoldable pub request : Printer → Config → Text
unfolding write_config
request out cfg = codes "set=1\n" ++ (write_config out cfg ++ 10 ∷ [])

-- The error that `configureDevice` reads from an answer, if there is one.
unfoldable pub answer_error : Text → Option Text
unfolding trim_space
answer_error res =
    let str = trim_space res in if equal str (codes "errno=0") then none else some str

key_of_bytes-hex_key : {k : Key} → IsKey k → key_of_bytes (Hex.decode (Hex.encode k)) ≡ ok k
key_of_bytes-hex_key {k} w =
    rw (Hex.decode-encode k w.bytes) (rw (new_key-IsKey w, key_of_bytes) refl)

-- `parseKey` reads the key that `hexKey` wrote, where there was no error before.
pub parse_key-hex_key : {k : Key} → IsKey k → parse_key (hex_key k) none ≡ (k, none)
unfolding hex_key parse_key keep_error
parse_key-hex_key {k} w = ap (λ r. keep_error zero_key r none) (key_of_bytes-hex_key w)
