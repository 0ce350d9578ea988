-- ===== src/Wg/List.antt =====
-- cmd/wg/list.go: `wg --list`, into buffers whose writes do not fail.
use wgctrl_go.Base.{
  ℕ, ◌-◌, ltb, Bool, true, false, not, ◌||◌, List, [], ◌∷◌, ◌++◌, Option, none, some, Text, codes,
  equal, is_empty, length, take, drop, replicate, if◌then◌else◌,
}
use wgctrl_go.Base.Int.{pos, is_zero}
use wgctrl_go.Base.Result.{Result, ok, err}
use wgctrl_go.Std.Strconv.{format_int}
use wgctrl_go.Std.Sort.{sort_stable}
use wgctrl_go.Types.{Key, Ip, IpNet, UdpAddr, Peer, Device}
use wgctrl_go.Types.Keys.{key_string}
use wgctrl_go.Conf.{ClientError}
use wgctrl_go.Wgconfig.Fields.{is_ipv4}

-- `IPNet.String`, `UDPAddr.String`, and `listConfigPath`, which asks the system for a directory.
pub record Texts : Type 0 where
  pub net_string : IpNet → Text
  pub address_string : UdpAddr → Text
  pub config_path : Text → Text

-- The last byte of an address of version 4, which may have 16 bytes.
abbrev pub last_byte : Ip → ℕ
last_byte [] = 0
last_byte (b ∷ []) = b
last_byte (b ∷ c ∷ ip) = last_byte (c ∷ ip)

abbrev pub octet_of : List IpNet → ℕ
octet_of [] = 256
octet_of (n ∷ ns) = if is_ipv4 n.ip then last_byte n.ip else 256

-- `listPeerLastOctet`
unfoldable pub list_peer_last_octet : Peer → ℕ
unfolding is_ipv4
list_peer_last_octet p = octet_of p.allowed_ips

abbrev pub is_lower : Peer → Peer → Bool
is_lower p q = ltb (list_peer_last_octet p) (list_peer_last_octet q)

-- `sortedPeers`
unfoldable pub sorted_peers : List Peer → List Peer
unfolding sort_stable list_peer_last_octet
sorted_peers peers = sort_stable is_lower peers

-- `listPeerKey`
unfoldable pub list_peer_key : Key → Text
unfolding key_string
list_peer_key k =
    let s = key_string k in
    if ltb 12 (length s) then take 5 s ++ (codes "***" ++ drop (length s - 4) s) else s

-- `listAllowedIP`
abbrev pub list_allowed_ip : Texts → List IpNet → Text
list_allowed_ip out [] = codes "(none)"
list_allowed_ip out (n ∷ ns) = out.net_string n

-- `listEndpoint`
abbrev pub list_endpoint : Texts → Option UdpAddr → Text
list_endpoint out none = codes "(none)"
list_endpoint out (some a) = out.address_string a

-- `%-Ns`
abbrev pub pad : ℕ → Text → Text
pad width s = s ++ replicate (width - length s) 32

abbrev pub row : Text → Text → Text → Text
row key ip endpoint =
    codes "  " ++ (pad 12 key ++ (32 ∷ (pad 18 ip ++ (32 ∷ (endpoint ++ 10 ∷ [])))))

abbrev pub peer_row : Texts → Peer → Text
peer_row out p =
    row (list_peer_key p.public_key) (list_allowed_ip out p.allowed_ips)
      (list_endpoint out p.endpoint)

unfoldable pub peer_rows : Texts → List Peer → Text
unfolding list_peer_key
peer_rows out [] = []
peer_rows out (p ∷ ps) = peer_row out p ++ peer_rows out ps

-- The lines in front of the peers.
unfoldable pub list_interface : Texts → Device → Text
unfolding key_string format_int
list_interface out d =
    codes "interface: "
    ++ (d.name
        ++ (codes "\n  config file: "
            ++ (out.config_path d.name
                ++ (10
                      ∷ (if d.has_public_key
                          then codes "  public key: " ++ (key_string d.public_key ++ 10 ∷ [])
                          else [])
                    ++ (codes "  private key: (hidden)\n"
                        ++ (if not (is_zero d.listen_port)
                            then codes "  listening port: " ++ (format_int d.listen_port ++ 10 ∷ [])
                            else []))))))

-- `prettyList`
unfoldable pub pretty_list : Texts → Device → Text
unfolding list_interface peer_rows sorted_peers
pretty_list out d =
    list_interface out d
    ++ (codes "\npeer: "
        ++ (format_int (pos (length d.peers))
            ++ (10
                ∷ (if not (is_empty d.peers)
                    then row (codes "public key") (codes "allowed ips") (codes "endpoint")
                      ++ peer_rows out (sorted_peers d.peers)
                    else []))))

-- What the command writes to its output, and its exit code.
abbrev pub Output : Type 0
Output = Text × ℕ

-- The loop over the devices, with an empty line between two.
unfoldable pub list_devices : Texts → Bool → List Device → Text
unfolding pretty_list
list_devices out first [] = []
list_devices out first (d ∷ ds) =
    (if first then [] else 10 ∷ []) ++ (pretty_list out d ++ list_devices out false ds)

abbrev pub all_listed : Texts → Result ClientError (List Device) → Output
all_listed out (err e) = ([], 1)
all_listed out (ok ds) = (list_devices out true ds, 0)

abbrev pub one_listed : Texts → Result ClientError Device → Output
one_listed out (err e) = ([], 1)
one_listed out (ok d) = (pretty_list out d, 0)

abbrev pub is_help : Text → Bool
is_help a = equal a (codes "help") || equal a (codes "-h") || equal a (codes "--help")

-- `list`, where `client` is what `newListClient` gives: the devices, and one by its name.
unfoldable pub list :
    Texts
    → Result ClientError (Result ClientError (List Device) × (Text → Result ClientError Device))
    → List Text
    → Output
unfolding list_devices pretty_list
list out (ok (devices, device)) [] = all_listed out devices
list out (err e) [] = ([], 1)
list out (ok (devices, device)) (a ∷ []) = if is_help a then ([], 0) else one_listed out (device a)
list out (err e) (a ∷ []) = if is_help a then ([], 0) else ([], 1)
list out client (a ∷ b ∷ args) = ([], 1)
