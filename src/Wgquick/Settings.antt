-- ===== src/Wgquick/Settings.antt =====
-- The lines that a saved file has for each setting.
use wgctrl_go.Base.{
  ℕ, zero, suc, ◌==◌, arith, Bool, true, false, not, List, [], ◌∷◌, ◌++◌, map, Option, none, some,
  Text, codes, equal, equal_iff, is_empty, if◌then◌else◌, ◌≡◌, refl, sym, ap, subst, ◌∙◌, ◌⊎◌, inl,
  inr, All, append_assoc, append-nil, Bool-cases,
}
use wgctrl_go.Base.Int.{ℤ, pos, negsuc, is_positive}
use wgctrl_go.Std.Strings.{join}
use wgctrl_go.Std.Strconv.{format_int}
use wgctrl_go.Types.{Key, Duration, Peer, Device, zero_key}
use wgctrl_go.Types.Keys.{key_string}
use wgctrl_go.Wgconfig.Ranges.{Holds}
use wgctrl_go.Wgquick.Config.{Config}
use wgctrl_go.Wgquick.Encode.{
  Printer, line, line_of, line_if, concat_map, write_interface_crypto, write_ip_net_list,
  keepalive_text, write_peer, write_network, encode,
}
use wgctrl_go.Wgquick.Save.{unless_zero, peer_from_device, apply_device}

-- `part` stands somewhere in `t`.
abbrev pub Contains : Text → Text → Type 0
Contains t part = (front : Text) × (behind : Text) × (t ≡ front ++ (part ++ behind))

-- A line in `t`.
abbrev pub HasLine : Text → Text → Text → Type 0
HasLine t label value = Contains t (label ++ (value ++ 10 ∷ []))

-- A section in `t` that says of a peer what is not its zero value.
pub record HasPeer (out : Printer) (t : Text) (p : Peer) : Type 0 where
  pub rest : Text
  pub public_key :
      Contains t (codes "\n[Peer]\nPublicKey = " ++ (key_string p.public_key ++ (10 ∷ rest)))
  pub preshared_key :
      (p.preshared_key ≡ zero_key)
      ⊎ HasLine rest (codes "PresharedKey = ") (key_string p.preshared_key)
  pub allowed_ips :
      (p.allowed_ips ≡ [])
      ⊎ HasLine rest (codes "AllowedIPs = ") (join (codes ", ") (map out.net_string p.allowed_ips))
  pub endpoint : Holds (λ a. HasLine rest (codes "Endpoint = ") (out.address_string a)) p.endpoint
  pub interval :
      (p.persistent_keepalive_interval ≡ pos 0)
      ⊎ HasLine rest
          (codes "PersistentKeepalive = ")
          (format_int (out.whole_seconds p.persistent_keepalive_interval))

-- Lines for the settings of `cfg` that a device does not have.
pub record HasNetwork (out : Printer) (cfg : Config) (t : Text) : Type 0 where
  pub addresses :
      (cfg.addresses ≡ [])
      ⊎ HasLine t (codes "Address = ") (join (codes ", ") (map out.net_string cfg.addresses))
  pub dns :
      (cfg.dns ≡ []) ⊎ HasLine t (codes "DNS = ") (join (codes ", ") (map out.ip_string cfg.dns))
  pub mtu : (is_positive cfg.mtu ≡ false) ⊎ HasLine t (codes "MTU = ") (format_int cfg.mtu)
  pub table : (cfg.table ≡ []) ⊎ HasLine t (codes "Table = ") cfg.table
  pub pre_up : All (HasLine t (codes "PreUp = ")) cfg.pre_up
  pub post_up : All (HasLine t (codes "PostUp = ")) cfg.post_up
  pub pre_down : All (HasLine t (codes "PreDown = ")) cfg.pre_down
  pub post_down : All (HasLine t (codes "PostDown = ")) cfg.post_down
  pub save_config : (cfg.save_config ≡ false) ⊎ HasLine t (codes "SaveConfig = ") (codes "true")

-- Lines for what the device has, and for the other settings of `cfg`.
pub record HasSettings (out : Printer) (cfg : Config) (dev : Device) (t : Text) : Type 0 where
  pub private_key :
      (dev.has_private_key ≡ false) ⊎ HasLine t (codes "PrivateKey = ") (key_string dev.private_key)
  pub listen_port :
      (dev.listen_port ≡ pos 0) ⊎ HasLine t (codes "ListenPort = ") (format_int dev.listen_port)
  pub firewall_mark :
      (dev.firewall_mark ≡ pos 0) ⊎ HasLine t (codes "FwMark = ") (format_int dev.firewall_mark)
  pub network : HasNetwork out cfg t
  pub peers : All (HasPeer out t) dev.peers

suc_ne : (n : ℕ) → (suc n == 0) ≡ false
suc_ne n = ground arith

keepalive_seconds :
    (out : Printer) (n : ℕ)
    → keepalive_text out (pos (suc n)) ≡ format_int (out.whole_seconds (pos (suc n)))
keepalive_seconds out n = rw (suc_ne n) refl

whole : (t : Text) → Contains t t
whole t = ([], [], sym (append-nil t))

module _ {t : Text} where
  left : (a b : Text) → Contains t (a ++ b) → Contains t a
  left a b (x, y, e) = (x, b ++ y, e ∙ ap (λ z. x ++ z) (append_assoc a b y))

  right : (a b : Text) → Contains t (a ++ b) → Contains t b
  right a b (x, y, e) =
      (x ++ a, y, e ∙ (ap (λ z. x ++ z) (append_assoc a b y) ∙ sym (append_assoc x a (b ++ y))))

  given_list {ℓ} :
      {A : Type ℓ} (xs : List A) (label value : Text)
      → Contains t (line_if (not (is_empty xs)) label value)
      → (xs ≡ []) ⊎ HasLine t label value
  given_list [] label value h = inl refl
  given_list (x ∷ xs) label value h = inr h

  given_if :
      (c : Bool) (label value : Text)
      → Contains t (line_if c label value)
      → (c ≡ false) ⊎ HasLine t label value
  given_if false label value h = inl refl
  given_if true label value h = inr h

  given_option {ℓ} :
      {A : Type ℓ} (label : Text) (show : A → Text) (o : Option A)
      → Contains t (line_of label show o)
      → Holds (λ a. HasLine t label (show a)) o
  given_option label show none h = tt
  given_option label show (some a) h = h

  given_key :
      (c : Bool) (label : Text) (key : Key)
      → Contains t (line_of label key_string (if c then some key else none))
      → (c ≡ false) ⊎ HasLine t label (key_string key)
  given_key false label key h = inl refl
  given_key true label key h = inr h

  given_number :
      (label : Text) (n : ℤ)
      → Contains t (line_of label format_int (unless_zero n))
      → (n ≡ pos 0) ⊎ HasLine t label (format_int n)
  given_number label (pos zero) h = inl refl
  given_number label (pos (suc n)) h = inr (rw (suc_ne n) at h)
  given_number label (negsuc n) h = inr h

  given_interval :
      (out : Printer) (label : Text) (d : Duration)
      → Contains t (line_of label (keepalive_text out) (unless_zero d))
      → (d ≡ pos 0) ⊎ HasLine t label (format_int (out.whole_seconds d))
  given_interval out label (pos zero) h = inl refl
  given_interval out label (pos (suc n)) h =
      inr (subst (HasLine t label) (keepalive_seconds out n) (rw (suc_ne n) at h))
  given_interval out label (negsuc n) h = inr h

  given_preshared :
      (label : Text) (key : Key)
      → Contains t (line_of label key_string (if not (equal key zero_key) then some key else none))
      → (key ≡ zero_key) ⊎ HasLine t label (key_string key)
  given_preshared label key h = elim (Bool-cases (equal key zero_key)) [
    | inl e ↦ inl ((equal_iff key zero_key).0 e)
    | inr e ↦ inr (rw e at h)
  ]

  given_hooks :
      (label : Text) (hooks : List Text)
      → Contains t (concat_map (λ hook. label ++ (hook ++ 10 ∷ [])) hooks)
      → All (HasLine t label) hooks
  given_hooks label [] h = tt
  given_hooks label (x ∷ xs) h = (
    left (label ++ (x ++ 10 ∷ [])) _ h,
    given_hooks label xs (right (label ++ (x ++ 10 ∷ [])) _ h),
  )

-- The line of a key, with what stands behind it.
one_line :
    (key rest : Text)
    → codes "\n[Peer]\n" ++ ((codes "PublicKey = " ++ (key ++ 10 ∷ [])) ++ rest)
      ≡ codes "\n[Peer]\nPublicKey = " ++ (key ++ (10 ∷ rest))
one_line key rest = ap (λ z. codes "\n[Peer]\nPublicKey = " ++ z) (append_assoc key (10 ∷ []) rest)

write_peer-HasPeer :
    (out : Printer) (t : Text) (p : Peer)
    → Contains t (write_peer out (peer_from_device p))
    → HasPeer out t p
unfolding write_peer write_ip_net_list
write_peer-HasPeer out t p h =
    let preshared =
      line_of (codes "PresharedKey = ") key_string (peer_from_device p).preshared_key in
    let ips =
      line_if (not (is_empty p.allowed_ips)) (codes "AllowedIPs = ")
        (join (codes ", ") (map out.net_string p.allowed_ips)) in
    let endpoint = line_of (codes "Endpoint = ") out.address_string p.endpoint in
    let interval =
      line_of (codes "PersistentKeepalive = ") (keepalive_text out)
        (unless_zero p.persistent_keepalive_interval) in
    let rest = preshared ++ (ips ++ (endpoint ++ interval)) in
    let all = whole rest in
    let behind_key = right preshared (ips ++ (endpoint ++ interval)) all in
    let behind_ips = right ips (endpoint ++ interval) behind_key in
    record {
      rest = rest;
      public_key = subst (Contains t) (one_line (key_string p.public_key) rest) h;
      preshared_key =
          given_preshared (codes "PresharedKey = ") p.preshared_key
            (left preshared (ips ++ (endpoint ++ interval)) all);
      allowed_ips =
          given_list p.allowed_ips (codes "AllowedIPs = ")
            (join (codes ", ") (map out.net_string p.allowed_ips))
            (left ips (endpoint ++ interval) behind_key);
      endpoint =
          given_option (codes "Endpoint = ") out.address_string p.endpoint
            (left endpoint interval behind_ips);
      interval =
          given_interval out (codes "PersistentKeepalive = ") p.persistent_keepalive_interval
            (right endpoint interval behind_ips);
    }

write_peers-HasPeer :
    (out : Printer) (t : Text) (ps : List Peer)
    → Contains t (concat_map (write_peer out) (map peer_from_device ps))
    → All (HasPeer out t) ps
write_peers-HasPeer out t [] h = tt
write_peers-HasPeer out t (p ∷ ps) h =
    let first = write_peer out (peer_from_device p) in
    let rest = concat_map (write_peer out) (map peer_from_device ps) in
    (
      write_peer-HasPeer out t p (left first rest h),
      write_peers-HasPeer out t ps (right first rest h),
    )

module _ (out : Printer) (cfg : Config) {t : Text} where
  write_network-HasNetwork : Contains t (write_network out cfg) → HasNetwork out cfg t
  unfolding write_network write_ip_net_list
  write_network-HasNetwork in_network =
      let ips = join (codes ", ") (map out.net_string cfg.addresses) in
      let address = line_if (not (is_empty cfg.addresses)) (codes "Address = ") ips in
      let servers = join (codes ", ") (map out.ip_string cfg.dns) in
      let dns = line_if (not (is_empty cfg.dns)) (codes "DNS = ") servers in
      let mtu = line_if (is_positive cfg.mtu) (codes "MTU = ") (format_int cfg.mtu) in
      let table = line_if (not (is_empty cfg.table)) (codes "Table = ") cfg.table in
      let pre_up = concat_map (line (codes "PreUp = ")) cfg.pre_up in
      let post_up = concat_map (line (codes "PostUp = ")) cfg.post_up in
      let pre_down = concat_map (line (codes "PreDown = ")) cfg.pre_down in
      let post_down = concat_map (line (codes "PostDown = ")) cfg.post_down in
      let saves = line_if cfg.save_config (codes "SaveConfig = ") (codes "true") in
      let r1 = post_down ++ saves in
      let r2 = pre_down ++ r1 in
      let r3 = post_up ++ r2 in
      let r4 = pre_up ++ r3 in
      let r5 = table ++ r4 in
      let r6 = mtu ++ r5 in
      let r7 = dns ++ r6 in
      let in_r7 = right address r7 in_network in
      let in_r6 = right dns r6 in_r7 in
      let in_r5 = right mtu r5 in_r6 in
      let in_r4 = right table r4 in_r5 in
      let in_r3 = right pre_up r3 in_r4 in
      let in_r2 = right post_up r2 in_r3 in
      let in_r1 = right pre_down r1 in_r2 in
      record {
        addresses = given_list cfg.addresses (codes "Address = ") ips (left address r7 in_network);
        dns = given_list cfg.dns (codes "DNS = ") servers (left dns r6 in_r7);
        mtu =
            given_if (is_positive cfg.mtu) (codes "MTU = ") (format_int cfg.mtu)
              (left mtu r5 in_r6);
        table = given_list cfg.table (codes "Table = ") cfg.table (left table r4 in_r5);
        pre_up = given_hooks (codes "PreUp = ") cfg.pre_up (left pre_up r3 in_r4);
        post_up = given_hooks (codes "PostUp = ") cfg.post_up (left post_up r2 in_r3);
        pre_down = given_hooks (codes "PreDown = ") cfg.pre_down (left pre_down r1 in_r2);
        post_down = given_hooks (codes "PostDown = ") cfg.post_down (left post_down saves in_r1);
        save_config =
            given_if cfg.save_config (codes "SaveConfig = ") (codes "true")
              (right post_down saves in_r1);
      }

module _ (out : Printer) (cfg : Config) (name : Text) (dev : Device) where
  -- What `Encode` writes for the configuration of a device under another name.
  abbrev named : Config
  named = record cfg { name = name }

  pub encode-HasSettings : HasSettings out cfg dev (encode out (apply_device named dev))
  unfolding encode write_interface_crypto apply_device
  encode-HasSettings =
      let c = apply_device named dev in
      let key = line_of (codes "PrivateKey = ") key_string c.private_key in
      let port = line_of (codes "ListenPort = ") format_int c.listen_port in
      let mark = line_of (codes "FwMark = ") format_int c.firewall_mark in
      let crypto = key ++ (port ++ mark) in
      let network = write_network out c in
      let peers = concat_map (write_peer out) (map peer_from_device dev.peers) in
      let behind =
        right (codes "[Interface]\n") (crypto ++ (network ++ peers)) (whole (encode out c)) in
      let in_crypto = left crypto (network ++ peers) behind in
      let in_port = right key (port ++ mark) in_crypto in
      let last = right crypto (network ++ peers) behind in
      let w = write_network-HasNetwork out c (left network peers last) in
      record {
        private_key =
            given_key dev.has_private_key (codes "PrivateKey = ") dev.private_key
              (left key (port ++ mark) in_crypto);
        listen_port = given_number (codes "ListenPort = ") dev.listen_port (left port mark in_port);
        firewall_mark =
            given_number (codes "FwMark = ") dev.firewall_mark (right port mark in_port);
        network = record {
          addresses = w.addresses;
          dns = w.dns;
          mtu = w.mtu;
          table = w.table;
          pre_up = w.pre_up;
          post_up = w.post_up;
          pre_down = w.pre_down;
          post_down = w.post_down;
          save_config = w.save_config;
        };
        peers = write_peers-HasPeer out (encode out c) dev.peers (right network peers last);
      }
