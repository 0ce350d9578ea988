-- ===== src/Wgconfig/Steps.antt =====
-- Each line that `Parse` reads keeps its state valid.
use wgctrl_go.Base.{
  ℕ, suc, ◌-◌, ◌*◌, ◌^◌, ◌≤◌, Bool, true, false, not, List, [], ◌∷◌, ◌++◌, Option, none, some, Text,
  codes, equal, is_empty, length, length-append, if_either, ◌≡◌, refl, sym, ◌∙◌, All-append, arith,
  inl, inr, subst,
}
use wgctrl_go.Base.Int.{pos}
use wgctrl_go.Base.Result.{ok, Result-cases}
use wgctrl_go.Std.Strings.{cut, to_lower}
use wgctrl_go.Types.{Key, UdpAddr, second}
use wgctrl_go.Types.Keys.{IsKey}
use wgctrl_go.Wgconfig.Net.{Net}
use wgctrl_go.Wgconfig.Fields.{peer_name_comment, clean_line, parse_key, parse_allowed_ips}
use wgctrl_go.Wgconfig.Entries.{parse_allowed_ips-IsHarmless}
use wgctrl_go.Wgconfig.Ranges.{
  Holds, IsUpTo, HasPorts, parse_number_le, parse_uint_or_off_le, parse_fwmark_le, parse_key-IsKey,
  resolve_endpoint-port,
}
use wgctrl_go.Wgconfig.Parse.{
  State, Section, interface_section, peer_section, no_section, new_peer, enter_section,
  section_name, read_peer_name, interface_field, peer_field, read_field, read_assignment,
  read_clean_line, read_raw_line, with_public_key, update_last, read_line, read_lines,
}
use wgctrl_go.Wgconfig.States.{
  IsName, IsPeer, IsState, length-update_last, new_peer-IsPeer, with_value-Kept, with_address-Kept,
  HasFlag, HasFlag-length, Kept, with_entries-Kept, valid_name-Holds, change_peer-IsState,
}

module _ (append_mode : Bool) where
  abbrev Fit : State → Type 0
  Fit = IsState append_mode

  enter_section-IsState : (name : Text) (s : State) → Fit s → Kept Fit (enter_section name s)
  unfolding enter_section
  enter_section-IsState name s w =
      if_either (Kept Fit) (equal name (codes "interface"))
        (record { cfg = w.cfg; flags = w.flags; section = tt })
        (if_either (Kept Fit) (equal name (codes "peer"))
          (record {
            cfg = record {
              private_key = w.cfg.private_key;
              listen_port = w.cfg.listen_port;
              firewall_mark = w.cfg.firewall_mark;
              replace_peers = w.cfg.replace_peers;
              peers =
                  All-append IsPeer s.cfg.peers (new_peer ∷ []) w.cfg.peers (new_peer-IsPeer, tt);
            };
            flags = omega (
              arith,
              w.flags,
              length-append s.peer_has_public_key (false ∷ []),
              length-append s.cfg.peers (new_peer ∷ []),
            );
            section = omega (arith, length-append s.peer_has_public_key (false ∷ []));
          })
          refl)

  read_peer_name-IsState :
      (net : Net) (section : Section) (encoded : Text) (s : State)
      → Fit s
      → Kept Fit (read_peer_name net section encoded s)
  unfolding read_peer_name
  read_peer_name-IsState net no_section encoded s w = refl
  read_peer_name-IsState net interface_section encoded s w = refl
  read_peer_name-IsState net peer_section encoded s w = if_either (Kept Fit) s.peer_has_name refl (
      with_value-Kept IsName Fit _ _ _ refl (valid_name-Holds (net.unquote encoded)) (λ name valid.
        let next =
          change_peer-IsState append_mode (λ p. record p { name = some name }) s
            (λ p h. record {
              public_key = h.public_key;
              preshared_key = h.preshared_key;
              endpoint = h.endpoint;
              interval = h.interval;
              name = valid;
              set_only = h.set_only;
            })
            w in
        record { cfg = next.cfg; flags = next.flags; section = next.section }))

  interface_field-IsState :
      (key value : Text) (s : State) → Fit s → Kept Fit (interface_field key value s)
  unfolding interface_field
  interface_field-IsState key value s w =
      if_either (Kept Fit) (equal key (codes "privatekey"))
        (with_value-Kept IsKey Fit _ _ _ refl (parse_key-IsKey value) (λ v h. record {
          cfg = record {
            private_key = h;
            listen_port = w.cfg.listen_port;
            firewall_mark = w.cfg.firewall_mark;
            replace_peers = w.cfg.replace_peers;
            peers = w.cfg.peers;
          };
          flags = w.flags;
          section = w.section;
        }))
        (if_either (Kept Fit) (equal key (codes "listenport"))
          (with_value-Kept (λ v. v ≤ 65535) Fit _ _ _ refl (parse_number_le 65535 value)
            (λ v h. record {
              cfg = record {
                private_key = w.cfg.private_key;
                listen_port = (v, refl, h);
                firewall_mark = w.cfg.firewall_mark;
                replace_peers = w.cfg.replace_peers;
                peers = w.cfg.peers;
              };
              flags = w.flags;
              section = w.section;
            }))
          (if_either (Kept Fit) (equal key (codes "fwmark"))
            (with_value-Kept (λ v. v ≤ 2 ^ 32 - 1) Fit _ _ _ refl (parse_fwmark_le value)
              (λ v h. record {
                cfg = record {
                  private_key = w.cfg.private_key;
                  listen_port = w.cfg.listen_port;
                  firewall_mark = (v, refl, h);
                  replace_peers = w.cfg.replace_peers;
                  peers = w.cfg.peers;
                };
                flags = w.flags;
                section = w.section;
              }))
            refl))

  -- The flags of a longer list than none.
  flagged : (has : List Bool) → 1 ≤ length has → is_empty has ≡ false
  flagged [] h = absurd (omega (arith, h))
  flagged (b ∷ has) h = refl

  with_public_key-IsState :
      (o : Option Key) (s : State)
      → Holds IsKey o
      → 1 ≤ length s.peer_has_public_key
      → Fit s
      → Kept Fit (with_public_key o s)
  unfolding with_public_key
  with_public_key-IsState none s h flag w = refl
  with_public_key-IsState (some v) s h flag w =
      let next =
        change_peer-IsState append_mode (λ p. record p { public_key = v }) s
          (λ p i. record {
            public_key = h;
            preshared_key = i.preshared_key;
            endpoint = i.endpoint;
            interval = i.interval;
            name = i.name;
            set_only = i.set_only;
          })
          w in
      let same = length-update_last (λ (_ : Bool). true) s.peer_has_public_key in
      rw (flagged s.peer_has_public_key flag) (record {
        cfg = next.cfg;
        flags =
            same
            ∙ w.flags
            ∙ sym (length-update_last (λ p. record p { public_key = v }) s.cfg.peers);
        section =
            HasFlag-length s.section s.peer_has_public_key
              (update_last (λ _. true) s.peer_has_public_key) same w.section;
      })

  peer_field-IsState :
      (net : Net) (key value : Text) (s : State)
      → HasPorts net
      → 1 ≤ length s.peer_has_public_key
      → Fit s
      → Kept Fit (peer_field net key value s)
  unfolding peer_field
  peer_field-IsState net key value s ports flag w =
      if_either (Kept Fit) (equal key (codes "publickey"))
        (with_public_key-IsState (parse_key value) s (parse_key-IsKey value) flag w)
        (if_either (Kept Fit) (equal key (codes "presharedkey"))
          (with_value-Kept IsKey Fit _ _ _ refl (parse_key-IsKey value) (λ v h.
            change_peer-IsState append_mode (λ p. record p { preshared_key = some v }) s
              (λ p i. record {
                public_key = i.public_key;
                preshared_key = h;
                endpoint = i.endpoint;
                interval = i.interval;
                name = i.name;
                set_only = i.set_only;
              })
              w))
          (if_either (Kept Fit) (equal key (codes "endpoint"))
            (with_address-Kept (λ (a : UdpAddr). IsUpTo 65535 a.port) Fit _ _
              (resolve_endpoint-port net value ports)
              (λ v h.
                change_peer-IsState append_mode (λ p. record p { endpoint = some v }) s
                  (λ p i. record {
                    public_key = i.public_key;
                    preshared_key = i.preshared_key;
                    endpoint = h;
                    interval = i.interval;
                    name = i.name;
                    set_only = i.set_only;
                  })
                  w))
            (if_either (Kept Fit) (equal key (codes "allowedips"))
              (with_entries-Kept Fit (parse_allowed_ips net value) _
                (parse_allowed_ips-IsHarmless net value)
                (λ v.
                  change_peer-IsState append_mode
                    (λ p. record p {
                      replace_allowed_ips = not v.1;
                      allowed_ip_operations = p.allowed_ip_operations ++ v.0;
                    })
                    s
                    (λ p i. record {
                      public_key = i.public_key;
                      preshared_key = i.preshared_key;
                      endpoint = i.endpoint;
                      interval = i.interval;
                      name = i.name;
                      set_only = i.set_only;
                    })
                    w))
              (if_either (Kept Fit) (equal key (codes "persistentkeepalive"))
                (with_value-Kept (λ v. v ≤ 65535) Fit _ _ _ refl (parse_uint_or_off_le 65535 value)
                  (λ v h.
                    change_peer-IsState append_mode
                      (λ p. record p { persistent_keepalive_interval = some (pos (v * second)) }) s
                      (λ p i. record {
                        public_key = i.public_key;
                        preshared_key = i.preshared_key;
                        endpoint = i.endpoint;
                        interval = (v, refl, h);
                        name = i.name;
                        set_only = i.set_only;
                      })
                      w))
                refl))))

  read_field-IsState :
      (net : Net) (section : Section) (key value : Text) (s : State)
      → HasPorts net
      → HasFlag section s.peer_has_public_key
      → Fit s
      → Kept Fit (read_field net section key value s)
  unfolding read_field
  read_field-IsState net no_section key value s ports flag w = refl
  read_field-IsState net interface_section key value s ports flag w =
      interface_field-IsState key value s w
  read_field-IsState net peer_section key value s ports flag w =
      peer_field-IsState net key value s ports flag w

  module _ (net : Net) (ports : HasPorts net) where
    read_assignment-IsState :
        (o : Option (Text × Text)) (s : State) → Fit s → Kept Fit (read_assignment net o s)
    read_assignment-IsState none s w = refl
    read_assignment-IsState (some (key, value)) s w =
        read_field-IsState net s.section (to_lower key) value s ports w.section w

    read_clean_line-IsState :
        (o : Option Text) (line : Text) (s : State)
        → Fit s
        → Kept Fit (read_clean_line net o line s)
    read_clean_line-IsState (some name) line s w = enter_section-IsState (to_lower name) s w
    read_clean_line-IsState none line s w = read_assignment-IsState (cut b'=' line) s w

    read_raw_line-IsState :
        (o : Option Text) (line : Text) (s : State) → Fit s → Kept Fit (read_raw_line net o line s)
    read_raw_line-IsState (some encoded) line s w = read_peer_name-IsState net s.section encoded s w
    read_raw_line-IsState none line s w =
        if_either (Kept Fit) (is_empty line) w
          (read_clean_line-IsState (section_name line) line s w)

    pub read_line-IsState : (l : Text) (s : State) → Fit s → Kept Fit (read_line net l s)
    unfolding read_line
    read_line-IsState l s w = read_raw_line-IsState (peer_name_comment l) (clean_line l) s w

    pub read_lines-IsState :
        (n : ℕ) (ls : List Text) (s : State) {s' : State}
        → Fit s
        → read_lines net n ls s ≡ ok s'
        → Fit s'
    unfolding read_lines
    read_lines-IsState n [] s w e = subst Fit (cc) w
    read_lines-IsState n (l ∷ ls) s w e = elim (Result-cases (read_line net l s)) [
      | inl (t, r) ↦
          read_lines-IsState (suc n) ls t (subst (Kept Fit) r (read_line-IsState l s w))
            (rw (r, read_lines) at e)
      | inr (x, r) ↦ cc (rw (r, read_lines) at e)
    ]
