-- ===== src/Linux/Attrs.antt =====
-- `encodeAllowedIPs` of internal/wglinux/configure_linux.go: the entries of a peer, in the order in
-- which they are written to the netlink array.
use wgctrl_go.Base.{List, ◌++◌, map}
use wgctrl_go.Types.{IpNet, AllowedIpConfig, allowed_ip_add}

abbrev pub add_entry : IpNet → AllowedIpConfig
add_entry ipn = record { ip_net = ipn; operation = allowed_ip_add }

-- `all`
unfoldable pub all_entries : List IpNet → List AllowedIpConfig → List AllowedIpConfig
all_entries ipns operations = map add_entry ipns ++ operations
