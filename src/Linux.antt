-- ===== src/Linux.antt =====
-- internal/wglinux: the netlink back end. `Batch` splits large configurations, `Merge` joins the
-- messages of a device dump.
pub mod Attrs
pub mod Batch
pub mod Merge
