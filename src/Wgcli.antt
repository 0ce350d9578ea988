-- ===== src/Wgcli.antt =====
-- internal/wgcli/format.go: a device as wg(8) shows it. `Durations` has the texts of durations and
-- byte counts, `Show` the output of `wg show` for a device, `Fields` that for a single field.
pub mod Durations
pub mod Show
pub mod Fields
pub mod Shown
mod Tests
