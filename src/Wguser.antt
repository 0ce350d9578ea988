-- ===== src/Wguser.antt =====
-- internal/wguser: the text protocol of userspace devices. `Parse` reads the answer to "get=1".
pub mod Parse
pub mod Sticky
pub mod Whole
pub mod Configure
pub mod Client
pub mod Tests
