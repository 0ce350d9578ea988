-- ===== src/Wgapi.antt =====
-- internal/wgapi: devices over HTTP. `Json` has the bodies, `Server` the handlers of the requests and
-- their authentication, and `Logging` what is read and recorded around them.
pub mod Json
pub mod Intervals
pub mod Values
pub mod Server
pub mod Handlers
pub mod Logging
pub mod Recorded
pub mod Auth
pub mod ReadOnly
pub mod Hidden
pub mod Applied
mod Tests
