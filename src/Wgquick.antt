-- ===== src/Wgquick.antt =====
-- internal/wgquick: configurations of wg-quick(8), and the interfaces that they bring up. `Config`
-- has the data, `Parse` reads the fields of a file and `Lines` its lines, `Encode` writes one, and
-- `Save` keeps the state of a device in its file. `Commands` has the commands of quick_linux.go and
-- `Run` the functions `Up` and `Down` that run them; `Pending` and `Plan` say what a log of them means.
pub mod Config
pub mod Parse
pub mod Lines
pub mod Values
pub mod Valid
pub mod Encode
pub mod Save
pub mod Stored
pub mod Settings
pub mod Saved
pub mod Commands
pub mod Run
pub mod Pending
pub mod Kept
pub mod Owned
pub mod Undone
pub mod Plan
pub mod Planned
pub mod Clearable
pub mod Cleared
mod Tests
