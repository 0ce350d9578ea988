-- ===== src/Wgconfig.antt =====
-- internal/wgconfig: configurations of wg(8). `Fields` reads single values, `Endpoint` the address
-- of a peer with its retries, and `Parse` goes through the lines of a file.
pub mod Net
pub mod Fields
pub mod Endpoint
pub mod Parse
pub mod Ranges
pub mod Entries
pub mod States
pub mod Steps
pub mod Valid
pub mod Comments
pub mod Lines
pub mod Retries
pub mod Encode
pub mod Names
pub mod Tests
