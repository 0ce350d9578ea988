-- ===== src/Wg.antt =====
-- cmd/wg: the list of the interfaces, over the client that the command opens.
pub mod List
pub mod Order
mod Tests
