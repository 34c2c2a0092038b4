-- ===== src/Calls.antt =====
-- The stubs that make one call, or a few, and hand the error on: src/unistd.c and the small files.
pub mod Process
pub mod Files
pub mod Memory
pub mod Terminal
pub mod Info
pub mod Protocol
mod Tests
