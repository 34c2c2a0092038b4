-- ===== src/Transfer.antt =====
-- The transfer loops of src/unistd.c and src/pread_pwrite_ba.c: `pread`, `read`, `pwrite` and
-- `write` until a buffer is done, with a mode that says what an error does.
pub mod Loop
pub mod Errors
pub mod Input
pub mod Output
pub mod Unistd
pub mod Bigarray
pub mod Reading
pub mod Single
pub mod Agreement
pub mod Writing
pub mod Device
mod Tests
