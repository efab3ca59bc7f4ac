-- ===== src/Fec.antt =====
-- The forward error correction of include/fec.h and src/fec.c.
pub mod Gf
pub mod Rs
pub mod Length
pub mod Interleave
pub mod Frame
pub mod Crc
mod Tests
