-- ===== src/Emu/Interp.antt =====
-- src/emu/interp.h: the integer and atomic instructions.
pub mod Word
pub mod Ops
pub mod Exec
pub mod Inv
pub mod Jumps
pub mod Words
pub mod Tests
