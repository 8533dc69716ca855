-- ===== src/Emu.antt =====
-- The emulated machine: src/emu.
pub mod Pma
pub mod Pte
pub mod Bus
pub mod Amo
pub mod Tlb
pub mod Mmu
pub mod Plic
pub mod Hart
pub mod Priv
pub mod RunLoop
pub mod Interp
pub mod Tests
