-- ===== src/Asm/RoundTrip/Forms.antt =====
-- src/asm: what each compressed form of RV64 accepts, its encoding can hold.
pub mod Survives
pub mod Integer
pub mod Memory
pub mod Source
