-- ===== src/Emu/Bus.antt =====
-- src/emu/mmu-memory.h: `memory_bus`, the interface of the memories and devices.
use rv8_riscv_ckpt.Base.{ℕ, Bool, Option}

-- Loads and stores of a number of bytes at a machine physical address, in a state `M` of the
-- memory. A load that fails gives `none`, and a store that fails `false`.
pub record Bus (M : Type 0) : Type 0 where
  pub load : ℕ → ℕ → M → Option ℕ × M
  pub store : ℕ → ℕ → ℕ → M → Bool × M
