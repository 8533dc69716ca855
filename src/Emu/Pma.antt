-- ===== src/Emu/Pma.antt =====
-- src/emu/pma.h: the page size, the register widths of the processors, and the table of physical
-- memory attributes.
use rv8_riscv_ckpt.Base.{ℕ}

abbrev pub page_shift : ℕ
page_shift = 12

-- `param_rv32` and `param_rv64`: `ux_bits` is the width of `UX`.
pub record Param : Type 0 where
  pub ux_bits : ℕ
  pub asid_bits : ℕ
  pub ppn_bits : ℕ

abbrev pub param_rv32 : Param
param_rv32 = record { ux_bits = 32; asid_bits = 10; ppn_bits = 22 }

abbrev pub param_rv64 : Param
param_rv64 = record { ux_bits = 64; asid_bits = 26; ppn_bits = 38 }
