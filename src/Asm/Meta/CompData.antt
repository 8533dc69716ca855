-- ===== src/Asm/Meta/CompData.antt =====
-- src/asm/meta.h: `struct rv_comp_data`.
use rv8_riscv_ckpt.Base.{ℕ, List}
use rv8_riscv_ckpt.Asm.Constraints.{Constraint}

pub record CompData : Type 0 where
  pub op : ℕ
  pub constraints : List Constraint

abbrev pub comp : ℕ → List Constraint → CompData
comp op constraints = record { op = op; constraints = constraints }
