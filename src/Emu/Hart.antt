-- ===== src/Emu/Hart.antt =====
-- src/emu/processor-base.h: the registers that instructions change.
use rv8_riscv_ckpt.Base.{ℕ, ◌%◌, ◌^◌, ◌==◌, if◌then◌else◌, List, get_or, set, replicate}

-- A processor over the memory `U` of its `mmu`. Every register is a bit pattern of `ux`.
pub record Hart (U : Type 0) : Type 0 where
  pub pc : ℕ
  pub ireg : List ℕ
  pub lr : ℕ
  pub mmu : U

abbrev pub ireg_count : ℕ
ireg_count = 32

-- `processor_base()`.
abbrev pub new_hart : {U : Type 0} → U → Hart U
new_hart mmu = record { pc = 0; ireg = replicate ireg_count 0; lr = 0; mmu = mmu }

-- `proc.ireg[i]`.
abbrev pub reg : {U : Type 0} → Hart U → ℕ → ℕ
reg h i = get_or h.ireg i 0

-- `proc.ireg[rd] = (rd == 0) ? 0 : val`, for registers of `w` bits.
unfoldable pub set_reg : {U : Type 0} → ℕ → ℕ → ℕ → Hart U → Hart U
set_reg w rd val h = record h { ireg = set h.ireg rd (if rd == 0 then 0 else val % 2 ^ w) }
