-- ===== src/Asm/Assert.antt =====
-- `assert` of <cassert>, in a function that returns an instruction word.
use rv8_riscv_ckpt.Base.{ℕ, Bool, Option, none, if◌then◌else◌}

-- `assert(b)` before a `return`: a failed assertion stops the program.
abbrev pub require : Bool → Option ℕ → Option ℕ
require b r = if b then r else none
