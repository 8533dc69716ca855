-- ===== src/Emu/Interp/Exec.antt =====
-- src/emu/interp.h: `exec_inst_rv32` and `exec_inst_rv64`, of the integer and atomic instructions.
use rv8_riscv_ckpt.Base.{
  ℕ, ◌+◌, ◌-◌, ◌*◌, ◌/◌, ◌%◌, ◌^◌, Bool, true, false, not, ltb, leb, ◌==◌, if◌then◌else◌, bit_and,
  bit_or, bit_xor, Option, none, some,
}
use rv8_riscv_ckpt.Asm.Inst.{Decode}
use rv8_riscv_ckpt.Asm.Alu as Alu
use rv8_riscv_ckpt.Emu.Amo.{AmoOp}
use rv8_riscv_ckpt.Emu.Mmu.{Outcome}
use rv8_riscv_ckpt.Emu.Hart.{Hart, reg, set_reg}
use rv8_riscv_ckpt.Emu.Interp.Word.{sext, less, minus, shift_right, test}
use rv8_riscv_ckpt.Emu.Interp.Ops.{
  BranchOp, LoadOp, StoreOp, ImmOp, ShiftOp, RegOp, WordOp, MulOp, MulWordOp, Size, Op, int_op,
}

-- `proc.mmu`: `load<T>`, `store<T>` and `amo<T>` of a number of bytes at an address.
pub record MmuOps (U : Type 0) : Type 0 where
  pub load : ℕ → ℕ → U → Outcome ℕ × U
  pub store : ℕ → ℕ → ℕ → U → Outcome Unit × U
  pub amo : ℕ → AmoOp → ℕ → ℕ → U → Outcome ℕ × U

-- `sx(dec.imm)`.
abbrev pub imm_of : ℕ → Decode → ℕ
imm_of w dec = sext 32 w dec.imm

unfoldable pub branch_taken : ℕ → BranchOp → ℕ → ℕ → Bool
branch_taken w BranchOp.beq x y = x == y
branch_taken w BranchOp.bne x y = not (x == y)
branch_taken w BranchOp.blt x y = less w x y
branch_taken w BranchOp.bge x y = not (less w x y)
branch_taken w BranchOp.bltu x y = ltb x y
branch_taken w BranchOp.bgeu x y = leb y x

-- The size of a load, and the conversion of its value to `sx`.
abbrev pub load_size : LoadOp → ℕ
load_size LoadOp.lb = 1
load_size LoadOp.lh = 2
load_size LoadOp.lw = 4
load_size LoadOp.lbu = 1
load_size LoadOp.lhu = 2
load_size LoadOp.lwu = 4
load_size LoadOp.ld = 8

abbrev pub load_value : ℕ → LoadOp → ℕ → ℕ
load_value w LoadOp.lb t = sext 8 w t
load_value w LoadOp.lh t = sext 16 w t
load_value w LoadOp.lw t = sext 32 w t
load_value w LoadOp.lbu t = t
load_value w LoadOp.lhu t = t
load_value w LoadOp.lwu t = t
load_value w LoadOp.ld t = t

abbrev pub store_size : StoreOp → ℕ
store_size StoreOp.sb = 1
store_size StoreOp.sh = 2
store_size StoreOp.sw = 4
store_size StoreOp.sd = 8

unfoldable pub imm_result : ℕ → ImmOp → ℕ → ℕ → ℕ
imm_result w ImmOp.addi x i = x + i
imm_result w ImmOp.slti x i = test (less w x i)
imm_result w ImmOp.sltiu x i = test (ltb x i)
imm_result w ImmOp.xori x i = bit_xor x i
imm_result w ImmOp.ori x i = bit_or x i
imm_result w ImmOp.andi x i = bit_and x i

-- `shift_count` is what the host makes of the count of a shift of a number of `w` bits, which C++
-- leaves undefined from `w` on.
module _ (shift_count : ℕ → ℕ → ℕ) where
  unfoldable pub shift_result : ℕ → ShiftOp → ℕ → ℕ → ℕ
  shift_result w ShiftOp.slli x k = x * 2 ^ shift_count w k
  shift_result w ShiftOp.srli x k = x / 2 ^ shift_count w k
  shift_result w ShiftOp.srai x k = shift_right w x (shift_count w k)

  unfoldable pub reg_result : ℕ → RegOp → ℕ → ℕ → ℕ
  reg_result w RegOp.add x y = x + y
  reg_result w RegOp.sub x y = minus w x y
  reg_result w RegOp.sll x y = x * 2 ^ shift_count w (bit_and y 127)
  reg_result w RegOp.slt x y = test (less w x y)
  reg_result w RegOp.sltu x y = test (ltb x y)
  reg_result w RegOp.xor x y = bit_xor x y
  reg_result w RegOp.srl x y = x / 2 ^ shift_count w (bit_and y 127)
  reg_result w RegOp.sra x y = shift_right w x (shift_count w (bit_and y 127))
  reg_result w RegOp.or x y = bit_or x y
  reg_result w RegOp.and x y = bit_and x y

  -- The value before its conversion from `s32`, from the low words of the operands.
  unfoldable pub word_result : WordOp → ℕ → ℕ → ℕ → ℕ
  word_result WordOp.addiw x y i = (x + i) % 2 ^ 32
  word_result WordOp.slliw x y i = x * 2 ^ shift_count 32 i % 2 ^ 32
  word_result WordOp.srliw x y i = x / 2 ^ shift_count 32 i
  word_result WordOp.sraiw x y i = shift_right 32 x (shift_count 32 i)
  word_result WordOp.addw x y i = (x + y) % 2 ^ 32
  word_result WordOp.subw x y i = minus 32 x y
  word_result WordOp.sllw x y i = x * 2 ^ bit_and y 31 % 2 ^ 32
  word_result WordOp.srlw x y i = x / 2 ^ bit_and y 31
  word_result WordOp.sraw x y i = shift_right 32 x (bit_and y 31)

unfoldable pub mul_result : ℕ → MulOp → ℕ → ℕ → ℕ
mul_result w MulOp.mul x y = x * y
mul_result w MulOp.mulh x y = Alu.mulh (w / 2) x y
mul_result w MulOp.mulhsu x y = Alu.mulhsu (w / 2) x y
mul_result w MulOp.mulhu x y = Alu.mulhu (w / 2) x y
mul_result w MulOp.div x y = Alu.div w x y
mul_result w MulOp.divu x y = Alu.divu w x y
mul_result w MulOp.rem x y = Alu.rem w x y
mul_result w MulOp.remu x y = Alu.remu x y

-- The value before its conversion from `s32`, from the low words of the operands.
unfoldable pub mul_word_result : MulWordOp → ℕ → ℕ → ℕ
mul_word_result MulWordOp.mulw x y = x * y % 2 ^ 32
mul_word_result MulWordOp.divw x y = Alu.div 32 x y
mul_word_result MulWordOp.divuw x y = Alu.divu 32 x y
mul_word_result MulWordOp.remw x y = Alu.rem 32 x y
mul_word_result MulWordOp.remuw x y = Alu.remu x y

abbrev pub bytes_of : Size → ℕ
bytes_of Size.w = 4
bytes_of Size.d = 8

-- What an instruction leaves: the new offset of the program counter, or the exception that ends it.
abbrev pub Executed : Type 0 → Type 0
Executed U = Outcome ℕ × Hart U

module _ {U : Type 0} (shift_count : ℕ → ℕ → ℕ) (mem : MmuOps U) (undef w : ℕ) where
  -- An instruction that ends with a value for `rd`.
  abbrev pub result : Decode → ℕ → ℕ → Hart U → Executed U
  result dec val pc_offset h = (Outcome.done pc_offset, set_reg w dec.rd val h)

  -- After a load; `undef` is what the variable holds that a skipped load does not assign.
  abbrev pub after_load : Outcome ℕ × U → (ℕ → ℕ) → Decode → ℕ → Hart U → Executed U
  after_load (Outcome.done t, u) f dec pc_offset h =
      result dec (f t) pc_offset (record h { mmu = u })
  after_load (Outcome.raised cause va, u) f dec pc_offset h =
      (Outcome.raised cause va, record h { mmu = u })
  after_load (Outcome.skipped, u) f dec pc_offset h =
      result dec (f undef) pc_offset (record h { mmu = u })
  after_load (Outcome.lost, u) f dec pc_offset h = (Outcome.lost, record h { mmu = u })
  after_load (Outcome.panicked, u) f dec pc_offset h = (Outcome.panicked, record h { mmu = u })

  -- After a store, which may be skipped.
  abbrev pub after_store : Outcome Unit × U → (Hart U → Executed U) → Hart U → Executed U
  after_store (Outcome.done t, u) f h = f (record h { mmu = u })
  after_store (Outcome.raised cause va, u) f h = (Outcome.raised cause va, record h { mmu = u })
  after_store (Outcome.skipped, u) f h = f (record h { mmu = u })
  after_store (Outcome.lost, u) f h = (Outcome.lost, record h { mmu = u })
  after_store (Outcome.panicked, u) f h = (Outcome.panicked, record h { mmu = u })

  -- The cases that the interpreters of every register width have.
  unfoldable pub exec_op : Op → Decode → ℕ → Hart U → Executed U
  exec_op Op.lui dec pc_offset h = result dec (imm_of w dec) pc_offset h
  exec_op Op.auipc dec pc_offset h = result dec (h.pc + imm_of w dec) pc_offset h
  exec_op Op.jal dec pc_offset h = result dec (h.pc + pc_offset) (imm_of w dec) h
  exec_op Op.jalr dec pc_offset h =
      let new_offset = minus w ((reg h dec.rs1 + imm_of w dec) % 2 ^ w) h.pc in
      result dec (h.pc + pc_offset) (bit_and new_offset (2 ^ w - 2)) h
  exec_op (Op.branch op) dec pc_offset h = (
    Outcome.done
        (if branch_taken w op (reg h dec.rs1) (reg h dec.rs2) then imm_of w dec else pc_offset),
    h,
  )
  exec_op (Op.load op) dec pc_offset h =
      after_load (mem.load (load_size op) ((reg h dec.rs1 + imm_of w dec) % 2 ^ w) h.mmu)
        (load_value w op) dec pc_offset h
  exec_op (Op.store op) dec pc_offset h =
      after_store
        (mem.store (store_size op) ((reg h dec.rs1 + imm_of w dec) % 2 ^ w)
          (reg h dec.rs2 % 2 ^ (8 * store_size op)) h.mmu)
        (λ h'. (Outcome.done pc_offset, h')) h
  exec_op (Op.imm op) dec pc_offset h =
      result dec (imm_result w op (reg h dec.rs1) (imm_of w dec)) pc_offset h
  exec_op (Op.shift op) dec pc_offset h =
      result dec (shift_result shift_count w op (reg h dec.rs1) dec.imm) pc_offset h
  exec_op (Op.reg op) dec pc_offset h =
      result dec (reg_result shift_count w op (reg h dec.rs1) (reg h dec.rs2)) pc_offset h
  exec_op (Op.word op) dec pc_offset h =
      let x = reg h dec.rs1 % 2 ^ 32 in
      let y = reg h dec.rs2 % 2 ^ 32 in
      result dec (sext 32 w (word_result shift_count op x y dec.imm)) pc_offset h
  exec_op (Op.mul_div op) dec pc_offset h =
      result dec (mul_result w op (reg h dec.rs1) (reg h dec.rs2)) pc_offset h
  exec_op (Op.mul_word op) dec pc_offset h =
      let x = reg h dec.rs1 % 2 ^ 32 in
      let y = reg h dec.rs2 % 2 ^ 32 in result dec (sext 32 w (mul_word_result op x y)) pc_offset h
  exec_op (Op.lr size) dec pc_offset h =
      after_load (mem.load (bytes_of size) (reg h dec.rs1) h.mmu) (sext (8 * bytes_of size) w) dec
        pc_offset (record h { lr = reg h dec.rs1 })
  exec_op (Op.sc size) dec pc_offset h =
      if h.lr == reg h dec.rs1
      then after_store
          (mem.store (bytes_of size) (reg h dec.rs1) (reg h dec.rs2 % 2 ^ (8 * bytes_of size))
            h.mmu)
          (λ h'. result dec 0 pc_offset h') h
      else result dec 1 pc_offset h
  exec_op (Op.amo size op) dec pc_offset h =
      after_load
        (mem.amo (bytes_of size) op (reg h dec.rs1) (reg h dec.rs2 % 2 ^ (8 * bytes_of size)) h.mmu)
        (sext (8 * bytes_of size) w) dec pc_offset h
  -- `rvf` and `rvd` are false: the case does nothing.
  exec_op Op.float dec pc_offset h = (Outcome.done pc_offset, h)
  exec_op Op.float_long dec pc_offset h = (Outcome.done pc_offset, h)

-- The cases that `exec_inst_rv32` lacks.
abbrev pub is_rv64 : Op → Bool
is_rv64 (Op.load LoadOp.lwu) = true
is_rv64 (Op.load LoadOp.ld) = true
is_rv64 (Op.store StoreOp.sd) = true
is_rv64 (Op.word op) = true
is_rv64 (Op.mul_word op) = true
is_rv64 (Op.lr Size.d) = true
is_rv64 (Op.sc Size.d) = true
is_rv64 (Op.amo Size.d op) = true
is_rv64 Op.float_long = true
is_rv64 _ = false

module _ {U : Type 0} (shift_count : ℕ → ℕ → ℕ) (mem : MmuOps U) (undef : ℕ) where
  -- `default: return -1`.
  abbrev pub illegal : ℕ → Hart U → Executed U
  illegal w h = (Outcome.done (2 ^ w - 1), h)

  unfoldable pub exec_rv32 : Op → Decode → ℕ → Hart U → Executed U
  exec_rv32 op dec pc_offset h =
      if is_rv64 op then illegal 32 h else exec_op shift_count mem undef 32 op dec pc_offset h

  abbrev pub exec_with :
      (Op → Decode → ℕ → Hart U → Executed U) → ℕ → Option Op → Decode → ℕ → Hart U → Executed U
  exec_with f w none dec pc_offset h = illegal w h
  exec_with f w (some op) dec pc_offset h = f op dec pc_offset h

  -- The interpreters, for a processor without the floating-point extensions.
  unfoldable pub exec_inst_rv32 : Decode → ℕ → Hart U → Executed U
  exec_inst_rv32 dec pc_offset h = exec_with exec_rv32 32 (int_op dec.op) dec pc_offset h

  unfoldable pub exec_inst_rv64 : Decode → ℕ → Hart U → Executed U
  exec_inst_rv64 dec pc_offset h =
      exec_with (exec_op shift_count mem undef 64) 64 (int_op dec.op) dec pc_offset h
