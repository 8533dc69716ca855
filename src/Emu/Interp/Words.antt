-- ===== src/Emu/Interp/Words.antt =====
-- src/emu/interp.h: the 32-bit instructions of RV64.
use rv8_riscv_ckpt.Base.{
  bit_and, ℕ, ◌%◌, ◌^◌, ◌<◌, false, ◌==◌, length, get_or-set_self, ◌≡◌, ◌≢◌, arith,
}
use rv8_riscv_ckpt.Asm.Alu as Alu
use rv8_riscv_ckpt.Emu.Hart.{Hart, reg, set_reg}
use rv8_riscv_ckpt.Emu.Interp.Word.{minus, sext, shift_right}
use rv8_riscv_ckpt.Emu.Interp.Exec.{exec_op, word_result, mul_word_result, MmuOps}
use rv8_riscv_ckpt.Emu.Interp.Ops.{Op, WordOp, MulWordOp}
use rv8_riscv_ckpt.Asm.Inst.{Decode}
use rv8_riscv_ckpt.Emu.Interp.Inv.{IsHart}

-- A register that holds a 32-bit number, its sign in the upper half.
abbrev pub IsSigned32 : ℕ → Type 0
IsSigned32 r = r ≡ sext 32 64 (r % 2 ^ 32)

pub reg-set_reg :
    {U : Type 0} (w rd val : ℕ) (h : Hart U)
    → rd ≢ 0
    → rd < length h.ireg
    → reg (set_reg w rd val h) rd ≡ val % 2 ^ w
unfolding set_reg
reg-set_reg w rd val h nz b =
    let e : (rd == 0) ≡ false = ground arith in rw e (get_or-set_self h.ireg rd (val % 2 ^ w) 0 b)

sext-IsSigned32 : (v : ℕ) → v < 2 ^ 32 → IsSigned32 (sext 32 64 v % 2 ^ 64)
unfolding sext
sext-IsSigned32 v h = ground arith

shift_right_below : (x k : ℕ) → x < 2 ^ 32 → shift_right 32 x k < 2 ^ 32
unfolding shift_right
shift_right_below x k h = ground arith

div_below : (x y : ℕ) → x < 2 ^ 32 → Alu.div 32 x y < 2 ^ 32
unfolding Alu.div
div_below x y h = ground arith

rem_below : (x y : ℕ) → x < 2 ^ 32 → Alu.rem 32 x y < 2 ^ 32
unfolding Alu.rem
rem_below x y h = ground arith

word_result_below :
    (shift_count : ℕ → ℕ → ℕ) (op : WordOp) (x y i : ℕ)
    → x < 2 ^ 32
    → word_result shift_count op x y i < 2 ^ 32
unfolding word_result minus
word_result_below shift_count WordOp.addiw x y i h = omega arith
word_result_below shift_count WordOp.slliw x y i h = omega arith
word_result_below shift_count WordOp.srliw x y i h = ground arith
word_result_below shift_count WordOp.sraiw x y i h = shift_right_below x (shift_count 32 i) h
word_result_below shift_count WordOp.addw x y i h = omega arith
word_result_below shift_count WordOp.subw x y i h = omega arith
word_result_below shift_count WordOp.sllw x y i h = omega arith
word_result_below shift_count WordOp.srlw x y i h = ground arith
word_result_below shift_count WordOp.sraw x y i h = shift_right_below x (bit_and y 31) h

mul_word_result_below : (op : MulWordOp) (x y : ℕ) → x < 2 ^ 32 → mul_word_result op x y < 2 ^ 32
unfolding mul_word_result Alu.divu Alu.remu
mul_word_result_below MulWordOp.mulw x y h = omega arith
mul_word_result_below MulWordOp.divw x y h = div_below x y h
mul_word_result_below MulWordOp.divuw x y h = ground arith
mul_word_result_below MulWordOp.remw x y h = rem_below x y h
mul_word_result_below MulWordOp.remuw x y h = ground arith

module _ {U : Type 0} (shift_count : ℕ → ℕ → ℕ) (mem : MmuOps U) (undef : ℕ) where
  -- Every 32-bit instruction of RV64, additions, shifts, multiplications and divisions alike, leaves in
  -- its register, unless that is `x0`, a number of 32 bits that is extended by its sign to 64 bits,
  -- whatever its operands hold in their upper halves.
  pub exec_op-IsSigned32 :
      (dec : Decode) (pc_offset : ℕ) (h : Hart U)
      → IsHart 64 h
      → dec.rd ≢ 0
      → dec.rd < 32
      → ((op : WordOp)
          → IsSigned32
              (reg (exec_op shift_count mem undef 64 (Op.word op) dec pc_offset h).1 dec.rd))
        × ((op : MulWordOp)
            → IsSigned32
                (reg (exec_op shift_count mem undef 64 (Op.mul_word op) dec pc_offset h).1 dec.rd))
  unfolding exec_op
  exec_op-IsSigned32 dec pc_offset h inv nz b =
      let x = reg h dec.rs1 % 2 ^ 32 in
      let y = reg h dec.rs2 % 2 ^ 32 in
      let small : x < 2 ^ 32 = omega arith in
      let there : dec.rd < length h.ireg = omega (arith, inv.0) in
      (
        λ op.
            rw
              (reg-set_reg 64 dec.rd (sext 32 64 (word_result shift_count op x y dec.imm)) h nz
                there)
              (sext-IsSigned32 (word_result shift_count op x y dec.imm)
                (word_result_below shift_count op x y dec.imm small)),
        λ op.
            rw (reg-set_reg 64 dec.rd (sext 32 64 (mul_word_result op x y)) h nz there)
              (sext-IsSigned32 (mul_word_result op x y) (mul_word_result_below op x y small)),
      )
