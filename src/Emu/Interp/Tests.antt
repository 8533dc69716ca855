-- ===== src/Emu/Interp/Tests.antt =====
-- A processor and instructions for the theorems on src/emu/interp.h.
use rv8_riscv_ckpt.Emu.Mmu.{Outcome, Cause}
use rv8_riscv_ckpt.Base.{refl, replicate, set, if◌then◌else◌, ◌-◌, arith, ◌^◌, ◌+◌, ◌≡◌, ◌%◌, ℕ}
use rv8_riscv_ckpt.Emu.Hart.{ireg_count, reg, new_hart, set_reg, Hart}
use rv8_riscv_ckpt.Emu.Interp.Exec.{imm_of, exec_op, exec_inst_rv64, exec_inst_rv32, MmuOps}
use rv8_riscv_ckpt.Emu.Interp.Inv.{new_hart-IsHart, set_reg-IsHart, exec_inst-IsHart, IsHart}
use rv8_riscv_ckpt.Emu.Interp.Ops.{BranchOp, MulWordOp, WordOp, Op}
use rv8_riscv_ckpt.Asm.Inst.{blank, Decode}
use rv8_riscv_ckpt.Emu.Interp.Jumps.{next_pc_lem, signed_before, next_pc}
use rv8_riscv_ckpt.Emu.Interp.Words.{exec_op-IsSigned32, IsSigned32}

abbrev no_memory : MmuOps Unit
no_memory = record {
  load = λ size va u. (Outcome.raised Cause.fault_load va, u);
  store = λ size va val u. (Outcome.done tt, u);
  amo = λ size op va val u. (Outcome.done val, u);
}

-- The shift unit of the host takes its count modulo the width.
abbrev host_count : ℕ → ℕ → ℕ
host_count w k = k % w

abbrev start : Hart Unit
start = record (new_hart tt) { pc = 0x1000; ireg = set (replicate ireg_count 0) 5 0x80000001 }

abbrev inst : ℕ → Decode
inst op = record blank { op = op; rd = 6; rs1 = 5; rs2 = 5; imm = 16 }

start-IsHart : IsHart 64 start
unfolding set_reg
start-IsHart = set_reg-IsHart 64 5 0x80000001 (new_hart tt) (new_hart-IsHart 64 tt)

exec_inst-IsHart_example :
    ((IsHart 32 start) → IsHart 32 (exec_inst_rv32 host_count no_memory 0 (inst 11) 4 start).1)
    × ((IsHart 64 start) → IsHart 64 (exec_inst_rv64 host_count no_memory 0 (inst 11) 4 start).1)
exec_inst-IsHart_example = exec_inst-IsHart host_count no_memory 0 (inst 11) 4 start

exec_op-IsSigned32_example :
    ((op : WordOp)
      → IsSigned32 (reg (exec_op host_count no_memory 0 64 (Op.word op) (inst 48) 4 start).1 6))
    × ((op : MulWordOp)
        → IsSigned32
            (reg (exec_op host_count no_memory 0 64 (Op.mul_word op) (inst 48) 4 start).1 6))
exec_op-IsSigned32_example =
    exec_op-IsSigned32 host_count no_memory 0 (inst 48) 4 start start-IsHart (λ e. omega (arith, e))
      (omega arith)

abbrev next : Op → ℕ
next op = next_pc host_count no_memory 0 63 op (inst 0) 4 start

next_pc_lem_example :
    (next Op.jalr
      ≡ (reg start 5 + imm_of 64 (inst 0)) % 2 ^ 64
        - (reg start 5 + imm_of 64 (inst 0)) % 2 ^ 64 % 2)
    × ((exec_op host_count no_memory 0 64 Op.jalr (inst 0) 4 start).1
        ≡ set_reg 64 6 (0x1000 + 4) start)
    × (next Op.jal ≡ (0x1000 + imm_of 64 (inst 0)) % 2 ^ 64)
    × ((exec_op host_count no_memory 0 64 Op.jal (inst 0) 4 start).1
        ≡ set_reg 64 6 (0x1000 + 4) start)
    × (next (Op.branch BranchOp.blt) ≡ (
        if signed_before 64 (reg start 5) (reg start 5)
        then (0x1000 + imm_of 64 (inst 0)) % 2 ^ 64
        else (0x1000 + 4) % 2 ^ 64))
    × (next (Op.branch BranchOp.bge) ≡ (
        if signed_before 64 (reg start 5) (reg start 5)
        then (0x1000 + 4) % 2 ^ 64
        else (0x1000 + imm_of 64 (inst 0)) % 2 ^ 64))
next_pc_lem_example =
    next_pc_lem host_count no_memory 0 63 (inst 0) 4 start (omega arith) refl (omega arith)
      (omega arith)
