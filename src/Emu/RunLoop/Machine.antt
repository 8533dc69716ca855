-- ===== src/Emu/RunLoop/Machine.antt =====
-- src/emu/processor-runloop.h, with the decoder of src/emu/processor-model.h and the interpreter of
-- src/emu/interp.h: a user program in a read-only memory, without checkpoints, whose `ecall` is an
-- exception that ends it.
use rv8_riscv_ckpt.Base.{ℕ, ◌-◌, ◌^◌, false, ◌==◌, if◌then◌else◌}
use rv8_riscv_ckpt.Asm.Inst.{Decode}
use rv8_riscv_ckpt.Asm.Codec.{inst_fetch}
use rv8_riscv_ckpt.Asm.Codec.Decoding.{inst_decode_rv64}
use rv8_riscv_ckpt.Emu.Mmu.{Cause, Outcome}
use rv8_riscv_ckpt.Emu.Hart.{Hart}
use rv8_riscv_ckpt.Emu.Priv.{op_ecall}
use rv8_riscv_ckpt.Emu.Interp.Exec.{MmuOps, Executed, exec_inst_rv64}
use rv8_riscv_ckpt.Emu.RunLoop.{Core, Result, Processor, cause_fatal}

abbrev cause_number : Cause → ℕ
cause_number Cause.misaligned_fetch = 0
cause_number Cause.fault_fetch = 1
cause_number Cause.misaligned_load = 4
cause_number Cause.fault_load = 5
cause_number Cause.misaligned_store = 6
cause_number Cause.fault_store = 7

abbrev pub hart_of : {U : Type 0} → Core (Hart U) → Hart U
hart_of c = record c.rest { pc = c.pc }

-- What an instruction leaves, as the run loop sees it.
abbrev pub after_exec : {U : Type 0} → Core (Hart U) → Executed U → Result ℕ × Core (Hart U)
after_exec c (Outcome.done t, h) = (Result.value t, record c { rest = h })
after_exec c (Outcome.raised cause va, h) =
    (Result.raised (cause_number cause), record c { rest = h; badaddr = va })
after_exec c (Outcome.skipped, h) = (Result.raised cause_fatal, record c { rest = h })
after_exec c (Outcome.lost, h) = (Result.raised cause_fatal, record c { rest = h })
after_exec c (Outcome.panicked, h) = (Result.raised cause_fatal, record c { rest = h })

module _ {U : Type 0} (shift_count : ℕ → ℕ → ℕ) (mem : MmuOps U) (undef : ℕ) (rom : ℕ → ℕ) where
  abbrev pub machine : Processor (Hart U) Decode
  machine = record {
    clock = λ c. c;
    isr = λ c. c;
    trap = λ d cause c. record c { running = false };
    inst_fetch = λ c. (Result.value (inst_fetch rom c.pc), c);
    inst_decode = inst_decode_rv64;
    checkpoint_fetch = λ d inst o c. c;
    inst_exec = λ d o c. after_exec c (exec_inst_rv64 shift_count mem undef d o (hart_of c));
    inst_priv =
        λ d o c. (if d.op == op_ecall then Result.raised 8 else Result.value (2 ^ 64 - 1), c);
    checkpoint_execute = λ d c. c;
  }
