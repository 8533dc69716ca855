-- ===== src/Emu/RunLoop/MachineLaws.antt =====
-- src/emu/processor-runloop.h: the laws of the run loop, for the decoder and the interpreter of src/emu.
use rv8_riscv_ckpt.Base.{ℕ, ◌-◌, ◌^◌, ◌==◌, if◌then◌else◌, refl, ap, inl}
use rv8_riscv_ckpt.Emu.Mmu.{Outcome}
use rv8_riscv_ckpt.Emu.Hart.{Hart}
use rv8_riscv_ckpt.Emu.Priv.{op_ecall}
use rv8_riscv_ckpt.Emu.Interp.Exec.{MmuOps, Executed, exec_inst_rv64}
use rv8_riscv_ckpt.Emu.RunLoop.{Core, Result}
use rv8_riscv_ckpt.Emu.RunLoop.Fields.{SameInst, inst_decode_rv64-SameInst}
use rv8_riscv_ckpt.Emu.RunLoop.ReadPart.{exec_inst_rv64-SameInst}
use rv8_riscv_ckpt.Emu.RunLoop.Machine.{machine, after_exec, hart_of}
use rv8_riscv_ckpt.Emu.RunLoop.Cache.{Decodes}
use rv8_riscv_ckpt.Emu.RunLoop.Ends.{IsKept, KeepsCount}

after_exec-IsKept : {U : Type 0} (c : Core (Hart U)) (e : Executed U) → IsKept c (after_exec c e).1
after_exec-IsKept c (Outcome.done t, h) = (refl, refl)
after_exec-IsKept c (Outcome.raised cause va, h) = (refl, refl)
after_exec-IsKept c (Outcome.skipped, h) = (refl, refl)
after_exec-IsKept c (Outcome.lost, h) = (refl, refl)
after_exec-IsKept c (Outcome.panicked, h) = (refl, refl)

module _ {U : Type 0} (shift_count : ℕ → ℕ → ℕ) (mem : MmuOps U) (undef : ℕ) (rom : ℕ → ℕ) where
  abbrev pub machine-Decodes : Decodes (machine shift_count mem undef rom)
  machine-Decodes = record {
    Same = SameInst;
    same_self = λ d. (refl, inl (refl, refl, refl, refl));
    decode_same = inst_decode_rv64-SameInst;
    trap_same = λ d e h cause c. refl;
    checkpoint_fetch_same = λ d e h inst o c. refl;
    exec_same = λ d e h o c.
        ap (after_exec c) (exec_inst_rv64-SameInst shift_count mem undef d e o (hart_of c) h);
    priv_same = λ d e h o c.
        ap (λ op. (if op == op_ecall then Result.raised 8 else Result.value (2 ^ 64 - 1), c)) h.0;
    checkpoint_execute_same = λ d e h c. refl;
  }

  pub machine-KeepsCount : KeepsCount (machine shift_count mem undef rom)
  machine-KeepsCount = record {
    clock_kept = λ c. (refl, refl);
    isr_kept = λ c. (refl, refl);
    fetch_kept = λ c. (refl, refl);
    checkpoint_fetch_kept = λ d inst o c. (refl, refl);
    exec_kept = λ d o c. after_exec-IsKept c (exec_inst_rv64 shift_count mem undef d o (hart_of c));
    checkpoint_execute_kept = λ d c. (refl, refl);
  }
