-- ===== src/Emu/RunLoop/ReadPart.antt =====
-- src/emu/interp.h: the interpreter does the same for two decoded instructions that agree in its fields.
use rv8_riscv_ckpt.Base.{◌⊎◌, inl, inr, Option, none, some, sym, ap, ◌∙◌, ℕ, ◌≡◌, refl}
use rv8_riscv_ckpt.Emu.Hart.{Hart}
use rv8_riscv_ckpt.Emu.Mmu.{Outcome}
use rv8_riscv_ckpt.Emu.Interp.Exec.{after_load, MmuOps, exec_op, exec_with, exec_inst_rv64}
use rv8_riscv_ckpt.Asm.Inst.{blank, Decode}
use rv8_riscv_ckpt.Emu.Interp.Ops.{Op, int_op}
use rv8_riscv_ckpt.Emu.RunLoop.Fields.{SameFields, SameInst}
use rv8_riscv_ckpt.Emu.Interp.Ops.{Op}
use rv8_riscv_ckpt.Asm.Inst.{blank}

-- The part of a decoded instruction that the interpreter reads.
abbrev pub read_part : Decode → Decode
read_part d = record blank { rd = d.rd; rs1 = d.rs1; rs2 = d.rs2; imm = d.imm }

read_part-SameFields : (d e : Decode) → SameFields d e → read_part d ≡ read_part e
read_part-SameFields d e same = rw (same.0, same.1, same.2, same.3) refl

module _ {U : Type 0} (shift_count : ℕ → ℕ → ℕ) (mem : MmuOps U) (undef w : ℕ) where
  after_load-read_part :
      (r : Outcome ℕ × U) (f : ℕ → ℕ) (d : Decode) (o : ℕ) (h : Hart U)
      → after_load shift_count mem undef w r f d o h
        ≡ after_load shift_count mem undef w r f (read_part d) o h
  after_load-read_part (Outcome.done t, u) f d o h = refl
  after_load-read_part (Outcome.raised cause va, u) f d o h = refl
  after_load-read_part (Outcome.skipped, u) f d o h = refl
  after_load-read_part (Outcome.lost, u) f d o h = refl
  after_load-read_part (Outcome.panicked, u) f d o h = refl

  exec_op-read_part :
      (op : Op) (d : Decode) (o : ℕ) (h : Hart U)
      → exec_op shift_count mem undef w op d o h
        ≡ exec_op shift_count mem undef w op (read_part d) o h
  unfolding exec_op
  exec_op-read_part Op.lui d o h = refl
  exec_op-read_part Op.auipc d o h = refl
  exec_op-read_part Op.jal d o h = refl
  exec_op-read_part Op.jalr d o h = refl
  exec_op-read_part (Op.branch op) d o h = refl
  exec_op-read_part (Op.load op) d o h = after_load-read_part _ _ d o h
  exec_op-read_part (Op.store op) d o h = refl
  exec_op-read_part (Op.imm op) d o h = refl
  exec_op-read_part (Op.shift op) d o h = refl
  exec_op-read_part (Op.reg op) d o h = refl
  exec_op-read_part (Op.word op) d o h = refl
  exec_op-read_part (Op.mul_div op) d o h = refl
  exec_op-read_part (Op.mul_word op) d o h = refl
  exec_op-read_part (Op.lr size) d o h = after_load-read_part _ _ d o _
  exec_op-read_part (Op.sc size) d o h = refl
  exec_op-read_part (Op.amo size op) d o h = after_load-read_part _ _ d o h
  exec_op-read_part Op.float d o h = refl
  exec_op-read_part Op.float_long d o h = refl

  exec_op-SameFields :
      (op : Op) (d e : Decode) (o : ℕ) (h : Hart U)
      → SameFields d e
      → exec_op shift_count mem undef w op d o h ≡ exec_op shift_count mem undef w op e o h
  exec_op-SameFields op d e o h same =
      exec_op-read_part op d o h
      ∙ ap (λ (x : Decode). exec_op shift_count mem undef w op x o h)
          (read_part-SameFields d e same)
      ∙ sym (exec_op-read_part op e o h)

module _ {U : Type 0} (shift_count : ℕ → ℕ → ℕ) (mem : MmuOps U) (undef : ℕ) where
  exec_with-SameFields :
      (op : Option Op) (d e : Decode) (o : ℕ) (h : Hart U)
      → SameFields d e ⊎ (op ≡ none)
      → exec_with shift_count mem undef (exec_op shift_count mem undef 64) 64 op d o h
        ≡ exec_with shift_count mem undef (exec_op shift_count mem undef 64) 64 op e o h
  exec_with-SameFields none d e o h same = refl
  exec_with-SameFields (some op) d e o h (inl same) =
      exec_op-SameFields shift_count mem undef 64 op d e o h same
  exec_with-SameFields (some op) d e o h (inr lacking) = cc

  pub exec_inst_rv64-SameInst :
      (d e : Decode) (o : ℕ) (h : Hart U)
      → SameInst d e
      → exec_inst_rv64 shift_count mem undef d o h ≡ exec_inst_rv64 shift_count mem undef e o h
  unfolding exec_inst_rv64
  exec_inst_rv64-SameInst d e o h same =
      exec_with-SameFields (int_op d.op) d e o h same.1
      ∙ ap
          (λ k.
            exec_with shift_count mem undef (exec_op shift_count mem undef 64) 64 (int_op k) e o h)
          same.0
