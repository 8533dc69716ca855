-- ===== src/Emu/RunLoop/Tests.antt =====
-- src/emu/processor-runloop.h: a loop of two instructions, by the decoder and the interpreter.
use rv8_riscv_ckpt.Base.{
  true, ℕ, ◌+◌, ◌^◌, ◌≤◌, ◌<◌, ◌%◌, ◌≡◌, refl, inl, arith, none, some, [], ◌∷◌, get_or, ◌-◌,
}
use rv8_riscv_ckpt.Asm.Inst.{Decode, blank}
use rv8_riscv_ckpt.Asm.Operands
use rv8_riscv_ckpt.Asm.Types.{decode, decode_segments, decode_ranges, shift_down, mask, sign_extend}
use rv8_riscv_ckpt.Asm.Meta.{rv_inst_codec}
use rv8_riscv_ckpt.Asm.Meta.Decompress.{rv_inst_decomp_rv64}
use rv8_riscv_ckpt.Asm.Codec.{inst_fetch, inst_length, decompress_inst_rv64, decompress_by}
use rv8_riscv_ckpt.Asm.Codec.Decoding.{inst_decode_rv64, decode_inst}
use rv8_riscv_ckpt.Asm.Decoders.{decode_i, decode_uj}
use rv8_riscv_ckpt.Asm.Switch.{decode_inst_type, decode_codec}
use rv8_riscv_ckpt.Asm.Switch.Tree.{find, select}
use rv8_riscv_ckpt.Asm.Switch.Opcode.{decode_inst_op, root, quadrant_3}
use rv8_riscv_ckpt.Asm.Switch.Integer.{loads, immediates, jumps}
use rv8_riscv_ckpt.Emu.Interp.Word.{sext}
use rv8_riscv_ckpt.Emu.Hart.{set_reg}
use rv8_riscv_ckpt.Emu.Interp.Ops.{int_op}
use rv8_riscv_ckpt.Emu.Interp.Exec.{exec_inst_rv64, exec_op, imm_result}
use rv8_riscv_ckpt.Emu.RunLoop.{iteration, execute}
use rv8_riscv_ckpt.Emu.Mmu.{Outcome, Cause}
use rv8_riscv_ckpt.Emu.Hart.{Hart, new_hart}
use rv8_riscv_ckpt.Emu.Interp.Exec.{MmuOps}
use rv8_riscv_ckpt.Emu.RunLoop.{Loop, Processor, ExitCause, fresh, cached, step}
use rv8_riscv_ckpt.Emu.RunLoop.Cache.{step-cached, Agree, HasWords, cached_core}
use rv8_riscv_ckpt.Emu.RunLoop.Ends.{step_lem, AllExecuted}
use rv8_riscv_ckpt.Emu.RunLoop.Machine.{machine}
use rv8_riscv_ckpt.Emu.RunLoop.MachineLaws.{machine-Decodes, machine-KeepsCount}

abbrev no_memory : MmuOps Unit
no_memory = record {
  load = λ size va u. (Outcome.raised Cause.fault_load va, u);
  store = λ size va val u. (Outcome.done tt, u);
  amo = λ size op va val u. (Outcome.done val, u);
}

-- The shift unit of the host takes its count modulo the width.
abbrev host_count : ℕ → ℕ → ℕ
host_count w k = k % w

-- At 0x1000, `addi t0, t0, 1` and `j 0x1000`.
abbrev rom : ℕ → ℕ
rom a = get_or (0x93 ∷ 0x82 ∷ 0x12 ∷ 0x00 ∷ 0x6f ∷ 0xf0 ∷ 0xdf ∷ 0xff ∷ []) (a - 0x1000) 0

abbrev counter : Processor (Hart Unit) Decode
counter = machine host_count no_memory 0 rom

abbrev start : Loop (Hart Unit) Decode
start = record {
  core = record {
    pc = 0x1000;
    instret = 7;
    breakpoint = 0;
    badaddr = 0;
    running = true;
    rest = new_hart tt;
  };
  dec = blank;
  inst_cache = λ key. record { inst = 0; dec = blank };
}

start-HasWords : HasWords counter 64 10 4 start
unfolding HasWords fresh iteration execute inst_fetch inst_length inst_decode_rv64 decode_inst
    decode_inst_op decode_inst_type decode_codec decode_i decode_uj decompress_inst_rv64
    decompress_by rv_inst_decomp_rv64 find select root quadrant_3 loads immediates jumps
    rv_inst_codec decode decode_segments decode_ranges shift_down mask sign_extend Operands.rd
    Operands.rs1 Operands.imm12 Operands.jimm20 exec_inst_rv64 int_op exec_op imm_result set_reg
    sext
start-HasWords =
    ((λ e. omega (arith, e)), ((λ e. omega (arith, e)), ((λ e. omega (arith, e)), (tt, tt))))

step-cached_example :
    ((step counter (cached counter) 64 4 3 start).0 ≡ (step counter (fresh counter) 64 4 3 start).0)
    × Agree counter
        (machine-Decodes host_count no_memory 0 rom)
        (step counter (cached counter) 64 4 3 start).1
        (step counter (fresh counter) 64 4 3 start).1
step-cached_example =
    step-cached counter (machine-Decodes host_count no_memory 0 rom) 64 4 3 start start
      (refl, (refl, inl (refl, refl, refl, refl)), λ key. inl refl) start-HasWords

start-AllExecuted : AllExecuted counter 64 (cached counter) 3 start
unfolding AllExecuted cached iteration execute inst_fetch inst_length inst_decode_rv64 decode_inst
    decode_inst_op decode_inst_type decode_codec decode_i decode_uj decompress_inst_rv64
    decompress_by rv_inst_decomp_rv64 find select root quadrant_3 loads immediates jumps
    rv_inst_codec decode decode_segments decode_ranges shift_down mask sign_extend Operands.rd
    Operands.rs1 Operands.imm12 Operands.jimm20 exec_inst_rv64 int_op exec_op imm_result set_reg
    sext
start-AllExecuted =
    ((λ e. omega (arith, e)), ((λ e. omega (arith, e)), ((λ e. omega (arith, e)), tt)))

step_lem_example :
    ((start.core.instret + 3 < 2 ^ 64)
      → AllExecuted counter 64 (cached counter) 3 start
      → ((step counter (cached counter) 64 4 3 start).0 ≡ some ExitCause.continue)
        × ((step counter (cached counter) 64 4 3 start).1.core.instret ≡ start.core.instret + 3))
    × ((turns : ℕ)
        → 2 ^ 64 ≤ start.core.instret
        → start.core.instret + turns < 2 ^ 64
        → AllExecuted counter 64 (cached counter) turns start
        → (step counter (cached counter) 64 turns 3 start).0 ≡ none)
step_lem_example =
    step_lem counter 64 (machine-KeepsCount host_count no_memory 0 rom) (cached counter)
      (cached_core counter) 3 start (omega arith) refl

-- Three instructions of the loop end the step.
three_end : (step counter (cached counter) 64 4 3 start).0 ≡ some ExitCause.continue
three_end = (step_lem_example.0 (omega arith) start-AllExecuted).0
