-- ===== src/Asm/Codec/Decoding.antt =====
-- src/asm/codec.h and src/emu/processor-model.h: the decoding of an instruction.
use rv8_riscv_ckpt.Asm.Codec.{decompress_inst_rv32, decompress_inst_rv64, decompress_inst_rv128}
use rv8_riscv_ckpt.Asm.Switch.{decode_inst_type}
use rv8_riscv_ckpt.Asm.Switch.Opcode.{decode_inst_op}
use rv8_riscv_ckpt.Asm.Inst.{Decode}
use rv8_riscv_ckpt.Asm.Switch.Tree.{Isa}
use rv8_riscv_ckpt.Base.{ℕ, true, false}

-- The extensions of the processors with every extension of the emulator.
abbrev pub rv64imafdc : Isa
rv64imafdc = record {
  rv32 = false;
  rv64 = true;
  rv128 = false;
  rvi = true;
  rvm = true;
  rva = true;
  rvs = true;
  rvf = true;
  rvd = true;
  rvq = false;
  rvc = true;
}

abbrev pub rv32imafdc : Isa
rv32imafdc = record rv64imafdc { rv32 = true; rv64 = false }

-- `decode_inst`, which keeps the fields of `dec` that the format does not set.
unfoldable pub decode_inst : Isa → Decode → ℕ → Decode
decode_inst isa dec inst = decode_inst_type (record dec { op = decode_inst_op isa inst }) inst

unfoldable pub decode_inst_rv32 : Decode → ℕ → Decode
decode_inst_rv32 dec inst =
    decompress_inst_rv32 (decode_inst (record rv32imafdc { rvq = true }) dec inst)

unfoldable pub decode_inst_rv64 : Decode → ℕ → Decode
decode_inst_rv64 dec inst =
    decompress_inst_rv64 (decode_inst (record rv64imafdc { rvq = true }) dec inst)

unfoldable pub decode_inst_rv128 : Decode → ℕ → Decode
decode_inst_rv128 dec inst =
    decompress_inst_rv128
      (decode_inst (record rv64imafdc { rv64 = false; rv128 = true; rvq = true }) dec inst)

-- `inst_decode` of the two processors.
unfoldable pub inst_decode_rv32 : Decode → ℕ → Decode
inst_decode_rv32 dec inst = decompress_inst_rv32 (decode_inst rv32imafdc dec inst)

unfoldable pub inst_decode_rv64 : Decode → ℕ → Decode
inst_decode_rv64 dec inst = decompress_inst_rv64 (decode_inst rv64imafdc dec inst)
