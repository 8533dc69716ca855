-- ===== src/Asm/RoundTrip/Tests.antt =====
-- Concrete instructions for the theorems on encoding and decoding.
use rv8_riscv_ckpt.Asm.Switch.Integer.{loads}
use rv8_riscv_ckpt.Asm.Switch.Opcode.{root, quadrant_3, decode_inst_op}
use rv8_riscv_ckpt.Asm.Switch.Compressed.{quadrant_0}
use rv8_riscv_ckpt.Asm.Switch.Tree.{find, select}
use rv8_riscv_ckpt.Base.{◌-◌, ◌+◌, ◌^◌, ℕ, ◌≡◌, refl, arith, true, some}
use rv8_riscv_ckpt.Asm.Op
use rv8_riscv_ckpt.Asm.Meta.{rv_inst_codec}
use rv8_riscv_ckpt.Asm.Meta.Compress64.{rv_inst_comp_rv64}
use rv8_riscv_ckpt.Asm.Codec.{decompress_inst_rv32, rewrite_by, first_form}
use rv8_riscv_ckpt.Asm.Constraints.{constraint_check, holds}
use rv8_riscv_ckpt.Asm.Inst.{Codec, Decode, blank}
use rv8_riscv_ckpt.Asm.Codec.{compress_inst_rv64, decompress_inst_rv64, with_op}
use rv8_riscv_ckpt.Asm.Switch.{encode_inst, decode_inst_type}
use rv8_riscv_ckpt.Asm.RoundTrip.Opcodes.{decode_inst_type-encode_inst, selects_by_rs2}
use rv8_riscv_ckpt.Asm.RoundTrip.Forms.Survives.{survives}
use rv8_riscv_ckpt.Asm.RoundTrip.Compressed.{compressed-roundtrip}
use rv8_riscv_ckpt.Asm.RoundTrip.Losses.{encode_cs-loses_rs2, c_lui-changes_sign, c_addi16sp-rounds}
use rv8_riscv_ckpt.Asm.Codec.Decoding.{
  inst_decode_rv64, inst_decode_rv32, rv32imafdc, decode_inst, rv64imafdc,
}
use rv8_riscv_ckpt.Asm.RoundTrip.Decoding.{inst_decode-encode_inst, has_fixed_rv64, has_fixed_rv32}

-- `beq a0, a1, .-2`.
abbrev branch : Decode
branch = record blank { op = Op.beq; codec = Codec.sb; rs1 = 10; rs2 = 11; imm = 2 ^ 32 - 2 }

decode_inst_type-encode_inst_example :
    (w : ℕ) × (encode_inst branch ≡ some (branch, w))
    × (decode_inst_type (record blank { op = Op.beq }) w ≡ branch)
unfolding selects_by_rs2 rv_inst_codec
decode_inst_type-encode_inst_example =
    decode_inst_type-encode_inst branch (omega arith) refl refl (ground arith)

-- `addi a0, a0, -1`.
abbrev decrement : Decode
decrement = record blank { op = Op.addi; codec = Codec.i; rd = 10; rs1 = 10; imm = 2 ^ 32 - 1 }

compressed-roundtrip_example :
    (w : ℕ) × (encode_inst (compress_inst_rv64 decrement).0
      ≡ some ((compress_inst_rv64 decrement).0, w))
    × (decode_inst rv64imafdc blank w ≡ (compress_inst_rv64 decrement).0)
    × (inst_decode_rv64 blank w ≡ decrement)
unfolding compress_inst_rv64 survives rv_inst_codec rewrite_by rv_inst_comp_rv64 first_form
    constraint_check holds
compressed-roundtrip_example = compressed-roundtrip decrement refl (ground arith) refl refl

-- `c.sub s0, s1`.
abbrev difference : Decode
difference = record blank { op = Op.c_sub; codec = Codec.cs; rd = 8; rs1 = 8; rs2 = 9 }

encode_cs-loses_rs2_example :
    (w : ℕ) × (encode_inst difference ≡ some (difference, w))
    × (decode_inst_type (record blank { op = Op.c_sub }) w ≡ record difference { rs2 = 8 })
unfolding selects_by_rs2 rv_inst_codec
encode_cs-loses_rs2_example =
    encode_cs-loses_rs2 difference (omega arith) refl refl refl (ground arith)

-- `lui a0, 0x20`.
abbrev page_base : Decode
page_base = record blank { op = Op.lui; codec = Codec.u; rd = 10; imm = 2 ^ 17 }

c_lui-changes_sign_example :
    (compress_inst_rv64 page_base ≡ (with_op page_base Op.c_lui, true))
    × ((w : ℕ) × (encode_inst (with_op page_base Op.c_lui) ≡ some (with_op page_base Op.c_lui, w))
        × (decode_inst_type (record blank { op = Op.c_lui }) w ≡ record page_base {
          op = Op.c_lui;
          codec = Codec.ci_lui;
          imm = 2 ^ 17 + (2 ^ 32 - 2 ^ 18);
        }))
c_lui-changes_sign_example =
    c_lui-changes_sign page_base (ground arith) refl (omega arith) (omega arith) (omega arith)
      (omega arith)

-- `addi sp, sp, 36`.
abbrev pop_frame : Decode
pop_frame = record blank { op = Op.addi; codec = Codec.i; rd = 2; rs1 = 2; imm = 36 }

c_addi16sp-rounds_example :
    (compress_inst_rv64 pop_frame ≡ (with_op pop_frame Op.c_addi16sp, true))
    × ((w : ℕ) × (encode_inst (with_op pop_frame Op.c_addi16sp)
          ≡ some (with_op pop_frame Op.c_addi16sp, w))
        × (decode_inst_type (record blank { op = Op.c_addi16sp }) w
            ≡ record pop_frame { op = Op.c_addi16sp; codec = Codec.ci_16sp; imm = 32 }))
c_addi16sp-rounds_example = c_addi16sp-rounds pop_frame (ground arith)

-- `sub a0, a1, a2`.
abbrev subtract : Decode
subtract = record blank { op = Op.sub; codec = Codec.r; rd = 10; rs1 = 11; rs2 = 12 }

inst_decode-encode_inst_example :
    (w : ℕ) × (encode_inst subtract ≡ some (subtract, w))
    × ((has_fixed_rv32 Op.sub ≡ true)
        → (decode_inst rv32imafdc blank w ≡ subtract)
          × (inst_decode_rv32 blank w ≡ decompress_inst_rv32 subtract))
    × ((has_fixed_rv64 Op.sub ≡ true)
        → (decode_inst rv64imafdc blank w ≡ subtract)
          × (inst_decode_rv64 blank w ≡ decompress_inst_rv64 subtract))
unfolding rv_inst_codec
inst_decode-encode_inst_example = inst_decode-encode_inst subtract (omega arith) refl (ground arith)

-- The bytes of `ld a0, 8(sp)`, and the word 0.
load_decoded : decode_inst_op rv64imafdc 0x00813503 ≡ Op.ld
unfolding decode_inst_op root quadrant_3 loads find select
load_decoded = refl

zero_decoded : decode_inst_op rv64imafdc 0 ≡ Op.c_addi4spn
unfolding decode_inst_op root quadrant_0 find select
zero_decoded = refl
