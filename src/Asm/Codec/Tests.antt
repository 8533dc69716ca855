-- ===== src/Asm/Codec/Tests.antt =====
-- Concrete instructions for the theorems on src/asm/codec.h.
use rv8_riscv_ckpt.Base.{◌⊎◌, false, ℕ, ◌≡◌, refl, arith, true, ◌∷◌, []}
use rv8_riscv_ckpt.Base.{get_or}
use rv8_riscv_ckpt.Asm.Op
use rv8_riscv_ckpt.Asm.Meta.{rv_inst_codec}
use rv8_riscv_ckpt.Asm.Inst.{Codec, Decode, blank}
use rv8_riscv_ckpt.Asm.Codec.{
  inst_length, inst_fetch, load32, compress_inst_rv32, compress_inst_rv64, compress_inst_rv128,
  decompress_inst_rv32, decompress_inst_rv64, decompress_inst_rv128, encode_pseudo,
  decode_pseudo_inst,
}
use rv8_riscv_ckpt.Asm.Codec.Fetch.{little_endian, inst_fetch-little_endian}
use rv8_riscv_ckpt.Asm.Codec.Compress.{IsReversible, decompress_inst-compress_inst}
use rv8_riscv_ckpt.Asm.Codec.PseudoSet.{decode_pseudo_inst-encode_pseudo}
use rv8_riscv_ckpt.Asm.Meta.Pseudo.{rv_inst_depseudo}
use rv8_riscv_ckpt.Asm.Codec.PseudoForms.{encode_pseudo-decode_pseudo_inst}

-- `addi a0, a0, 1` at address 4.
abbrev program : ℕ → ℕ
program a = get_or (0 ∷ 0 ∷ 0 ∷ 0 ∷ 0x13 ∷ 0x05 ∷ 0x15 ∷ 0x00 ∷ []) a 0

inst_fetch-little_endian_example :
    inst_fetch program 4
    ≡ (little_endian program 4 (inst_length (load32 program 4)), inst_length (load32 program 4))
inst_fetch-little_endian_example = inst_fetch-little_endian program 4 (λ b. ground arith)

-- `addi a0, a0, 1`.
abbrev increment : Decode
increment = record blank { op = Op.addi; codec = Codec.i; rd = 10; rs1 = 10; imm = 1 }

decompress_inst-compress_inst_example :
    IsReversible decompress_inst_rv32 increment (compress_inst_rv32 increment)
    × IsReversible decompress_inst_rv64 increment (compress_inst_rv64 increment)
    × IsReversible decompress_inst_rv128 increment (compress_inst_rv128 increment)
unfolding rv_inst_codec
decompress_inst-compress_inst_example = decompress_inst-compress_inst increment refl

-- `sub a0, zero, a1`, which is shown as `neg a0, a1`.
abbrev negate : Decode
negate = record blank { op = Op.sub; codec = Codec.r; rd = 10; rs2 = 11 }

encode_pseudo-decode_pseudo_inst_example :
    (((decode_pseudo_inst negate).1 ≡ false) × ((decode_pseudo_inst negate).0 ≡ negate))
    ⊎ (((decode_pseudo_inst negate).1 ≡ true)
        × (encode_pseudo (decode_pseudo_inst negate).0 ≡ (negate, true)))
unfolding rv_inst_codec
encode_pseudo-decode_pseudo_inst_example = encode_pseudo-decode_pseudo_inst negate refl

-- `neg a0, a1` with a first source that the pseudo-instruction does not have.
abbrev negate_pseudo : Decode
negate_pseudo = record blank { op = Op.neg; codec = Codec.r; rd = 10; rs1 = 7; rs2 = 11 }

decode_pseudo_inst-encode_pseudo_example :
    (decode_pseudo_inst (encode_pseudo negate_pseudo).0).1 ≡ true
unfolding encode_pseudo rv_inst_depseudo
decode_pseudo_inst-encode_pseudo_example = decode_pseudo_inst-encode_pseudo negate_pseudo refl
