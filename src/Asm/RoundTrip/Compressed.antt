-- ===== src/Asm/RoundTrip/Compressed.antt =====
-- src/asm: compression, encoding, decoding and expansion of one instruction.
use mathlib.Core.Bool.{false≢true}
use mathlib.Core.Path.{subst}
use rv8_riscv_ckpt.Asm.Codec.{
  decompress_by, with_op, decompress_inst_rv64, codec_of, compress_inst_rv64,
}
use rv8_riscv_ckpt.Asm.Inst.{blank, Decode}
use rv8_riscv_ckpt.Asm.Meta.Compress64.{rv_inst_comp_rv64}
use rv8_riscv_ckpt.Base.{
  entry, ◌≢◌, ◌⊎◌, ◌&◌, refl, inr, ◌∙◌, sym, ap, inl, arith, false, true, ◌<◌, some, ◌≡◌, ℕ,
}
use rv8_riscv_ckpt.Asm.Meta.{rv_inst_codec}
use rv8_riscv_ckpt.Asm.Meta.CompData.{CompData}
use rv8_riscv_ckpt.Asm.Switch.{encode_inst}
use rv8_riscv_ckpt.Asm.RoundTrip.Encodable.{IsEncodable}
use rv8_riscv_ckpt.Asm.Op as Op
use rv8_riscv_ckpt.Asm.RoundTrip.Opcodes.{
  word, encode_inst-word, decode_inst_type-word, op_count, selects_by_rs2,
}
use rv8_riscv_ckpt.Asm.RoundTrip.Decoding.{has_fixed_rv64, decode_inst_op-rv64}
use rv8_riscv_ckpt.Asm.RoundTrip.Told.{c_mv_told, c_add_told, c_jalr_told, c_lui_told, c_addi_told}
use rv8_riscv_ckpt.Asm.RoundTrip.Forms.Source.{c_mv_source}
use rv8_riscv_ckpt.Asm.Codec.Decoding.{rv64imafdc, decode_inst, inst_decode_rv64}
use rv8_riscv_ckpt.Asm.Switch.Opcode.{decode_inst_op}
use rv8_riscv_ckpt.Asm.Meta.CompressedConstraints.{
  rvcc_c_addi, rvcc_c_lui, rvcc_c_mv, rvcc_c_add, rvcc_c_jalr,
}
use rv8_riscv_ckpt.Asm.Codec.Compress.{rewrite_by_lem, decompress_inst-compress_inst, EachForm}
use rv8_riscv_ckpt.Asm.Constraints.{constraint_check, holds}
use rv8_riscv_ckpt.Asm.RoundTrip.Forms.Integer.{
  c_ebreak_keeps, c_subw_keeps, c_addw_keeps, c_addiw_keeps, c_and_keeps, c_or_keeps, c_xor_keeps,
  c_sub_keeps, c_add_keeps, c_srai_keeps, c_srli_keeps, c_slli_keeps, c_andi_keeps, c_mv_keeps,
  c_addi16sp_keeps, c_li_keeps, c_addi_keeps, c_nop_keeps, c_addi4spn_keeps, c_bnez_keeps,
  c_beqz_keeps, c_jalr_keeps, c_jr_keeps, c_j_keeps, c_lui_keeps,
}
use rv8_riscv_ckpt.Asm.RoundTrip.Forms.Survives.{survives}
use rv8_riscv_ckpt.Asm.RoundTrip.Forms.Memory.{
  c_fsdsp_keeps, c_fsd_keeps, c_fldsp_keeps, c_fld_keeps, c_sdsp_keeps, c_sd_keeps, c_ldsp_keeps,
  c_ld_keeps, c_swsp_keeps, c_sw_keeps, c_lwsp_keeps, c_lw_keeps,
}
use rv8_riscv_ckpt.Asm.Meta.Decompress.{rv_inst_decomp_rv64}

abbrev Keeps : ℕ → CompData → Type 0
Keeps op c =
    (d : Decode)
    → IsEncodable (codec_of op) d
    → constraint_check d c.constraints ≡ true
    → survives c.op d ≡ true
    → IsEncodable (codec_of c.op) (with_op d c.op)

-- The switches lead from the encoding of the form to its opcode.
abbrev Told : CompData → Type 0
Told c =
    (d : Decode)
    → IsEncodable (codec_of c.op) (with_op d c.op)
    → constraint_check d c.constraints ≡ true
    → ((c.op ≡ Op.c_mv) → d.rs1 ≢ 0)
    → decode_inst_op rv64imafdc (word (with_op d c.op)) ≡ c.op

abbrev FormKeeps : ℕ → CompData → Type 0
FormKeeps op c =
    Keeps op c
    × (c.op < op_count)
    × (selects_by_rs2 c.op ≡ false)
    × ((has_fixed_rv64 c.op ≡ true) ⊎ Told c)

c_mv_form : Told (record { op = Op.c_mv; constraints = rvcc_c_mv })
unfolding constraint_check holds rv_inst_codec
c_mv_form d fits h source = c_mv_told d fits (source refl)

c_add_form : Told (record { op = Op.c_add; constraints = rvcc_c_add })
unfolding constraint_check holds rv_inst_codec
c_add_form d fits h source = c_add_told d fits (ground arith)

c_jalr_form : Told (record { op = Op.c_jalr; constraints = rvcc_c_jalr })
unfolding constraint_check holds rv_inst_codec
c_jalr_form d fits h source = c_jalr_told d fits (ground arith)

c_lui_form : Told (record { op = Op.c_lui; constraints = rvcc_c_lui })
unfolding constraint_check holds rv_inst_codec
c_lui_form d fits h source = c_lui_told d fits (ground arith)

c_addi_form : Told (record { op = Op.c_addi; constraints = rvcc_c_addi })
unfolding constraint_check holds rv_inst_codec
c_addi_form d fits h source = c_addi_told d fits (ground arith)

forms_keep : EachForm FormKeeps rv_inst_comp_rv64
unfolding rv_inst_comp_rv64 rv_inst_codec selects_by_rs2 has_fixed_rv64
forms_keep =
    ((c_lui_keeps, omega arith, refl, inr c_lui_form) & tt)
    & ((c_j_keeps, omega arith, refl, inl refl) & tt)
    & ((c_jr_keeps, omega arith, refl, inl refl)
        & (c_jalr_keeps, omega arith, refl, inr c_jalr_form)
        & tt)
    & ((c_beqz_keeps, omega arith, refl, inl refl) & tt)
    & ((c_bnez_keeps, omega arith, refl, inl refl) & tt)
    & ((c_lw_keeps, omega arith, refl, inl refl) & (c_lwsp_keeps, omega arith, refl, inl refl) & tt)
    & ((c_sw_keeps, omega arith, refl, inl refl) & (c_swsp_keeps, omega arith, refl, inl refl) & tt)
    & ((c_addi4spn_keeps, omega arith, refl, inl refl)
        & (c_nop_keeps, omega arith, refl, inl refl)
        & (c_addi_keeps, omega arith, refl, inr c_addi_form)
        & (c_li_keeps, omega arith, refl, inl refl)
        & (c_addi16sp_keeps, omega arith, refl, inl refl)
        & (c_mv_keeps, omega arith, refl, inr c_mv_form)
        & tt)
    & ((c_andi_keeps, omega arith, refl, inl refl) & tt)
    & ((c_slli_keeps, omega arith, refl, inl refl) & tt)
    & ((c_srli_keeps, omega arith, refl, inl refl) & tt)
    & ((c_srai_keeps, omega arith, refl, inl refl) & tt)
    & ((c_add_keeps, omega arith, refl, inr c_add_form) & tt)
    & ((c_sub_keeps, omega arith, refl, inl refl) & tt)
    & ((c_xor_keeps, omega arith, refl, inl refl) & tt)
    & ((c_or_keeps, omega arith, refl, inl refl) & tt)
    & ((c_and_keeps, omega arith, refl, inl refl) & tt)
    & ((c_ld_keeps, omega arith, refl, inl refl) & (c_ldsp_keeps, omega arith, refl, inl refl) & tt)
    & ((c_sd_keeps, omega arith, refl, inl refl) & (c_sdsp_keeps, omega arith, refl, inl refl) & tt)
    & ((c_addiw_keeps, omega arith, refl, inl refl) & tt)
    & ((c_addw_keeps, omega arith, refl, inl refl) & tt)
    & ((c_subw_keeps, omega arith, refl, inl refl) & tt)
    & ((c_ebreak_keeps, omega arith, refl, inl refl) & tt)
    & ((c_fld_keeps, omega arith, refl, inl refl)
        & (c_fldsp_keeps, omega arith, refl, inl refl)
        & tt)
    & ((c_fsd_keeps, omega arith, refl, inl refl)
        & (c_fsdsp_keeps, omega arith, refl, inl refl)
        & tt)
    & tt

expands :
    (d : Decode)
    → d.codec ≡ codec_of d.op
    → (compress_inst_rv64 d).1 ≡ true
    → decompress_inst_rv64 (compress_inst_rv64 d).0 ≡ d
expands d k h = elim (decompress_inst-compress_inst d k).1 [
  | inl left ↦ absurd (false≢true (sym left.0 ∙ h))
  | inr done ↦ done.1
]

-- The source of a `c.mv` that `d` is compressed to.
c_mv_expands : (x : Decode) → x.op ≡ Op.c_mv → (decompress_inst_rv64 x).op ≡ Op.addi
unfolding decompress_inst_rv64 decompress_by rv_inst_decomp_rv64
c_mv_expands x e =
    let found : entry x.op rv_inst_decomp_rv64 ≡ some Op.addi = rw e refl in
    rw (found, decompress_by) refl

source_of :
    (d : Decode)
    → d.codec ≡ codec_of d.op
    → (compress_inst_rv64 d).1 ≡ true
    → (compress_inst_rv64 d).0.op ≡ Op.c_mv
    → d.rs1 ≢ 0
source_of d k h e =
    let back = ap (λ (x : Decode). x.op) (expands d k h) in
    c_mv_source d (sym back ∙ c_mv_expands (compress_inst_rv64 d).0 e) e

told :
    (op : ℕ) (c : CompData) (d : Decode)
    → FormKeeps op c
    → IsEncodable (codec_of c.op) (with_op d c.op)
    → constraint_check d c.constraints ≡ true
    → ((c.op ≡ Op.c_mv) → d.rs1 ≢ 0)
    → decode_inst_op rv64imafdc (word (with_op d c.op)) ≡ c.op
told op c d f fits h source = elim f.3 [
  | inl here ↦ decode_inst_op-rv64 (with_op d c.op) f.1 here refl fits
  | inr by_field ↦ by_field d fits h source
]

-- `x` is encoded, and its encoding is decoded to it and expands to `d`.
abbrev Reads : Decode → Decode → Type 0
Reads x d =
    (w : ℕ) × (encode_inst x ≡ some (x, w))
    × (decode_inst rv64imafdc blank w ≡ x)
    × (inst_decode_rv64 blank w ≡ d)

-- On RV64, an instruction that fits its format and is compressed is encoded without a failed
-- assertion; and from the compressed word alone, the processor decodes the opcode, the format and the
-- operands of the compressed instruction, and expands them to the instruction that was compressed,
-- provided that `survives` holds of it: of `c.lui`, that the immediate is below 2 to 17; of
-- `c.addi16sp`, that it is a multiple of 16; of `c.nop`, that it is 0; and of `c.sub`, `c.xor`, `c.or`,
-- `c.and`, `c.subw` and `c.addw`, that both sources are one register.
pub compressed-roundtrip :
    (d : Decode)
    → d.codec ≡ codec_of d.op
    → IsEncodable (codec_of d.op) d
    → (compress_inst_rv64 d).1 ≡ true
    → survives (compress_inst_rv64 d).0.op d ≡ true
    → (w : ℕ) × (encode_inst (compress_inst_rv64 d).0 ≡ some ((compress_inst_rv64 d).0, w))
      × (decode_inst rv64imafdc blank w ≡ (compress_inst_rv64 d).0)
      × (inst_decode_rv64 blank w ≡ d)
unfolding compress_inst_rv64 decode_inst inst_decode_rv64
compressed-roundtrip d k fits h good =
    let t = rewrite_by_lem FormKeeps rv_inst_comp_rv64 d forms_keep h in
    let c = t.0 in
    let x = with_op d c.op in
    let ok = t.1.0 d fits t.2 (ap (λ (e : Decode). survives e.op d) (sym t.3) ∙ good) in
    let source : (c.op ≡ Op.c_mv) → d.rs1 ≢ 0 =
      λ e. source_of d k h (ap (λ (y : Decode). y.op) t.3 ∙ e) in
    let op = told d.op c d t.1 ok t.2 source in
    let decoded : decode_inst rv64imafdc blank (word x) ≡ x =
      rw op (decode_inst_type-word x t.1.1 t.1.2 refl ok) in
    let expanded : decompress_inst_rv64 x ≡ d = ap decompress_inst_rv64 (sym t.3) ∙ expands d k h in
    subst (λ (y : Decode). Reads y d) (sym t.3)
      (word x, encode_inst-word x refl ok, decoded, ap decompress_inst_rv64 decoded ∙ expanded)
