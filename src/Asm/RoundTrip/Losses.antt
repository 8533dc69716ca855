-- ===== src/Asm/RoundTrip/Losses.antt =====
-- src/asm: compressed forms whose encoding is narrower than their constraints.
use rv8_riscv_ckpt.Asm.Op
use rv8_riscv_ckpt.Asm.Switch.{decode_codec, decode_inst_type, encode_codec, encode_inst}
use rv8_riscv_ckpt.Asm.Encoders.{encode_ci_16sp, encode_ci_lui, encode_cs}
use rv8_riscv_ckpt.Asm.Inst.{imm64, blank, Codec, Decode}
use rv8_riscv_ckpt.Base.{
  bit_and-ones, refl, true, arith, ◌-◌, ◌+◌, bit_or, ◌≢◌, ◌*◌, ◌/◌, ◌%◌, ◌≤◌, get_or, ◌^◌, ◌∙◌,
  some, ℕ, false, ◌≡◌, ◌<◌,
}
use rv8_riscv_ckpt.Asm.RoundTrip.Opcodes.{
  decode_inst_type_of, encode_inst_of, match-IsClear, selects_by_rs2, op_count,
}
use rv8_riscv_ckpt.Asm.Codec.{first_form, rewrite_by, with_op, compress_inst_rv64, codec_of}
use rv8_riscv_ckpt.Asm.RoundTrip.Encodable.{IsPlain, IsSimm, IsEncodable}
use rv8_riscv_ckpt.Asm.Meta.{rv_inst_match, rv_inst_codec}
use rv8_riscv_ckpt.Asm.Types.{sign_extend}
use rv8_riscv_ckpt.Asm.Types.Layout.{build}
use rv8_riscv_ckpt.Asm.RoundTrip.Slots.{value}
use rv8_riscv_ckpt.Asm.RoundTrip.Layouts.{fields, layout}
use rv8_riscv_ckpt.Asm.Decoders.{decode_ci_16sp, decode_ci_lui}
use rv8_riscv_ckpt.Asm.Types.Read.{IsClear}
use rv8_riscv_ckpt.Asm.RoundTrip.Formats.{decode_codec-build, encode_codec-build}
use rv8_riscv_ckpt.Asm.RoundTrip.Checks.{format_reads}
use rv8_riscv_ckpt.Asm.Meta.Compress64.{rv_inst_comp_rv64}
use rv8_riscv_ckpt.Asm.Constraints.{holds, constraint_check}

-- No two-register form that `encode_cs` serves holds its second source. `encode_cs` writes `rd` where
-- `decode_cs` reads `rs2`, so whatever `rs2` is, the decoded instruction has `rd` in its place.
pub encode_cs-loses_rs2 :
    (d : Decode)
    → d.op < op_count
    → selects_by_rs2 d.op ≡ false
    → codec_of d.op ≡ Codec.cs
    → d.codec ≡ Codec.cs
    → IsEncodable Codec.cs (record d { rs2 = d.rd })
    → (w : ℕ) × (encode_inst d ≡ some (d, w))
      × (decode_inst_type (record blank { op = d.op }) w ≡ record d { rs2 = d.rd })
unfolding encode_codec encode_cs
encode_cs-loses_rs2 d h plain e k fits =
    let d' : Decode = record d { rs2 = d.rd } in
    let x = build (value d') (layout Codec.cs) in
    let m = get_or rv_inst_match d.op 0 in
    let clear : IsClear m (layout Codec.cs) = rw e at (match-IsClear d.op h plain) in
    (
      bit_or m x,
      encode_inst_of Codec.cs d x e k (encode_codec-build Codec.cs d' fits),
      decode_inst_type_of Codec.cs d.op (bit_or m x) e
          ∙ decode_codec-build Codec.cs d' m fits k clear,
    )

module _ (d : Decode) where
  -- The sign that `c.lui` gives to an immediate that `rvc_imm_18` accepts.
  lui_imm :
      2 ^ 17 ≤ d.imm
      → d.imm < 2 ^ 18
      → d.imm % 2 ^ 12 ≡ 0
      → sign_extend 18 (imm64 d.imm / 2 ^ 12 * 2 ^ 12 % 2 ^ 18) % 2 ^ 32 ≡ d.imm + (2 ^ 32 - 2 ^ 18)
  unfolding sign_extend imm64
  lui_imm a b c = ground arith

compress_lui :
    (d : Decode)
    → IsSimm 12 32 d.imm
    → d.op ≡ Op.lui
    → d.rd ≢ 0
    → d.rd ≢ 2
    → 2 ^ 17 ≤ d.imm
    → d.imm < 2 ^ 18
    → compress_inst_rv64 d ≡ (with_op d Op.c_lui, true)
unfolding compress_inst_rv64 rewrite_by first_form rv_inst_comp_rv64 constraint_check holds
compress_lui d fits lui nz nsp lo hi = ground arith

-- `addi sp, sp, imm` with an immediate that `c.addi` cannot hold.
abbrev pub IsStackStep : Decode → Type 0
IsStackStep d =
    (d.op ≡ Op.addi)
    × (d.rd ≡ 2)
    × (d.rs1 ≡ 2)
    × (d.rs2 ≡ 0)
    × IsSimm 2 10 d.imm
    × (64 ≤ (d.imm + 32) % 2 ^ 32)
    × IsPlain d

compress_addi16sp :
    (d : Decode) → IsStackStep d → compress_inst_rv64 d ≡ (with_op d Op.c_addi16sp, true)
unfolding compress_inst_rv64 rewrite_by first_form rv_inst_comp_rv64 constraint_check holds
compress_addi16sp d h = ground (arith, bit_and-ones 2 d.imm)

-- `lui` with an immediate from 2 to 17 up to 2 to 18 is compressed, since `rvc_imm_18` accepts it, but
-- `c.lui` sign-extends its 18 bits: the decoded immediate is the negative number 2 to 18 below it.
pub c_lui-changes_sign :
    (d : Decode)
    → IsEncodable Codec.u d
    → d.op ≡ Op.lui
    → d.rd ≢ 0
    → d.rd ≢ 2
    → 2 ^ 17 ≤ d.imm
    → d.imm < 2 ^ 18
    → (compress_inst_rv64 d ≡ (with_op d Op.c_lui, true))
      × ((w : ℕ) × (encode_inst (with_op d Op.c_lui) ≡ some (with_op d Op.c_lui, w))
          × (decode_inst_type (record blank { op = Op.c_lui }) w
              ≡ record d { op = Op.c_lui; codec = Codec.ci_lui; imm = d.imm + (2 ^ 32 - 2 ^ 18) }))
unfolding rv_inst_codec encode_codec encode_ci_lui layout decode_codec decode_ci_lui fields
c_lui-changes_sign d fits lui nz nsp lo hi =
    let c = with_op d Op.c_lui in
    let x = build (value c) (layout Codec.ci_lui) in
    let m = get_or rv_inst_match Op.c_lui 0 in
    let clear : IsClear m (layout Codec.ci_lui) =
      match-IsClear Op.c_lui (omega arith) (unfold selects_by_rs2 in refl) in
    (
      compress_lui d fits.3 lui nz nsp lo hi,
      (
        bit_or m x,
        encode_inst_of Codec.ci_lui c x refl refl (ground arith),
        decode_inst_type_of Codec.ci_lui Op.c_lui (bit_or m x) refl
            ∙ ground (arith, format_reads Codec.ci_lui m (value c) clear, lui_imm d),
      ),
    )

addi16sp_imm :
    (imm : ℕ)
    → IsSimm 2 10 imm
    → sign_extend 10 (imm64 imm / 2 ^ 4 * 2 ^ 4 % 2 ^ 10) % 2 ^ 32 ≡ imm / 16 * 16
unfolding sign_extend imm64
addi16sp_imm imm h = ground arith

-- `addi sp, sp, imm` is compressed to `c.addi16sp` when `imm` is a multiple of 4, of 10 signed bits
-- and outside the range of `c.addi`, since its constraint is `rvc_imm_x4`. The encoding holds
-- multiples of 16 only: the decoded immediate is `imm` rounded down to one.
pub c_addi16sp-rounds :
    (d : Decode)
    → IsStackStep d
    → (compress_inst_rv64 d ≡ (with_op d Op.c_addi16sp, true))
      × ((w : ℕ) × (encode_inst (with_op d Op.c_addi16sp) ≡ some (with_op d Op.c_addi16sp, w))
          × (decode_inst_type (record blank { op = Op.c_addi16sp }) w
              ≡ record d { op = Op.c_addi16sp; codec = Codec.ci_16sp; imm = d.imm / 16 * 16 }))
unfolding rv_inst_codec encode_codec encode_ci_16sp layout decode_codec decode_ci_16sp fields
c_addi16sp-rounds d h =
    let c = with_op d Op.c_addi16sp in
    let x = build (value c) (layout Codec.ci_16sp) in
    let m = get_or rv_inst_match Op.c_addi16sp 0 in
    let clear : IsClear m (layout Codec.ci_16sp) =
      match-IsClear Op.c_addi16sp (omega arith) (unfold selects_by_rs2 in refl) in
    (
      compress_addi16sp d h,
      (
        bit_or m x,
        encode_inst_of Codec.ci_16sp c x refl refl (ground arith),
        decode_inst_type_of Codec.ci_16sp Op.c_addi16sp (bit_or m x) refl
            ∙ ground (arith, format_reads Codec.ci_16sp m (value c) clear, addi16sp_imm d.imm),
      ),
    )
