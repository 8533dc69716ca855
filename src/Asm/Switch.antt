-- ===== src/Asm/Switch.antt =====
-- src/asm/switch.h: the decoder and the encoder that an instruction's format selects.
pub mod Tree
pub mod Compressed
pub mod Integer
pub mod Doubles
pub mod System
pub mod Floating
pub mod FloatingOps
pub mod Opcode
pub mod Fixed
pub mod Told
use mathlib.Core.Option
use rv8_riscv_ckpt.Base.{ℕ, Option, some, bit_or, get_or}
use rv8_riscv_ckpt.Asm.Inst.{Codec, Decode}
use rv8_riscv_ckpt.Asm.Encoders.{
  encode_none, encode_u, encode_uj, encode_i, encode_i_sh5, encode_i_sh6, encode_i_sh7,
  encode_i_csr, encode_s, encode_sb, encode_r, encode_r_m, encode_r4_m, encode_r_a, encode_r_l,
  encode_r_f, encode_cb, encode_cb_imm, encode_cb_sh5, encode_cb_sh6, encode_ci, encode_ci_sh5,
  encode_ci_sh6, encode_ci_16sp, encode_ci_lwsp, encode_ci_ldsp, encode_ci_lqsp, encode_ci_li,
  encode_ci_lui, encode_ci_none, encode_ciw_4spn, encode_cj, encode_cj_jal, encode_cl_lw,
  encode_cl_ld, encode_cl_lq, encode_cr, encode_cr_mv, encode_cr_jalr, encode_cr_jr, encode_cs,
  encode_cs_sw, encode_cs_sd, encode_cs_sq, encode_css_swsp, encode_css_sdsp, encode_css_sqsp,
}
use rv8_riscv_ckpt.Asm.Decoders.{
  decode_none, decode_u, decode_uj, decode_i, decode_i_sh5, decode_i_sh6, decode_i_sh7,
  decode_i_csr, decode_s, decode_sb, decode_r, decode_r_m, decode_r4_m, decode_r_a, decode_r_l,
  decode_r_f, decode_cb, decode_cb_imm, decode_cb_sh5, decode_cb_sh6, decode_ci, decode_ci_sh5,
  decode_ci_sh6, decode_ci_16sp, decode_ci_lwsp, decode_ci_ldsp, decode_ci_lqsp, decode_ci_li,
  decode_ci_lui, decode_ci_none, decode_ciw_4spn, decode_cj, decode_cj_jal, decode_cl_lw,
  decode_cl_ld, decode_cl_lq, decode_cr, decode_cr_mv, decode_cr_jalr, decode_cr_jr, decode_cs,
  decode_cs_sw, decode_cs_sd, decode_cs_sq, decode_css_swsp, decode_css_sdsp, decode_css_sqsp,
}
use rv8_riscv_ckpt.Asm.Meta.{rv_inst_codec, rv_inst_match}

-- The `switch` of `decode_inst_type`; a format without a case leaves the instruction alone.
unfoldable pub decode_codec : Codec → Decode → ℕ → Decode
decode_codec Codec.illegal d inst = d
decode_codec Codec.none d inst = decode_none d inst
decode_codec Codec.u d inst = decode_u d inst
decode_codec Codec.uj d inst = decode_uj d inst
decode_codec Codec.i d inst = decode_i d inst
decode_codec Codec.i_sh5 d inst = decode_i_sh5 d inst
decode_codec Codec.i_sh6 d inst = decode_i_sh6 d inst
decode_codec Codec.i_sh7 d inst = decode_i_sh7 d inst
decode_codec Codec.i_csr d inst = decode_i_csr d inst
decode_codec Codec.s d inst = decode_s d inst
decode_codec Codec.sb d inst = decode_sb d inst
decode_codec Codec.r d inst = decode_r d inst
decode_codec Codec.r_m d inst = decode_r_m d inst
decode_codec Codec.r4_m d inst = decode_r4_m d inst
decode_codec Codec.r_a d inst = decode_r_a d inst
decode_codec Codec.r_l d inst = decode_r_l d inst
decode_codec Codec.r_f d inst = decode_r_f d inst
decode_codec Codec.cb d inst = decode_cb d inst
decode_codec Codec.cb_imm d inst = decode_cb_imm d inst
decode_codec Codec.cb_sh5 d inst = decode_cb_sh5 d inst
decode_codec Codec.cb_sh6 d inst = decode_cb_sh6 d inst
decode_codec Codec.ci d inst = decode_ci d inst
decode_codec Codec.ci_sh5 d inst = decode_ci_sh5 d inst
decode_codec Codec.ci_sh6 d inst = decode_ci_sh6 d inst
decode_codec Codec.ci_16sp d inst = decode_ci_16sp d inst
decode_codec Codec.ci_lwsp d inst = decode_ci_lwsp d inst
decode_codec Codec.ci_ldsp d inst = decode_ci_ldsp d inst
decode_codec Codec.ci_lqsp d inst = decode_ci_lqsp d inst
decode_codec Codec.ci_li d inst = decode_ci_li d inst
decode_codec Codec.ci_lui d inst = decode_ci_lui d inst
decode_codec Codec.ci_none d inst = decode_ci_none d inst
decode_codec Codec.ciw_4spn d inst = decode_ciw_4spn d inst
decode_codec Codec.cj d inst = decode_cj d inst
decode_codec Codec.cj_jal d inst = decode_cj_jal d inst
decode_codec Codec.cl_lw d inst = decode_cl_lw d inst
decode_codec Codec.cl_ld d inst = decode_cl_ld d inst
decode_codec Codec.cl_lq d inst = decode_cl_lq d inst
decode_codec Codec.cr d inst = decode_cr d inst
decode_codec Codec.cr_mv d inst = decode_cr_mv d inst
decode_codec Codec.cr_jalr d inst = decode_cr_jalr d inst
decode_codec Codec.cr_jr d inst = decode_cr_jr d inst
decode_codec Codec.cs d inst = decode_cs d inst
decode_codec Codec.cs_sw d inst = decode_cs_sw d inst
decode_codec Codec.cs_sd d inst = decode_cs_sd d inst
decode_codec Codec.cs_sq d inst = decode_cs_sq d inst
decode_codec Codec.css_swsp d inst = decode_css_swsp d inst
decode_codec Codec.css_sdsp d inst = decode_css_sdsp d inst
decode_codec Codec.css_sqsp d inst = decode_css_sqsp d inst

-- The `switch` of `encode_inst`: the bits that are joined to the opcode.
unfoldable pub encode_codec : Codec → Decode → Option ℕ
encode_codec Codec.illegal d = some 0
encode_codec Codec.none d = encode_none d
encode_codec Codec.u d = encode_u d
encode_codec Codec.uj d = encode_uj d
encode_codec Codec.i d = encode_i d
encode_codec Codec.i_sh5 d = encode_i_sh5 d
encode_codec Codec.i_sh6 d = encode_i_sh6 d
encode_codec Codec.i_sh7 d = encode_i_sh7 d
encode_codec Codec.i_csr d = encode_i_csr d
encode_codec Codec.s d = encode_s d
encode_codec Codec.sb d = encode_sb d
encode_codec Codec.r d = encode_r d
encode_codec Codec.r_m d = encode_r_m d
encode_codec Codec.r4_m d = encode_r4_m d
encode_codec Codec.r_a d = encode_r_a d
encode_codec Codec.r_l d = encode_r_l d
encode_codec Codec.r_f d = encode_r_f d
encode_codec Codec.cb d = encode_cb d
encode_codec Codec.cb_imm d = encode_cb_imm d
encode_codec Codec.cb_sh5 d = encode_cb_sh5 d
encode_codec Codec.cb_sh6 d = encode_cb_sh6 d
encode_codec Codec.ci d = encode_ci d
encode_codec Codec.ci_sh5 d = encode_ci_sh5 d
encode_codec Codec.ci_sh6 d = encode_ci_sh6 d
encode_codec Codec.ci_16sp d = encode_ci_16sp d
encode_codec Codec.ci_lwsp d = encode_ci_lwsp d
encode_codec Codec.ci_ldsp d = encode_ci_ldsp d
encode_codec Codec.ci_lqsp d = encode_ci_lqsp d
encode_codec Codec.ci_li d = encode_ci_li d
encode_codec Codec.ci_lui d = encode_ci_lui d
encode_codec Codec.ci_none d = encode_ci_none d
encode_codec Codec.ciw_4spn d = encode_ciw_4spn d
encode_codec Codec.cj d = encode_cj d
encode_codec Codec.cj_jal d = encode_cj_jal d
encode_codec Codec.cl_lw d = encode_cl_lw d
encode_codec Codec.cl_ld d = encode_cl_ld d
encode_codec Codec.cl_lq d = encode_cl_lq d
encode_codec Codec.cr d = encode_cr d
encode_codec Codec.cr_mv d = encode_cr_mv d
encode_codec Codec.cr_jalr d = encode_cr_jalr d
encode_codec Codec.cr_jr d = encode_cr_jr d
encode_codec Codec.cs d = encode_cs d
encode_codec Codec.cs_sw d = encode_cs_sw d
encode_codec Codec.cs_sd d = encode_cs_sd d
encode_codec Codec.cs_sq d = encode_cs_sq d
encode_codec Codec.css_swsp d = encode_css_swsp d
encode_codec Codec.css_sdsp d = encode_css_sdsp d
encode_codec Codec.css_sqsp d = encode_css_sqsp d

unfoldable pub decode_inst_type : Decode → ℕ → Decode
decode_inst_type d inst =
    let c = get_or rv_inst_codec d.op Codec.illegal in decode_codec c (record d { codec = c }) inst

-- The instruction with its format set, and its encoding.
unfoldable pub encode_inst : Decode → Option (Decode × ℕ)
encode_inst d =
    let c = get_or rv_inst_codec d.op Codec.illegal in
    let inst = get_or rv_inst_match d.op 0 in
    Option.map (λ w. (record d { codec = c }, bit_or inst w))
      (encode_codec c (record d { codec = c }))
