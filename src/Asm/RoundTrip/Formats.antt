-- ===== src/Asm/RoundTrip/Formats.antt =====
-- For each format: what its encoder writes, and that its decoder reads it back.
use rv8_riscv_ckpt.Base.{ℕ, some, ◌≡◌, refl, arith, bit_or}
use rv8_riscv_ckpt.Asm.Types.Layout.{build}
use rv8_riscv_ckpt.Asm.Types.Read.{IsClear}
use rv8_riscv_ckpt.Asm.Inst.{Codec, Decode, blank}
use rv8_riscv_ckpt.Asm.Encoders.{
  encode_none, encode_u, encode_uj, encode_i, encode_i_sh5, encode_i_sh6, encode_i_sh7,
  encode_i_csr, encode_s, encode_sb, encode_r, encode_r_m, encode_r4_m, encode_r_a, encode_r_l,
  encode_r_f, encode_cb, encode_cb_imm, encode_cb_sh5, encode_cb_sh6, encode_ci, encode_ci_sh5,
  encode_ci_sh6, encode_ci_16sp, encode_ci_lwsp, encode_ci_ldsp, encode_ci_lqsp, encode_ci_li,
  encode_ci_lui, encode_ci_none, encode_ciw_4spn, encode_cj, encode_cj_jal, encode_cl_lw,
  encode_cl_ld, encode_cl_lq, encode_cr, encode_cr_mv, encode_cr_jalr, encode_cr_jr, encode_cs,
  encode_cs_sw, encode_cs_sd, encode_cs_sq, encode_css_swsp, encode_css_sdsp, encode_css_sqsp,
}
use rv8_riscv_ckpt.Asm.Decoders.{
  decode_none, decode_u, decode_uj, decode_i, decode_i_sh5, decode_i_sh6, decode_i_sh7,
  decode_i_csr, decode_s, decode_sb, decode_r, decode_r_m, decode_r4_m, decode_r_a, decode_r_l,
  decode_r_f, decode_cb, decode_cb_imm, decode_cb_sh5, decode_cb_sh6, decode_ci, decode_ci_sh5,
  decode_ci_sh6, decode_ci_16sp, decode_ci_lwsp, decode_ci_ldsp, decode_ci_lqsp, decode_ci_li,
  decode_ci_lui, decode_ci_none, decode_ciw_4spn, decode_cj, decode_cj_jal, decode_cl_lw,
  decode_cl_ld, decode_cl_lq, decode_cr, decode_cr_mv, decode_cr_jalr, decode_cr_jr, decode_cs,
  decode_cs_sw, decode_cs_sd, decode_cs_sq, decode_css_swsp, decode_css_sdsp, decode_css_sqsp,
}
use rv8_riscv_ckpt.Asm.Switch.{encode_codec, decode_codec}
use rv8_riscv_ckpt.Asm.RoundTrip.Slots.{value}
use rv8_riscv_ckpt.Asm.RoundTrip.Layouts.{layout, fields}
use rv8_riscv_ckpt.Asm.RoundTrip.Encodable.{IsEncodable}
use rv8_riscv_ckpt.Asm.RoundTrip.Checks.{format_reads}
use rv8_riscv_ckpt.Asm.RoundTrip.Immediates.{
  simm_0_12, simm_0_6, simm_12_18, simm_12_32, simm_1_12, simm_1_13, simm_1_21, simm_1_9, simm_4_10,
  uimm_0_12, uimm_0_5, uimm_0_6, uimm_0_7, uimm_2_10, uimm_2_7, uimm_2_8, uimm_3_8, uimm_3_9,
  uimm_4_10, uimm_4_9,
}

-- No assertion fails, and the word is the layout's.
pub encode_codec-build :
    (c : Codec) (d : Decode)
    → IsEncodable c d
    → encode_codec c d ≡ some (build (value d) (layout c))
unfolding encode_codec layout encode_none encode_u encode_uj encode_i encode_i_sh5 encode_i_sh6
    encode_i_sh7 encode_i_csr encode_s encode_sb encode_r encode_r_m encode_r4_m encode_r_a
    encode_r_l encode_r_f encode_cb encode_cb_imm encode_cb_sh5 encode_cb_sh6 encode_ci
    encode_ci_sh5 encode_ci_sh6 encode_ci_16sp encode_ci_lwsp encode_ci_ldsp encode_ci_lqsp
    encode_ci_li encode_ci_lui encode_ci_none encode_ciw_4spn encode_cj encode_cj_jal encode_cl_lw
    encode_cl_ld encode_cl_lq encode_cr encode_cr_mv encode_cr_jalr encode_cr_jr encode_cs
    encode_cs_sw encode_cs_sd encode_cs_sq encode_css_swsp encode_css_sdsp encode_css_sqsp
encode_codec-build Codec.illegal d h = refl
encode_codec-build Codec.none d h = refl
encode_codec-build Codec.u d h = refl
encode_codec-build Codec.uj d h = refl
encode_codec-build Codec.i d h = refl
encode_codec-build Codec.i_sh5 d h = refl
encode_codec-build Codec.i_sh6 d h = refl
encode_codec-build Codec.i_sh7 d h = refl
encode_codec-build Codec.i_csr d h = refl
encode_codec-build Codec.s d h = refl
encode_codec-build Codec.sb d h = refl
encode_codec-build Codec.r d h = refl
encode_codec-build Codec.r_m d h = refl
encode_codec-build Codec.r4_m d h = refl
encode_codec-build Codec.r_a d h = refl
encode_codec-build Codec.r_l d h = ground arith
encode_codec-build Codec.r_f d h = refl
encode_codec-build Codec.cb d h = refl
encode_codec-build Codec.cb_imm d h = ground arith
encode_codec-build Codec.cb_sh5 d h = ground arith
encode_codec-build Codec.cb_sh6 d h = ground arith
encode_codec-build Codec.ci d h = ground arith
encode_codec-build Codec.ci_sh5 d h = ground arith
encode_codec-build Codec.ci_sh6 d h = ground arith
encode_codec-build Codec.ci_16sp d h = ground arith
encode_codec-build Codec.ci_lwsp d h = ground arith
encode_codec-build Codec.ci_ldsp d h = ground arith
encode_codec-build Codec.ci_lqsp d h = ground arith
encode_codec-build Codec.ci_li d h = ground arith
encode_codec-build Codec.ci_lui d h = ground arith
encode_codec-build Codec.ci_none d h = ground arith
encode_codec-build Codec.ciw_4spn d h = ground arith
encode_codec-build Codec.cj d h = refl
encode_codec-build Codec.cj_jal d h = refl
encode_codec-build Codec.cl_lw d h = refl
encode_codec-build Codec.cl_ld d h = refl
encode_codec-build Codec.cl_lq d h = refl
encode_codec-build Codec.cr d h = ground arith
encode_codec-build Codec.cr_mv d h = ground arith
encode_codec-build Codec.cr_jalr d h = ground arith
encode_codec-build Codec.cr_jr d h = ground arith
encode_codec-build Codec.cs d h = ground arith
encode_codec-build Codec.cs_sw d h = refl
encode_codec-build Codec.cs_sd d h = refl
encode_codec-build Codec.cs_sq d h = refl
encode_codec-build Codec.css_swsp d h = ground arith
encode_codec-build Codec.css_sdsp d h = ground arith
encode_codec-build Codec.css_sqsp d h = ground arith

pub decode_codec-build :
    (c : Codec) (d : Decode) (m : ℕ)
    → IsEncodable c d
    → d.codec ≡ c
    → IsClear m (layout c)
    → decode_codec c (record blank { op = d.op; codec = c }) (bit_or m (build (value d) (layout c)))
      ≡ d
unfolding decode_codec fields decode_none decode_u decode_uj decode_i decode_i_sh5 decode_i_sh6
    decode_i_sh7 decode_i_csr decode_s decode_sb decode_r decode_r_m decode_r4_m decode_r_a
    decode_r_l decode_r_f decode_cb decode_cb_imm decode_cb_sh5 decode_cb_sh6 decode_ci
    decode_ci_sh5 decode_ci_sh6 decode_ci_16sp decode_ci_lwsp decode_ci_ldsp decode_ci_lqsp
    decode_ci_li decode_ci_lui decode_ci_none decode_ciw_4spn decode_cj decode_cj_jal decode_cl_lw
    decode_cl_ld decode_cl_lq decode_cr decode_cr_mv decode_cr_jalr decode_cr_jr decode_cs
    decode_cs_sw decode_cs_sd decode_cs_sq decode_css_swsp decode_css_sdsp decode_css_sqsp
decode_codec-build Codec.illegal d m h k clear = ground arith
decode_codec-build Codec.none d m h k clear =
    ground (arith, format_reads Codec.none m (value d) clear)
decode_codec-build Codec.u d m h k clear =
    ground (arith, format_reads Codec.u m (value d) clear, simm_12_32 d.imm)
decode_codec-build Codec.uj d m h k clear =
    ground (arith, format_reads Codec.uj m (value d) clear, simm_1_21 d.imm)
decode_codec-build Codec.i d m h k clear =
    ground (arith, format_reads Codec.i m (value d) clear, simm_0_12 d.imm)
decode_codec-build Codec.i_sh5 d m h k clear =
    ground (arith, format_reads Codec.i_sh5 m (value d) clear, uimm_0_5 d.imm)
decode_codec-build Codec.i_sh6 d m h k clear =
    ground (arith, format_reads Codec.i_sh6 m (value d) clear, uimm_0_6 d.imm)
decode_codec-build Codec.i_sh7 d m h k clear =
    ground (arith, format_reads Codec.i_sh7 m (value d) clear, uimm_0_7 d.imm)
decode_codec-build Codec.i_csr d m h k clear =
    ground (arith, format_reads Codec.i_csr m (value d) clear, uimm_0_12 d.imm)
decode_codec-build Codec.s d m h k clear =
    ground (arith, format_reads Codec.s m (value d) clear, simm_0_12 d.imm)
decode_codec-build Codec.sb d m h k clear =
    ground (arith, format_reads Codec.sb m (value d) clear, simm_1_13 d.imm)
decode_codec-build Codec.r d m h k clear = ground (arith, format_reads Codec.r m (value d) clear)
decode_codec-build Codec.r_m d m h k clear =
    ground (arith, format_reads Codec.r_m m (value d) clear)
decode_codec-build Codec.r4_m d m h k clear =
    ground (arith, format_reads Codec.r4_m m (value d) clear)
decode_codec-build Codec.r_a d m h k clear =
    ground (arith, format_reads Codec.r_a m (value d) clear)
decode_codec-build Codec.r_l d m h k clear =
    ground (arith, format_reads Codec.r_l m (value d) clear)
decode_codec-build Codec.r_f d m h k clear =
    ground (arith, format_reads Codec.r_f m (value d) clear)
decode_codec-build Codec.cb d m h k clear =
    ground (arith, format_reads Codec.cb m (value d) clear, simm_1_9 d.imm)
decode_codec-build Codec.cb_imm d m h k clear =
    ground (arith, format_reads Codec.cb_imm m (value d) clear, simm_0_6 d.imm)
decode_codec-build Codec.cb_sh5 d m h k clear =
    ground (arith, format_reads Codec.cb_sh5 m (value d) clear, uimm_0_5 d.imm)
decode_codec-build Codec.cb_sh6 d m h k clear =
    ground (arith, format_reads Codec.cb_sh6 m (value d) clear, uimm_0_6 d.imm)
decode_codec-build Codec.ci d m h k clear =
    ground (arith, format_reads Codec.ci m (value d) clear, simm_0_6 d.imm)
decode_codec-build Codec.ci_sh5 d m h k clear =
    ground (arith, format_reads Codec.ci_sh5 m (value d) clear, uimm_0_5 d.imm)
decode_codec-build Codec.ci_sh6 d m h k clear =
    ground (arith, format_reads Codec.ci_sh6 m (value d) clear, uimm_0_6 d.imm)
decode_codec-build Codec.ci_16sp d m h k clear =
    ground (arith, format_reads Codec.ci_16sp m (value d) clear, simm_4_10 d.imm)
decode_codec-build Codec.ci_lwsp d m h k clear =
    ground (arith, format_reads Codec.ci_lwsp m (value d) clear, uimm_2_8 d.imm)
decode_codec-build Codec.ci_ldsp d m h k clear =
    ground (arith, format_reads Codec.ci_ldsp m (value d) clear, uimm_3_9 d.imm)
decode_codec-build Codec.ci_lqsp d m h k clear =
    ground (arith, format_reads Codec.ci_lqsp m (value d) clear, uimm_4_10 d.imm)
decode_codec-build Codec.ci_li d m h k clear =
    ground (arith, format_reads Codec.ci_li m (value d) clear, simm_0_6 d.imm)
decode_codec-build Codec.ci_lui d m h k clear =
    ground (arith, format_reads Codec.ci_lui m (value d) clear, simm_12_18 d.imm)
decode_codec-build Codec.ci_none d m h k clear =
    ground (arith, format_reads Codec.ci_none m (value d) clear)
decode_codec-build Codec.ciw_4spn d m h k clear =
    ground (arith, format_reads Codec.ciw_4spn m (value d) clear, uimm_2_10 d.imm)
decode_codec-build Codec.cj d m h k clear =
    ground (arith, format_reads Codec.cj m (value d) clear, simm_1_12 d.imm)
decode_codec-build Codec.cj_jal d m h k clear =
    ground (arith, format_reads Codec.cj_jal m (value d) clear, simm_1_12 d.imm)
decode_codec-build Codec.cl_lw d m h k clear =
    ground (arith, format_reads Codec.cl_lw m (value d) clear, uimm_2_7 d.imm)
decode_codec-build Codec.cl_ld d m h k clear =
    ground (arith, format_reads Codec.cl_ld m (value d) clear, uimm_3_8 d.imm)
decode_codec-build Codec.cl_lq d m h k clear =
    ground (arith, format_reads Codec.cl_lq m (value d) clear, uimm_4_9 d.imm)
decode_codec-build Codec.cr d m h k clear = ground (arith, format_reads Codec.cr m (value d) clear)
decode_codec-build Codec.cr_mv d m h k clear =
    ground (arith, format_reads Codec.cr_mv m (value d) clear)
decode_codec-build Codec.cr_jalr d m h k clear =
    ground (arith, format_reads Codec.cr_jalr m (value d) clear)
decode_codec-build Codec.cr_jr d m h k clear =
    ground (arith, format_reads Codec.cr_jr m (value d) clear)
decode_codec-build Codec.cs d m h k clear = ground (arith, format_reads Codec.cs m (value d) clear)
decode_codec-build Codec.cs_sw d m h k clear =
    ground (arith, format_reads Codec.cs_sw m (value d) clear, uimm_2_7 d.imm)
decode_codec-build Codec.cs_sd d m h k clear =
    ground (arith, format_reads Codec.cs_sd m (value d) clear, uimm_3_8 d.imm)
decode_codec-build Codec.cs_sq d m h k clear =
    ground (arith, format_reads Codec.cs_sq m (value d) clear, uimm_4_9 d.imm)
decode_codec-build Codec.css_swsp d m h k clear =
    ground (arith, format_reads Codec.css_swsp m (value d) clear, uimm_2_8 d.imm)
decode_codec-build Codec.css_sdsp d m h k clear =
    ground (arith, format_reads Codec.css_sdsp m (value d) clear, uimm_3_9 d.imm)
decode_codec-build Codec.css_sqsp d m h k clear =
    ground (arith, format_reads Codec.css_sqsp m (value d) clear, uimm_4_10 d.imm)
