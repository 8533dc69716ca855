-- ===== src/Asm/Meta/Codecs.antt =====
-- src/asm/meta.cc: the format of each opcode, in the order of `enum rv_op`.
use rv8_riscv_ckpt.Base.{List, [], ◌∷◌, ◌++◌}
use rv8_riscv_ckpt.Asm.Inst.{Codec}

unfoldable pub codec_integer : List Codec
codec_integer =
    Codec.illegal ∷ Codec.u ∷ Codec.u ∷ Codec.uj ∷ Codec.i ∷ Codec.sb ∷ Codec.sb ∷ Codec.sb
    ∷ Codec.sb ∷ Codec.sb ∷ Codec.sb ∷ Codec.i ∷ Codec.i ∷ Codec.i ∷ Codec.i ∷ Codec.i ∷ Codec.s
    ∷ Codec.s ∷ Codec.s ∷ Codec.i ∷ Codec.i ∷ Codec.i ∷ Codec.i ∷ Codec.i ∷ Codec.i ∷ Codec.i_sh7
    ∷ Codec.i_sh7 ∷ Codec.i_sh7 ∷ Codec.r ∷ Codec.r ∷ Codec.r ∷ Codec.r ∷ Codec.r ∷ Codec.r
    ∷ Codec.r ∷ Codec.r ∷ Codec.r ∷ Codec.r ∷ Codec.r_f ∷ Codec.none ∷ Codec.i ∷ Codec.i ∷ Codec.s
    ∷ Codec.i ∷ Codec.i_sh5 ∷ Codec.i_sh5 ∷ Codec.i_sh5 ∷ Codec.r ∷ Codec.r ∷ Codec.r ∷ Codec.r
    ∷ Codec.r ∷ Codec.i ∷ Codec.i ∷ Codec.s ∷ Codec.i ∷ Codec.i_sh6 ∷ Codec.i_sh6 ∷ Codec.i_sh6
    ∷ Codec.r ∷ Codec.r ∷ Codec.r ∷ Codec.r ∷ Codec.r ∷ Codec.r ∷ Codec.r ∷ Codec.r ∷ Codec.r
    ∷ Codec.r ∷ Codec.r ∷ Codec.r ∷ Codec.r ∷ Codec.r ∷ Codec.r ∷ Codec.r ∷ Codec.r ∷ Codec.r
    ∷ Codec.r ∷ Codec.r ∷ Codec.r ∷ Codec.r ∷ Codec.r ∷ Codec.r_l ∷ Codec.r_a ∷ Codec.r_a
    ∷ Codec.r_a ∷ Codec.r_a ∷ Codec.r_a ∷ Codec.r_a ∷ Codec.r_a ∷ Codec.r_a ∷ Codec.r_a ∷ Codec.r_a
    ∷ Codec.r_l ∷ Codec.r_a ∷ Codec.r_a ∷ Codec.r_a ∷ Codec.r_a ∷ Codec.r_a ∷ Codec.r_a ∷ Codec.r_a
    ∷ Codec.r_a ∷ Codec.r_a ∷ Codec.r_a ∷ Codec.r_l ∷ Codec.r_a ∷ Codec.r_a ∷ Codec.r_a ∷ Codec.r_a
    ∷ Codec.r_a ∷ Codec.r_a ∷ Codec.r_a ∷ Codec.r_a ∷ Codec.r_a ∷ Codec.r_a ∷ Codec.none
    ∷ Codec.none ∷ Codec.none ∷ Codec.none ∷ Codec.none ∷ Codec.none ∷ Codec.none ∷ Codec.r
    ∷ Codec.r ∷ Codec.none ∷ Codec.i_csr ∷ Codec.i_csr ∷ Codec.i_csr ∷ Codec.i_csr ∷ Codec.i_csr
    ∷ Codec.i_csr ∷ []

unfoldable pub codec_floating : List Codec
codec_floating =
    Codec.i ∷ Codec.s ∷ Codec.r4_m ∷ Codec.r4_m ∷ Codec.r4_m ∷ Codec.r4_m ∷ Codec.r_m ∷ Codec.r_m
    ∷ Codec.r_m ∷ Codec.r_m ∷ Codec.r ∷ Codec.r ∷ Codec.r ∷ Codec.r ∷ Codec.r ∷ Codec.r_m ∷ Codec.r
    ∷ Codec.r ∷ Codec.r ∷ Codec.r_m ∷ Codec.r_m ∷ Codec.r_m ∷ Codec.r_m ∷ Codec.r ∷ Codec.r
    ∷ Codec.r ∷ Codec.r_m ∷ Codec.r_m ∷ Codec.r_m ∷ Codec.r_m ∷ Codec.i ∷ Codec.s ∷ Codec.r4_m
    ∷ Codec.r4_m ∷ Codec.r4_m ∷ Codec.r4_m ∷ Codec.r_m ∷ Codec.r_m ∷ Codec.r_m ∷ Codec.r_m ∷ Codec.r
    ∷ Codec.r ∷ Codec.r ∷ Codec.r ∷ Codec.r ∷ Codec.r_m ∷ Codec.r_m ∷ Codec.r_m ∷ Codec.r ∷ Codec.r
    ∷ Codec.r ∷ Codec.r_m ∷ Codec.r_m ∷ Codec.r_m ∷ Codec.r_m ∷ Codec.r ∷ Codec.r_m ∷ Codec.r_m
    ∷ Codec.r ∷ Codec.r_m ∷ Codec.r_m ∷ Codec.r ∷ Codec.i ∷ Codec.s ∷ Codec.r4_m ∷ Codec.r4_m
    ∷ Codec.r4_m ∷ Codec.r4_m ∷ Codec.r_m ∷ Codec.r_m ∷ Codec.r_m ∷ Codec.r_m ∷ Codec.r ∷ Codec.r
    ∷ Codec.r ∷ Codec.r ∷ Codec.r ∷ Codec.r_m ∷ Codec.r_m ∷ Codec.r_m ∷ Codec.r_m ∷ Codec.r_m
    ∷ Codec.r ∷ Codec.r ∷ Codec.r ∷ Codec.r_m ∷ Codec.r_m ∷ Codec.r_m ∷ Codec.r_m ∷ Codec.r
    ∷ Codec.r_m ∷ Codec.r_m ∷ Codec.r_m ∷ Codec.r_m ∷ Codec.r ∷ Codec.r ∷ []

unfoldable pub codec_compressed : List Codec
codec_compressed =
    Codec.ciw_4spn ∷ Codec.cl_ld ∷ Codec.cl_lw ∷ Codec.cl_lw ∷ Codec.cs_sd ∷ Codec.cs_sw
    ∷ Codec.cs_sw ∷ Codec.ci_none ∷ Codec.ci ∷ Codec.cj_jal ∷ Codec.ci_li ∷ Codec.ci_16sp
    ∷ Codec.ci_lui ∷ Codec.cb_sh6 ∷ Codec.cb_sh6 ∷ Codec.cb_imm ∷ Codec.cs ∷ Codec.cs ∷ Codec.cs
    ∷ Codec.cs ∷ Codec.cs ∷ Codec.cs ∷ Codec.cj ∷ Codec.cb ∷ Codec.cb ∷ Codec.ci_sh6 ∷ Codec.ci_ldsp
    ∷ Codec.ci_lwsp ∷ Codec.ci_lwsp ∷ Codec.cr_jr ∷ Codec.cr_mv ∷ Codec.ci_none ∷ Codec.cr_jalr
    ∷ Codec.cr ∷ Codec.css_sdsp ∷ Codec.css_swsp ∷ Codec.css_swsp ∷ Codec.cl_ld ∷ Codec.cs_sd
    ∷ Codec.ci ∷ Codec.ci_ldsp ∷ Codec.css_sdsp ∷ Codec.cl_lq ∷ Codec.cs_sq ∷ Codec.ci_lqsp
    ∷ Codec.css_sqsp ∷ []

unfoldable pub codec_pseudo : List Codec
codec_pseudo =
    Codec.i ∷ Codec.i ∷ Codec.i ∷ Codec.r ∷ Codec.r ∷ Codec.i ∷ Codec.i ∷ Codec.r ∷ Codec.r
    ∷ Codec.r ∷ Codec.r ∷ Codec.r ∷ Codec.r ∷ Codec.r ∷ Codec.r ∷ Codec.r ∷ Codec.r ∷ Codec.r
    ∷ Codec.r ∷ Codec.sb ∷ Codec.sb ∷ Codec.sb ∷ Codec.sb ∷ Codec.sb ∷ Codec.sb ∷ Codec.sb
    ∷ Codec.sb ∷ Codec.sb ∷ Codec.sb ∷ Codec.uj ∷ Codec.i ∷ Codec.i ∷ Codec.i_csr ∷ Codec.i_csr
    ∷ Codec.i_csr ∷ Codec.i_csr ∷ Codec.i_csr ∷ Codec.i_csr ∷ Codec.i_csr ∷ Codec.i_csr
    ∷ Codec.i_csr ∷ Codec.i_csr ∷ Codec.i_csr ∷ Codec.i_csr ∷ Codec.i_csr ∷ Codec.i_csr ∷ []

unfoldable pub rv_inst_codec : List Codec
unfolding codec_integer codec_floating codec_compressed codec_pseudo
rv_inst_codec = codec_integer ++ (codec_floating ++ (codec_compressed ++ codec_pseudo))
