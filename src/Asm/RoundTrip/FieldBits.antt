-- ===== src/Asm/RoundTrip/FieldBits.antt =====
-- The bits of a word that each format of src/asm/encode.h writes.
use rv8_riscv_ckpt.Base.{ℕ, ◌≡◌, refl, true}
use rv8_riscv_ckpt.Asm.Operands
use rv8_riscv_ckpt.Asm.Inst.{Codec}
use rv8_riscv_ckpt.Asm.Types.{encode, encode_segments, encode_ranges, shift_up, mask}
use rv8_riscv_ckpt.Asm.Types.Scatter.{fit_ranges}
use rv8_riscv_ckpt.Asm.Types.Layout.{sound, fit}
use rv8_riscv_ckpt.Asm.Types.Within.{fields_of}
use rv8_riscv_ckpt.Asm.RoundTrip.Layouts.{layout}

unfoldable pub field_bits : Codec → ℕ
field_bits Codec.illegal = 0x0
field_bits Codec.none = 0x0
field_bits Codec.u = 0xffffff80
field_bits Codec.uj = 0xffffff80
field_bits Codec.i = 0xffff8f80
field_bits Codec.i_sh5 = 0x1ff8f80
field_bits Codec.i_sh6 = 0x3ff8f80
field_bits Codec.i_sh7 = 0x7ff8f80
field_bits Codec.i_csr = 0xffff8f80
field_bits Codec.s = 0xffff8f80
field_bits Codec.sb = 0xffff8f80
field_bits Codec.r = 0x1ff8f80
field_bits Codec.r_m = 0x1ffff80
field_bits Codec.r4_m = 0xf9ffff80
field_bits Codec.r_a = 0x7ff8f80
field_bits Codec.r_l = 0x60f8f80
field_bits Codec.r_f = 0xff00000
field_bits Codec.cb = 0x1ffc
field_bits Codec.cb_imm = 0x13fc
field_bits Codec.cb_sh5 = 0x3fc
field_bits Codec.cb_sh6 = 0x13fc
field_bits Codec.ci = 0x1ffc
field_bits Codec.ci_sh5 = 0xffc
field_bits Codec.ci_sh6 = 0x1ffc
field_bits Codec.ci_16sp = 0x107c
field_bits Codec.ci_lwsp = 0x1ffc
field_bits Codec.ci_ldsp = 0x1ffc
field_bits Codec.ci_lqsp = 0x1ffc
field_bits Codec.ci_li = 0x1ffc
field_bits Codec.ci_lui = 0x1ffc
field_bits Codec.ci_none = 0x0
field_bits Codec.ciw_4spn = 0x1ffc
field_bits Codec.cj = 0x1ffc
field_bits Codec.cj_jal = 0x1ffc
field_bits Codec.cl_lw = 0x1ffc
field_bits Codec.cl_ld = 0x1ffc
field_bits Codec.cl_lq = 0x1ffc
field_bits Codec.cr = 0xffc
field_bits Codec.cr_mv = 0xffc
field_bits Codec.cr_jalr = 0xf80
field_bits Codec.cr_jr = 0xf80
field_bits Codec.cs = 0x39c
field_bits Codec.cs_sw = 0x1ffc
field_bits Codec.cs_sd = 0x1ffc
field_bits Codec.cs_sq = 0x1ffc
field_bits Codec.css_swsp = 0x1ffc
field_bits Codec.css_sdsp = 0x1ffc
field_bits Codec.css_sqsp = 0x1ffc

pub fields_of-layout : (c : Codec) → fields_of (layout c) ≡ field_bits c
unfolding layout encode encode_segments encode_ranges shift_up mask Operands.aq Operands.cimm16sp
    Operands.cimm4spn Operands.cimmb Operands.cimmd Operands.cimmi Operands.cimmj Operands.cimmldsp
    Operands.cimmlqsp Operands.cimmlwsp Operands.cimmq Operands.cimmsdsp Operands.cimmsh5
    Operands.cimmsh6 Operands.cimmsqsp Operands.cimmswsp Operands.cimmui Operands.cimmw Operands.crd
    Operands.crdq Operands.crs1 Operands.crs1q Operands.crs1rd Operands.crs1rdq Operands.crs2
    Operands.crs2q Operands.csr12 Operands.imm12 Operands.imm20 Operands.jimm20 Operands.pred
    Operands.rd Operands.rl Operands.rm Operands.rs1 Operands.rs2 Operands.rs3 Operands.sbimm12
    Operands.shamt5 Operands.shamt6 Operands.shamt7 Operands.simm12 Operands.succ field_bits
fields_of-layout Codec.illegal = refl
fields_of-layout Codec.none = refl
fields_of-layout Codec.u = refl
fields_of-layout Codec.uj = refl
fields_of-layout Codec.i = refl
fields_of-layout Codec.i_sh5 = refl
fields_of-layout Codec.i_sh6 = refl
fields_of-layout Codec.i_sh7 = refl
fields_of-layout Codec.i_csr = refl
fields_of-layout Codec.s = refl
fields_of-layout Codec.sb = refl
fields_of-layout Codec.r = refl
fields_of-layout Codec.r_m = refl
fields_of-layout Codec.r4_m = refl
fields_of-layout Codec.r_a = refl
fields_of-layout Codec.r_l = refl
fields_of-layout Codec.r_f = refl
fields_of-layout Codec.cb = refl
fields_of-layout Codec.cb_imm = refl
fields_of-layout Codec.cb_sh5 = refl
fields_of-layout Codec.cb_sh6 = refl
fields_of-layout Codec.ci = refl
fields_of-layout Codec.ci_sh5 = refl
fields_of-layout Codec.ci_sh6 = refl
fields_of-layout Codec.ci_16sp = refl
fields_of-layout Codec.ci_lwsp = refl
fields_of-layout Codec.ci_ldsp = refl
fields_of-layout Codec.ci_lqsp = refl
fields_of-layout Codec.ci_li = refl
fields_of-layout Codec.ci_lui = refl
fields_of-layout Codec.ci_none = refl
fields_of-layout Codec.ciw_4spn = refl
fields_of-layout Codec.cj = refl
fields_of-layout Codec.cj_jal = refl
fields_of-layout Codec.cl_lw = refl
fields_of-layout Codec.cl_ld = refl
fields_of-layout Codec.cl_lq = refl
fields_of-layout Codec.cr = refl
fields_of-layout Codec.cr_mv = refl
fields_of-layout Codec.cr_jalr = refl
fields_of-layout Codec.cr_jr = refl
fields_of-layout Codec.cs = refl
fields_of-layout Codec.cs_sw = refl
fields_of-layout Codec.cs_sd = refl
fields_of-layout Codec.cs_sq = refl
fields_of-layout Codec.css_swsp = refl
fields_of-layout Codec.css_sdsp = refl
fields_of-layout Codec.css_sqsp = refl

pub layout-sound : (c : Codec) → sound (layout c) ≡ true
unfolding sound fit fit_ranges layout Operands.aq Operands.cimm16sp Operands.cimm4spn Operands.cimmb
    Operands.cimmd Operands.cimmi Operands.cimmj Operands.cimmldsp Operands.cimmlqsp
    Operands.cimmlwsp Operands.cimmq Operands.cimmsdsp Operands.cimmsh5 Operands.cimmsh6
    Operands.cimmsqsp Operands.cimmswsp Operands.cimmui Operands.cimmw Operands.crd Operands.crdq
    Operands.crs1 Operands.crs1q Operands.crs1rd Operands.crs1rdq Operands.crs2 Operands.crs2q
    Operands.csr12 Operands.imm12 Operands.imm20 Operands.jimm20 Operands.pred Operands.rd
    Operands.rl Operands.rm Operands.rs1 Operands.rs2 Operands.rs3 Operands.sbimm12 Operands.shamt5
    Operands.shamt6 Operands.shamt7 Operands.simm12 Operands.succ
layout-sound Codec.illegal = refl
layout-sound Codec.none = refl
layout-sound Codec.u = refl
layout-sound Codec.uj = refl
layout-sound Codec.i = refl
layout-sound Codec.i_sh5 = refl
layout-sound Codec.i_sh6 = refl
layout-sound Codec.i_sh7 = refl
layout-sound Codec.i_csr = refl
layout-sound Codec.s = refl
layout-sound Codec.sb = refl
layout-sound Codec.r = refl
layout-sound Codec.r_m = refl
layout-sound Codec.r4_m = refl
layout-sound Codec.r_a = refl
layout-sound Codec.r_l = refl
layout-sound Codec.r_f = refl
layout-sound Codec.cb = refl
layout-sound Codec.cb_imm = refl
layout-sound Codec.cb_sh5 = refl
layout-sound Codec.cb_sh6 = refl
layout-sound Codec.ci = refl
layout-sound Codec.ci_sh5 = refl
layout-sound Codec.ci_sh6 = refl
layout-sound Codec.ci_16sp = refl
layout-sound Codec.ci_lwsp = refl
layout-sound Codec.ci_ldsp = refl
layout-sound Codec.ci_lqsp = refl
layout-sound Codec.ci_li = refl
layout-sound Codec.ci_lui = refl
layout-sound Codec.ci_none = refl
layout-sound Codec.ciw_4spn = refl
layout-sound Codec.cj = refl
layout-sound Codec.cj_jal = refl
layout-sound Codec.cl_lw = refl
layout-sound Codec.cl_ld = refl
layout-sound Codec.cl_lq = refl
layout-sound Codec.cr = refl
layout-sound Codec.cr_mv = refl
layout-sound Codec.cr_jalr = refl
layout-sound Codec.cr_jr = refl
layout-sound Codec.cs = refl
layout-sound Codec.cs_sw = refl
layout-sound Codec.cs_sd = refl
layout-sound Codec.cs_sq = refl
layout-sound Codec.css_swsp = refl
layout-sound Codec.css_sdsp = refl
layout-sound Codec.css_sqsp = refl
