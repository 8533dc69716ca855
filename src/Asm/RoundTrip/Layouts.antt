-- ===== src/Asm/RoundTrip/Layouts.antt =====
-- The word that each format of src/asm/encode.h builds, as a layout, and the fields that its decoder
-- in src/asm/decode.h reads.
use rv8_riscv_ckpt.Base.{true, false, List, [], ◌∷◌}
use rv8_riscv_ckpt.Asm.Types.Layout.{Layout, nothing, put, join}
use rv8_riscv_ckpt.Asm.Operands
use rv8_riscv_ckpt.Asm.Inst.{Codec}
use rv8_riscv_ckpt.Asm.RoundTrip.Slots.{
  rd, rs1, rs2, rs3, imm, rm, aq, rl, pred, succ, rd_plus_8, rs1_plus_8, rs2_plus_8, Field, field,
}

unfoldable pub layout : Codec → Layout
layout Codec.illegal = nothing
layout Codec.none = nothing
layout Codec.u = join (put rd Operands.rd) (put imm Operands.imm20)
layout Codec.uj = join (put rd Operands.rd) (put imm Operands.jimm20)
layout Codec.i = join (join (put rd Operands.rd) (put rs1 Operands.rs1)) (put imm Operands.imm12)
layout Codec.i_sh5 =
    join (join (put rd Operands.rd) (put rs1 Operands.rs1)) (put imm Operands.shamt5)
layout Codec.i_sh6 =
    join (join (put rd Operands.rd) (put rs1 Operands.rs1)) (put imm Operands.shamt6)
layout Codec.i_sh7 =
    join (join (put rd Operands.rd) (put rs1 Operands.rs1)) (put imm Operands.shamt7)
layout Codec.i_csr =
    join (join (put rd Operands.rd) (put rs1 Operands.rs1)) (put imm Operands.csr12)
layout Codec.s = join (join (put rs1 Operands.rs1) (put rs2 Operands.rs2)) (put imm Operands.simm12)
layout Codec.sb =
    join (join (put rs1 Operands.rs1) (put rs2 Operands.rs2)) (put imm Operands.sbimm12)
layout Codec.r = join (join (put rd Operands.rd) (put rs1 Operands.rs1)) (put rs2 Operands.rs2)
layout Codec.r_m =
    join (join (join (put rd Operands.rd) (put rs1 Operands.rs1)) (put rs2 Operands.rs2))
      (put rm Operands.rm)
layout Codec.r4_m =
    join
      (join (join (join (put rd Operands.rd) (put rs1 Operands.rs1)) (put rs2 Operands.rs2))
        (put rs3 Operands.rs3))
      (put rm Operands.rm)
layout Codec.r_a =
    join
      (join (join (join (put rd Operands.rd) (put rs1 Operands.rs1)) (put rs2 Operands.rs2))
        (put aq Operands.aq))
      (put rl Operands.rl)
layout Codec.r_l =
    join (join (join (put rd Operands.rd) (put rs1 Operands.rs1)) (put aq Operands.aq))
      (put rl Operands.rl)
layout Codec.r_f = join (put pred Operands.pred) (put succ Operands.succ)
layout Codec.cb = join (put rs1_plus_8 Operands.crs1q) (put imm Operands.cimmb)
layout Codec.cb_imm = join (put rs1_plus_8 Operands.crs1rdq) (put imm Operands.cimmi)
layout Codec.cb_sh5 = join (put rs1_plus_8 Operands.crs1rdq) (put imm Operands.cimmsh5)
layout Codec.cb_sh6 = join (put rs1_plus_8 Operands.crs1rdq) (put imm Operands.cimmsh6)
layout Codec.ci = join (put rs1 Operands.crs1rd) (put imm Operands.cimmi)
layout Codec.ci_sh5 = join (put rs1 Operands.crs1rd) (put imm Operands.cimmsh5)
layout Codec.ci_sh6 = join (put rs1 Operands.crs1rd) (put imm Operands.cimmsh6)
layout Codec.ci_16sp = put imm Operands.cimm16sp
layout Codec.ci_lwsp = join (put rd Operands.crd) (put imm Operands.cimmlwsp)
layout Codec.ci_ldsp = join (put rd Operands.crd) (put imm Operands.cimmldsp)
layout Codec.ci_lqsp = join (put rd Operands.crd) (put imm Operands.cimmlqsp)
layout Codec.ci_li = join (put rd Operands.crd) (put imm Operands.cimmi)
layout Codec.ci_lui = join (put rd Operands.crd) (put imm Operands.cimmui)
layout Codec.ci_none = nothing
layout Codec.ciw_4spn = join (put rd_plus_8 Operands.crdq) (put imm Operands.cimm4spn)
layout Codec.cj = put imm Operands.cimmj
layout Codec.cj_jal = put imm Operands.cimmj
layout Codec.cl_lw =
    join (join (put rd_plus_8 Operands.crdq) (put rs1_plus_8 Operands.crs1q))
      (put imm Operands.cimmw)
layout Codec.cl_ld =
    join (join (put rd_plus_8 Operands.crdq) (put rs1_plus_8 Operands.crs1q))
      (put imm Operands.cimmd)
layout Codec.cl_lq =
    join (join (put rd_plus_8 Operands.crdq) (put rs1_plus_8 Operands.crs1q))
      (put imm Operands.cimmq)
layout Codec.cr = join (put rd Operands.crs1rd) (put rs2 Operands.crs2)
layout Codec.cr_mv = join (put rd Operands.crd) (put rs1 Operands.crs2)
layout Codec.cr_jalr = put rs1 Operands.crs1
layout Codec.cr_jr = put rs1 Operands.crs1
layout Codec.cs = join (put rd_plus_8 Operands.crdq) (put rs1_plus_8 Operands.crs1q)
layout Codec.cs_sw =
    join (join (put rs1_plus_8 Operands.crs1q) (put rs2_plus_8 Operands.crs2q))
      (put imm Operands.cimmw)
layout Codec.cs_sd =
    join (join (put rs1_plus_8 Operands.crs1q) (put rs2_plus_8 Operands.crs2q))
      (put imm Operands.cimmd)
layout Codec.cs_sq =
    join (join (put rs1_plus_8 Operands.crs1q) (put rs2_plus_8 Operands.crs2q))
      (put imm Operands.cimmq)
layout Codec.css_swsp = join (put rs2 Operands.crs2) (put imm Operands.cimmswsp)
layout Codec.css_sdsp = join (put rs2 Operands.crs2) (put imm Operands.cimmsdsp)
layout Codec.css_sqsp = join (put rs2 Operands.crs2) (put imm Operands.cimmsqsp)

unfoldable pub fields : Codec → List Field
fields Codec.illegal = []
fields Codec.none = []
fields Codec.u = field rd Operands.rd false 0 5 ∷ field imm Operands.imm20 true 12 32 ∷ []
fields Codec.uj = field rd Operands.rd false 0 5 ∷ field imm Operands.jimm20 true 1 21 ∷ []
fields Codec.i =
    field rd Operands.rd false 0 5
    ∷ field rs1 Operands.rs1 false 0 5
    ∷ field imm Operands.imm12 true 0 12
    ∷ []
fields Codec.i_sh5 =
    field rd Operands.rd false 0 5
    ∷ field rs1 Operands.rs1 false 0 5
    ∷ field imm Operands.shamt5 false 0 5
    ∷ []
fields Codec.i_sh6 =
    field rd Operands.rd false 0 5
    ∷ field rs1 Operands.rs1 false 0 5
    ∷ field imm Operands.shamt6 false 0 6
    ∷ []
fields Codec.i_sh7 =
    field rd Operands.rd false 0 5
    ∷ field rs1 Operands.rs1 false 0 5
    ∷ field imm Operands.shamt7 false 0 7
    ∷ []
fields Codec.i_csr =
    field rd Operands.rd false 0 5
    ∷ field rs1 Operands.rs1 false 0 5
    ∷ field imm Operands.csr12 false 0 12
    ∷ []
fields Codec.s =
    field rs1 Operands.rs1 false 0 5
    ∷ field rs2 Operands.rs2 false 0 5
    ∷ field imm Operands.simm12 true 0 12
    ∷ []
fields Codec.sb =
    field rs1 Operands.rs1 false 0 5
    ∷ field rs2 Operands.rs2 false 0 5
    ∷ field imm Operands.sbimm12 true 1 13
    ∷ []
fields Codec.r =
    field rd Operands.rd false 0 5
    ∷ field rs1 Operands.rs1 false 0 5
    ∷ field rs2 Operands.rs2 false 0 5
    ∷ []
fields Codec.r_m =
    field rd Operands.rd false 0 5
    ∷ field rs1 Operands.rs1 false 0 5
    ∷ field rs2 Operands.rs2 false 0 5
    ∷ field rm Operands.rm false 0 3
    ∷ []
fields Codec.r4_m =
    field rd Operands.rd false 0 5
    ∷ field rs1 Operands.rs1 false 0 5
    ∷ field rs2 Operands.rs2 false 0 5
    ∷ field rs3 Operands.rs3 false 0 5
    ∷ field rm Operands.rm false 0 3
    ∷ []
fields Codec.r_a =
    field rd Operands.rd false 0 5
    ∷ field rs1 Operands.rs1 false 0 5
    ∷ field rs2 Operands.rs2 false 0 5
    ∷ field aq Operands.aq false 0 1
    ∷ field rl Operands.rl false 0 1
    ∷ []
fields Codec.r_l =
    field rd Operands.rd false 0 5
    ∷ field rs1 Operands.rs1 false 0 5
    ∷ field aq Operands.aq false 0 1
    ∷ field rl Operands.rl false 0 1
    ∷ []
fields Codec.r_f = field pred Operands.pred false 0 4 ∷ field succ Operands.succ false 0 4 ∷ []
fields Codec.cb = field rs1_plus_8 Operands.crs1q false 0 3 ∷ field imm Operands.cimmb true 1 9 ∷ []
fields Codec.cb_imm =
    field rs1_plus_8 Operands.crs1rdq false 0 3 ∷ field imm Operands.cimmi true 0 6 ∷ []
fields Codec.cb_sh5 =
    field rs1_plus_8 Operands.crs1rdq false 0 3 ∷ field imm Operands.cimmsh5 false 0 5 ∷ []
fields Codec.cb_sh6 =
    field rs1_plus_8 Operands.crs1rdq false 0 3 ∷ field imm Operands.cimmsh6 false 0 6 ∷ []
fields Codec.ci = field rs1 Operands.crs1rd false 0 5 ∷ field imm Operands.cimmi true 0 6 ∷ []
fields Codec.ci_sh5 =
    field rs1 Operands.crs1rd false 0 5 ∷ field imm Operands.cimmsh5 false 0 5 ∷ []
fields Codec.ci_sh6 =
    field rs1 Operands.crs1rd false 0 5 ∷ field imm Operands.cimmsh6 false 0 6 ∷ []
fields Codec.ci_16sp = field imm Operands.cimm16sp true 4 10 ∷ []
fields Codec.ci_lwsp = field rd Operands.crd false 0 5 ∷ field imm Operands.cimmlwsp false 2 8 ∷ []
fields Codec.ci_ldsp = field rd Operands.crd false 0 5 ∷ field imm Operands.cimmldsp false 3 9 ∷ []
fields Codec.ci_lqsp = field rd Operands.crd false 0 5 ∷ field imm Operands.cimmlqsp false 4 10 ∷ []
fields Codec.ci_li = field rd Operands.crd false 0 5 ∷ field imm Operands.cimmi true 0 6 ∷ []
fields Codec.ci_lui = field rd Operands.crd false 0 5 ∷ field imm Operands.cimmui true 12 18 ∷ []
fields Codec.ci_none = []
fields Codec.ciw_4spn =
    field rd_plus_8 Operands.crdq false 0 3 ∷ field imm Operands.cimm4spn false 2 10 ∷ []
fields Codec.cj = field imm Operands.cimmj true 1 12 ∷ []
fields Codec.cj_jal = field imm Operands.cimmj true 1 12 ∷ []
fields Codec.cl_lw =
    field rd_plus_8 Operands.crdq false 0 3
    ∷ field rs1_plus_8 Operands.crs1q false 0 3
    ∷ field imm Operands.cimmw false 2 7
    ∷ []
fields Codec.cl_ld =
    field rd_plus_8 Operands.crdq false 0 3
    ∷ field rs1_plus_8 Operands.crs1q false 0 3
    ∷ field imm Operands.cimmd false 3 8
    ∷ []
fields Codec.cl_lq =
    field rd_plus_8 Operands.crdq false 0 3
    ∷ field rs1_plus_8 Operands.crs1q false 0 3
    ∷ field imm Operands.cimmq false 4 9
    ∷ []
fields Codec.cr = field rd Operands.crs1rd false 0 5 ∷ field rs2 Operands.crs2 false 0 5 ∷ []
fields Codec.cr_mv = field rd Operands.crd false 0 5 ∷ field rs1 Operands.crs2 false 0 5 ∷ []
fields Codec.cr_jalr = field rs1 Operands.crs1 false 0 5 ∷ []
fields Codec.cr_jr = field rs1 Operands.crs1 false 0 5 ∷ []
fields Codec.cs =
    field rs1_plus_8 Operands.crs1rdq false 0 3 ∷ field rd_plus_8 Operands.crs2q false 0 3 ∷ []
fields Codec.cs_sw =
    field rs1_plus_8 Operands.crs1q false 0 3
    ∷ field rs2_plus_8 Operands.crs2q false 0 3
    ∷ field imm Operands.cimmw false 2 7
    ∷ []
fields Codec.cs_sd =
    field rs1_plus_8 Operands.crs1q false 0 3
    ∷ field rs2_plus_8 Operands.crs2q false 0 3
    ∷ field imm Operands.cimmd false 3 8
    ∷ []
fields Codec.cs_sq =
    field rs1_plus_8 Operands.crs1q false 0 3
    ∷ field rs2_plus_8 Operands.crs2q false 0 3
    ∷ field imm Operands.cimmq false 4 9
    ∷ []
fields Codec.css_swsp =
    field rs2 Operands.crs2 false 0 5 ∷ field imm Operands.cimmswsp false 2 8 ∷ []
fields Codec.css_sdsp =
    field rs2 Operands.crs2 false 0 5 ∷ field imm Operands.cimmsdsp false 3 9 ∷ []
fields Codec.css_sqsp =
    field rs2 Operands.crs2 false 0 5 ∷ field imm Operands.cimmsqsp false 4 10 ∷ []
