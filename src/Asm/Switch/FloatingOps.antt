-- ===== src/Asm/Switch/FloatingOps.antt =====
-- src/asm/switch.h: the floating-point operations.
use rv8_riscv_ckpt.Base.{if◌then◌else◌, [], ◌∷◌}
use rv8_riscv_ckpt.Asm.Op as Op
use rv8_riscv_ckpt.Asm.Switch.Tree.{Isa, Tree, switch, illegal}

unfoldable pub floats : Isa → Tree
floats isa =
    switch ((25, 127) ∷ [])
      ((0, Tree.op (if isa.rvf then Op.fadd_s else illegal))
        ∷ (1, Tree.op (if isa.rvd then Op.fadd_d else illegal))
        ∷ (3, Tree.op (if isa.rvq then Op.fadd_q else illegal))
        ∷ (4, Tree.op (if isa.rvf then Op.fsub_s else illegal))
        ∷ (5, Tree.op (if isa.rvd then Op.fsub_d else illegal))
        ∷ (7, Tree.op (if isa.rvq then Op.fsub_q else illegal))
        ∷ (8, Tree.op (if isa.rvf then Op.fmul_s else illegal))
        ∷ (9, Tree.op (if isa.rvd then Op.fmul_d else illegal))
        ∷ (11, Tree.op (if isa.rvq then Op.fmul_q else illegal))
        ∷ (12, Tree.op (if isa.rvf then Op.fdiv_s else illegal))
        ∷ (13, Tree.op (if isa.rvd then Op.fdiv_d else illegal))
        ∷ (15, Tree.op (if isa.rvq then Op.fdiv_q else illegal))
        ∷ (
          16,
          switch ((12, 7) ∷ [])
              ((0, Tree.op (if isa.rvf then Op.fsgnj_s else illegal))
                ∷ (1, Tree.op (if isa.rvf then Op.fsgnjn_s else illegal))
                ∷ (2, Tree.op (if isa.rvf then Op.fsgnjx_s else illegal))
                ∷ [])
              (Tree.op illegal),
        )
        ∷ (
          17,
          switch ((12, 7) ∷ [])
              ((0, Tree.op (if isa.rvd then Op.fsgnj_d else illegal))
                ∷ (1, Tree.op (if isa.rvd then Op.fsgnjn_d else illegal))
                ∷ (2, Tree.op (if isa.rvd then Op.fsgnjx_d else illegal))
                ∷ [])
              (Tree.op illegal),
        )
        ∷ (
          19,
          switch ((12, 7) ∷ [])
              ((0, Tree.op (if isa.rvq then Op.fsgnj_q else illegal))
                ∷ (1, Tree.op (if isa.rvq then Op.fsgnjn_q else illegal))
                ∷ (2, Tree.op (if isa.rvq then Op.fsgnjx_q else illegal))
                ∷ [])
              (Tree.op illegal),
        )
        ∷ (
          20,
          switch ((12, 7) ∷ [])
              ((0, Tree.op (if isa.rvf then Op.fmin_s else illegal))
                ∷ (1, Tree.op (if isa.rvf then Op.fmax_s else illegal))
                ∷ [])
              (Tree.op illegal),
        )
        ∷ (
          21,
          switch ((12, 7) ∷ [])
              ((0, Tree.op (if isa.rvd then Op.fmin_d else illegal))
                ∷ (1, Tree.op (if isa.rvd then Op.fmax_d else illegal))
                ∷ [])
              (Tree.op illegal),
        )
        ∷ (
          23,
          switch ((12, 7) ∷ [])
              ((0, Tree.op (if isa.rvq then Op.fmin_q else illegal))
                ∷ (1, Tree.op (if isa.rvq then Op.fmax_q else illegal))
                ∷ [])
              (Tree.op illegal),
        )
        ∷ (
          32,
          switch ((20, 31) ∷ [])
              ((1, Tree.op (if isa.rvd then Op.fcvt_s_d else illegal))
                ∷ (3, Tree.op (if isa.rvq then Op.fcvt_s_q else illegal))
                ∷ [])
              (Tree.op illegal),
        )
        ∷ (
          33,
          switch ((20, 31) ∷ [])
              ((0, Tree.op (if isa.rvd then Op.fcvt_d_s else illegal))
                ∷ (3, Tree.op (if isa.rvq then Op.fcvt_d_q else illegal))
                ∷ [])
              (Tree.op illegal),
        )
        ∷ (
          35,
          switch ((20, 31) ∷ [])
              ((0, Tree.op (if isa.rvq then Op.fcvt_q_s else illegal))
                ∷ (1, Tree.op (if isa.rvq then Op.fcvt_q_d else illegal))
                ∷ [])
              (Tree.op illegal),
        )
        ∷ (
          44,
          switch ((20, 31) ∷ []) ((0, Tree.op (if isa.rvf then Op.fsqrt_s else illegal)) ∷ [])
              (Tree.op illegal),
        )
        ∷ (
          45,
          switch ((20, 31) ∷ []) ((0, Tree.op (if isa.rvd then Op.fsqrt_d else illegal)) ∷ [])
              (Tree.op illegal),
        )
        ∷ (
          47,
          switch ((20, 31) ∷ []) ((0, Tree.op (if isa.rvq then Op.fsqrt_q else illegal)) ∷ [])
              (Tree.op illegal),
        )
        ∷ (
          80,
          switch ((12, 7) ∷ [])
              ((0, Tree.op (if isa.rvf then Op.fle_s else illegal))
                ∷ (1, Tree.op (if isa.rvf then Op.flt_s else illegal))
                ∷ (2, Tree.op (if isa.rvf then Op.feq_s else illegal))
                ∷ [])
              (Tree.op illegal),
        )
        ∷ (
          81,
          switch ((12, 7) ∷ [])
              ((0, Tree.op (if isa.rvd then Op.fle_d else illegal))
                ∷ (1, Tree.op (if isa.rvd then Op.flt_d else illegal))
                ∷ (2, Tree.op (if isa.rvd then Op.feq_d else illegal))
                ∷ [])
              (Tree.op illegal),
        )
        ∷ (
          83,
          switch ((12, 7) ∷ [])
              ((0, Tree.op (if isa.rvq then Op.fle_q else illegal))
                ∷ (1, Tree.op (if isa.rvq then Op.flt_q else illegal))
                ∷ (2, Tree.op (if isa.rvq then Op.feq_q else illegal))
                ∷ [])
              (Tree.op illegal),
        )
        ∷ (
          96,
          switch ((20, 31) ∷ [])
              ((0, Tree.op (if isa.rvf then Op.fcvt_w_s else illegal))
                ∷ (1, Tree.op (if isa.rvf then Op.fcvt_wu_s else illegal))
                ∷ (2, Tree.op (if isa.rvf then Op.fcvt_l_s else illegal))
                ∷ (3, Tree.op (if isa.rvf then Op.fcvt_lu_s else illegal))
                ∷ [])
              (Tree.op illegal),
        )
        ∷ (
          97,
          switch ((20, 31) ∷ [])
              ((0, Tree.op (if isa.rvd then Op.fcvt_w_d else illegal))
                ∷ (1, Tree.op (if isa.rvd then Op.fcvt_wu_d else illegal))
                ∷ (2, Tree.op (if isa.rvd then Op.fcvt_l_d else illegal))
                ∷ (3, Tree.op (if isa.rvd then Op.fcvt_lu_d else illegal))
                ∷ [])
              (Tree.op illegal),
        )
        ∷ (
          99,
          switch ((20, 31) ∷ [])
              ((0, Tree.op (if isa.rvq then Op.fcvt_w_q else illegal))
                ∷ (1, Tree.op (if isa.rvq then Op.fcvt_wu_q else illegal))
                ∷ (2, Tree.op (if isa.rvq then Op.fcvt_l_q else illegal))
                ∷ (3, Tree.op (if isa.rvq then Op.fcvt_lu_q else illegal))
                ∷ [])
              (Tree.op illegal),
        )
        ∷ (
          104,
          switch ((20, 31) ∷ [])
              ((0, Tree.op (if isa.rvf then Op.fcvt_s_w else illegal))
                ∷ (1, Tree.op (if isa.rvf then Op.fcvt_s_wu else illegal))
                ∷ (2, Tree.op (if isa.rvf then Op.fcvt_s_l else illegal))
                ∷ (3, Tree.op (if isa.rvf then Op.fcvt_s_lu else illegal))
                ∷ [])
              (Tree.op illegal),
        )
        ∷ (
          105,
          switch ((20, 31) ∷ [])
              ((0, Tree.op (if isa.rvd then Op.fcvt_d_w else illegal))
                ∷ (1, Tree.op (if isa.rvd then Op.fcvt_d_wu else illegal))
                ∷ (2, Tree.op (if isa.rvd then Op.fcvt_d_l else illegal))
                ∷ (3, Tree.op (if isa.rvd then Op.fcvt_d_lu else illegal))
                ∷ [])
              (Tree.op illegal),
        )
        ∷ (
          107,
          switch ((20, 31) ∷ [])
              ((0, Tree.op (if isa.rvq then Op.fcvt_q_w else illegal))
                ∷ (1, Tree.op (if isa.rvq then Op.fcvt_q_wu else illegal))
                ∷ (2, Tree.op (if isa.rvq then Op.fcvt_q_l else illegal))
                ∷ (3, Tree.op (if isa.rvq then Op.fcvt_q_lu else illegal))
                ∷ [])
              (Tree.op illegal),
        )
        ∷ (
          112,
          switch ((17, 248) ∷ (12, 7) ∷ [])
              ((0, Tree.op (if isa.rvf then Op.fmv_x_s else illegal))
                ∷ (1, Tree.op (if isa.rvf then Op.fclass_s else illegal))
                ∷ [])
              (Tree.op illegal),
        )
        ∷ (
          113,
          switch ((17, 248) ∷ (12, 7) ∷ [])
              ((0, Tree.op (if isa.rvd then Op.fmv_x_d else illegal))
                ∷ (1, Tree.op (if isa.rvd then Op.fclass_d else illegal))
                ∷ [])
              (Tree.op illegal),
        )
        ∷ (
          115,
          switch ((17, 248) ∷ (12, 7) ∷ [])
              ((0, Tree.op (if isa.rvq then Op.fmv_x_q else illegal))
                ∷ (1, Tree.op (if isa.rvq then Op.fclass_q else illegal))
                ∷ [])
              (Tree.op illegal),
        )
        ∷ (
          120,
          switch ((17, 248) ∷ (12, 7) ∷ [])
              ((0, Tree.op (if isa.rvf then Op.fmv_s_x else illegal)) ∷ []) (Tree.op illegal),
        )
        ∷ (
          121,
          switch ((17, 248) ∷ (12, 7) ∷ [])
              ((0, Tree.op (if isa.rvd then Op.fmv_d_x else illegal)) ∷ []) (Tree.op illegal),
        )
        ∷ (
          123,
          switch ((17, 248) ∷ (12, 7) ∷ [])
              ((0, Tree.op (if isa.rvq then Op.fmv_q_x else illegal)) ∷ []) (Tree.op illegal),
        )
        ∷ [])
      (Tree.op illegal)
