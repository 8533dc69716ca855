-- ===== src/Asm/Switch/Floating.antt =====
-- src/asm/switch.h: the floating-point loads, stores and fused multiplications.
use rv8_riscv_ckpt.Base.{if◌then◌else◌, [], ◌∷◌}
use rv8_riscv_ckpt.Asm.Op as Op
use rv8_riscv_ckpt.Asm.Switch.Tree.{Isa, Tree, switch, illegal}

unfoldable pub float_loads : Isa → Tree
float_loads isa =
    switch ((12, 7) ∷ [])
      ((2, Tree.op (if isa.rvf then Op.flw else illegal))
        ∷ (3, Tree.op (if isa.rvd then Op.fld else illegal))
        ∷ (4, Tree.op (if isa.rvq then Op.flq else illegal))
        ∷ [])
      (Tree.op illegal)

unfoldable pub float_stores : Isa → Tree
float_stores isa =
    switch ((12, 7) ∷ [])
      ((2, Tree.op (if isa.rvf then Op.fsw else illegal))
        ∷ (3, Tree.op (if isa.rvd then Op.fsd else illegal))
        ∷ (4, Tree.op (if isa.rvq then Op.fsq else illegal))
        ∷ [])
      (Tree.op illegal)

unfoldable pub fmadd_fused : Isa → Tree
fmadd_fused isa =
    switch ((25, 3) ∷ [])
      ((0, Tree.op (if isa.rvf then Op.fmadd_s else illegal))
        ∷ (1, Tree.op (if isa.rvd then Op.fmadd_d else illegal))
        ∷ (3, Tree.op (if isa.rvq then Op.fmadd_q else illegal))
        ∷ [])
      (Tree.op illegal)

unfoldable pub fmsub_fused : Isa → Tree
fmsub_fused isa =
    switch ((25, 3) ∷ [])
      ((0, Tree.op (if isa.rvf then Op.fmsub_s else illegal))
        ∷ (1, Tree.op (if isa.rvd then Op.fmsub_d else illegal))
        ∷ (3, Tree.op (if isa.rvq then Op.fmsub_q else illegal))
        ∷ [])
      (Tree.op illegal)

unfoldable pub fnmsub_fused : Isa → Tree
fnmsub_fused isa =
    switch ((25, 3) ∷ [])
      ((0, Tree.op (if isa.rvf then Op.fnmsub_s else illegal))
        ∷ (1, Tree.op (if isa.rvd then Op.fnmsub_d else illegal))
        ∷ (3, Tree.op (if isa.rvq then Op.fnmsub_q else illegal))
        ∷ [])
      (Tree.op illegal)

unfoldable pub fnmadd_fused : Isa → Tree
fnmadd_fused isa =
    switch ((25, 3) ∷ [])
      ((0, Tree.op (if isa.rvf then Op.fnmadd_s else illegal))
        ∷ (1, Tree.op (if isa.rvd then Op.fnmadd_d else illegal))
        ∷ (3, Tree.op (if isa.rvq then Op.fnmadd_q else illegal))
        ∷ [])
      (Tree.op illegal)
