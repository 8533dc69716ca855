-- ===== src/Asm/Switch/Doubles.antt =====
-- src/asm/switch.h: the instructions of RV128 on double words.
use rv8_riscv_ckpt.Base.{◌&&◌, if◌then◌else◌, [], ◌∷◌}
use rv8_riscv_ckpt.Asm.Op as Op
use rv8_riscv_ckpt.Asm.Switch.Tree.{Isa, Tree, switch, illegal}

unfoldable pub double_immediates : Isa → Tree
double_immediates isa =
    switch ((12, 7) ∷ [])
      ((0, Tree.op (if isa.rvi && isa.rv128 then Op.addid else illegal))
        ∷ (
          1,
          switch ((26, 63) ∷ [])
              ((0, Tree.op (if isa.rvi && isa.rv128 then Op.sllid else illegal)) ∷ [])
              (Tree.op illegal),
        )
        ∷ (
          5,
          switch ((26, 63) ∷ [])
              ((0, Tree.op (if isa.rvi && isa.rv128 then Op.srlid else illegal))
                ∷ (16, Tree.op (if isa.rvi && isa.rv128 then Op.sraid else illegal))
                ∷ [])
              (Tree.op illegal),
        )
        ∷ [])
      (Tree.op illegal)

unfoldable pub double_registers : Isa → Tree
double_registers isa =
    switch ((22, 1016) ∷ (12, 7) ∷ [])
      ((0, Tree.op (if isa.rvi && isa.rv128 then Op.addd else illegal))
        ∷ (1, Tree.op (if isa.rvi && isa.rv128 then Op.slld else illegal))
        ∷ (5, Tree.op (if isa.rvi && isa.rv128 then Op.srld else illegal))
        ∷ (8, Tree.op (if isa.rvm && isa.rv128 then Op.muld else illegal))
        ∷ (12, Tree.op (if isa.rvm && isa.rv128 then Op.divd else illegal))
        ∷ (13, Tree.op (if isa.rvm && isa.rv128 then Op.divud else illegal))
        ∷ (14, Tree.op (if isa.rvm && isa.rv128 then Op.remd else illegal))
        ∷ (15, Tree.op (if isa.rvm && isa.rv128 then Op.remud else illegal))
        ∷ (256, Tree.op (if isa.rvi && isa.rv128 then Op.subd else illegal))
        ∷ (261, Tree.op (if isa.rvi && isa.rv128 then Op.srad else illegal))
        ∷ [])
      (Tree.op illegal)
