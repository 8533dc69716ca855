-- ===== src/Asm/Switch/Compressed.antt =====
-- src/asm/switch.h: the compressed instructions.
use rv8_riscv_ckpt.Base.{◌&&◌, if◌then◌else◌, [], ◌∷◌}
use rv8_riscv_ckpt.Asm.Op as Op
use rv8_riscv_ckpt.Asm.Switch.Tree.{Isa, Tree, switch, illegal}

unfoldable pub quadrant_1_arithmetic : Isa → Tree
quadrant_1_arithmetic isa =
    switch ((10, 3) ∷ [])
      ((
        0,
        Tree.op (
            if isa.rvc && isa.rv32
            then Op.c_srli
            else if isa.rvc && isa.rv64
            then Op.c_srli
            else illegal),
      )
        ∷ (
          1,
          Tree.op (
              if isa.rvc && isa.rv32
              then Op.c_srai
              else if isa.rvc && isa.rv64
              then Op.c_srai
              else illegal),
        )
        ∷ (2, Tree.op (if isa.rvc then Op.c_andi else illegal))
        ∷ (
          3,
          switch ((10, 4) ∷ (5, 3) ∷ [])
              ((0, Tree.op (if isa.rvc then Op.c_sub else illegal))
                ∷ (1, Tree.op (if isa.rvc then Op.c_xor else illegal))
                ∷ (2, Tree.op (if isa.rvc then Op.c_or else illegal))
                ∷ (3, Tree.op (if isa.rvc then Op.c_and else illegal))
                ∷ (4, Tree.op (if isa.rvc then Op.c_subw else illegal))
                ∷ (5, Tree.op (if isa.rvc then Op.c_addw else illegal))
                ∷ [])
              (Tree.op illegal),
        )
        ∷ [])
      (Tree.op illegal)

unfoldable pub quadrant_2_registers : Isa → Tree
quadrant_2_registers isa =
    switch ((12, 1) ∷ [])
      ((
        0,
        switch ((2, 31) ∷ []) ((0, Tree.op (if isa.rvc then Op.c_jr else illegal)) ∷ [])
            (Tree.op (if isa.rvc then Op.c_mv else illegal)),
      )
        ∷ (
          1,
          switch ((2, 31) ∷ [])
              ((
                0,
                switch ((7, 31) ∷ []) ((0, Tree.op (if isa.rvc then Op.c_ebreak else illegal)) ∷ [])
                    (Tree.op (if isa.rvc then Op.c_jalr else illegal)),
              )
                ∷ [])
              (Tree.op (if isa.rvc then Op.c_add else illegal)),
        )
        ∷ [])
      (Tree.op illegal)

unfoldable pub quadrant_0 : Isa → Tree
quadrant_0 isa =
    switch ((13, 7) ∷ [])
      ((0, Tree.op (if isa.rvc then Op.c_addi4spn else illegal))
        ∷ (1, Tree.op (if isa.rvc then Op.c_fld else illegal))
        ∷ (2, Tree.op (if isa.rvc then Op.c_lw else illegal))
        ∷ (
          3,
          Tree.op (
              if isa.rvc && isa.rv32
              then Op.c_flw
              else if isa.rvc && isa.rv64
              then Op.c_ld
              else illegal),
        )
        ∷ (5, Tree.op (if isa.rvc then Op.c_fsd else illegal))
        ∷ (6, Tree.op (if isa.rvc then Op.c_sw else illegal))
        ∷ (
          7,
          Tree.op (
              if isa.rvc && isa.rv32
              then Op.c_fsw
              else if isa.rvc && isa.rv64
              then Op.c_sd
              else illegal),
        )
        ∷ [])
      (Tree.op illegal)

unfoldable pub quadrant_1 : Isa → Tree
quadrant_1 isa =
    switch ((13, 7) ∷ [])
      ((
        0,
        switch ((2, 2047) ∷ []) ((0, Tree.op (if isa.rvc then Op.c_nop else illegal)) ∷ [])
            (Tree.op (if isa.rvc then Op.c_addi else illegal)),
      )
        ∷ (
          1,
          Tree.op (
              if isa.rvc && isa.rv32
              then Op.c_jal
              else if isa.rvc && isa.rv64
              then Op.c_addiw
              else illegal),
        )
        ∷ (2, Tree.op (if isa.rvc then Op.c_li else illegal))
        ∷ (
          3,
          switch ((7, 31) ∷ []) ((2, Tree.op (if isa.rvc then Op.c_addi16sp else illegal)) ∷ [])
              (Tree.op (if isa.rvc then Op.c_lui else illegal)),
        )
        ∷ (4, quadrant_1_arithmetic isa)
        ∷ (5, Tree.op (if isa.rvc then Op.c_j else illegal))
        ∷ (6, Tree.op (if isa.rvc then Op.c_beqz else illegal))
        ∷ (7, Tree.op (if isa.rvc then Op.c_bnez else illegal))
        ∷ [])
      (Tree.op illegal)

unfoldable pub quadrant_2 : Isa → Tree
quadrant_2 isa =
    switch ((13, 7) ∷ [])
      ((
        0,
        Tree.op (
            if isa.rvc && isa.rv32
            then Op.c_slli
            else if isa.rvc && isa.rv64
            then Op.c_slli
            else illegal),
      )
        ∷ (1, Tree.op (if isa.rvc then Op.c_fldsp else illegal))
        ∷ (2, Tree.op (if isa.rvc then Op.c_lwsp else illegal))
        ∷ (
          3,
          Tree.op (
              if isa.rvc && isa.rv32
              then Op.c_flwsp
              else if isa.rvc && isa.rv64
              then Op.c_ldsp
              else illegal),
        )
        ∷ (4, quadrant_2_registers isa)
        ∷ (5, Tree.op (if isa.rvc then Op.c_fsdsp else illegal))
        ∷ (6, Tree.op (if isa.rvc then Op.c_swsp else illegal))
        ∷ (
          7,
          Tree.op (
              if isa.rvc && isa.rv32
              then Op.c_fswsp
              else if isa.rvc && isa.rv64
              then Op.c_sdsp
              else illegal),
        )
        ∷ [])
      (Tree.op illegal)
