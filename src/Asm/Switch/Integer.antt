-- ===== src/Asm/Switch/Integer.antt =====
-- src/asm/switch.h: the integer and system instructions.
use rv8_riscv_ckpt.Base.{◌&&◌, if◌then◌else◌, [], ◌∷◌}
use rv8_riscv_ckpt.Asm.Op as Op
use rv8_riscv_ckpt.Asm.Switch.Tree.{Isa, Tree, switch, illegal}

unfoldable pub loads : Isa → Tree
loads isa =
    switch ((12, 7) ∷ [])
      ((0, Tree.op (if isa.rvi then Op.lb else illegal))
        ∷ (1, Tree.op (if isa.rvi then Op.lh else illegal))
        ∷ (2, Tree.op (if isa.rvi then Op.lw else illegal))
        ∷ (3, Tree.op (if isa.rvi then Op.ld else illegal))
        ∷ (4, Tree.op (if isa.rvi then Op.lbu else illegal))
        ∷ (5, Tree.op (if isa.rvi then Op.lhu else illegal))
        ∷ (6, Tree.op (if isa.rvi then Op.lwu else illegal))
        ∷ (7, Tree.op (if isa.rvi && isa.rv128 then Op.ldu else illegal))
        ∷ [])
      (Tree.op illegal)

unfoldable pub immediates : Isa → Tree
immediates isa =
    switch ((12, 7) ∷ [])
      ((0, Tree.op (if isa.rvi then Op.addi else illegal))
        ∷ (
          1,
          switch ((27, 31) ∷ [])
              ((
                0,
                Tree.op (
                    if isa.rvi && isa.rv32
                    then Op.slli
                    else if isa.rvi && isa.rv64
                    then Op.slli
                    else if isa.rvi && isa.rv128
                    then Op.slli
                    else illegal),
              )
                ∷ [])
              (Tree.op illegal),
        )
        ∷ (2, Tree.op (if isa.rvi then Op.slti else illegal))
        ∷ (3, Tree.op (if isa.rvi then Op.sltiu else illegal))
        ∷ (4, Tree.op (if isa.rvi then Op.xori else illegal))
        ∷ (
          5,
          switch ((27, 31) ∷ [])
              ((
                0,
                Tree.op (
                    if isa.rvi && isa.rv32
                    then Op.srli
                    else if isa.rvi && isa.rv64
                    then Op.srli
                    else if isa.rvi && isa.rv128
                    then Op.srli
                    else illegal),
              )
                ∷ (
                  8,
                  Tree.op (
                      if isa.rvi && isa.rv32
                      then Op.srai
                      else if isa.rvi && isa.rv64
                      then Op.srai
                      else if isa.rvi && isa.rv128
                      then Op.srai
                      else illegal),
                )
                ∷ [])
              (Tree.op illegal),
        )
        ∷ (6, Tree.op (if isa.rvi then Op.ori else illegal))
        ∷ (7, Tree.op (if isa.rvi then Op.andi else illegal))
        ∷ [])
      (Tree.op illegal)

unfoldable pub word_immediates : Isa → Tree
word_immediates isa =
    switch ((12, 7) ∷ [])
      ((0, Tree.op (if isa.rvi then Op.addiw else illegal))
        ∷ (
          1,
          switch ((25, 127) ∷ []) ((0, Tree.op (if isa.rvi then Op.slliw else illegal)) ∷ [])
              (Tree.op illegal),
        )
        ∷ (
          5,
          switch ((25, 127) ∷ [])
              ((0, Tree.op (if isa.rvi then Op.srliw else illegal))
                ∷ (32, Tree.op (if isa.rvi then Op.sraiw else illegal))
                ∷ [])
              (Tree.op illegal),
        )
        ∷ [])
      (Tree.op illegal)

unfoldable pub stores : Isa → Tree
stores isa =
    switch ((12, 7) ∷ [])
      ((0, Tree.op (if isa.rvi then Op.sb else illegal))
        ∷ (1, Tree.op (if isa.rvi then Op.sh else illegal))
        ∷ (2, Tree.op (if isa.rvi then Op.sw else illegal))
        ∷ (3, Tree.op (if isa.rvi then Op.sd else illegal))
        ∷ (4, Tree.op (if isa.rvi && isa.rv128 then Op.sq else illegal))
        ∷ [])
      (Tree.op illegal)

unfoldable pub registers : Isa → Tree
registers isa =
    switch ((22, 1016) ∷ (12, 7) ∷ [])
      ((0, Tree.op (if isa.rvi then Op.add else illegal))
        ∷ (1, Tree.op (if isa.rvi then Op.sll else illegal))
        ∷ (2, Tree.op (if isa.rvi then Op.slt else illegal))
        ∷ (3, Tree.op (if isa.rvi then Op.sltu else illegal))
        ∷ (4, Tree.op (if isa.rvi then Op.xor else illegal))
        ∷ (5, Tree.op (if isa.rvi then Op.srl else illegal))
        ∷ (6, Tree.op (if isa.rvi then Op.or else illegal))
        ∷ (7, Tree.op (if isa.rvi then Op.and else illegal))
        ∷ (8, Tree.op (if isa.rvm then Op.mul else illegal))
        ∷ (9, Tree.op (if isa.rvm then Op.mulh else illegal))
        ∷ (10, Tree.op (if isa.rvm then Op.mulhsu else illegal))
        ∷ (11, Tree.op (if isa.rvm then Op.mulhu else illegal))
        ∷ (12, Tree.op (if isa.rvm then Op.div else illegal))
        ∷ (13, Tree.op (if isa.rvm then Op.divu else illegal))
        ∷ (14, Tree.op (if isa.rvm then Op.rem else illegal))
        ∷ (15, Tree.op (if isa.rvm then Op.remu else illegal))
        ∷ (256, Tree.op (if isa.rvi then Op.sub else illegal))
        ∷ (261, Tree.op (if isa.rvi then Op.sra else illegal))
        ∷ [])
      (Tree.op illegal)

unfoldable pub word_registers : Isa → Tree
word_registers isa =
    switch ((22, 1016) ∷ (12, 7) ∷ [])
      ((0, Tree.op (if isa.rvi then Op.addw else illegal))
        ∷ (1, Tree.op (if isa.rvi then Op.sllw else illegal))
        ∷ (5, Tree.op (if isa.rvi then Op.srlw else illegal))
        ∷ (8, Tree.op (if isa.rvm then Op.mulw else illegal))
        ∷ (12, Tree.op (if isa.rvm then Op.divw else illegal))
        ∷ (13, Tree.op (if isa.rvm then Op.divuw else illegal))
        ∷ (14, Tree.op (if isa.rvm then Op.remw else illegal))
        ∷ (15, Tree.op (if isa.rvm then Op.remuw else illegal))
        ∷ (256, Tree.op (if isa.rvi then Op.subw else illegal))
        ∷ (261, Tree.op (if isa.rvi then Op.sraw else illegal))
        ∷ [])
      (Tree.op illegal)

unfoldable pub branches : Isa → Tree
branches isa =
    switch ((12, 7) ∷ [])
      ((0, Tree.op (if isa.rvi then Op.beq else illegal))
        ∷ (1, Tree.op (if isa.rvi then Op.bne else illegal))
        ∷ (4, Tree.op (if isa.rvi then Op.blt else illegal))
        ∷ (5, Tree.op (if isa.rvi then Op.bge else illegal))
        ∷ (6, Tree.op (if isa.rvi then Op.bltu else illegal))
        ∷ (7, Tree.op (if isa.rvi then Op.bgeu else illegal))
        ∷ [])
      (Tree.op illegal)

unfoldable pub jumps : Isa → Tree
jumps isa =
    switch ((12, 7) ∷ []) ((0, Tree.op (if isa.rvi then Op.jalr else illegal)) ∷ [])
      (Tree.op illegal)
