-- ===== src/Emu/Interp/Ops.antt =====
-- src/asm/meta.h: the numbers of the integer and atomic instructions that src/emu/interp.h executes.
use rv8_riscv_ckpt.Base.{
  ◌||◌, ◌&&◌, some, leb, if◌then◌else◌, Bool, ℕ, List, [], ◌∷◌, Option, entry,
}
use rv8_riscv_ckpt.Emu.Amo.{AmoOp}

pub data BranchOp : Type 0 where
  beq bne blt bge bltu bgeu : BranchOp

pub data LoadOp : Type 0 where
  lb lh lw lbu lhu lwu ld : LoadOp

pub data StoreOp : Type 0 where
  sb sh sw sd : StoreOp

pub data ImmOp : Type 0 where
  addi slti sltiu xori ori andi : ImmOp

pub data ShiftOp : Type 0 where
  slli srli srai : ShiftOp

pub data RegOp : Type 0 where
  add sub sll slt sltu xor srl sra or and : RegOp

pub data WordOp : Type 0 where
  addiw slliw srliw sraiw addw subw sllw srlw sraw : WordOp

pub data MulOp : Type 0 where
  mul mulh mulhsu mulhu div divu rem remu : MulOp

pub data MulWordOp : Type 0 where
  mulw divw divuw remw remuw : MulWordOp

-- The size of an atomic instruction.
pub data Size : Type 0 where
  w d : Size

pub data Op : Type 0 where
  lui auipc jal jalr : Op
  branch : BranchOp → Op
  load : LoadOp → Op
  store : StoreOp → Op
  imm : ImmOp → Op
  shift : ShiftOp → Op
  reg : RegOp → Op
  word : WordOp → Op
  mul_div : MulOp → Op
  mul_word : MulWordOp → Op
  lr sc : Size → Op
  amo : Size → AmoOp → Op
  -- An instruction of the floating-point extensions, and one of those that have 64-bit integers.
  float float_long : Op

-- `enum rv_op`, the base, the multiplication and the atomic instructions.
abbrev pub int_ops : List (ℕ × Op)
int_ops =
    (1, Op.lui)
    ∷ (2, Op.auipc)
    ∷ (3, Op.jal)
    ∷ (4, Op.jalr)
    ∷ (5, Op.branch BranchOp.beq)
    ∷ (6, Op.branch BranchOp.bne)
    ∷ (7, Op.branch BranchOp.blt)
    ∷ (8, Op.branch BranchOp.bge)
    ∷ (9, Op.branch BranchOp.bltu)
    ∷ (10, Op.branch BranchOp.bgeu)
    ∷ (11, Op.load LoadOp.lb)
    ∷ (12, Op.load LoadOp.lh)
    ∷ (13, Op.load LoadOp.lw)
    ∷ (14, Op.load LoadOp.lbu)
    ∷ (15, Op.load LoadOp.lhu)
    ∷ (16, Op.store StoreOp.sb)
    ∷ (17, Op.store StoreOp.sh)
    ∷ (18, Op.store StoreOp.sw)
    ∷ (19, Op.imm ImmOp.addi)
    ∷ (20, Op.imm ImmOp.slti)
    ∷ (21, Op.imm ImmOp.sltiu)
    ∷ (22, Op.imm ImmOp.xori)
    ∷ (23, Op.imm ImmOp.ori)
    ∷ (24, Op.imm ImmOp.andi)
    ∷ (25, Op.shift ShiftOp.slli)
    ∷ (26, Op.shift ShiftOp.srli)
    ∷ (27, Op.shift ShiftOp.srai)
    ∷ (28, Op.reg RegOp.add)
    ∷ (29, Op.reg RegOp.sub)
    ∷ (30, Op.reg RegOp.sll)
    ∷ (31, Op.reg RegOp.slt)
    ∷ (32, Op.reg RegOp.sltu)
    ∷ (33, Op.reg RegOp.xor)
    ∷ (34, Op.reg RegOp.srl)
    ∷ (35, Op.reg RegOp.sra)
    ∷ (36, Op.reg RegOp.or)
    ∷ (37, Op.reg RegOp.and)
    ∷ (40, Op.load LoadOp.lwu)
    ∷ (41, Op.load LoadOp.ld)
    ∷ (42, Op.store StoreOp.sd)
    ∷ (43, Op.word WordOp.addiw)
    ∷ (44, Op.word WordOp.slliw)
    ∷ (45, Op.word WordOp.srliw)
    ∷ (46, Op.word WordOp.sraiw)
    ∷ (47, Op.word WordOp.addw)
    ∷ (48, Op.word WordOp.subw)
    ∷ (49, Op.word WordOp.sllw)
    ∷ (50, Op.word WordOp.srlw)
    ∷ (51, Op.word WordOp.sraw)
    ∷ (64, Op.mul_div MulOp.mul)
    ∷ (65, Op.mul_div MulOp.mulh)
    ∷ (66, Op.mul_div MulOp.mulhsu)
    ∷ (67, Op.mul_div MulOp.mulhu)
    ∷ (68, Op.mul_div MulOp.div)
    ∷ (69, Op.mul_div MulOp.divu)
    ∷ (70, Op.mul_div MulOp.rem)
    ∷ (71, Op.mul_div MulOp.remu)
    ∷ (72, Op.mul_word MulWordOp.mulw)
    ∷ (73, Op.mul_word MulWordOp.divw)
    ∷ (74, Op.mul_word MulWordOp.divuw)
    ∷ (75, Op.mul_word MulWordOp.remw)
    ∷ (76, Op.mul_word MulWordOp.remuw)
    ∷ (82, Op.lr Size.w)
    ∷ (83, Op.sc Size.w)
    ∷ (84, Op.amo Size.w AmoOp.amoswap)
    ∷ (85, Op.amo Size.w AmoOp.amoadd)
    ∷ (86, Op.amo Size.w AmoOp.amoxor)
    ∷ (87, Op.amo Size.w AmoOp.amoor)
    ∷ (88, Op.amo Size.w AmoOp.amoand)
    ∷ (89, Op.amo Size.w AmoOp.amomin)
    ∷ (90, Op.amo Size.w AmoOp.amomax)
    ∷ (91, Op.amo Size.w AmoOp.amominu)
    ∷ (92, Op.amo Size.w AmoOp.amomaxu)
    ∷ (93, Op.lr Size.d)
    ∷ (94, Op.sc Size.d)
    ∷ (95, Op.amo Size.d AmoOp.amoswap)
    ∷ (96, Op.amo Size.d AmoOp.amoadd)
    ∷ (97, Op.amo Size.d AmoOp.amoxor)
    ∷ (98, Op.amo Size.d AmoOp.amoor)
    ∷ (99, Op.amo Size.d AmoOp.amoand)
    ∷ (100, Op.amo Size.d AmoOp.amomin)
    ∷ (101, Op.amo Size.d AmoOp.amomax)
    ∷ (102, Op.amo Size.d AmoOp.amominu)
    ∷ (103, Op.amo Size.d AmoOp.amomaxu)
    ∷ []

-- The instructions of the floating-point extensions with single and double precision.
abbrev pub is_float : ℕ → Bool
is_float op = leb 131 op && leb op 192

abbrev pub is_float_long : ℕ → Bool
is_float_long op = leb 157 op && leb op 160 || leb 187 op && leb op 192

unfoldable pub int_op : ℕ → Option Op
int_op op =
    if is_float op
    then some (if is_float_long op then Op.float_long else Op.float)
    else entry op int_ops
