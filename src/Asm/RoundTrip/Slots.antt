-- ===== src/Asm/RoundTrip/Slots.antt =====
-- The values that an encoder of src/asm/encode.h puts into a word.
use rv8_riscv_ckpt.Base.{ℕ, ◌+◌, Bool, [], ◌∷◌, get_or}
use rv8_riscv_ckpt.Asm.Types.{Operand}
use rv8_riscv_ckpt.Asm.Inst.{Decode, imm64}

-- An operand that a decoder reads: the slot that its bits come from, and the range of those bits.
pub record Field : Type 0 where
  pub slot : ℕ
  pub operand : Operand
  pub signed : Bool
  pub lo : ℕ
  pub hi : ℕ

abbrev pub field : ℕ → Operand → Bool → ℕ → ℕ → Field
field slot operand signed lo hi = record {
  slot = slot;
  operand = operand;
  signed = signed;
  lo = lo;
  hi = hi;
}

abbrev pub rd : ℕ
rd = 0

abbrev pub rs1 : ℕ
rs1 = 1

abbrev pub rs2 : ℕ
rs2 = 2

abbrev pub rs3 : ℕ
rs3 = 3

abbrev pub imm : ℕ
imm = 4

abbrev pub rm : ℕ
rm = 5

abbrev pub aq : ℕ
aq = 6

abbrev pub rl : ℕ
rl = 7

abbrev pub pred : ℕ
pred = 8

abbrev pub succ : ℕ
succ = 9

abbrev pub rd_plus_8 : ℕ
rd_plus_8 = 10

abbrev pub rs1_plus_8 : ℕ
rs1_plus_8 = 11

abbrev pub rs2_plus_8 : ℕ
rs2_plus_8 = 12

-- The value of each slot.
abbrev pub value : Decode → ℕ → ℕ
value d s =
    get_or
      (d.rd
        ∷ d.rs1
        ∷ d.rs2
        ∷ d.rs3
        ∷ (imm64 d.imm)
        ∷ d.rm
        ∷ d.aq
        ∷ d.rl
        ∷ d.pred
        ∷ d.succ
        ∷ (d.rd + 8)
        ∷ (d.rs1 + 8)
        ∷ (d.rs2 + 8)
        ∷ [])
      s 0
