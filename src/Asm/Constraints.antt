-- ===== src/Asm/Constraints.antt =====
-- src/asm/constraints.h: the conditions under which one instruction stands for another.
use rv8_riscv_ckpt.Base.{
  ℕ, ◌+◌, ◌-◌, ◌%◌, ◌^◌, Bool, true, not, ◌&&◌, leb, ltb, ◌==◌, bit_and, List, [], ◌∷◌,
}
use rv8_riscv_ckpt.Asm.Inst.{Decode}

-- `enum rvc_constraint` without `rvc_end`, which ends an array.
pub data Constraint : Type 0 where
  simm_6 simm_9 simm_10 simm_12 imm_5 imm_6 imm_7 imm_8 imm_9 imm_10 imm_12 imm_18 imm_nz imm_x2
        imm_x4 imm_x8 imm_x16 rd_b3 rs1_b3 rs2_b3 rd_eq_rs1 rd_eq_ra rd_eq_sp rd_eq_x0 rs1_eq_sp
        rs1_eq_x0 rs2_eq_x0 rd_ne_x0_x2 rd_ne_x0 rs1_ne_x0 rs2_ne_x0 rs2_eq_rs1 rs1_eq_ra
        imm_eq_zero imm_eq_n1 imm_eq_p1 csr_eq_0x001 csr_eq_0x002 csr_eq_0x003 csr_eq_0xc00
        csr_eq_0xc01 csr_eq_0xc02 csr_eq_0xc80 csr_eq_0xc81 csr_eq_0xc82 :
      Constraint

-- `imm >= -n` and `imm < n` for the `int32_t` of a pattern: the order of its values is the order of
-- the patterns with the sign bit turned over.
abbrev biased : ℕ → ℕ
biased imm = (imm + 2 ^ 31) % 2 ^ 32

abbrev at_least : ℕ → ℕ → Bool
at_least n imm = leb (2 ^ 31 - n) (biased imm)

abbrev below : ℕ → ℕ → Bool
below n imm = ltb (biased imm) (2 ^ 31 + n)

-- One round of `constraint_check`.
unfoldable pub holds : Constraint → Decode → Bool
holds Constraint.simm_6 d = at_least 32 d.imm && below 32 d.imm
holds Constraint.simm_9 d = at_least 256 d.imm && below 256 d.imm
holds Constraint.simm_10 d = at_least 512 d.imm && below 512 d.imm
holds Constraint.simm_12 d = at_least 2048 d.imm && below 2048 d.imm
holds Constraint.imm_5 d = at_least 0 d.imm && below 32 d.imm
holds Constraint.imm_6 d = at_least 0 d.imm && below 64 d.imm
holds Constraint.imm_7 d = at_least 0 d.imm && below 128 d.imm
holds Constraint.imm_8 d = at_least 0 d.imm && below 256 d.imm
holds Constraint.imm_9 d = at_least 0 d.imm && below 512 d.imm
holds Constraint.imm_10 d = at_least 0 d.imm && below 1024 d.imm
holds Constraint.imm_12 d = at_least 0 d.imm && below 4096 d.imm
holds Constraint.imm_18 d = at_least 0 d.imm && below 262144 d.imm
holds Constraint.imm_nz d = not (d.imm == 0)
holds Constraint.imm_x2 d = bit_and d.imm 1 == 0
holds Constraint.imm_x4 d = bit_and d.imm 3 == 0
holds Constraint.imm_x8 d = bit_and d.imm 7 == 0
holds Constraint.imm_x16 d = bit_and d.imm 15 == 0
holds Constraint.rd_b3 d = leb 8 d.rd && leb d.rd 15
holds Constraint.rs1_b3 d = leb 8 d.rs1 && leb d.rs1 15
holds Constraint.rs2_b3 d = leb 8 d.rs2 && leb d.rs2 15
holds Constraint.rd_eq_rs1 d = d.rd == d.rs1
holds Constraint.rd_eq_ra d = d.rd == 1
holds Constraint.rd_eq_sp d = d.rd == 2
holds Constraint.rd_eq_x0 d = d.rd == 0
holds Constraint.rs1_eq_sp d = d.rs1 == 2
holds Constraint.rs1_eq_x0 d = d.rs1 == 0
holds Constraint.rs2_eq_x0 d = d.rs2 == 0
holds Constraint.rd_ne_x0_x2 d = not (d.rd == 0) && not (d.rd == 2)
holds Constraint.rd_ne_x0 d = not (d.rd == 0)
holds Constraint.rs1_ne_x0 d = not (d.rs1 == 0)
holds Constraint.rs2_ne_x0 d = not (d.rs2 == 0)
holds Constraint.rs2_eq_rs1 d = d.rs2 == d.rs1
holds Constraint.rs1_eq_ra d = d.rs1 == 1
holds Constraint.imm_eq_zero d = d.imm == 0
holds Constraint.imm_eq_n1 d = d.imm == 2 ^ 32 - 1
holds Constraint.imm_eq_p1 d = d.imm == 1
holds Constraint.csr_eq_0x001 d = d.imm == 0x001
holds Constraint.csr_eq_0x002 d = d.imm == 0x002
holds Constraint.csr_eq_0x003 d = d.imm == 0x003
holds Constraint.csr_eq_0xc00 d = d.imm == 0xc00
holds Constraint.csr_eq_0xc01 d = d.imm == 0xc01
holds Constraint.csr_eq_0xc02 d = d.imm == 0xc02
holds Constraint.csr_eq_0xc80 d = d.imm == 0xc80
holds Constraint.csr_eq_0xc81 d = d.imm == 0xc81
holds Constraint.csr_eq_0xc82 d = d.imm == 0xc82

unfoldable pub constraint_check : Decode → List Constraint → Bool
constraint_check d [] = true
constraint_check d (c ∷ cs) = holds c d && constraint_check d cs

-- One round of `constraint_set`; the other constraints change nothing.
unfoldable pub apply : Constraint → Decode → Decode
apply Constraint.rd_eq_rs1 d = record d { rd = d.rs1 }
apply Constraint.rd_eq_ra d = record d { rd = 1 }
apply Constraint.rd_eq_sp d = record d { rd = 2 }
apply Constraint.rd_eq_x0 d = record d { rd = 0 }
apply Constraint.rs1_eq_sp d = record d { rs1 = 2 }
apply Constraint.rs1_eq_x0 d = record d { rs1 = 0 }
apply Constraint.rs2_eq_x0 d = record d { rs2 = 0 }
apply Constraint.rs2_eq_rs1 d = record d { rs2 = d.rs1 }
apply Constraint.rs1_eq_ra d = record d { rs1 = 1 }
apply Constraint.imm_eq_zero d = record d { imm = 0 }
apply Constraint.imm_eq_n1 d = record d { imm = 2 ^ 32 - 1 }
apply Constraint.imm_eq_p1 d = record d { imm = 1 }
apply Constraint.csr_eq_0x001 d = record d { imm = 0x001 }
apply Constraint.csr_eq_0x002 d = record d { imm = 0x002 }
apply Constraint.csr_eq_0x003 d = record d { imm = 0x003 }
apply Constraint.csr_eq_0xc00 d = record d { imm = 0xc00 }
apply Constraint.csr_eq_0xc01 d = record d { imm = 0xc01 }
apply Constraint.csr_eq_0xc02 d = record d { imm = 0xc02 }
apply Constraint.csr_eq_0xc80 d = record d { imm = 0xc80 }
apply Constraint.csr_eq_0xc81 d = record d { imm = 0xc81 }
apply Constraint.csr_eq_0xc82 d = record d { imm = 0xc82 }
apply _ d = d

unfoldable pub constraint_set : Decode → List Constraint → Decode
constraint_set d [] = d
constraint_set d (c ∷ cs) = constraint_set (apply c d) cs
