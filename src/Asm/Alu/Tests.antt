-- ===== src/Asm/Alu/Tests.antt =====
-- Concrete operands for the theorems on arithmetic.
use rv8_riscv_ckpt.Base.{◌⊎◌, ◌%◌, ℕ, ◌+◌, ◌-◌, ◌*◌, ◌/◌, ◌^◌, ◌<◌, ◌≡◌, ◌≢◌, arith}
use rv8_riscv_ckpt.Asm.Alu.{is_negative, magnitude, rem, div, mulhu}
use rv8_riscv_ckpt.Asm.Alu.Product.{mulhu_lem}
use rv8_riscv_ckpt.Asm.Alu.SignedDivision.{div-rem}

mulhu_lem_example : mulhu 32 (2 ^ 64 - 1) (2 ^ 63 + 5) ≡ (2 ^ 64 - 1) * (2 ^ 63 + 5) / 2 ^ 64
mulhu_lem_example = mulhu_lem 32 (2 ^ 64 - 1) (2 ^ 63 + 5) (omega arith) (omega arith)

abbrev divisor : ℕ
divisor = 7

abbrev two : ℕ
two = 2

-- -7 by 2, of 32 bits.
div-rem_example :
    ((div 32 (2 ^ 32 - divisor) two * two + rem 32 (2 ^ 32 - divisor) two) % 2 ^ 32
      ≡ 2 ^ 32 - divisor)
    × ((two ≢ 0)
        → (magnitude 32 (rem 32 (2 ^ 32 - divisor) two) < magnitude 32 two)
          × ((rem 32 (2 ^ 32 - divisor) two ≡ 0)
              ⊎ (is_negative 32 (rem 32 (2 ^ 32 - divisor) two)
                  ≡ is_negative 32 (2 ^ 32 - divisor))))
    × ((two ≡ 0) → div 32 (2 ^ 32 - divisor) two ≡ 2 ^ 32 - 1)
    × (div 32 (2 ^ 31) (2 ^ 32 - 1) ≡ 2 ^ 31)
div-rem_example = div-rem 31 (2 ^ 32 - divisor) two (omega arith) (omega arith)
