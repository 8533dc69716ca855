-- ===== src/Asm/RoundTrip/Immediates.antt =====
-- An immediate that fits its operand survives the cut to the operand's bits and the extension.
use rv8_riscv_ckpt.Base.{ℕ, ◌*◌, ◌/◌, ◌%◌, ◌^◌, ◌≡◌, arith}
use rv8_riscv_ckpt.Asm.Types.{sign_extend}
use rv8_riscv_ckpt.Asm.Inst.{imm64}
use rv8_riscv_ckpt.Asm.RoundTrip.Encodable.{IsSimm, IsUimm}

pub simm_0_6 :
    (imm : ℕ) → IsSimm 0 6 imm → sign_extend 6 (imm64 imm / 2 ^ 0 * 2 ^ 0 % 2 ^ 6) % 2 ^ 32 ≡ imm
unfolding sign_extend imm64
simm_0_6 imm h = ground arith

pub simm_0_12 :
    (imm : ℕ) → IsSimm 0 12 imm → sign_extend 12 (imm64 imm / 2 ^ 0 * 2 ^ 0 % 2 ^ 12) % 2 ^ 32 ≡ imm
unfolding sign_extend imm64
simm_0_12 imm h = ground arith

pub simm_1_9 :
    (imm : ℕ) → IsSimm 1 9 imm → sign_extend 9 (imm64 imm / 2 ^ 1 * 2 ^ 1 % 2 ^ 9) % 2 ^ 32 ≡ imm
unfolding sign_extend imm64
simm_1_9 imm h = ground arith

pub simm_1_12 :
    (imm : ℕ) → IsSimm 1 12 imm → sign_extend 12 (imm64 imm / 2 ^ 1 * 2 ^ 1 % 2 ^ 12) % 2 ^ 32 ≡ imm
unfolding sign_extend imm64
simm_1_12 imm h = ground arith

pub simm_1_13 :
    (imm : ℕ) → IsSimm 1 13 imm → sign_extend 13 (imm64 imm / 2 ^ 1 * 2 ^ 1 % 2 ^ 13) % 2 ^ 32 ≡ imm
unfolding sign_extend imm64
simm_1_13 imm h = ground arith

pub simm_1_21 :
    (imm : ℕ) → IsSimm 1 21 imm → sign_extend 21 (imm64 imm / 2 ^ 1 * 2 ^ 1 % 2 ^ 21) % 2 ^ 32 ≡ imm
unfolding sign_extend imm64
simm_1_21 imm h = ground arith

pub simm_4_10 :
    (imm : ℕ) → IsSimm 4 10 imm → sign_extend 10 (imm64 imm / 2 ^ 4 * 2 ^ 4 % 2 ^ 10) % 2 ^ 32 ≡ imm
unfolding sign_extend imm64
simm_4_10 imm h = ground arith

pub simm_12_18 :
    (imm : ℕ)
    → IsSimm 12 18 imm
    → sign_extend 18 (imm64 imm / 2 ^ 12 * 2 ^ 12 % 2 ^ 18) % 2 ^ 32 ≡ imm
unfolding sign_extend imm64
simm_12_18 imm h = ground arith

pub simm_12_32 :
    (imm : ℕ)
    → IsSimm 12 32 imm
    → sign_extend 32 (imm64 imm / 2 ^ 12 * 2 ^ 12 % 2 ^ 32) % 2 ^ 32 ≡ imm
unfolding sign_extend imm64
simm_12_32 imm h = ground arith

pub uimm_0_5 : (imm : ℕ) → IsUimm 0 5 imm → imm64 imm / 2 ^ 0 * 2 ^ 0 % 2 ^ 5 % 2 ^ 32 ≡ imm
unfolding imm64
uimm_0_5 imm h = ground arith

pub uimm_0_6 : (imm : ℕ) → IsUimm 0 6 imm → imm64 imm / 2 ^ 0 * 2 ^ 0 % 2 ^ 6 % 2 ^ 32 ≡ imm
unfolding imm64
uimm_0_6 imm h = ground arith

pub uimm_0_7 : (imm : ℕ) → IsUimm 0 7 imm → imm64 imm / 2 ^ 0 * 2 ^ 0 % 2 ^ 7 % 2 ^ 32 ≡ imm
unfolding imm64
uimm_0_7 imm h = ground arith

pub uimm_0_12 : (imm : ℕ) → IsUimm 0 12 imm → imm64 imm / 2 ^ 0 * 2 ^ 0 % 2 ^ 12 % 2 ^ 32 ≡ imm
unfolding imm64
uimm_0_12 imm h = ground arith

pub uimm_2_7 : (imm : ℕ) → IsUimm 2 7 imm → imm64 imm / 2 ^ 2 * 2 ^ 2 % 2 ^ 7 % 2 ^ 32 ≡ imm
unfolding imm64
uimm_2_7 imm h = ground arith

pub uimm_2_8 : (imm : ℕ) → IsUimm 2 8 imm → imm64 imm / 2 ^ 2 * 2 ^ 2 % 2 ^ 8 % 2 ^ 32 ≡ imm
unfolding imm64
uimm_2_8 imm h = ground arith

pub uimm_2_10 : (imm : ℕ) → IsUimm 2 10 imm → imm64 imm / 2 ^ 2 * 2 ^ 2 % 2 ^ 10 % 2 ^ 32 ≡ imm
unfolding imm64
uimm_2_10 imm h = ground arith

pub uimm_3_8 : (imm : ℕ) → IsUimm 3 8 imm → imm64 imm / 2 ^ 3 * 2 ^ 3 % 2 ^ 8 % 2 ^ 32 ≡ imm
unfolding imm64
uimm_3_8 imm h = ground arith

pub uimm_3_9 : (imm : ℕ) → IsUimm 3 9 imm → imm64 imm / 2 ^ 3 * 2 ^ 3 % 2 ^ 9 % 2 ^ 32 ≡ imm
unfolding imm64
uimm_3_9 imm h = ground arith

pub uimm_4_9 : (imm : ℕ) → IsUimm 4 9 imm → imm64 imm / 2 ^ 4 * 2 ^ 4 % 2 ^ 9 % 2 ^ 32 ≡ imm
unfolding imm64
uimm_4_9 imm h = ground arith

pub uimm_4_10 : (imm : ℕ) → IsUimm 4 10 imm → imm64 imm / 2 ^ 4 * 2 ^ 4 % 2 ^ 10 % 2 ^ 32 ≡ imm
unfolding imm64
uimm_4_10 imm h = ground arith
