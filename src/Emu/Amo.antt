-- ===== src/Emu/Amo.antt =====
-- src/emu/amo.h: the operations of atomic memory instructions.
use rv8_riscv_ckpt.Base.{ℕ, ◌+◌, ◌-◌, ◌%◌, ◌^◌, ltb, if◌then◌else◌, bit_and, bit_or, bit_xor}

pub data AmoOp : Type 0 where
  amoswap amoadd amoxor amoor amoand amomin amomax amominu amomaxu : AmoOp

-- The order of signed `w`-bit numbers is the order of their patterns with the sign bit turned over.
abbrev biased : ℕ → ℕ → ℕ
biased w x = (x + 2 ^ (w - 1)) % 2 ^ w

-- `amo_fn<UX>` for a `UX` of `w` bits.
unfoldable pub amo_fn : ℕ → AmoOp → ℕ → ℕ → ℕ
amo_fn w AmoOp.amoswap x y = y
amo_fn w AmoOp.amoadd x y = (x + y) % 2 ^ w
amo_fn w AmoOp.amoxor x y = bit_xor x y
amo_fn w AmoOp.amoor x y = bit_or x y
amo_fn w AmoOp.amoand x y = bit_and x y
amo_fn w AmoOp.amomin x y = if ltb (biased w y) (biased w x) then y else x
amo_fn w AmoOp.amomax x y = if ltb (biased w x) (biased w y) then y else x
amo_fn w AmoOp.amominu x y = if ltb y x then y else x
amo_fn w AmoOp.amomaxu x y = if ltb x y then y else x
