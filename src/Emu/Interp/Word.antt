-- ===== src/Emu/Interp/Word.antt =====
-- src/emu/interp.h: the operators of C++ on the bit patterns of `sx`, `ux`, `s32` and `u32`.
use rv8_riscv_ckpt.Base.{ℕ, ◌+◌, ◌-◌, ◌/◌, ◌%◌, ◌^◌, Bool, ltb, if◌then◌else◌}
use rv8_riscv_ckpt.Asm.Alu.{is_negative}

-- A signed number of `v` bits as a pattern of `w` bits.
unfoldable pub sext : ℕ → ℕ → ℕ → ℕ
sext v w x = if is_negative v x then x + (2 ^ w - 2 ^ v) else x

-- `a < b` of signed numbers: their order is that of the patterns with the sign bit turned over.
unfoldable pub less : ℕ → ℕ → ℕ → Bool
less w a b = ltb ((a + 2 ^ (w - 1)) % 2 ^ w) ((b + 2 ^ (w - 1)) % 2 ^ w)

-- `a - b`.
unfoldable pub minus : ℕ → ℕ → ℕ → ℕ
minus w a b = (a + (2 ^ w - b)) % 2 ^ w

-- `a >> k` of a signed number, which keeps its sign.
unfoldable pub shift_right : ℕ → ℕ → ℕ → ℕ
shift_right w a k = if is_negative w a then 2 ^ w - 1 - (2 ^ w - 1 - a) / 2 ^ k else a / 2 ^ k

-- A test as a number.
unfoldable pub test : Bool → ℕ
test b = if b then 1 else 0
