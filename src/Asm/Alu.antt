-- ===== src/Asm/Alu.antt =====
-- src/asm/alu.h: the high half of a product, and division.
pub mod Product
pub mod SignedDivision
pub mod Tests
use rv8_riscv_ckpt.Base.{
  ltb, bit_xor, ℕ, ◌+◌, ◌-◌, ◌*◌, ◌/◌, ◌%◌, ◌^◌, Bool, ◌&&◌, leb, ◌==◌, if◌then◌else◌, bit_and,
}
use mathlib.Core.Bool.{xor}

-- `mulhu`, for a `U` of `2 * qb` bits, in which every operation wraps around.
unfoldable pub mulhu : ℕ → ℕ → ℕ → ℕ
mulhu qb x y =
    let mask = 2 ^ qb - 1 in
    let x0 = bit_and x mask in
    let x1 = bit_and (x / 2 ^ qb) mask in
    let y0 = bit_and y mask in
    let y1 = bit_and (y / 2 ^ qb) mask in
    let z0 = x0 * y0 % 2 ^ (qb + qb) in
    let z1 = x1 * y0 % 2 ^ (qb + qb) in
    let z2 = x0 * y1 % 2 ^ (qb + qb) in
    let z3 = x1 * y1 % 2 ^ (qb + qb) in
    let z4 = (z1 + z0 / 2 ^ qb) % 2 ^ (qb + qb) in
    let c1 = (z2 + bit_and z4 mask) % 2 ^ (qb + qb) in
    ((z3 + z4 / 2 ^ qb) % 2 ^ (qb + qb) + c1 / 2 ^ qb) % 2 ^ (qb + qb)

-- `(~s + 1) ^ (x - s)` for the sign `s` of `x`: its magnitude.
abbrev pub absolute : ℕ → ℕ → ℕ → ℕ
absolute w s x = bit_xor ((2 ^ w - s) % 2 ^ w) ((x + (2 ^ w - s)) % 2 ^ w)

-- The rest of `mulh` and `mulhsu`: the high half of the product of the magnitudes, which is negated
-- together with the low half when the sign `rs` is 1.
abbrev pub signed_high : ℕ → ℕ → ℕ → ℕ → ℕ
signed_high qb rs xu yu =
    let w = qb + qb in
    let mask = 2 ^ qb - 1 in
    let x0 = bit_and xu mask in
    let x1 = bit_and (xu / 2 ^ qb) mask in
    let y0 = bit_and yu mask in
    let y1 = bit_and (yu / 2 ^ qb) mask in
    let z0 = x0 * y0 % 2 ^ w in
    let z1 = x1 * y0 % 2 ^ w in
    let z2 = x0 * y1 % 2 ^ w in
    let z3 = x1 * y1 % 2 ^ w in
    let z4 = (z1 + z0 / 2 ^ qb) % 2 ^ w in
    let c1 = (z2 + bit_and z4 mask) % 2 ^ w in
    let h1 = ((z3 + z4 / 2 ^ qb) % 2 ^ w + c1 / 2 ^ qb) % 2 ^ w in
    let l1 = (c1 * 2 ^ qb + bit_and z0 mask) % 2 ^ w in
    let l2 = (l1 + (2 ^ w - rs)) % 2 ^ w in
    let hb = if ltb l1 l2 then 1 else 0 in
    let h2 = (h1 + (2 ^ w - hb)) % 2 ^ w in bit_xor ((2 ^ w - rs) % 2 ^ w) h2

-- `mulh` and `mulhsu`, for operands of `2 * qb` bits.
unfoldable pub mulh : ℕ → ℕ → ℕ → ℕ
mulh qb x y =
    let xs = if leb (2 ^ (qb + qb - 1)) x then 1 else 0 in
    let ys = if leb (2 ^ (qb + qb - 1)) y then 1 else 0 in
    signed_high qb (bit_xor xs ys) (absolute (qb + qb) xs x) (absolute (qb + qb) ys y)

unfoldable pub mulhsu : ℕ → ℕ → ℕ → ℕ
mulhsu qb x y =
    let xs = if leb (2 ^ (qb + qb - 1)) x then 1 else 0 in
    signed_high qb xs (absolute (qb + qb) xs x) y

-- `divu` and `remu`, for a `U` of `w` bits.
unfoldable pub divu : ℕ → ℕ → ℕ → ℕ
divu w x y = if y == 0 then 2 ^ w - 1 else x / y

unfoldable pub remu : ℕ → ℕ → ℕ
remu x y = if y == 0 then x else x % y

-- The sign and the magnitude of a pattern of `w` bits, and the pattern of a signed magnitude.
abbrev pub is_negative : ℕ → ℕ → Bool
is_negative w x = leb (2 ^ (w - 1)) x

abbrev pub magnitude : ℕ → ℕ → ℕ
magnitude w x = if is_negative w x then 2 ^ w - x else x

abbrev pub signed : ℕ → Bool → ℕ → ℕ
signed w negative v = if negative then (2 ^ w - v) % 2 ^ w else v

-- `div` and `rem`, for an `S` of `w` bits. `/` and `%` of C++ round towards 0.
unfoldable pub div : ℕ → ℕ → ℕ → ℕ
div w x y =
    if x == 2 ^ (w - 1) && y == 2 ^ w - 1
    then 2 ^ (w - 1)
    else if y == 0
    then 2 ^ w - 1
    else signed w (xor (is_negative w x) (is_negative w y)) (magnitude w x / magnitude w y)

unfoldable pub rem : ℕ → ℕ → ℕ → ℕ
rem w x y =
    if x == 2 ^ (w - 1) && y == 2 ^ w - 1
    then 0
    else if y == 0
    then x
    else signed w (is_negative w x) (magnitude w x % magnitude w y)
