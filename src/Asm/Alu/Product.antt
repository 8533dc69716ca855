-- ===== src/Asm/Alu/Product.antt =====
-- src/asm/alu.h: `mulhu`, against the product of its operands.
use rv8_riscv_ckpt.Base.{
  ap₂, bit_and-ones, refl, pow_add, ◌∙◌, ◌^◌, ◌≤◌, sym, zero, suc, ℕ, ◌+◌, ◌*◌, ◌/◌, ◌%◌, ◌<◌, ◌≡◌,
  ap, arith,
}
use native.Mathlib.Nat.{
  one-le-pow, mod-eq_of_lt, div-eq_of_lt, mul-add-div_right, mul-le-mul, mod-lt, div-lt_iff_lt-mul,
  div-add-mod,
}
use rv8_riscv_ckpt.Asm.Alu.{mulhu}

product_bound : (b x y : ℕ) → x < b → y < b → x * y + 2 * b ≤ b * b + 1
product_bound zero x y hx hy = absurd (omega arith)
product_bound (suc c) x y hx hy =
    let le : x * y ≤ c * c = mul-le-mul (omega arith) (omega arith) in omega (arith, le)

div_below : (b z : ℕ) → 0 < b → z < b * b → z / b < b
div_below b z pos h = (div-lt_iff_lt-mul pos).1 h

-- Schoolbook multiplication in base `b`, without wrap-around.
module _ (b x0 x1 y0 y1 : ℕ) (hx0 : x0 < b) (hx1 : x1 < b) (hy0 : y0 < b) (hy1 : y1 < b) where
  z4 : ℕ
  z4 = x1 * y0 + x0 * y0 / b

  c1 : ℕ
  c1 = x0 * y1 + z4 % b

  high : ℕ
  high = x1 * y1 + z4 / b + c1 / b

  whole : (x0 + b * x1) * (y0 + b * y1) ≡ high * (b * b) + (b * (c1 % b) + x0 * y0 % b)
  unfolding high c1 z4
  whole =
      let e0 = div-add-mod (x0 * y0) b in
      let e1 = ap (λ t. b * t) (div-add-mod z4 b) in
      let e2 = ap (λ t. b * t) (div-add-mod c1 b) in omega (arith, e0, e1, e2)

  quotient_below : x0 * y0 / b < b
  quotient_below =
      div_below b (x0 * y0) (omega arith) (omega (arith, product_bound b x0 y0 hx0 hy0))

  z4_below : z4 < b * b
  unfolding z4
  z4_below = omega (arith, product_bound b x1 y0 hx1 hy0, quotient_below)

  c1_below : c1 < b * b
  unfolding c1
  c1_below =
      let r : z4 % b < b = mod-lt z4 (omega arith) in
      omega (arith, product_bound b x0 y1 hx0 hy1, r)

  middle_below : x1 * y1 + z4 / b < b * b
  middle_below = omega (arith, product_bound b x1 y1 hx1 hy1, div_below b z4 (omega arith) z4_below)

  low_below : b * (c1 % b) + x0 * y0 % b < b * b
  low_below =
      let r : c1 % b < b = mod-lt c1 (omega arith) in
      let q : x0 * y0 % b < b = mod-lt (x0 * y0) (omega arith) in
      let le : b * (c1 % b + 1) ≤ b * b = mul-le-mul (omega arith) (omega arith) in
      omega (arith, q, le)

  high_lem : high ≡ (x0 + b * x1) * (y0 + b * y1) / (b * b)
  high_lem =
      let pos : 0 < b * b = omega (arith, c1_below) in
      let low = b * (c1 % b) + x0 * y0 % b in
      sym (
        ap (λ n. n / (b * b)) whole
        ∙ mul-add-div_right pos high low
        ∙ omega (arith, div-eq_of_lt low_below))

  joined_below : (u0 u1 : ℕ) → u0 < b → u1 < b → u0 + b * u1 < b * b
  joined_below u0 u1 h0 h1 =
      let le : b * (u1 + 1) ≤ b * b = mul-le-mul (omega arith) (omega arith) in
      omega (arith, h0, le)

  high_below : high < b * b
  high_below =
      let pos : 0 < b * b = omega (arith, c1_below) in
      let x = x0 + b * x1 in
      let y = y0 + b * y1 in
      let bound =
        product_bound (b * b) x y (joined_below x0 x1 hx0 hx1) (joined_below y0 y1 hy0 hy1) in
      rw high_lem (div_below (b * b) (x * y) pos (omega (arith, bound, pos)))

  -- Nothing wraps around.
  mul_below : (u v : ℕ) → u < b → v < b → u * v < b * b
  mul_below u v hu hv = omega (arith, product_bound b u v hu hv)

  wrapped :
      ((x1 * y1 % (b * b) + (x1 * y0 % (b * b) + x0 * y0 % (b * b) / b) % (b * b) / b) % (b * b)
          + (x0 * y1 % (b * b) + (x1 * y0 % (b * b) + x0 * y0 % (b * b) / b) % (b * b) % b)
            % (b * b)
            / b)
        % (b * b)
      ≡ high
  unfolding z4 c1 high
  wrapped =
      rw
        (
          mod-eq_of_lt (mul_below x0 y0 hx0 hy0),
          mod-eq_of_lt (mul_below x1 y0 hx1 hy0),
          mod-eq_of_lt (mul_below x0 y1 hx0 hy1),
          mod-eq_of_lt (mul_below x1 y1 hx1 hy1),
          mod-eq_of_lt z4_below,
          mod-eq_of_lt c1_below,
          mod-eq_of_lt middle_below,
          mod-eq_of_lt high_below,
        )
        refl

joined : (b v : ℕ) → 0 < b → v < b * b → v % b + b * (v / b % b) ≡ v
joined b v pos h =
    let e : v / b % b ≡ v / b = mod-eq_of_lt (div_below b v pos h) in
    rw e (omega (arith, div-add-mod v b))

-- For a register of `2 * qb` bits, `mulhu` is the high half of the product of its operands, though no
-- intermediate result has more bits than a register.
pub mulhu_lem :
    (qb x y : ℕ) → x < 2 ^ (qb + qb) → y < 2 ^ (qb + qb) → mulhu qb x y ≡ x * y / 2 ^ (qb + qb)
unfolding mulhu
mulhu_lem qb x y hx hy =
    let b = 2 ^ qb in
    let e : 2 ^ (qb + qb) ≡ b * b = pow_add qb qb in
    let pos : 0 < b = one-le-pow qb 2 (omega arith) in
    rw
      (
        e,
        bit_and-ones qb x,
        bit_and-ones qb (x / b),
        bit_and-ones qb y,
        bit_and-ones qb (y / b),
        bit_and-ones qb _,
      )
      (wrapped b (x % b) (x / b % b) (y % b) (y / b % b) (mod-lt x pos) (mod-lt (x / b) pos)
          (mod-lt y pos) (mod-lt (y / b) pos)
        ∙ high_lem b (x % b) (x / b % b) (y % b) (y / b % b) (mod-lt x pos) (mod-lt (x / b) pos)
            (mod-lt y pos) (mod-lt (y / b) pos)
        ∙ ap₂ (λ u v. u * v / (b * b)) (joined b x pos (rw e at hx)) (joined b y pos (rw e at hy)))
