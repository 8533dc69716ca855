-- ===== src/Asm/Alu/SignedDivision.antt =====
-- src/asm/alu.h: the signed quotient and remainder.
use rv8_riscv_ckpt.Base.{
  refl, ◌&&◌, ◌==◌, inr, inl, leb, Bool-cases, if◌then◌else◌, ◌⊎◌, ◌/◌, ◌≢◌, ◌^◌, ◌-◌, ◌≤◌, ℕ, zero,
  suc, ◌+◌, ◌*◌, ◌%◌, ◌<◌, ◌≡◌, sym, ap, ◌∙◌, arith,
}
use mathlib.Core.Bool.{true, false, Bool, xor}
use native.Mathlib.Nat.{
  mod-lt, div-add-mod, one-le-pow, pow-succ', mod-eq_of_lt, mul-add-mod_self_right,
}
use rv8_riscv_ckpt.Asm.Alu.{magnitude, is_negative, signed, rem, div}

-- `n` is `k` times the modulus and `x`.
mod_more : (m n k x : ℕ) → n ≡ k * m + x → x < m → n % m ≡ x
mod_more m n k x e h = rw e (mul-add-mod_self_right k m x ∙ mod-eq_of_lt h)

-- `n` and the magnitude of a negative `x` are `k` times the modulus.
mod_negative : (m n k x a : ℕ) → n + a ≡ k * m → x + a ≡ m → 0 < a → x < m → n % m ≡ x
mod_negative m n zero x a e f p h = absurd (omega arith)
mod_negative m n (suc k) x a e f p h = mod_more m n k x (omega (arith, e, f)) h

-- `n` and some multiples of the modulus are `k` times the modulus and `x`.
mod_cancel : (m n j k x : ℕ) → n + j * m ≡ k * m + x → x < m → n % m ≡ x
mod_cancel m n j k x e h =
    sym (mul-add-mod_self_right j m n)
    ∙ ap (λ t. t % m) (omega (arith, e) ∙ e)
    ∙ mul-add-mod_self_right k m x
    ∙ mod-eq_of_lt h

complement : (m q : ℕ) → 0 < m → q ≤ m → (c : ℕ) × ((m - q) % m + q ≡ c * m)
complement m zero p h = (0, omega (arith, mod_more m (m - 0) 1 0 (omega arith) p))
complement m (suc q) p h = (1, omega (arith, mod-eq_of_lt {n = m - suc q} {m = m} (omega arith)))

-- The four cases, on the magnitudes `a` and `b` with quotient `q` and remainder `r`.
both_positive : (m a b q r : ℕ) → a ≡ b * q + r → a < m → (q * b + r) % m ≡ a
both_positive m a b q r e h = mod_more m (q * b + r) 0 a (omega (arith, e)) h

negative_dividend :
    (m x a b q r : ℕ)
    → a ≡ b * q + r
    → x + a ≡ m
    → 0 < a
    → x < m
    → q ≤ m
    → r ≤ m
    → ((m - q) % m * b + (m - r) % m) % m ≡ x
negative_dividend m x a b q r e f p h hq hr =
    let c = complement m q (omega arith) hq in
    let d = complement m r (omega arith) hr in
    mod_negative m ((m - q) % m * b + (m - r) % m) (c.0 * b + d.0) x a
      (omega (arith, e, ap (λ t. t * b) c.1, d.1)) f p h

negative_divisor :
    (m a b y q r : ℕ) → a ≡ b * q + r → y + b ≡ m → a < m → q ≤ m → ((m - q) % m * y + r) % m ≡ a
negative_divisor m a b y q r e f h hq =
    let c = complement m q (omega arith) hq in
    mod_cancel m ((m - q) % m * y + r) (c.0 * b) ((m - q) % m) a
      (omega (arith, e, ap (λ t. t * b) c.1, ap (λ t. (m - q) % m * t) f)) h

both_negative :
    (m x a b y q r : ℕ)
    → a ≡ b * q + r
    → x + a ≡ m
    → y + b ≡ m
    → 0 < a
    → x < m
    → r ≤ m
    → (q * y + (m - r) % m) % m ≡ x
both_negative m x a b y q r e f g p h hr =
    let d = complement m r (omega arith) hr in
    mod_negative m (q * y + (m - r) % m) (q + d.0) x a (omega (arith, e, ap (λ t. q * t) g, d.1)) f
      p h

-- The quotient times the divisor and the remainder, for each pair of signs.
signed_parts :
    (w x y : ℕ)
    → x < 2 ^ suc w
    → y < 2 ^ suc w
    → 0 < y
    → (signed
              (suc w)
              (xor (is_negative (suc w) x) (is_negative (suc w) y))
              (magnitude (suc w) x / magnitude (suc w) y)
            * y
          + signed (suc w) (is_negative (suc w) x) (magnitude (suc w) x % magnitude (suc w) y))
        % 2 ^ suc w
      ≡ x
unfolding xor
signed_parts w x y hx hy positive =
    let same : suc w - 1 ≡ w = omega arith in
    let two : 2 ^ suc w ≡ 2 * 2 ^ w = pow-succ' 2 w in
    let m = 2 ^ suc w in
    let one : 0 < 2 ^ w = one-le-pow w 2 (omega arith) in
    elim (Bool-cases (leb (2 ^ w) x)) [
      | inl nx ↦
          let px : 0 < m - x = ground arith in
          let q_small : (b : ℕ) → (m - x) / b ≤ m = λ b. ground arith in
          let r_small : (b : ℕ) → (m - x) % b ≤ m = λ b. ground arith in
          elim (Bool-cases (leb (2 ^ w) y)) [
            | inl ny ↦
                rw (same, nx, ny)
                  (both_negative m x (m - x) (m - y) y ((m - x) / (m - y)) ((m - x) % (m - y))
                    (omega (arith, div-add-mod (m - x) (m - y))) (omega arith) (omega arith) px hx
                    (r_small (m - y)))
            | inr py ↦
                rw (same, nx, py)
                  (negative_dividend m x (m - x) y ((m - x) / y) ((m - x) % y)
                    (omega (arith, div-add-mod (m - x) y)) (omega arith) px hx (q_small y)
                    (r_small y))
          ]
      | inr pos ↦
          let q_small : (b : ℕ) → x / b ≤ m = λ b. ground arith in
          elim (Bool-cases (leb (2 ^ w) y)) [
            | inl ny ↦
                rw (same, pos, ny)
                  (negative_divisor m x (m - y) y (x / (m - y)) (x % (m - y))
                    (omega (arith, div-add-mod x (m - y))) (omega arith) hx (q_small (m - y)))
            | inr py ↦
                rw (same, pos, py)
                  (both_positive m x y (x / y) (x % y) (omega (arith, div-add-mod x y)) hx)
          ]
    ]

overflow_sum : (m p y : ℕ) → m ≡ 2 * p → 0 < p → y ≡ m - 1 → (p * y + 0) % m ≡ p
overflow_sum m p y two one e =
    let less_one : p - 1 + 1 ≡ p = omega arith in
    let next : y + 1 ≡ m = omega arith in
    mod_more m (p * y + 0) (p - 1) p
      (omega (arith, ap (λ t. p * t) next, ap (λ t. t * m) less_one, two)) (omega arith)

negated : (m v : ℕ) → 0 < m → v < m → (m - v) % m ≡ (if v == 0 then 0 else m - v)
negated m zero p h = mod_more m (m - 0) 1 0 (omega arith) p
negated m (suc v) p h =
    let nonzero : (suc v == 0) ≡ false = ground arith in rw nonzero (mod-eq_of_lt (omega arith))

-- The remainder of a magnitude, with a sign.
signed_below :
    (w v b : ℕ) (negative : Bool)
    → v < b
    → b ≤ 2 ^ w
    → (magnitude (suc w) (signed (suc w) negative v) < b)
      × ((signed (suc w) negative v ≡ 0)
          ⊎ (is_negative (suc w) (signed (suc w) negative v) ≡ negative))
signed_below w v b false h hb =
    let same : suc w - 1 ≡ w = omega arith in
    let small : leb (2 ^ (suc w - 1)) v ≡ false = rw same (ground arith) in rw small (h, inr refl)
signed_below w v b true h hb =
    let same : suc w - 1 ≡ w = omega arith in
    let two : 2 ^ suc w ≡ 2 * 2 ^ w = pow-succ' 2 w in
    let wrapped : (2 ^ suc w - v) % 2 ^ suc w ≡ (if v == 0 then 0 else 2 ^ suc w - v) =
      negated (2 ^ suc w) v (omega (arith, two)) (omega (arith, two)) in
    elim (Bool-cases (v == 0)) [
      | inl none_left ↦
          let e : (2 ^ suc w - v) % 2 ^ suc w ≡ 0 = wrapped ∙ rw none_left refl in
          let small : leb (2 ^ (suc w - 1)) 0 ≡ false = rw same (ground arith) in
          rw (e, small) (omega arith, inl refl)
      | inr some_left ↦
          let e : (2 ^ suc w - v) % 2 ^ suc w ≡ 2 ^ suc w - v = wrapped ∙ rw some_left refl in
          let large : leb (2 ^ (suc w - 1)) (2 ^ suc w - v) ≡ true =
            rw same (ground (arith, two)) in
          rw (e, large) (ground arith, inr refl)
    ]

-- Signed division of registers of any number of bits from 1 on: the quotient times the divisor and the
-- remainder give the dividend, for the smallest number by -1 and for the divisor 0 too; the remainder
-- by a divisor other than 0 is smaller than the divisor, and it is 0 or has the sign of the dividend.
-- Division by 0 gives -1, and the smallest number by -1 gives itself.
pub div-rem :
    (w x y : ℕ)
    → x < 2 ^ suc w
    → y < 2 ^ suc w
    → ((div (suc w) x y * y + rem (suc w) x y) % 2 ^ suc w ≡ x)
      × ((y ≢ 0)
          → (magnitude (suc w) (rem (suc w) x y) < magnitude (suc w) y)
            × ((rem (suc w) x y ≡ 0)
                ⊎ (is_negative (suc w) (rem (suc w) x y) ≡ is_negative (suc w) x)))
      × ((y ≡ 0) → div (suc w) x y ≡ 2 ^ suc w - 1)
      × (div (suc w) (2 ^ w) (2 ^ suc w - 1) ≡ 2 ^ w)
unfolding div rem
div-rem w x y hx hy = (sum, small, by_zero, over)
  where
    same : suc w - 1 ≡ w
    same = omega arith

    two : 2 ^ suc w ≡ 2 * 2 ^ w
    two = pow-succ' 2 w

    one : 0 < 2 ^ w
    one = one-le-pow w 2 (omega arith)

    sum : (div (suc w) x y * y + rem (suc w) x y) % 2 ^ suc w ≡ x
    sum = elim (Bool-cases (x == 2 ^ (suc w - 1) && y == 2 ^ suc w - 1)) [
      | inl overflow ↦
          let e : x ≡ 2 ^ (suc w - 1) = ground arith in
          let f : y ≡ 2 ^ suc w - 1 = ground arith in
          rw overflow
            (overflow_sum (2 ^ suc w) (2 ^ (suc w - 1)) y (rw same two) (rw same one) f ∙ sym e)
      | inr fits ↦ rw fits (elim (Bool-cases (y == 0)) [
        | inl nil ↦
            let e : y ≡ 0 = ground arith in
            let f : (2 ^ suc w - 1) * y + x ≡ x = rw e (omega arith) in
            rw (nil, f) (mod-eq_of_lt hx)
        | inr divides ↦ rw divides (signed_parts w x y hx hy (ground arith))
      ])
    ]

    small :
        (y ≢ 0)
        → (magnitude (suc w) (rem (suc w) x y) < magnitude (suc w) y)
          × ((rem (suc w) x y ≡ 0)
              ⊎ (is_negative (suc w) (rem (suc w) x y) ≡ is_negative (suc w) x))
    small nz = elim (Bool-cases (x == 2 ^ (suc w - 1) && y == 2 ^ suc w - 1)) [
      | inl overflow ↦
          let nil : leb (2 ^ (suc w - 1)) 0 ≡ false = rw same (ground arith) in
          rw (overflow, nil) (ground arith, inl refl)
      | inr fits ↦
          let nonzero : (y == 0) ≡ false = ground arith in
          rw (fits, nonzero)
            (signed_below w (magnitude (suc w) x % magnitude (suc w) y) (magnitude (suc w) y)
              (is_negative (suc w) x) (mod-lt _ (ground arith)) (rw same (ground (arith, two))))
    ]

    by_zero : (y ≡ 0) → div (suc w) x y ≡ 2 ^ suc w - 1
    by_zero e =
        let t : (x == 2 ^ (suc w - 1) && y == 2 ^ suc w - 1) ≡ false = ground (arith, two) in
        let z : (y == 0) ≡ true = ground arith in rw (t, z) refl

    over : div (suc w) (2 ^ w) (2 ^ suc w - 1) ≡ 2 ^ w
    over =
        let t : (2 ^ w == 2 ^ (suc w - 1) && 2 ^ suc w - 1 == 2 ^ suc w - 1) ≡ true =
          rw same (ground arith) in
        rw t (rw same refl)
