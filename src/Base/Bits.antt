-- ===== src/Base/Bits.antt =====
-- The bits of a number, and what the native bit operations and the shifts do to them.
mod Step
use Step.{bit_and_step, bit_or_step, bit_xor_step}
use Prim.Native.Nat.{ℕ, zero, suc, ◌+◌, ◌-◌, ◌*◌, ◌/◌, ◌%◌, ◌^◌, ◌≤◌, ◌<◌}
use Prim.Native.Nat.{bit_and, bit_or, bit_xor, compare, Ordering, differ}
use mathlib.Core.Path.{◌≡◌, refl, ap, sym, ◌∙◌}
use mathlib.Core.Bool.{Bool, true, false, xor, ◌&&◌, ◌||◌}
use native.Mathlib.Nat.{pow-suc, one-le-pow, div-div-eq-div-mul, pow-succ', mod-lt, mod-eq_of_lt}
use native.Mathlib.Nat.{div-add-mod', mul-add-mod_self_right}
use native.Mathlib.Omega.{arith}
use rv8_riscv_ckpt.Base.Tests.{ltb, leb}

abbrev odd : ℕ → Bool
odd n = elim (compare (n % 2) 1) [ Ordering.eq ↦ true | _ ↦ false ]

unfoldable pub bit : ℕ → ℕ → Bool
bit x zero = odd x
bit x (suc i) = bit (x / 2) i

pub bit-and : (x y i : ℕ) → bit (bit_and x y) i ≡ (bit x i && bit y i)
unfolding bit
bit-and x y zero = ground (arith, bit_and_step x y)
bit-and x y (suc i) =
    let e : bit_and x y / 2 ≡ bit_and (x / 2) (y / 2) = omega (arith, bit_and_step x y) in
    rw e (bit-and (x / 2) (y / 2) i)

pub bit-or : (x y i : ℕ) → bit (bit_or x y) i ≡ (bit x i || bit y i)
unfolding bit
bit-or x y zero = ground (arith, bit_or_step x y)
bit-or x y (suc i) =
    let e : bit_or x y / 2 ≡ bit_or (x / 2) (y / 2) = omega (arith, bit_or_step x y) in
    rw e (bit-or (x / 2) (y / 2) i)

differ-le : (a b : ℕ) → a ≤ 1 → b ≤ 1 → differ a b ≤ 1
differ-le zero b p q = q
differ-le (suc a) zero p q = p
differ-le (suc zero) (suc zero) p q = omega arith
differ-le (suc zero) (suc (suc b)) p q = absurd (omega arith)
differ-le (suc (suc a)) (suc b) p q = absurd (omega arith)

differ-lowest : (a b : ℕ) → a ≤ 1 → b ≤ 1 → differ a b ≡ (a + b) % 2
differ-lowest zero zero p q = refl
differ-lowest zero (suc b) p q = omega arith
differ-lowest (suc a) zero p q = omega arith
differ-lowest (suc zero) (suc zero) p q = refl
differ-lowest (suc zero) (suc (suc b)) p q = absurd (omega arith)
differ-lowest (suc (suc a)) (suc b) p q = absurd (omega arith)

pub bit-xor : (x y i : ℕ) → bit (bit_xor x y) i ≡ xor (bit x i) (bit y i)
unfolding bit xor
bit-xor x y zero =
    ground (arith, bit_xor_step x y, differ-lowest (x % 2) (y % 2) (omega arith) (omega arith))
bit-xor x y (suc i) =
    let e : bit_xor x y / 2 ≡ bit_xor (x / 2) (y / 2) =
      omega (arith, bit_xor_step x y, differ-le (x % 2) (y % 2) (omega arith) (omega arith)) in
    rw e (bit-xor (x / 2) (y / 2) i)

pub bit-zero : (i : ℕ) → bit 0 i ≡ false
unfolding bit
bit-zero zero = refl
bit-zero (suc i) = bit-zero i

-- A shift to the right.
pub bit-div : (x k i : ℕ) → bit (x / 2 ^ k) i ≡ bit x (i + k)
unfolding bit
bit-div x zero i =
    let e : x / 2 ^ 0 ≡ x = omega arith in let j : i + 0 ≡ i = omega arith in rw (e, j)
bit-div x (suc k) i =
    let e : x / 2 ^ suc k ≡ x / 2 / 2 ^ k =
      rw (pow-succ' 2 k) (sym (div-div-eq-div-mul x 2 (2 ^ k))) in
    let j : i + suc k ≡ suc (i + k) = omega arith in rw (e, j) (bit-div (x / 2) k i)

-- A shift to the left.
pub bit-mul : (x k i : ℕ) → bit (x * 2 ^ k) i ≡ (leb k i && bit x (i - k))
unfolding bit
bit-mul x zero i =
    let e : x * 2 ^ 0 ≡ x = omega arith in
    let j : i - 0 ≡ i = omega arith in rw (e, j) (ground arith)
bit-mul x (suc k) zero = ground (arith, pow-succ' 2 k, half)
  where
    half : x * 2 ^ suc k ≡ 2 * (x * 2 ^ k)
    half = omega (arith, ap (λ (t : ℕ). x * t) (pow-succ' 2 k))
bit-mul x (suc k) (suc i) =
    let e : x * 2 ^ suc k / 2 ≡ x * 2 ^ k = omega (arith, ap (λ (t : ℕ). x * t) (pow-succ' 2 k)) in
    let j : suc i - suc k ≡ i - k = omega arith in rw (e, j) (ground (arith, bit-mul x k i))

mod-two-pow-suc : (x k : ℕ) → x % 2 ^ suc k ≡ 2 * (x / 2 % 2 ^ k) + x % 2
mod-two-pow-suc x k = split ∙ mod-eq_of_lt small
  where
    two_pow : 2 ^ suc k ≡ 2 * 2 ^ k
    two_pow = pow-succ' 2 k

    small : 2 * (x / 2 % 2 ^ k) + x % 2 < 2 ^ suc k
    small = omega (arith, two_pow, mod-lt (x / 2) {m = 2 ^ k} (one-le-pow k 2 (omega arith)))

    parts : x ≡ x / 2 / 2 ^ k * 2 ^ suc k + (2 * (x / 2 % 2 ^ k) + x % 2)
    parts = omega (arith, div-add-mod' (x / 2) (2 ^ k), ap (λ (t : ℕ). x / 2 / 2 ^ k * t) two_pow)

    split : x % 2 ^ suc k ≡ (2 * (x / 2 % 2 ^ k) + x % 2) % 2 ^ suc k
    split =
        ap (λ (t : ℕ). t % 2 ^ suc k) parts
        ∙ mul-add-mod_self_right (x / 2 / 2 ^ k) (2 ^ suc k) (2 * (x / 2 % 2 ^ k) + x % 2)

-- A cast to `k` bits.
pub bit-mod : (x k i : ℕ) → bit (x % 2 ^ k) i ≡ (ltb i k && bit x i)
unfolding bit
bit-mod x zero i = let e : x % 2 ^ 0 ≡ 0 = omega arith in rw e (ground (arith, bit-zero i))
bit-mod x (suc k) zero =
    let e : x % 2 ^ suc k % 2 ≡ x % 2 = omega (arith, mod-two-pow-suc x k) in ground arith
bit-mod x (suc k) (suc i) =
    let e : x % 2 ^ suc k / 2 ≡ x / 2 % 2 ^ k = omega (arith, mod-two-pow-suc x k) in
    rw e (ground (arith, bit-mod (x / 2) k i))

-- A mask of `k` ones.
pub bit_ones : (k i : ℕ) → bit (2 ^ k - 1) i ≡ ltb i k
unfolding bit
bit_ones zero i = ground (arith, bit-zero i)
bit_ones (suc k) zero = ground (arith, pow-succ' 2 k, one-le-pow k 2 (omega arith))
bit_ones (suc k) (suc i) =
    let e : (2 ^ suc k - 1) / 2 ≡ 2 ^ k - 1 =
      omega (arith, pow-succ' 2 k, one-le-pow k 2 (omega arith)) in
    rw e (ground (arith, bit_ones k i))

-- Numbers with the same bits are equal.
ext_fuel : (n x y : ℕ) → x ≤ n → y ≤ n → ((i : ℕ) → bit x i ≡ bit y i) → x ≡ y
unfolding bit
ext_fuel zero x y p q h = omega arith
ext_fuel (suc n) x y p q h =
    let halves : x / 2 ≡ y / 2 =
      ext_fuel n (x / 2) (y / 2) (omega arith) (omega arith) (λ i. h (suc i)) in
    ground (arith, halves, h 0)

pub bit_ext : (x y : ℕ) → ((i : ℕ) → bit x i ≡ bit y i) → x ≡ y
bit_ext x y h = ext_fuel (x + y) x y (omega arith) (omega arith) h

-- A mask of `k` ones keeps the remainder.
pub bit_and-ones : (k x : ℕ) → bit_and x (2 ^ k - 1) ≡ x % 2 ^ k
bit_and-ones k x = bit_ext _ _ same
  where
    same : (i : ℕ) → bit (bit_and x (2 ^ k - 1)) i ≡ bit (x % 2 ^ k) i
    same i = ground (arith, bit-and x (2 ^ k - 1) i, bit_ones k i, bit-mod x k i)

pub zero-bit_or : (x : ℕ) → bit_or 0 x ≡ x
zero-bit_or x = bit_ext _ _ same
  where
    same : (i : ℕ) → bit (bit_or 0 x) i ≡ bit x i
    same i = ground (arith, bit-or 0 x i, bit-zero i)

-- `|` adds a number to one that stands above it.
pub bit_or_above : (k r q : ℕ) → r < 2 ^ k → bit_or r (q * 2 ^ k) ≡ r + q * 2 ^ k
bit_or_above zero r q h =
    let e : r ≡ 0 = omega arith in rw (e, zero-bit_or (q * 2 ^ 0)) (omega arith)
bit_or_above (suc k) r q h =
    let double : q * 2 ^ suc k ≡ 2 * (q * 2 ^ k) =
      omega (arith, ap (λ (t : ℕ). q * t) (pow-succ' 2 k)) in
    let half : q * 2 ^ suc k / 2 ≡ q * 2 ^ k = omega arith in
    let even : q * 2 ^ suc k % 2 ≡ 0 = omega arith in
    let rest = bit_or_above k (r / 2) q (omega (arith, pow-succ' 2 k)) in
    omega
      (arith, bit_or_step r (q * 2 ^ suc k), ap (λ (t : ℕ). bit_or (r / 2) t) half, rest, double)
