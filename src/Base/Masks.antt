-- ===== src/Base/Masks.antt =====
-- Masks: one bit, and numbers below a power of two.
use rv8_riscv_ckpt.Base.Bits.{bit, bit-and, bit-or, bit-zero, bit-mul, bit-mod, bit_ext}
use Prim.Native.Nat.{◌/◌, ℕ, zero, suc, ◌-◌, ◌*◌, ◌%◌, ◌^◌, ◌<◌, bit_and, bit_or}
use mathlib.Core.Path.{◌≡◌, refl, sym, ap, ◌∙◌}
use mathlib.Core.Bool.{true, false, not, ◌&&◌, true≢false}
use mathlib.Core.Logic.{inl, inr}
use native.Mathlib.Omega.{arith}
use native.Mathlib.Nat.{mod-eq_of_lt, mod-lt, one-le-pow, pow-succ'}
use rv8_riscv_ckpt.Base.Tests.{◌==◌, ltb, ==_iff, Bool-cases}

pub bit-one : (i : ℕ) → bit 1 i ≡ (i == 0)
unfolding bit
bit-one zero = refl
bit-one (suc i) = bit-zero i ∙ ground arith

pub bit-power : (k i : ℕ) → bit (2 ^ k) i ≡ (i == k)
bit-power k i =
    let e : 1 * 2 ^ k ≡ 2 ^ k = omega arith in
    ap (λ x. bit x i) (sym e) ∙ bit-mul 1 k i ∙ ground (arith, bit-one (i - k))

-- The test of one bit.
pub bit_and-power : (k x : ℕ) → not (bit_and x (2 ^ k) == 0) ≡ bit x k
bit_and-power k x = elim (Bool-cases (bit x k)) [
  | inl set ↦ rw set (elim (Bool-cases (bit_and x (2 ^ k) == 0)) [
    | inl empty ↦
        absurd (true≢false (one set ∙ ap (λ y. bit y k) ((==_iff _ 0).0 empty) ∙ bit-zero k))
    | inr other ↦ rw other refl
  ])
  | inr clear ↦ rw (clear, bit_ext (bit_and x (2 ^ k)) 0 (none_set clear)) refl
]
  where
    one : bit x k ≡ true → true ≡ bit (bit_and x (2 ^ k)) k
    one set = ground (arith, bit-and x (2 ^ k) k, bit-power k k)

    none_set : bit x k ≡ false → (i : ℕ) → bit (bit_and x (2 ^ k)) i ≡ bit 0 i
    none_set clear i = elim (Bool-cases (i == k)) [
      | inl same ↦ rw ((==_iff i k).0 same) (ground (arith, bit-and x (2 ^ k) k, bit-zero k))
      | inr other ↦ ground (arith, bit-and x (2 ^ k) i, bit-power k i, bit-zero i)
    ]

pub bit_or_below : (k x y : ℕ) → x < 2 ^ k → y < 2 ^ k → bit_or x y < 2 ^ k
bit_or_below k x y hx hy =
    let same : bit_or x y % 2 ^ k ≡ bit_or x y = bit_ext _ _ at_bit in
    omega (arith, same, mod-lt (bit_or x y) (one-le-pow k 2 (omega arith)))
  where
    at_bit : (i : ℕ) → bit (bit_or x y % 2 ^ k) i ≡ bit (bit_or x y) i
    at_bit i =
        let bx : (ltb i k && bit x i) ≡ bit x i =
          sym (bit-mod x k i) ∙ ap (λ z. bit z i) (mod-eq_of_lt hx) in
        let by : (ltb i k && bit y i) ≡ bit y i =
          sym (bit-mod y k i) ∙ ap (λ z. bit z i) (mod-eq_of_lt hy) in
        ground (arith, bit-mod (bit_or x y) k i, bit-or x y i, bx, by)

-- The complement of a number of `w` bits.
pub bit_complement : (w f i : ℕ) → f < 2 ^ w → bit (2 ^ w - 1 - f) i ≡ (ltb i w && not (bit f i))
unfolding bit
bit_complement zero f i h =
    let e : 2 ^ 0 - 1 - f ≡ 0 = omega arith in rw e (bit-zero i ∙ ground arith)
bit_complement (suc w) f zero h = ground (arith, pow-succ' 2 w, one-le-pow w 2 (omega arith))
bit_complement (suc w) f (suc i) h =
    let e : (2 ^ suc w - 1 - f) / 2 ≡ 2 ^ w - 1 - f / 2 = omega (arith, pow-succ' 2 w) in
    rw e (bit_complement w (f / 2) i (omega (arith, pow-succ' 2 w)) ∙ ground arith)

pub bit_and-bit_or : (x y : ℕ) → bit_and (bit_or x y) y ≡ y
bit_and-bit_or x y = bit_ext _ _ λ i. ground (arith, bit-and (bit_or x y) y i, bit-or x y i)

-- A mask below 2 to `k` sees only the lowest `k` bits.
pub bit_and_low : (k x m : ℕ) → m < 2 ^ k → bit_and (x % 2 ^ k) m ≡ bit_and x m
bit_and_low k x m h = bit_ext _ _ λ i.
    let below : (ltb i k && bit m i) ≡ bit m i =
      sym (bit-mod m k i) ∙ ap (λ z. bit z i) (mod-eq_of_lt h) in
    ground (arith, bit-and (x % 2 ^ k) m i, bit-and x m i, bit-mod x k i, below)

pub bit_lowest : (x : ℕ) → bit x 0 ≡ (x % 2 == 1)
unfolding bit
bit_lowest x = refl

pub bit-suc : (x i : ℕ) → bit x (suc i) ≡ bit (x / 2) i
unfolding bit
bit-suc x i = refl

pub bit_and_below : (k x y : ℕ) → x < 2 ^ k → bit_and x y < 2 ^ k
bit_and_below k x y h =
    let same : bit_and x y % 2 ^ k ≡ bit_and x y = bit_ext _ _ at_bit in
    omega (arith, same, mod-lt (bit_and x y) (one-le-pow k 2 (omega arith)))
  where
    at_bit : (i : ℕ) → bit (bit_and x y % 2 ^ k) i ≡ bit (bit_and x y) i
    at_bit i =
        let bx : (ltb i k && bit x i) ≡ bit x i =
          sym (bit-mod x k i) ∙ ap (λ z. bit z i) (mod-eq_of_lt h) in
        ground (arith, bit-mod (bit_and x y) k i, bit-and x y i, bx)
