-- ===== src/Base/Wrap.antt =====
-- Differences that wrap around.
use Prim.Native.Nat.{ℕ, ◌+◌, ◌-◌, ◌*◌, ◌%◌, ◌<◌}
use mathlib.Core.Path.{◌≡◌, ap, ◌∙◌}
use mathlib.Core.Logic.{inl, inr}
use native.Mathlib.Nat.{mod-eq_of_lt, mul-add-mod_self_right}
use native.Mathlib.Omega.{arith}
use rv8_riscv_ckpt.Base.Tests.{leb, if◌then◌else◌, Bool-cases}

pub difference :
    (m a b : ℕ) → a < m → b < m → (a + (m - b)) % m ≡ (if leb b a then a - b else a + (m - b))
difference m a b ha hb = elim (Bool-cases (leb b a)) [
  | inl above ↦
      let e : a + (m - b) ≡ 1 * m + (a - b) = ground arith in
      rw above (ap (λ n. n % m) e ∙ mul-add-mod_self_right 1 m (a - b) ∙ mod-eq_of_lt (omega arith))
  | inr below ↦ rw below (mod-eq_of_lt (ground arith))
]

-- The distance from `b` to `a`, added to `b`.
pub difference_back : (m a b : ℕ) → a < m → b < m → (b + (a + (m - b)) % m) % m ≡ a
difference_back m a b h g = rw (difference m a b h g) (elim (Bool-cases (leb b a)) [
  | inl above ↦ let e : b + (a - b) ≡ a = ground arith in rw (above, e) (mod-eq_of_lt h)
  | inr below ↦
      let e : b + (a + (m - b)) ≡ 1 * m + a = ground arith in
      rw (below, e) (mul-add-mod_self_right 1 m a ∙ mod-eq_of_lt h)
])
