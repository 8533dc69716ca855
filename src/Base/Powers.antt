-- ===== src/Base/Powers.antt =====
-- Powers of two.
use Prim.Native.Nat.{ℕ, zero, suc, ◌+◌, ◌-◌, ◌*◌, ◌^◌, ◌≤◌}
use mathlib.Core.Path.{◌≡◌, ap}
use native.Mathlib.Nat.{pow-succ', pow-le-pow_right}
use native.Mathlib.Omega.{arith}

pub pow_add : (n k : ℕ) → 2 ^ (n + k) ≡ 2 ^ n * 2 ^ k
pow_add n zero = let e : n + 0 ≡ n = omega arith in rw e (omega arith)
pow_add n (suc k) =
    let e : n + suc k ≡ suc (n + k) = omega arith in
    let double : 2 ^ n * (2 * 2 ^ k) ≡ 2 * (2 ^ n * 2 ^ k) = omega arith in
    rw (e, pow-succ' 2 (n + k), pow-succ' 2 k, double) (ap (λ t. 2 * t) (pow_add n k))

-- A number of `n` bits without its lowest `k`.
pub pow_split : (n k : ℕ) → 2 ^ n ≤ 2 ^ (n - k) * 2 ^ k
pow_split n k = rw (← pow_add (n - k) k) (pow-le-pow_right (omega arith) (omega arith))
