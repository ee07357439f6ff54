-- ===== src/Base/Bits.antt =====
-- `a | b` where the bits do not meet.
use Prim.Native.Nat.{ℕ, zero, suc, ◌+◌, ◌*◌, ◌/◌, ◌≤◌, ◌<◌, max, bit_or, digits, bit_or-bitwise}
use mathlib.Core.Path.{◌≡◌, refl}
use native.Mathlib.Omega.{arith}

abbrev pub pow2 : ℕ → ℕ
pow2 zero = 1
pow2 (suc k) = 2 * pow2 k

-- The recursion on digits that the native operation stands for, on fuel for all of them.
digits-add :
    (n k x a b : ℕ) → x ≤ n → x ≡ a * pow2 k → b < pow2 k → digits (λ d. d) max n x b ≡ x + b
digits-add zero k zero a b fuel e h = omega arith
digits-add zero k (suc x) a b fuel e h = absurd (omega arith)
digits-add (suc n) k zero a b fuel e h = omega arith
digits-add (suc n) zero (suc x) a b fuel e h = omega (
  arith,
  digits-add n zero (suc x / 2) (suc x / 2) (b / 2) (omega arith) (omega arith) (omega arith),
)
digits-add (suc n) (suc k) (suc x) a b fuel e h =
    let even : suc x ≡ 2 * (a * pow2 k) = omega arith in
    omega (arith, digits-add n k (suc x / 2) a (b / 2) (omega arith) (omega arith) (omega arith))

-- Where `b` has at most the `k` bits that `a * 2 ^ k` leaves free, the two add up.
pub bit_or-add : (k a b : ℕ) → b < pow2 k → bit_or (a * pow2 k) b ≡ a * pow2 k + b
bit_or-add k a b h =
    let x = a * pow2 k in
    omega (arith, bit_or-bitwise x b, digits-add x k x a b (omega arith) refl h)
