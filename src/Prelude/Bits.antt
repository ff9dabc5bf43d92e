-- ===== src/Prelude/Bits.antt =====
-- `bit_and` and `bit_or` by the masks that the code uses, as arithmetic. The native operations are a
-- recursion on binary digits, so a mask is read one halving at a time.
use Prim.Native.Nat.{
  ℕ, zero, suc, ◌+◌, ◌*◌, ◌/◌, ◌%◌, ◌≤◌, min, max, bit_and, bit_or, digits, bit_and-bitwise,
  bit_or-bitwise,
}
use mathlib.Core.Path.{◌≡◌, refl}
use native.Mathlib.Omega.{arith}

-- More fuel than the number itself makes no difference.
module _ (right : ℕ → ℕ) (op : ℕ → ℕ → ℕ) where
  enough : (k l a b : ℕ) → a ≤ k → a ≤ l → digits right op k a b ≡ digits right op l a b
  enough zero zero a b hk hl = refl
  enough zero (suc l) zero b hk hl = refl
  enough (suc k) zero zero b hk hl = refl
  enough (suc k) (suc l) zero b hk hl = refl
  enough (suc k) (suc l) (suc a) b hk hl =
      omega (arith, enough k l (suc a / 2) (b / 2) (omega arith) (omega arith))
  enough zero l (suc a) b hk hl = absurd (omega arith)
  enough (suc k) zero (suc a) b hk hl = absurd (omega arith)

and_halves : (a b : ℕ) → bit_and a b ≡ bit_and (a / 2) (b / 2) * 2 + min (a % 2) (b % 2)
and_halves zero b = omega (arith, bit_and-bitwise 0 b, bit_and-bitwise 0 (b / 2))
and_halves (suc a) b = omega (
  arith,
  bit_and-bitwise (suc a) b,
  bit_and-bitwise (suc a / 2) (b / 2),
  enough (λ y. 0) min a (suc a / 2) (suc a / 2) (b / 2) (omega arith) (omega arith),
)

or_halves : (a b : ℕ) → bit_or a b ≡ bit_or (a / 2) (b / 2) * 2 + max (a % 2) (b % 2)
or_halves zero b = omega (arith, bit_or-bitwise 0 b, bit_or-bitwise 0 (b / 2))
or_halves (suc a) b = omega (
  arith,
  bit_or-bitwise (suc a) b,
  bit_or-bitwise (suc a / 2) (b / 2),
  enough (λ y. y) max a (suc a / 2) (suc a / 2) (b / 2) (omega arith) (omega arith),
)

zero_masks : (k a : ℕ) → a ≤ k → (bit_and a 0 ≡ 0) × (bit_or a 0 ≡ a)
zero_masks k zero h = (refl, refl)
zero_masks zero (suc a) h = absurd (omega arith)
zero_masks (suc k) (suc a) h =
    omega (arith, and_halves (suc a) 0, or_halves (suc a) 0, zero_masks k (suc a / 2) (omega arith))

pub bit_or-one : (a : ℕ) → bit_or a 1 ≡ a / 2 * 2 + 1
bit_or-one a = omega (arith, or_halves a 1, zero_masks (a / 2) (a / 2) (omega arith))

and_one : (a : ℕ) → bit_and a 1 ≡ a % 2
and_one a = omega (arith, and_halves a 1, zero_masks (a / 2) (a / 2) (omega arith))

pub bit_and-two : (a : ℕ) → bit_and a 2 ≡ a / 2 % 2 * 2
bit_and-two a = omega (arith, and_halves a 2, and_one (a / 2))

-- 30 is 0b11110.
pub bit_and-thirty : (a : ℕ) → bit_and a 30 ≡ a / 2 % 16 * 2
bit_and-thirty a = omega (
  arith,
  and_halves a 30,
  and_halves (a / 2) 15,
  and_halves (a / 2 / 2) 7,
  and_halves (a / 2 / 2 / 2) 3,
  and_one (a / 2 / 2 / 2 / 2),
)
