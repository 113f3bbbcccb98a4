-- ===== src/Prelude/Bits/Step.antt =====
-- The lowest digit of `|`, `&` and `^`. The library defines them by `bitwise`, which takes digits off
-- with fuel; the equations here have none.
use Prim.Native.Nat.{
  min, max, digits, bitwise, differ, bit_and-bitwise, bit_or-bitwise, bit_xor-bitwise,
}
use compyter.Prelude.{
  ℕ, zero, suc, ◌+◌, ◌*◌, ◌/◌, ◌%◌, ◌≤◌, bit_and, bit_or, bit_xor, ◌≡◌, refl, arith,
}

module _ (beyond : ℕ → ℕ) (digit : ℕ → ℕ → ℕ) where
  -- Two amounts of fuel that both cover the first number give the same.
  same_digits :
      (x y small large : ℕ)
      → x ≤ large
      → x ≤ small
      → digits beyond digit large x y ≡ digits beyond digit small x y
  same_digits zero y zero zero hl hs = refl
  same_digits zero y (suc small) zero hl hs = refl
  same_digits zero y zero (suc large) hl hs = refl
  same_digits zero y (suc small) (suc large) hl hs = refl
  same_digits (suc x) y zero large hl hs = absurd (omega arith)
  same_digits (suc x) y (suc small) zero hl hs = absurd (omega arith)
  same_digits (suc x) y (suc small) (suc large) hl hs =
      rw (same_digits (suc x / 2) (y / 2) small large (omega arith) (omega arith))

  lowest :
      (x y : ℕ)
      → bitwise beyond digit (suc x) y
        ≡ digit (suc x % 2) (y % 2) + 2 * bitwise beyond digit (suc x / 2) (y / 2)
  lowest x y =
      omega (arith, same_digits (suc x / 2) (y / 2) (suc x / 2) x (omega arith) (omega arith))

pub bit_xor_step : (x y : ℕ) → bit_xor x y ≡ differ (x % 2) (y % 2) + 2 * bit_xor (x / 2) (y / 2)
bit_xor_step zero y = simp bit_xor-bitwise (omega arith)
bit_xor_step (suc x) y = simp bit_xor-bitwise (lowest (λ rest. rest) differ x y)

pub bit_or_step : (x y : ℕ) → bit_or x y ≡ max (x % 2) (y % 2) + 2 * bit_or (x / 2) (y / 2)
bit_or_step zero y = simp bit_or-bitwise (omega arith)
bit_or_step (suc x) y = simp bit_or-bitwise (lowest (λ rest. rest) max x y)

pub bit_and_step : (x y : ℕ) → bit_and x y ≡ min (x % 2) (y % 2) + 2 * bit_and (x / 2) (y / 2)
bit_and_step zero y = simp bit_and-bitwise (omega arith)
bit_and_step (suc x) y = simp bit_and-bitwise (lowest (λ rest. 0) min x y)
