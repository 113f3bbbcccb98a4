-- ===== src/Prelude/Bits.antt =====
-- The bit operators with masks, single bits and disjoint fields, as arithmetic, at every width.
mod Step
use Step.{bit_or_step, bit_and_step, bit_xor_step}
use mathlib.Core.WellFounded
use native.Mathlib.Nat.{pow-suc, one-le-pow, mul-one}
use Prim.Native.Nat.{differ, bit_or-bitwise, bit_and-bitwise}
use compyter.Prelude.{
  ℕ, zero, suc, ◌+◌, ◌-◌, ◌*◌, ◌/◌, ◌%◌, ◌^◌, ◌≤◌, ◌<◌, bit_and, bit_or, bit_xor, ◌≡◌, refl, ap,
  sym, ◌∙◌, arith, lt_wf,
}

-- What holds of 0, and of a number when it holds of its half, holds of every number.
halving : (P : ℕ → Type 0) → P 0 → ((n : ℕ) → P (suc n / 2) → P (suc n)) → (x : ℕ) → P x
halving P base step x = WellFounded.induction lt_wf {C = P} x each
  where
    each : (n : ℕ) → ((m : ℕ) → m < n → P m) → P n
    each zero smaller = base
    each (suc n) smaller = step n (smaller (suc n / 2) (omega arith))

pub bit_or-zero : (x : ℕ) → bit_or x 0 ≡ x
bit_or-zero =
    halving (λ n. bit_or n 0 ≡ n) refl (λ n half. omega (arith, bit_or_step (suc n) 0, half))

pub bit_and-zero : (x : ℕ) → bit_and x 0 ≡ 0
bit_and-zero =
    halving (λ n. bit_and n 0 ≡ 0) refl (λ n half. omega (arith, bit_and_step (suc n) 0, half))

-- One more place of a shift.
shift_suc : (k high : ℕ) → high * 2 ^ suc k ≡ 2 * (high * 2 ^ k)
shift_suc k high = omega (arith, ap (λ (power : ℕ). high * power) (pow-suc 2 k))

-- Two fields that do not overlap: `|` adds them.
pub bit_or_fields : (k high low : ℕ) → low < 2 ^ k → bit_or (high * 2 ^ k) low ≡ high * 2 ^ k + low
bit_or_fields zero high low small = ground (arith, bit_or-zero high)
bit_or_fields (suc k) high low small =
    let halves = bit_or_fields k high (low / 2) (omega arith) in
    ground (arith, halves, shift_suc k high, bit_or_step (high * 2 ^ suc k) low)

-- `&` with `k` ones keeps the low field.
low_field : (k high low : ℕ) → low < 2 ^ k → bit_and (high * 2 ^ k + low) (2 ^ k - 1) ≡ low
low_field zero high low small = ground (arith, bit_and-zero (high * 1 + low))
low_field (suc k) high low small =
    let halves = low_field k high (low / 2) (omega arith) in
    let digits = bit_and_step (high * 2 ^ suc k + low) (2 ^ suc k - 1) in
    ground (arith, halves, digits, shift_suc k high, pow-suc 2 k)

pub bit_and_mask : (k x : ℕ) → bit_and x (2 ^ k - 1) ≡ x % 2 ^ k
bit_and_mask k x = ground (arith, low_field k (x / 2 ^ k) (x % 2 ^ k), one-le-pow k 2)

-- `a | (1 << k)` and `a & (1 << k)`, for the bit `b` between the fields `q` and `r`.
bit_or_single :
    (k q b r : ℕ)
    → b < 2
    → r < 2 ^ k
    → bit_or ((2 * q + b) * 2 ^ k + r) (2 ^ k) ≡ (2 * q + 1) * 2 ^ k + r
bit_or_single zero q b r hb fits =
    ground (arith, bit_or_step ((2 * q + b) * 1 + r) 1, bit_or-zero q)
bit_or_single (suc k) q b r hb fits = ground (
  arith,
  bit_or_step ((2 * q + b) * 2 ^ suc k + r) (2 ^ suc k),
  shift_suc k (2 * q + b),
  shift_suc k (2 * q + 1),
  shift_suc k 1,
  bit_or_single k q b (r / 2) hb (omega arith),
)

bit_and_single :
    (k q b r : ℕ) → b < 2 → r < 2 ^ k → bit_and ((2 * q + b) * 2 ^ k + r) (2 ^ k) ≡ b * 2 ^ k
bit_and_single zero q b r hb fits =
    ground (arith, bit_and_step ((2 * q + b) * 1 + r) 1, bit_and-zero q)
bit_and_single (suc k) q b r hb fits = ground (
  arith,
  bit_and_step ((2 * q + b) * 2 ^ suc k + r) (2 ^ suc k),
  shift_suc k (2 * q + b),
  shift_suc k b,
  shift_suc k 1,
  bit_and_single k q b (r / 2) hb (omega arith),
)

pub bit_or_bit : (k a : ℕ) → bit_or a (2 ^ k) ≡ a + (1 - a / 2 ^ k % 2) * 2 ^ k
bit_or_bit k a =
    grind (arith, one-le-pow k 2, bit_or_single k (a / 2 ^ k / 2) (a / 2 ^ k % 2) (a % 2 ^ k))

pub bit_and_bit : (k a : ℕ) → bit_and a (2 ^ k) ≡ a / 2 ^ k % 2 * 2 ^ k
bit_and_bit k a =
    grind (arith, one-le-pow k 2, bit_and_single k (a / 2 ^ k / 2) (a / 2 ^ k % 2) (a % 2 ^ k))

differ-one : (x : ℕ) → x < 2 → differ x 1 ≡ 1 - x
differ-one zero h = refl
differ-one (suc zero) h = refl
differ-one (suc (suc x)) h = absurd (omega arith)

-- `a ^ (2 ** k - 1)` on a word of `k` bits.
pub bit_xor_mask : (k a : ℕ) → a < 2 ^ k → bit_xor a (2 ^ k - 1) ≡ 2 ^ k - 1 - a
bit_xor_mask zero zero h = refl
bit_xor_mask zero (suc a) h = absurd (omega arith)
bit_xor_mask (suc k) a h =
    let odd : (2 ^ suc k - 1) % 2 ≡ 1 = omega (arith, shift_suc k 1, one-le-pow k 2) in
    let half : (2 ^ suc k - 1) / 2 ≡ 2 ^ k - 1 = omega (arith, shift_suc k 1) in
    ground (
      arith,
      bit_xor_step a (2 ^ suc k - 1),
      ap (differ (a % 2)) odd,
      ap (bit_xor (a / 2)) half,
      differ-one (a % 2),
      shift_suc k 1,
      bit_xor_mask k (a / 2) (omega (arith, shift_suc k 1)),
    )

-- `&` and `|` act on each of two fields by itself.
pub bit_and_split :
    (k q r s t : ℕ)
    → r < 2 ^ k
    → t < 2 ^ k
    → bit_and (q * 2 ^ k + r) (s * 2 ^ k + t) ≡ bit_and q s * 2 ^ k + bit_and r t
bit_and_split zero q zero s zero hr ht =
    ground (arith, ap (λ n. bit_and n s) (mul-one q), ap (bit_and (q * 1)) (mul-one s))
bit_and_split zero q (suc r) s t hr ht = absurd (omega arith)
bit_and_split zero q zero s (suc t) hr ht = absurd (omega arith)
bit_and_split (suc k) q r s t hr ht =
    let half_a : (q * 2 ^ suc k + r) / 2 ≡ q * 2 ^ k + r / 2 = omega (arith, shift_suc k q) in
    let half_b : (s * 2 ^ suc k + t) / 2 ≡ s * 2 ^ k + t / 2 = omega (arith, shift_suc k s) in
    ground (
      arith,
      bit_and_step (q * 2 ^ suc k + r) (s * 2 ^ suc k + t),
      bit_and_step r t,
      ap (λ n. bit_and n ((s * 2 ^ suc k + t) / 2)) half_a,
      ap (bit_and (q * 2 ^ k + r / 2)) half_b,
      shift_suc k q,
      shift_suc k s,
      shift_suc k (bit_and q s),
      pow-suc 2 k,
      bit_and_split k q (r / 2) s (t / 2),
    )

pub bit_or_split :
    (k q r s t : ℕ)
    → r < 2 ^ k
    → t < 2 ^ k
    → bit_or (q * 2 ^ k + r) (s * 2 ^ k + t) ≡ bit_or q s * 2 ^ k + bit_or r t
bit_or_split zero q zero s zero hr ht =
    ground (arith, ap (λ n. bit_or n s) (mul-one q), ap (bit_or (q * 1)) (mul-one s))
bit_or_split zero q (suc r) s t hr ht = absurd (omega arith)
bit_or_split zero q zero s (suc t) hr ht = absurd (omega arith)
bit_or_split (suc k) q r s t hr ht =
    let half_a : (q * 2 ^ suc k + r) / 2 ≡ q * 2 ^ k + r / 2 = omega (arith, shift_suc k q) in
    let half_b : (s * 2 ^ suc k + t) / 2 ≡ s * 2 ^ k + t / 2 = omega (arith, shift_suc k s) in
    ground (
      arith,
      bit_or_step (q * 2 ^ suc k + r) (s * 2 ^ suc k + t),
      bit_or_step r t,
      ap (λ n. bit_or n ((s * 2 ^ suc k + t) / 2)) half_a,
      ap (bit_or (q * 2 ^ k + r / 2)) half_b,
      shift_suc k q,
      shift_suc k s,
      shift_suc k (bit_or q s),
      pow-suc 2 k,
      bit_or_split k q (r / 2) s (t / 2),
    )

pub bit_or-lt : (k a b : ℕ) → a < 2 ^ k → b < 2 ^ k → bit_or a b < 2 ^ k
bit_or-lt zero zero zero ha hb = omega arith
bit_or-lt zero (suc a) b ha hb = absurd (omega arith)
bit_or-lt zero zero (suc b) ha hb = absurd (omega arith)
bit_or-lt (suc k) a b ha hb = omega (
  arith,
  bit_or_step a b,
  pow-suc 2 k,
  bit_or-lt k (a / 2) (b / 2) (omega (arith, pow-suc 2 k)) (omega (arith, pow-suc 2 k)),
)

pub zero-bit_or : (b : ℕ) → bit_or 0 b ≡ b
zero-bit_or b = bit_or-bitwise 0 b

pub zero-bit_and : (b : ℕ) → bit_and 0 b ≡ 0
zero-bit_and b = bit_and-bitwise 0 b

pub bit_and_comm : (x y : ℕ) → bit_and x y ≡ bit_and y x
bit_and_comm =
    halving (λ n. (y : ℕ) → bit_and n y ≡ bit_and y n) (λ y. zero-bit_and y ∙ sym (bit_and-zero y))
      (λ n half y. omega (arith, bit_and_step (suc n) y, bit_and_step y (suc n), half (y / 2)))

-- Eight ones leave a byte as it is.
pub ones-bit_and : (a : ℕ) → a < 256 → bit_and 255 a ≡ a
ones-bit_and a h = omega (arith, bit_and_comm 255 a, bit_and_mask 8 a)

-- A mask bounds what passes it.
pub bit_and-le : (x y : ℕ) → bit_and x y ≤ x
bit_and-le =
    halving (λ n. (y : ℕ) → bit_and n y ≤ n) (λ y. omega (arith, zero-bit_and y))
      (λ n half y. omega (arith, bit_and_step (suc n) y, half (y / 2)))

-- `&` with `j` ones from the place `k` on.
pub bit_and_field : (k j x : ℕ) → bit_and x ((2 ^ j - 1) * 2 ^ k) ≡ x / 2 ^ k % 2 ^ j * 2 ^ k
bit_and_field k j x =
    let low : x % 2 ^ k < 2 ^ k = ground (arith, one-le-pow k 2) in
    let parts : x ≡ x / 2 ^ k * 2 ^ k + x % 2 ^ k = ground (arith, one-le-pow k 2) in
    let ones : (2 ^ j - 1) * 2 ^ k ≡ (2 ^ j - 1) * 2 ^ k + 0 = omega arith in
    ap (λ n. bit_and n ((2 ^ j - 1) * 2 ^ k)) parts
    ∙ ap (bit_and (x / 2 ^ k * 2 ^ k + x % 2 ^ k)) ones
    ∙ bit_and_split k (x / 2 ^ k) (x % 2 ^ k) (2 ^ j - 1) 0 low (ground (arith, one-le-pow k 2))
    ∙ ap (λ n. n * 2 ^ k + bit_and (x % 2 ^ k) 0) (bit_and_mask j (x / 2 ^ k))
    ∙ omega (arith, bit_and-zero (x % 2 ^ k))
