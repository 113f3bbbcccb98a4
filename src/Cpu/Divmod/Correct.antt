-- ===== src/Cpu/Divmod/Correct.antt =====
-- `_divmod` against the quotient and the remainder of the numbers.
use compyter.Prelude.{
  ℕ, zero, suc, ◌+◌, ◌-◌, ◌*◌, ◌/◌, ◌%◌, ◌^◌, ◌≤◌, ◌<◌, ◌≡◌, refl, ap, sym, ◌∙◌, arith, bit_and,
  bit_or, leb, if◌then◌else◌,
}
use mathlib.Core.Path.{subst}
use native.Mathlib.Nat.{pow-suc, one-le-pow, mul-le-mul_right, div-eq_of_lt-le, mod-eq-sub-div-mul}
use compyter.Prelude.Int.{ℤ, pos}
use compyter.Prelude.Bits.{bit_and_mask, bit_or_fields, bit_and_bit, bit_or_bit, bit_xor_mask}
use compyter.Cpu.Divmod.{round, rounds, divmod}

-- The bit of the quotient and the remainder that a round gets from the running remainder `t`.
abbrev digit : ℕ → ℕ → ℕ
digit d t = if leb d t then 1 else 0

abbrev left : ℕ → ℕ → ℕ
left d t = if leb d t then t - d else t

-- The quotient and the remainder after a round, as numbers.
abbrev next_q : ℕ → ℕ → ℕ → ℕ
next_q d q r = q * 2 % 2 ^ 32 + digit d (r * 2 + q / 2 ^ 31)

abbrev next_r : ℕ → ℕ → ℕ → ℕ
next_r d q r = left d (r * 2 + q / 2 ^ 31)

module _ (d q r : ℕ) (d_pos : 0 < d) (d_le : d ≤ 2 ^ 31) (q_lt : q < 2 ^ 32) (r_lt : r < d) where
  low_q : bit_and (q * 2) 0xffffffff ≡ q * 2 % 2 ^ 32
  low_q = bit_and_mask 32 (q * 2)

  shifted_r : bit_or (bit_and (r * 2) 0xffffffff) (q / 2 ^ 31) ≡ r * 2 + q / 2 ^ 31
  shifted_r =
      ap (λ n. bit_or n (q / 2 ^ 31)) (omega (arith, bit_and_mask 32 (r * 2)))
      ∙ bit_or_fields 1 r (q / 2 ^ 31) (omega arith)

  low_test :
      bit_and (r * 2 + q / 2 ^ 31 + (2 ^ 32 - d)) 0xffffffff
      ≡ (r * 2 + q / 2 ^ 31 + (2 ^ 32 - d)) % 2 ^ 32
  low_test = bit_and_mask 32 _

  one_more : bit_or (q * 2 % 2 ^ 32) 1 ≡ q * 2 % 2 ^ 32 + 1
  one_more = omega (arith, bit_or_bit 0 (q * 2 % 2 ^ 32))

  round_lem : round (pos (2 ^ 32 - d)) (pos q, pos r) ≡ (pos (next_q d q r), pos (next_r d q r))
  unfolding round
  round_lem = simp (low_q, shifted_r, low_test, bit_and_bit 31, one_more) (ground arith)

digit_lem : (d t k : ℕ) → (k * 2 + digit d t) * d + left d t ≡ k * 2 * d + t
digit_lem d t k = ground arith

-- The next bit `b` of the dividend moves from the quotient register into the remainder.
module _ (n d m b rest k r : ℕ) (d_pos : 0 < d) (d_le : d ≤ 2 ^ 31)
    (weight : m * 2 ^ suc n ≡ 2 ^ 32) (b_lt : b < 2) (rest_lt : rest < 2 ^ n) (k_lt : k < m)
    (r_lt : r < d) where
  weight_half : m * 2 ^ n ≡ 2 ^ 31
  weight_half = omega (arith, ap (λ (t : ℕ). m * t) (pow-suc 2 n))

  below_half : rest * m + k < 2 ^ 31
  below_half = omega (arith, weight_half, mul-le-mul_right m rest_lt)

  top : (b * 2 ^ n + rest) * m + k ≡ b * 2 ^ 31 + (rest * m + k)
  top = omega (arith, ap (λ (t : ℕ). b * t) weight_half)

  high_bit : (b * 2 ^ 31 + (rest * m + k)) / 2 ^ 31 ≡ b
  high_bit = omega (arith, below_half)

  low_bits : (b * 2 ^ 31 + (rest * m + k)) * 2 % 2 ^ 32 ≡ (rest * m + k) * 2
  low_bits = omega (arith, below_half)

  top_round :
      round (pos (2 ^ 32 - d)) (pos ((b * 2 ^ n + rest) * m + k), pos r)
      ≡ (pos (rest * (m * 2) + (k * 2 + digit d (r * 2 + b))), pos (left d (r * 2 + b)))
  top_round = rw top (
      rw (round_lem d (b * 2 ^ 31 + (rest * m + k)) r d_pos d_le (omega (arith, below_half)) r_lt)
        (rw (high_bit, low_bits) (ap (λ t. (pos t, pos (left d (r * 2 + b)))) (omega arith))))

-- From the state `s`, `n` rounds leave the quotient and the remainder of `total` by `d`.
record Divides (n d : ℕ) (s : ℤ × ℤ) (total : ℕ) : Type 0 where
  q : ℕ
  r : ℕ
  runs : rounds n (pos (2 ^ 32 - d)) s ≡ (pos q, pos r)
  adds : q * d + r ≡ total
  fits : r < d

Divides-suc :
    (n d total : ℕ) (s : ℤ × ℤ)
    → Divides n d (round (pos (2 ^ 32 - d)) s) total
    → Divides (suc n) d s total
unfolding rounds
Divides-suc n d total s h = record { q = h.q; r = h.r; runs = h.runs; adds = h.adds; fits = h.fits }

running_total :
    (n d b rest k r : ℕ)
    → ((k * 2 + digit d (r * 2 + b)) * d + left d (r * 2 + b)) * 2 ^ n + rest
      ≡ (k * d + r) * 2 ^ suc n + (b * 2 ^ n + rest)
running_total n d b rest k r = omega (
  arith,
  ap (λ (t : ℕ). t * 2 ^ n) (digit_lem d (r * 2 + b) k),
  ap (λ (t : ℕ). (k * d + r) * t) (pow-suc 2 n),
)

-- With `n` rounds to go the quotient register holds `n` bits of the dividend above the bits of the
-- quotient that are known; `m` is the weight of the first of these bits of the dividend.
rounds-Divides :
    (n d m rest k r : ℕ)
    → 0 < d
    → d ≤ 2 ^ 31
    → m * 2 ^ n ≡ 2 ^ 32
    → rest < 2 ^ n
    → k < m
    → r < d
    → Divides n d (pos (rest * m + k), pos r) ((k * d + r) * 2 ^ n + rest)
unfolding rounds
rounds-Divides zero d m zero k r d_pos d_le weight rest_lt k_lt r_lt = record {
  q = k;
  r = r;
  runs = ap (λ t. (pos t, pos r)) (omega arith);
  adds = omega arith;
  fits = r_lt;
}
rounds-Divides zero d m (suc rest) k r d_pos d_le weight rest_lt k_lt r_lt = absurd (omega arith)
rounds-Divides (suc n) d m rest k r d_pos d_le weight rest_lt k_lt r_lt =
    subst (λ t. Divides (suc n) d (pos (t * m + k), pos r) ((k * d + r) * 2 ^ suc n + t)) split
      (Divides-suc n d _ _ (
        subst (λ s. Divides n d s ((k * d + r) * 2 ^ suc n + (b * 2 ^ n + low)))
          (sym (top_round n d m b low k r d_pos d_le weight b_lt low_lt k_lt r_lt))
          (subst (Divides n d _) (running_total n d b low k r) (
            rounds-Divides n d (m * 2) low (k * 2 + digit d (r * 2 + b)) (left d (r * 2 + b)) d_pos
              d_le weight' low_lt (ground arith) (ground (arith, b_lt))))))
  where
    b : ℕ
    b = rest / 2 ^ n

    low : ℕ
    low = rest % 2 ^ n

    split : b * 2 ^ n + low ≡ rest
    split = grind arith

    b_lt : b < 2
    b_lt = grind (arith, pow-suc 2 n, one-le-pow n 2)

    low_lt : low < 2 ^ n
    low_lt = omega (arith, one-le-pow n 2)

    weight' : m * 2 * 2 ^ n ≡ 2 ^ 32
    weight' = omega (arith, ap (λ (t : ℕ). m * t) (pow-suc 2 n))

quotient_unique : (a d q r : ℕ) → q * d + r ≡ a → r < d → (q ≡ a / d) × (r ≡ a % d)
quotient_unique a d q r e h =
    let same : q ≡ a / d = sym (div-eq_of_lt-le d (omega arith) (omega arith)) in
    (same, omega (arith, mod-eq-sub-div-mul a d, ap (λ (t : ℕ). t * d) same))

-- For a word and a divisor from 1 to 2 ** 31, the loop returns the quotient and the remainder.
pub divmod-eq-div-mod :
    (a d : ℕ)
    → a < 2 ^ 32
    → 0 < d
    → d ≤ 2 ^ 31
    → divmod (pos a) (pos d) ≡ (pos (a / d), pos (a % d))
unfolding divmod
divmod-eq-div-mod a d a_lt d_pos d_le =
    rw (bit_xor_mask 32 d (omega arith)) (rw (complement, dividend) (h.runs ∙ result))
  where
    complement : 2 ^ 32 - 1 - d + 1 ≡ 2 ^ 32 - d
    complement = omega arith

    dividend : a ≡ a * 1 + 0
    dividend = omega arith

    h : Divides 32 d (pos (a * 1 + 0), pos 0) ((0 * d + 0) * 2 ^ 32 + a)
    h = rounds-Divides 32 d 1 a 0 0 d_pos d_le refl a_lt (omega arith) d_pos

    unique : (h.q ≡ (a * 1 + 0) / d) × (h.r ≡ (a * 1 + 0) % d)
    unique = quotient_unique (a * 1 + 0) d h.q h.r (omega (arith, h.adds)) h.fits

    result : ◌≡◌ {A = ℤ × ℤ} (pos h.q, pos h.r) (pos ((a * 1 + 0) / d), pos ((a * 1 + 0) % d))
    result = λ i. (pos (unique.0 i), pos (unique.1 i))
