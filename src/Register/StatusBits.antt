-- ===== src/Register/StatusBits.antt =====
-- The bits of the status register are independent of one another.
use compyter.Prelude.{
  ℕ, ◌+◌, ◌-◌, ◌*◌, ◌/◌, ◌%◌, ◌^◌, ◌≡◌, arith, Bool, true, false, ltb, if◌then◌else◌,
}
use compyter.Prelude.Int.{pos}
use compyter.Prelude.Bits.{bit_and_bit, bit_or_bit}
use compyter.Register.{
  StatusBit, mmu_enable, user_old, intr_old, user_prev, intr_prev, user, intr, test_bit, with_bit,
}

-- The place of a bit.
abbrev pub place : StatusBit → ℕ
place mmu_enable = 31
place user_old = 5
place intr_old = 4
place user_prev = 3
place intr_prev = 2
place user = 1
place intr = 0

abbrev pub same_bit : StatusBit → StatusBit → Bool
same_bit a b =
    if ltb (place a) (place b) then false else if ltb (place b) (place a) then false else true

-- The digit of a number at a place, and the number with another digit there.
abbrev pub digit : StatusBit → ℕ → ℕ
digit b st = st / 2 ^ place b % 2

pub with_digit : StatusBit → Bool → ℕ → ℕ
with_digit b true st = st + (1 - digit b st) * 2 ^ place b
with_digit b false st = st - digit b st * 2 ^ place b

pub with_bit-pos :
    (b : StatusBit) (c : Bool) (st : ℕ) → with_bit b c (pos st) ≡ pos (with_digit b c st)
unfolding with_bit with_digit
with_bit-pos mmu_enable true st = ground (arith, bit_or_bit 31 st)
with_bit-pos mmu_enable false st = ground (arith, bit_and_bit 31 st)
with_bit-pos b true st = ground (arith, bit_or_bit (place b) st)
with_bit-pos b false st = ground (arith, bit_and_bit (place b) st)

pub test_bit-pos : (b : StatusBit) (st : ℕ) → test_bit b (pos st) ≡ ltb 0 (digit b st)
unfolding test_bit
test_bit-pos mmu_enable st = ground (arith, bit_and_bit 31 st)
test_bit-pos b st = ground (arith, bit_and_bit (place b) st)

digit-with_digit :
    (b b' : StatusBit) (c : Bool) (st : ℕ)
    → ltb 0 (digit b (with_digit b' c st)) ≡ (if same_bit b b' then c else ltb 0 (digit b st))
unfolding with_digit
digit-with_digit mmu_enable mmu_enable true st = ground arith
digit-with_digit b b' true st = ground arith
digit-with_digit b b' false st = ground arith

-- After a write to one bit, that bit reads as it was written and the others as before.
pub test_bit-with_digit :
    (b b' : StatusBit) (c : Bool) (st : ℕ)
    → test_bit b (pos (with_digit b' c st)) ≡ (if same_bit b b' then c else test_bit b (pos st))
test_bit-with_digit b b' c st =
    rw (test_bit-pos b (with_digit b' c st), test_bit-pos b st) (digit-with_digit b b' c st)

pub ruleset status_laws = (with_bit-pos, test_bit-with_digit)
