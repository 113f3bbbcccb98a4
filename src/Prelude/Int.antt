-- ===== src/Prelude/Int.antt =====
-- Python's `int` over the native numbers: unbounded, signed, with the bit operators on an
-- infinite two's complement representation, as the language defines them.
use compyter.Prelude.{
  ℕ, suc, ◌+◌, ◌-◌, ◌*◌, ◌/◌, ◌^◌, ◌≤◌, ◌≡◌, Bool, true, false, arith, ltb, leb, ◌==◌, bit_and,
  bit_or, bit_xor, if◌then◌else◌,
}

-- `negsuc n` is -(n + 1), which is `~n`.
pub data ℤ : Type 0 where
  pos : ℕ → ℤ
  negsuc : ℕ → ℤ

abbrev pub pos_part : ℤ → ℕ
pos_part (pos n) = n
pos_part (negsuc n) = 0

abbrev pub neg_part : ℤ → ℕ
neg_part (pos n) = 0
neg_part (negsuc n) = suc n

-- a - b, as an integer.
abbrev pub sub_ℕ : ℕ → ℕ → ℤ
sub_ℕ a b = if leb b a then pos (a - b) else negsuc (b - a - 1)

infixl 65 ◌+ℤ◌ ◌-ℤ◌
infixl 70 ◌*ℤ◌
infixl 60 ◌<<ℤ◌ ◌>>ℤ◌
infixl 58 ◌&ℤ◌
infixl 57 ◌^ℤ◌
infixl 56 ◌|ℤ◌
infix 50 ◌≤ℤ◌ ◌<ℤ◌
abbrev pub ◌+ℤ◌ : ℤ → ℤ → ℤ
pos a +ℤ pos b = pos (a + b)
pos a +ℤ negsuc b = sub_ℕ a (suc b)
negsuc a +ℤ pos b = sub_ℕ b (suc a)
negsuc a +ℤ negsuc b = negsuc (suc (a + b))

abbrev pub ◌-ℤ◌ : ℤ → ℤ → ℤ
pos a -ℤ pos b = sub_ℕ a b
pos a -ℤ negsuc b = pos (a + suc b)
negsuc a -ℤ pos b = negsuc (a + b)
negsuc a -ℤ negsuc b = sub_ℕ (suc b) (suc a)

abbrev pub ◌*ℤ◌ : ℤ → ℤ → ℤ
pos a *ℤ pos b = pos (a * b)
pos a *ℤ negsuc b = sub_ℕ 0 (a * suc b)
negsuc a *ℤ pos b = sub_ℕ 0 (suc a * b)
negsuc a *ℤ negsuc b = pos (suc a * suc b)

abbrev pub ◌≤ℤ◌ : ℤ → ℤ → Type 0
a ≤ℤ b = pos_part a + neg_part b ≤ pos_part b + neg_part a

abbrev pub ◌<ℤ◌ : ℤ → ℤ → Type 0
a <ℤ b = suc (pos_part a + neg_part b) ≤ pos_part b + neg_part a

abbrev pub ltb_ℤ : ℤ → ℤ → Bool
ltb_ℤ (pos a) (pos b) = ltb a b
ltb_ℤ (pos a) (negsuc b) = false
ltb_ℤ (negsuc a) (pos b) = true
ltb_ℤ (negsuc a) (negsuc b) = ltb b a

abbrev pub leb_ℤ : ℤ → ℤ → Bool
leb_ℤ (pos a) (pos b) = leb a b
leb_ℤ (pos a) (negsuc b) = false
leb_ℤ (negsuc a) (pos b) = true
leb_ℤ (negsuc a) (negsuc b) = leb b a

abbrev pub eqb_ℤ : ℤ → ℤ → Bool
eqb_ℤ (pos a) (pos b) = a == b
eqb_ℤ (pos a) (negsuc b) = false
eqb_ℤ (negsuc a) (pos b) = false
eqb_ℤ (negsuc a) (negsuc b) = a == b

-- `~a`
abbrev pub invert : ℤ → ℤ
invert (pos n) = negsuc n
invert (negsuc n) = pos n

-- `a & ~b` on the numbers.
abbrev pub and_not : ℕ → ℕ → ℕ
and_not a b = a - bit_and a b

abbrev pub ◌&ℤ◌ : ℤ → ℤ → ℤ
pos a &ℤ pos b = pos (bit_and a b)
pos a &ℤ negsuc b = pos (and_not a b)
negsuc a &ℤ pos b = pos (and_not b a)
negsuc a &ℤ negsuc b = negsuc (bit_or a b)

abbrev pub ◌|ℤ◌ : ℤ → ℤ → ℤ
pos a |ℤ pos b = pos (bit_or a b)
pos a |ℤ negsuc b = negsuc (and_not b a)
negsuc a |ℤ pos b = negsuc (and_not a b)
negsuc a |ℤ negsuc b = negsuc (bit_and a b)

abbrev pub ◌^ℤ◌ : ℤ → ℤ → ℤ
pos a ^ℤ pos b = pos (bit_xor a b)
pos a ^ℤ negsuc b = negsuc (bit_xor a b)
negsuc a ^ℤ pos b = negsuc (bit_xor a b)
negsuc a ^ℤ negsuc b = pos (bit_xor a b)

abbrev pub ◌<<ℤ◌ : ℤ → ℕ → ℤ
pos a <<ℤ k = pos (a * 2 ^ k)
negsuc a <<ℤ k = negsuc (suc a * 2 ^ k - 1)

-- The shift rounds down.
abbrev pub ◌>>ℤ◌ : ℤ → ℕ → ℤ
pos a >>ℤ k = pos (a / 2 ^ k)
negsuc a >>ℤ k = negsuc (a / 2 ^ k)

-- `int(b)`
abbrev pub of_bool : Bool → ℤ
of_bool true = pos 1
of_bool false = pos 0

-- `bool(a)`
abbrev pub truthy : ℤ → Bool
truthy (pos n) = ltb 0 n
truthy (negsuc n) = true

-- `a & m` for a mask `m` that is not negative: never negative.
abbrev pub mask : ℕ → ℤ → ℕ
mask m (pos a) = bit_and a m
mask m (negsuc a) = and_not m a

pub pos-sub : (a b : ℕ) → b ≤ a → pos a -ℤ pos b ≡ pos (a - b)
pos-sub a b h = ground arith

-- `~b + 1` is `-b`.
pub pos-add-invert : (a b : ℕ) → pos a +ℤ (invert (pos b) +ℤ pos 1) ≡ sub_ℕ a b
pos-add-invert a b = ground arith
