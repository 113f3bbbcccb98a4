-- ===== src/Cpu/Arith/Sums.antt =====
-- What the arithmetic instructions leave in their registers.
use compyter.Prelude.{
  ℕ, ◌+◌, ◌-◌, ◌*◌, ◌/◌, ◌%◌, ◌^◌, ◌<◌, ◌≤◌, ◌≡◌, ◌∙◌, refl, ap, arith, Bool, false, true, ltb,
  ◌==◌, if◌then◌else◌,
}
use native.Mathlib.Nat.{div-le_self, mod-le}
use compyter.Prelude.Int.{ℤ, pos, of_bool, ltb_ℤ, ◌+ℤ◌, ◌*ℤ◌, ◌&ℤ◌, invert, sub_ℕ, pos-add-invert}
use compyter.Prelude.Bits.{bit_and_mask, bit_and_comm}
use compyter.Result.{ok}
use compyter.Exec.{◌>>=◌, ◌>>◌}
use compyter.Memory.{Bus}
use compyter.Machine.{Machine, put}
use compyter.Register.{reg_carry, reg_rsvd, get_item, set_rsvd, has_enabled_intr}
use compyter.Cpu.{max_val, set, trap, trap_div}
use compyter.Cpu.Access.{general, get_item-general, set-general, set-open, quiet-put}
use compyter.Cpu.Divmod.{divmod}
use compyter.Cpu.Divmod.Correct.{divmod-eq-div-mod}
use compyter.Cpu.Arith.{add, addi, sub, mul, div, mod_}

low_word : (n : ℕ) → pos n &ℤ pos 0xffffffff ≡ pos (n % 2 ^ 32)
low_word n = ap pos (bit_and_mask 32 n)

low_word_sub :
    (a b : ℕ) → b ≤ 2 ^ 32 → sub_ℕ a b &ℤ pos 0xffffffff ≡ pos ((a + (2 ^ 32 - b)) % 2 ^ 32)
low_word_sub a b le = ground (
  arith,
  bit_and_mask 32 (a - b),
  bit_and_comm 0xffffffff (b - a - 1),
  bit_and_mask 32 (b - a - 1),
)

module _ {B : Bus} where
  -- The result of an instruction, and its carry.
  abbrev pub result : ℕ → ℤ → ℤ → Machine B → Machine B
  result r3 v c s = put reg_carry c (put r3 v s)

  results :
      (r3 : ℕ) (v c : ℤ) (s : Machine B)
      → r3 < general
      → has_enabled_intr s ≡ false
      → (do set (pos r3) v; set (pos reg_carry) c) s ≡ (ok tt, result r3 v c s)
  unfolding ◌>>=◌
  results r3 v c s lt3 quiet =
      rw (set-general r3 v s lt3 quiet)
        (set-open reg_carry c (put r3 v s) (omega arith) refl (quiet-put r3 v s lt3 quiet))

  module _ (r1 r2 x y : ℤ) (r3 : ℕ) (s : Machine B) (first : get_item r1 s ≡ (ok x, s))
      (second : get_item r2 s ≡ (ok y, s)) (lt3 : r3 < general)
      (quiet : has_enabled_intr s ≡ false) where
    add-result :
        add r1 r2 (pos r3) s
        ≡ (ok tt, result r3 ((x +ℤ y) &ℤ pos 0xffffffff) (of_bool (ltb_ℤ max_val (x +ℤ y))) s)
    unfolding add ◌>>=◌
    add-result = rw (first, second) (results r3 _ _ s lt3 quiet)

    mul-result :
        mul r1 r2 (pos r3) s
        ≡ (ok tt, result r3 ((x *ℤ y) &ℤ pos 0xffffffff) (of_bool (ltb_ℤ max_val (x *ℤ y))) s)
    unfolding mul ◌>>=◌
    mul-result = rw (first, second) (results r3 _ _ s lt3 quiet)

module _ {B : Bus} (r1 r2 r3 a b : ℕ) (s : Machine B) (lt1 : r1 < general) (lt2 : r2 < general)
    (lt3 : r3 < general) (reads1 : s.registers r1 ≡ pos a) (reads2 : s.registers r2 ≡ pos b)
    (quiet : has_enabled_intr s ≡ false) where
  first : get_item (pos r1) s ≡ (ok (pos a), s)
  first = rw (get_item-general r1 s lt1) (rw reads1 refl)

  second : get_item (pos r2) s ≡ (ok (pos b), s)
  second = rw (get_item-general r2 s lt2) (rw reads2 refl)

  carried : a < 2 ^ 32 → b < 2 ^ 32 → of_bool (ltb 0xffffffff (a + b)) ≡ pos ((a + b) / 2 ^ 32)
  carried ha hb = ground arith

  -- `add` on two words, with all three registers general purpose ones and no interrupt both pending
  -- and enabled: it returns with the sum modulo 2^32 in the third register and what the sum has above
  -- 32 bits in the carry register, and changes nothing else.
  add_lem :
      a < 2 ^ 32
      → b < 2 ^ 32
      → add (pos r1) (pos r2) (pos r3) s
        ≡ (ok tt, result r3 (pos ((a + b) % 2 ^ 32)) (pos ((a + b) / 2 ^ 32)) s)
  add_lem ha hb =
      add-result (pos r1) (pos r2) (pos a) (pos b) r3 s first second lt3 quiet
      ∙ rw (low_word (a + b), carried ha hb) refl

  -- `mul` under the same conditions: the product modulo 2^32 is in the third register, and the carry
  -- register tells whether the product had more than 32 bits.
  mul_lem :
      mul (pos r1) (pos r2) (pos r3) s
      ≡ (ok tt, result r3 (pos (a * b % 2 ^ 32)) (of_bool (ltb 0xffffffff (a * b))) s)
  mul_lem =
      mul-result (pos r1) (pos r2) (pos a) (pos b) r3 s first second lt3 quiet
      ∙ rw (low_word (a * b)) refl

  abbrev negated : Machine B
  negated = put reg_rsvd (invert (pos b) +ℤ pos 1) s

  untouched : negated.registers r1 ≡ pos a
  untouched = let other : (r1 == reg_rsvd) ≡ false = ground arith in rw other reads1

  negated-first : get_item (pos r1) negated ≡ (ok (pos a), negated)
  negated-first = rw (get_item-general r1 negated lt1) (rw untouched refl)

  negated-second : get_item (pos reg_rsvd) negated ≡ (ok (invert (pos b) +ℤ pos 1), negated)
  unfolding get_item ◌>>=◌
  negated-second = refl

  no_carry : a < 2 ^ 32 → ltb_ℤ max_val (sub_ℕ a b) ≡ false
  no_carry ha = ground arith

  -- `sub` on two words, under the same conditions: the difference modulo 2^32 is in the third
  -- register, and the carry register is 0, also when the difference is negative; the register RSVD
  -- holds the negated second word.
  sub_lem :
      a < 2 ^ 32
      → b < 2 ^ 32
      → sub (pos r1) (pos r2) (pos r3) s
        ≡ (ok tt, result r3 (pos ((a + (2 ^ 32 - b)) % 2 ^ 32)) (pos 0) negated)
  unfolding sub addi set_rsvd ◌>>=◌
  sub_lem ha hb = rw second (
      add-result (pos r1) (pos reg_rsvd) (pos a) (invert (pos b) +ℤ pos 1) r3 negated negated-first
        negated-second lt3 quiet
      ∙ rw (pos-add-invert a b) (rw (no_carry ha, low_word_sub a b (omega arith)) refl))

  -- `add`, `sub` and `mul` on two words, with all three registers general purpose ones and no interrupt
  -- both pending and enabled, return with the result modulo 2^32 in the third register. The carry
  -- register holds what a sum has above 32 bits; it is 0 for every difference, also a negative one; and
  -- it tells whether a product had more than 32 bits. Nothing else changes, but that `sub` leaves the
  -- negated second word in the register RSVD.
  pub add-sub-mul_lem :
      a < 2 ^ 32
      → b < 2 ^ 32
      → (add (pos r1) (pos r2) (pos r3) s
          ≡ (ok tt, result r3 (pos ((a + b) % 2 ^ 32)) (pos ((a + b) / 2 ^ 32)) s))
        × (sub (pos r1) (pos r2) (pos r3) s
            ≡ (ok tt, result r3 (pos ((a + (2 ^ 32 - b)) % 2 ^ 32)) (pos 0) negated))
        × (mul (pos r1) (pos r2) (pos r3) s
            ≡ (ok tt, result r3 (pos (a * b % 2 ^ 32)) (of_bool (ltb 0xffffffff (a * b))) s))
  add-sub-mul_lem ha hb = (add_lem ha hb, sub_lem ha hb, mul_lem)

  module _ (ha : a < 2 ^ 32) (hb : b ≤ 2 ^ 31) where
    division : (b == 0) ≡ false → divmod (pos a) (pos b) ≡ (pos (a / b), pos (a % b))
    division nonzero = divmod-eq-div-mod a b ha (ground arith) hb

    small_quotient : a / b % 2 ^ 32 ≡ a / b
    small_quotient = grind (arith, div-le_self a b)

    small_remainder : a % b % 2 ^ 32 ≡ a % b
    small_remainder = grind (arith, mod-le a b)

    div_branch :
        (zero_b : Bool)
        → (b == 0) ≡ zero_b
        → div (pos r1) (pos r2) (pos r3) s
          ≡ (if zero_b then trap trap_div s else (ok tt, result r3 (pos (a / b)) (pos 0) s))
    unfolding div ◌>>=◌
    div_branch true e = rw second (rw e refl)
    div_branch false e = rw second (
        rw e (
          rw (first, second, division e, low_word (a / b), small_quotient)
            (results r3 (pos (a / b)) (pos 0) s lt3 quiet)))

    mod_branch :
        (zero_b : Bool)
        → (b == 0) ≡ zero_b
        → mod_ (pos r1) (pos r2) (pos r3) s
          ≡ (if zero_b then trap trap_div s else (ok tt, result r3 (pos (a % b)) (pos 0) s))
    unfolding mod_ ◌>>=◌
    mod_branch true e = rw second (rw e refl)
    mod_branch false e = rw second (
        rw e (
          rw (first, second, division e, low_word (a % b), small_remainder)
            (results r3 (pos (a % b)) (pos 0) s lt3 quiet)))

    -- `div` and `mod` on a word and a divisor up to 2^31, under the same conditions: by 0 each is the
    -- trap TRAP_DIV and nothing else; by any other divisor the quotient or the remainder is in the
    -- third register and the carry register is 0.
    pub div-mod_lem :
        (div (pos r1) (pos r2) (pos r3) s
          ≡ (if b == 0 then trap trap_div s else (ok tt, result r3 (pos (a / b)) (pos 0) s)))
        × (mod_ (pos r1) (pos r2) (pos r3) s
            ≡ (if b == 0 then trap trap_div s else (ok tt, result r3 (pos (a % b)) (pos 0) s)))
    div-mod_lem = (div_branch (b == 0) refl, mod_branch (b == 0) refl)
