-- ===== src/Cpu/Jumps/Signed.antt =====
-- The order that the conditional jumps go by.
use compyter.Prelude.{
  ℕ, ◌+◌, ◌%◌, ◌^◌, ◌<◌, ◌≡◌, ◌∙◌, refl, ap, arith, Bool, false, true, not, ltb, leb, ◌==◌,
  if◌then◌else◌,
}
use compyter.Prelude.Int.{ℤ, pos, ltb_ℤ, leb_ℤ, eqb_ℤ}
use compyter.Result.{ok, Result}
use compyter.Exec.{⊤, pure, ◌>>=◌, when}
use compyter.Memory.{Bus}
use compyter.Machine.{Machine, put}
use compyter.Register.{reg_pc, get_item, has_enabled_intr}
use compyter.Cpu.{trap, jmp}
use compyter.Cpu.Access.{general, get_item-general}
use compyter.Cpu.Traps.{jmp_by-quiet}
use compyter.Cpu.Jumps.{binary_to_signed, jmpeq, jmpne, jmplt, jmple, jmpgt, jmpge}

-- A word with its top bit flipped: the order of two's complement is the order of these numbers.
abbrev pub biased : ℕ → ℕ
biased a = (a + 2 ^ 31) % 2 ^ 32

signed-ltb :
    (a b : ℕ)
    → a < 2 ^ 32
    → b < 2 ^ 32
    → ltb_ℤ (binary_to_signed (pos a)) (binary_to_signed (pos b)) ≡ ltb (biased a) (biased b)
signed-ltb a b ha hb = ground arith

signed-leb :
    (a b : ℕ)
    → a < 2 ^ 32
    → b < 2 ^ 32
    → leb_ℤ (binary_to_signed (pos a)) (binary_to_signed (pos b)) ≡ leb (biased a) (biased b)
signed-leb a b ha hb = ground arith

module _ {B : Bus} (r1 r2 a b addr : ℕ) (s : Machine B) (lt1 : r1 < general) (lt2 : r2 < general)
    (reads1 : s.registers r1 ≡ pos a) (reads2 : s.registers r2 ≡ pos b)
    (quiet : has_enabled_intr s ≡ false) where
  -- A jump that depends on a test.
  abbrev pub jumped : Bool → Result ⊤ × Machine B
  jumped taken = if taken then (ok tt, put reg_pc (pos addr) s) else (ok tt, s)

  jumps : (test : Bool) → when test (jmp (pos addr)) s ≡ jumped test
  unfolding jmp pure
  jumps true = jmp_by-quiet trap addr s quiet
  jumps false = refl

  compares :
      (test : ℤ → ℤ → Bool)
      → (do x ← get_item (pos r1); y ← get_item (pos r2); when (test x y) (jmp (pos addr))) s
        ≡ jumped (test (pos a) (pos b))
  unfolding ◌>>=◌
  compares test =
      rw (get_item-general r1 s lt1, get_item-general r2 s lt2, reads1, reads2)
        (jumps (test (pos a) (pos b)))

  module _ (ha : a < 2 ^ 32) (hb : b < 2 ^ 32) where
    less : jmplt (pos r1) (pos r2) (pos addr) s ≡ jumped (ltb (biased a) (biased b))
    unfolding jmplt
    less =
        compares (λ x y. ltb_ℤ (binary_to_signed x) (binary_to_signed y))
        ∙ ap jumped (signed-ltb a b ha hb)

    greater : jmpgt (pos r1) (pos r2) (pos addr) s ≡ jumped (ltb (biased b) (biased a))
    unfolding jmpgt
    greater =
        compares (λ x y. ltb_ℤ (binary_to_signed y) (binary_to_signed x))
        ∙ ap jumped (signed-ltb b a hb ha)

    at_most : jmple (pos r1) (pos r2) (pos addr) s ≡ jumped (leb (biased a) (biased b))
    unfolding jmple
    at_most =
        compares (λ x y. leb_ℤ (binary_to_signed x) (binary_to_signed y))
        ∙ ap jumped (signed-leb a b ha hb)

    at_least : jmpge (pos r1) (pos r2) (pos addr) s ≡ jumped (leb (biased b) (biased a))
    unfolding jmpge
    at_least =
        compares (λ x y. leb_ℤ (binary_to_signed y) (binary_to_signed x))
        ∙ ap jumped (signed-leb b a hb ha)

    equal : jmpeq (pos r1) (pos r2) (pos addr) s ≡ jumped (a == b)
    unfolding jmpeq
    equal = compares eqb_ℤ

    unequal : jmpne (pos r1) (pos r2) (pos addr) s ≡ jumped (not (a == b))
    unfolding jmpne
    unequal = compares (λ x y. not (eqb_ℤ x y))

    -- The six conditional jumps on two words in general purpose registers, with no interrupt both
    -- pending and enabled: each moves the program counter to the address and changes nothing else, or
    -- changes nothing. The four orders are those of two's complement: of the words with their top
    -- bit flipped, as numbers.
    pub jump-order :
        (jmplt (pos r1) (pos r2) (pos addr) s ≡ jumped (ltb (biased a) (biased b)))
        × (jmpgt (pos r1) (pos r2) (pos addr) s ≡ jumped (ltb (biased b) (biased a)))
        × (jmple (pos r1) (pos r2) (pos addr) s ≡ jumped (leb (biased a) (biased b)))
        × (jmpge (pos r1) (pos r2) (pos addr) s ≡ jumped (leb (biased b) (biased a)))
        × (jmpeq (pos r1) (pos r2) (pos addr) s ≡ jumped (a == b))
        × (jmpne (pos r1) (pos r2) (pos addr) s ≡ jumped (not (a == b)))
    jump-order = (less, greater, at_most, at_least, equal, unequal)
