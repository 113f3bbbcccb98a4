-- ===== src/Cpu/Arith/Keeps.antt =====
-- The arithmetic of compyter/cpu.py leaves the cache in agreement with memory.
use compyter.Prelude.Int.{ℤ}
use compyter.Memory.{Bus}
use compyter.Cpu.Arith.{
  add, addi, sub, subi, mul, muli, div, divi, mod_, modi, and_, andi, or_, ori, xor_, xori, not_,
  shl, shli, shr, shri,
}
use compyter.Cpu.Keeps.{Keeps, keeps, set-Keeps, trap-Keeps}

module _ {B : Bus} where
  pub add-Keeps : (a b c : ℤ) → Keeps {B = B} (add a b c)
  unfolding add
  add-Keeps a b c = search (keeps, set-Keeps)

  pub addi-Keeps : (a b c : ℤ) → Keeps {B = B} (addi a b c)
  unfolding addi
  addi-Keeps a b c = search (keeps, add-Keeps)

  pub sub-Keeps : (a b c : ℤ) → Keeps {B = B} (sub a b c)
  unfolding sub
  sub-Keeps a b c = search (keeps, addi-Keeps)

  pub subi-Keeps : (a b c : ℤ) → Keeps {B = B} (subi a b c)
  unfolding subi
  subi-Keeps a b c = search (keeps, sub-Keeps)

  pub mul-Keeps : (a b c : ℤ) → Keeps {B = B} (mul a b c)
  unfolding mul
  mul-Keeps a b c = search (keeps, set-Keeps)

  pub muli-Keeps : (a b c : ℤ) → Keeps {B = B} (muli a b c)
  unfolding muli
  muli-Keeps a b c = search (keeps, mul-Keeps)

  pub div-Keeps : (a b c : ℤ) → Keeps {B = B} (div a b c)
  unfolding div
  div-Keeps a b c = search (keeps, set-Keeps, trap-Keeps) depth 12

  pub divi-Keeps : (a b c : ℤ) → Keeps {B = B} (divi a b c)
  unfolding divi
  divi-Keeps a b c = search (keeps, div-Keeps)

  pub mod_-Keeps : (a b c : ℤ) → Keeps {B = B} (mod_ a b c)
  unfolding mod_
  mod_-Keeps a b c = search (keeps, set-Keeps, trap-Keeps) depth 12

  pub modi-Keeps : (a b c : ℤ) → Keeps {B = B} (modi a b c)
  unfolding modi
  modi-Keeps a b c = search (keeps, mod_-Keeps)

  pub and_-Keeps : (a b c : ℤ) → Keeps {B = B} (and_ a b c)
  unfolding and_
  and_-Keeps a b c = search (keeps, set-Keeps)

  pub andi-Keeps : (a b c : ℤ) → Keeps {B = B} (andi a b c)
  unfolding andi
  andi-Keeps a b c = search (keeps, set-Keeps)

  pub or_-Keeps : (a b c : ℤ) → Keeps {B = B} (or_ a b c)
  unfolding or_
  or_-Keeps a b c = search (keeps, set-Keeps)

  pub ori-Keeps : (a b c : ℤ) → Keeps {B = B} (ori a b c)
  unfolding ori
  ori-Keeps a b c = search (keeps, set-Keeps)

  pub xor_-Keeps : (a b c : ℤ) → Keeps {B = B} (xor_ a b c)
  unfolding xor_
  xor_-Keeps a b c = search (keeps, set-Keeps)

  pub xori-Keeps : (a b c : ℤ) → Keeps {B = B} (xori a b c)
  unfolding xori
  xori-Keeps a b c = search (keeps, set-Keeps)

  pub not_-Keeps : (a b : ℤ) → Keeps {B = B} (not_ a b)
  unfolding not_
  not_-Keeps a b = search (keeps, set-Keeps)

  pub shl-Keeps : (a b c : ℤ) → Keeps {B = B} (shl a b c)
  unfolding shl
  shl-Keeps a b c = search (keeps, set-Keeps)

  pub shli-Keeps : (a b c : ℤ) → Keeps {B = B} (shli a b c)
  unfolding shli
  shli-Keeps a b c = search (keeps, set-Keeps)

  pub shr-Keeps : (a b c : ℤ) → Keeps {B = B} (shr a b c)
  unfolding shr
  shr-Keeps a b c = search (keeps, set-Keeps)

  pub shri-Keeps : (a b c : ℤ) → Keeps {B = B} (shri a b c)
  unfolding shri
  shri-Keeps a b c = search (keeps, set-Keeps)
