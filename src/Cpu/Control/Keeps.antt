-- ===== src/Cpu/Control/Keeps.antt =====
-- The other instructions of compyter/cpu.py leave the cache in agreement with memory.
use compyter.Prelude.Int.{ℤ}
use compyter.Memory.{Bus}
use compyter.Cpu.Control.{nop, restore_mode, rfe, wait, swap, copy, cpuid}
use compyter.Cpu.Keeps.{
  Keeps, keeps, set-Keeps, cpu_intr-Keeps, modify-Keeps, status_bit-Keeps, set_status_bit-Keeps,
}

module _ {B : Bus} where
  pub nop-Keeps : Keeps {B = B} nop
  unfolding nop
  nop-Keeps = search keeps

  pub restore_mode-Keeps : Keeps {B = B} restore_mode
  unfolding restore_mode
  restore_mode-Keeps = search (keeps, status_bit-Keeps, set_status_bit-Keeps) depth 20

  pub rfe-Keeps : Keeps {B = B} rfe
  unfolding rfe
  rfe-Keeps = search (keeps, restore_mode-Keeps, set-Keeps, cpu_intr-Keeps) depth 20

  pub wait-Keeps : Keeps {B = B} wait
  unfolding wait
  wait-Keeps = search (keeps, modify-Keeps)

  pub swap-Keeps : (a b : ℤ) → Keeps {B = B} (swap a b)
  unfolding swap
  swap-Keeps a b = search (keeps, set-Keeps)

  pub copy-Keeps : (a b : ℤ) → Keeps {B = B} (copy a b)
  unfolding copy
  copy-Keeps a b = search (keeps, set-Keeps)

  pub cpuid-Keeps : Keeps {B = B} cpuid
  unfolding cpuid
  cpuid-Keeps = search (keeps, set-Keeps)
