-- ===== src/Cpu/Interrupts.antt =====
-- What `CPU.intr` of compyter/cpu.py does.
use compyter.Prelude.{ℕ, ◌≡◌, refl, Bool-cases, inl, inr, true, false, if◌then◌else◌}
use compyter.Prelude.Int.{pos}
use compyter.Result.{ok}
use compyter.Exec.{◌>>=◌}
use compyter.Memory.{Bus}
use compyter.Machine.{Machine}
use compyter.Register.{reg_status, reg_fc, test_bit, status_bit, intr}
use compyter.Cpu.{trap_intr, cpu_intr, intr_by}
use compyter.Cpu.Traps.{trap_lem, entered}

module _ {B : Bus} where
  -- The processor that takes an interrupt at once, and the one that keeps it for later.
  abbrev pub interrupted : Machine B → Machine B
  interrupted s =
      if test_bit intr (s.registers reg_status)
      then entered trap_intr (record s { intr_pending = false })
      else record s { intr_pending = true }

  -- The processor takes an interrupt at once when interrupts are enabled, and keeps it for later when
  -- they are not.
  pub cpu_intr_lem :
      (st : ℕ) (s : Machine B)
      → s.registers reg_status ≡ pos st
      → s.registers reg_fc ≡ pos 0
      → cpu_intr s ≡ (ok tt, interrupted s)
  unfolding cpu_intr intr_by ◌>>=◌ status_bit
  cpu_intr_lem st s status faults = elim (Bool-cases (test_bit intr (s.registers reg_status))) [
    | inl h ↦ rw h (trap_lem 0xfffff000 st 0 (record s { intr_pending = false }) status faults)
    | inr h ↦ rw h refl
  ]
