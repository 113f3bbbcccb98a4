-- ===== src/Cpu/Control/Pending.antt =====
-- An `rfe` that enables interrupts while one is pending: the write to the fault counter takes the
-- interrupt in the middle of the instruction.
use mathlib.Core.Path.{subst}
use compyter.Prelude.{ℕ, ◌≡◌, ◌∙◌, refl, sym, arith, Bool, true, false, ◌&&◌}
use compyter.Prelude.Int.{ℤ, pos}
use compyter.Result.{Result, ok}
use compyter.Exec.{⊤, Exec, ◌>>=◌}
use compyter.Memory.{Bus}
use compyter.Machine.{Machine, put}
use compyter.Register.{
  reg_pc, reg_ret, reg_fc, reg_status, status_bit, intr, intr_prev, get_item, set_item, test_bit,
  has_bit,
}
use compyter.Cpu.{trap, trap_intr, set_by, intr_by, set}
use compyter.Cpu.Traps.{entered, trap_lem, push_mode-disabled}
use compyter.Cpu.Control.{rfe}
use compyter.Cpu.Control.Rfe.{
  pop_mode, popped, popped_status, pop_mode-pos, pop_mode-intr, restore_mode_lem, set-quiet,
}

and_false : (b : Bool) → (b && false) ≡ false
and_false b = ground arith

module _ {B : Bus} where
  abbrev taken : Machine B → Machine B
  taken s = record s { intr_pending = false }

  -- A write that leaves an interrupt pending and enabled takes it.
  set_by-fires :
      (t : ℤ → Exec (Machine B) ⊤) (v : ℤ) (s : Machine B)
      → has_bit intr s ≡ true
      → s.intr_pending ≡ true
      → set_by t (pos reg_fc) v s ≡ t trap_intr (taken (put reg_fc v s))
  unfolding set_by set_item intr_by ◌>>=◌ status_bit
  set_by-fires t v s on waits = rw (on, waits, on) refl

  -- The state in which the handler's `rfe` leaves the interrupt taken.
  abbrev lowered : Machine B → Machine B
  lowered s = taken (put reg_fc (pos 0) (popped s))

  abbrev pub lost : Machine B → Machine B
  lost s = put reg_pc (s.registers reg_pc) (entered trap_intr (lowered s))

  module _ (st : ℕ) (s : Machine B) (status : s.registers reg_status ≡ pos st)
      (faults : s.registers reg_fc ≡ pos 1) (enabled : test_bit intr_prev (pos st) ≡ true)
      (waits : s.intr_pending ≡ true) where
    on : test_bit intr (pop_mode (s.registers reg_status)) ≡ true
    on = rw status (pop_mode-intr st ∙ enabled)

    fires : set (pos reg_fc) (pos 0) (popped s) ≡ (ok tt, entered trap_intr (lowered s))
    unfolding set
    fires =
        set_by-fires trap (pos 0) (popped s) on waits
        ∙ trap_lem 0xfffff000 (popped_status st) 0 (lowered s) (rw status (pop_mode-pos st)) refl

    rfe-lost : rfe s ≡ (ok tt, lost s)
    unfolding rfe ◌>>=◌ get_item
    rfe-lost = rw (restore_mode_lem s) (
        rw faults (
          rw (faults, fires)
            (rw (and_false (test_bit intr ((lost s).registers reg_status))) (
              set-quiet reg_pc (s.registers reg_pc) (entered trap_intr (lowered s)) (omega arith)
                refl (and_false _)))))

  -- What is left of an interrupt that came too early, and of the program that `rfe` was to resume.
  abbrev pub Dropped : Machine B → Result ⊤ × Machine B → Type 0
  Dropped s (result, s') =
      (result ≡ ok tt)
      × (s'.registers reg_pc ≡ s.registers reg_pc)
      × (s'.registers reg_ret ≡ s.registers reg_pc)
      × (s'.registers reg_fc ≡ pos 1)
      × (s'.intr_pending ≡ false)
      × (has_bit intr s' ≡ false)

  -- An `rfe` that ends a handler with one fault open, enables interrupts again and finds one pending
  -- drops it: it returns with the program counter at the instruction behind the `rfe` and the return
  -- register at the same address, so that neither the interrupt handler nor the interrupted program
  -- runs; the interrupt is no longer pending, one fault stays open and interrupts stay disabled.
  pub rfe-drops :
      (st : ℕ) (s : Machine B)
      → s.registers reg_status ≡ pos st
      → s.registers reg_fc ≡ pos 1
      → test_bit intr_prev (pos st) ≡ true
      → s.intr_pending ≡ true
      → Dropped s (rfe s)
  rfe-drops st s status faults enabled waits =
      subst (Dropped s) (sym (rfe-lost st s status faults enabled waits)) (
        refl,
        refl,
        refl,
        refl,
        refl,
        rw status (rw (pop_mode-pos st) (push_mode-disabled (popped_status st))),
      )
