-- ===== src/Cpu.antt =====
-- compyter/cpu.py: traps, interrupts, halting and jumps, which the instructions are made of.
pub mod Access
pub mod UserMode
pub mod Traps
pub mod Interrupts
pub mod Jumps
pub mod Divmod
pub mod Arith
pub mod LoadStore
pub mod Control
pub mod Decode
pub mod Keeps
use compyter.Prelude.{ℕ, zero, suc, true, false, if◌then◌else◌}
use compyter.Prelude.Int.{ℤ, pos, ◌+ℤ◌, ltb_ℤ, eqb_ℤ}
use compyter.Result.{system_exit, recursion_error}
use compyter.Exec.{⊤, Exec, raise, modify, ◌>>=◌, ◌>>◌}
use compyter.Memory.{Bus}
use compyter.Machine.{Machine}
use compyter.Register.{
  reg_pc, reg_ret, reg_fc, intr, intr_prev, intr_old, user, user_prev, user_old, status_bit,
  set_status_bit, get_item, set_item,
}

abbrev pub max_val : ℤ
max_val = pos 0xffffffff

-- The trap vectors; `trap_dfault` has one digit less than the others.
abbrev pub trap_intr : ℤ
trap_intr = pos 0xfffff000

abbrev pub trap_ill : ℤ
trap_ill = pos 0xfffff010

abbrev pub trap_div : ℤ
trap_div = pos 0xfffff020

abbrev pub trap_pfault : ℤ
trap_pfault = pos 0xfffff030

abbrev pub trap_bbptr : ℤ
trap_bbptr = pos 0xfffff040

abbrev pub trap_dfault : ℤ
trap_dfault = pos 0xffff050

module _ {B : Bus} where
  -- The threads that `end_threads` joins end by themselves once the event is set.
  pub halt : Exec (Machine B) ⊤
  halt = do modify (λ s. record s { exit_event = true }); raise system_exit

  -- The interrupt and the user bit move one place up, and are cleared.
  pub save_mode : Exec (Machine B) ⊤
  save_mode = do
    b ← status_bit intr_prev
    set_status_bit intr_old b
    b ← status_bit intr
    set_status_bit intr_prev b
    set_status_bit intr false
    b ← status_bit user_prev
    set_status_bit user_old b
    b ← status_bit user
    set_status_bit user_prev b
    set_status_bit user false

  -- `trap` and `__setitem__` call one another: here each takes the `trap` that it calls.
  module _ (trap : ℤ → Exec (Machine B) ⊤) where
    pub intr_by : Exec (Machine B) ⊤
    intr_by = do
      enabled ← status_bit intr
      if enabled
          then (do modify (λ s. record s { intr_pending = false }); trap trap_intr)
          else modify (λ s. record s { intr_pending = true })

    pub set_by : ℤ → ℤ → Exec (Machine B) ⊤
    unfolding intr_by
    set_by = set_item intr_by

    pub jmp_by : ℤ → Exec (Machine B) ⊤
    unfolding set_by
    jmp_by addr = if ltb_ℤ addr (pos 0) then trap trap_ill else set_by (pos reg_pc) addr

    -- The part of `trap` behind the fault counter.
    pub enter_by : ℤ → Exec (Machine B) ⊤
    unfolding jmp_by
    enter_by addr = do
      pc ← get_item (pos reg_pc)
      set_by (pos reg_ret) pc
      jmp_by addr
      modify (λ s. record s { trap_event = false })

    pub trap_by : ℤ → Exec (Machine B) ⊤
    unfolding enter_by save_mode
    trap_by addr = do
      modify (λ s. record s { trap_event = true })
      save_mode
      n ← get_item (pos reg_fc)
      set_by (pos reg_fc) (n +ℤ pos 1)
      n ← get_item (pos reg_fc)
      if eqb_ℤ n (pos 2)
          then trap trap_dfault
          else (if eqb_ℤ n (pos 3) then halt else enter_by addr)

  pub trap_fuel : ℕ → ℤ → Exec (Machine B) ⊤
  unfolding trap_by
  trap_fuel zero addr = raise recursion_error
  trap_fuel (suc fuel) addr = trap_by (trap_fuel fuel) addr

  -- One call inside another is the most that happens: `trap_fuel-eq-trap`.
  pub trap : ℤ → Exec (Machine B) ⊤
  unfolding trap_fuel
  trap = trap_fuel 2

  pub cpu_intr : Exec (Machine B) ⊤
  cpu_intr = intr_by trap

  -- `self.registers[item] = val`
  pub set : ℤ → ℤ → Exec (Machine B) ⊤
  set = set_by trap

  pub jmp : ℤ → Exec (Machine B) ⊤
  jmp = jmp_by trap
