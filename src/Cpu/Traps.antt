-- ===== src/Cpu/Traps.antt =====
-- What `trap` and `rfe` do to the registers.
use compyter.Prelude.{
  ℕ, zero, suc, ◌+◌, ◌<◌, ◌==◌, ◌≡◌, ◌∙◌, sym, refl, arith, true, false, ◌&&◌, if◌then◌else◌,
}
use compyter.Prelude.Int.{ℤ, pos, ◌+ℤ◌, eqb_ℤ}
use compyter.Result.{Result, ok, err, system_exit}
use compyter.Exec.{⊤, Exec, ◌>>=◌}
use compyter.Memory.{Bus}
use compyter.Machine.{Machine, put, update-update}
use compyter.Register.{
  reg_pc, reg_ret, reg_fc, reg_status, intr, intr_prev, intr_old, user, user_prev, user_old,
  status_bit, set_status_bit, get_item, set_item, test_bit, with_bit, has_enabled_intr, has_bit,
  reg_last, is_priv_reg,
}
use compyter.Register.StatusBits.{status_laws, with_bit-pos, with_digit}
use compyter.Cpu.{trap, trap_by, trap_fuel, set_by, jmp_by, enter_by, save_mode, halt, trap_dfault}

-- The mode bits move one place up, and the processor is in kernel mode with interrupts disabled.
abbrev pub push_mode : ℤ → ℤ
push_mode st =
    let a = with_bit intr_old (test_bit intr_prev st) st in
    let b = with_bit intr_prev (test_bit intr a) a in
    let c = with_bit intr false b in
    let d = with_bit user_old (test_bit user_prev c) c in
    let e = with_bit user_prev (test_bit user d) d in with_bit user false e

pub push_mode-disabled : (st : ℕ) → test_bit intr (push_mode (pos st)) ≡ false
push_mode-disabled st = simp status_laws

module _ {B : Bus} where
  save_mode_lem :
      (s : Machine B) → save_mode s ≡ (ok tt, put reg_status (push_mode (s.registers reg_status)) s)
  unfolding save_mode ◌>>=◌ status_bit set_status_bit
  save_mode_lem s = simp update-update

  pub set_by-quiet :
      (t : ℤ → Exec (Machine B) ⊤) (r : ℕ) (v : ℤ) (s : Machine B)
      → r < reg_last
      → (is_priv_reg (pos r) && has_bit user s) ≡ false
      → has_enabled_intr (put r v s) ≡ false
      → set_by t (pos r) v s ≡ (ok tt, put r v s)
  unfolding set_by set_item ◌>>=◌
  set_by-quiet t r v s lt open_ quiet = ground arith

  pub jmp_by-quiet :
      (t : ℤ → Exec (Machine B) ⊤) (addr : ℕ) (s : Machine B)
      → has_enabled_intr s ≡ false
      → jmp_by t (pos addr) s ≡ (ok tt, put reg_pc (pos addr) s)
  unfolding jmp_by
  jmp_by-quiet t addr s quiet =
      ground (arith, set_by-quiet t reg_pc (pos addr) s (omega arith) refl quiet)

  -- The state behind `save_mode`, and the state that a trap to `addr` ends in.
  abbrev saved : Machine B → Machine B
  saved s = put reg_status (push_mode (s.registers reg_status)) (record s { trap_event = true })

  abbrev counted : Machine B → Machine B
  counted s = put reg_fc (s.registers reg_fc +ℤ pos 1) (saved s)

  abbrev pub entered : ℤ → Machine B → Machine B
  entered addr s = record (put reg_pc addr (put reg_ret (s.registers reg_pc) (counted s))) {
    trap_event = false;
  }

  module _ (t : ℤ → Exec (Machine B) ⊤) (addr st n : ℕ) (s : Machine B)
      (status : s.registers reg_status ≡ pos st) (faults : s.registers reg_fc ≡ pos n) where
    disabled : test_bit intr (push_mode (s.registers reg_status)) ≡ false
    disabled = rw status (push_mode-disabled st)

    counts :
        trap_by t (pos addr) s
        ≡ (if eqb_ℤ (pos (n + 1)) (pos 2)
              then t trap_dfault
              else (if eqb_ℤ (pos (n + 1)) (pos 3) then halt else enter_by t (pos addr)))
            (counted s)
    unfolding trap_by ◌>>=◌ get_item
    counts = rw (save_mode_lem (record s { trap_event = true })) (
        rw
          (set_by-quiet t reg_fc (s.registers reg_fc +ℤ pos 1) (saved s) (omega arith) refl
            (rw disabled))
          (rw faults))

    enter_by_lem : enter_by t (pos addr) (counted s) ≡ (ok tt, entered (pos addr) s)
    unfolding enter_by ◌>>=◌ get_item
    enter_by_lem = rw (
      set_by-quiet t reg_ret (s.registers reg_pc) (counted s) (omega arith) refl (rw disabled),
      jmp_by-quiet t addr (put reg_ret (s.registers reg_pc) (counted s)) (rw disabled),
    )

pushed : ℕ → ℕ
pushed st =
    let a = with_digit intr_old (test_bit intr_prev (pos st)) st in
    let b = with_digit intr_prev (test_bit intr (pos a)) a in
    let c = with_digit intr false b in
    let d = with_digit user_old (test_bit user_prev (pos c)) c in
    let e = with_digit user_prev (test_bit user (pos d)) d in with_digit user false e

push_mode-pos : (st : ℕ) → push_mode (pos st) ≡ pos (pushed st)
unfolding pushed
push_mode-pos st = simp with_bit-pos

module _ {B : Bus} where
  -- What `quit()` leaves behind.
  abbrev pub halted : Machine B → Machine B
  halted s = record s { exit_event = true }

  -- The outcome of a trap by the fault counter `n` before it: a trap that finds it at 1 counts the
  -- double fault as well, and halts.
  abbrev pub trapped : ℕ → ℤ → Machine B → Result ⊤ × Machine B
  trapped n addr s =
      if n == 1
      then (err system_exit, halted (counted (counted s)))
      else (if n == 2 then (err system_exit, halted (counted s)) else (ok tt, entered addr s))

  halt_lem : (s : Machine B) → halt s ≡ (err system_exit, halted s)
  unfolding halt ◌>>=◌
  halt_lem s = refl

  trap_fuel_lem :
      (fuel addr st n : ℕ) (s : Machine B)
      → s.registers reg_status ≡ pos st
      → s.registers reg_fc ≡ pos n
      → trap_fuel (suc (suc fuel)) (pos addr) s ≡ trapped n (pos addr) s
  unfolding trap_fuel
  trap_fuel_lem fuel addr st zero s status faults =
      rw (counts (trap_fuel (suc fuel)) addr st 0 s status faults)
        (enter_by_lem (trap_fuel (suc fuel)) addr st 0 s status faults)
  trap_fuel_lem fuel addr st (suc zero) s status faults =
      rw (counts (trap_fuel (suc fuel)) addr st 1 s status faults) (
        rw
          (counts (trap_fuel fuel) 0xffff050 (pushed st) 2 (counted s)
            (rw status (push_mode-pos st)) (rw faults))
          (halt_lem (counted (counted s))))
  trap_fuel_lem fuel addr st (suc (suc zero)) s status faults =
      rw (counts (trap_fuel (suc fuel)) addr st 2 s status faults) (halt_lem (counted s))
  trap_fuel_lem fuel addr st (suc (suc (suc n))) s status faults =
      let k = suc (suc (suc n)) in
      let two : ((k + 1) == 2) ≡ false = ground arith in
      let three : ((k + 1) == 3) ≡ false = ground arith in
      let one' : (k == 1) ≡ false = ground arith in
      let two' : (k == 2) ≡ false = ground arith in
      rw (counts (trap_fuel (suc fuel)) addr st k s status faults) (
        rw (two, three, one', two') (enter_by_lem (trap_fuel (suc fuel)) addr st k s status faults))

  -- Every branch of a trap, for a status register and a fault counter that are not negative: it
  -- returns with the mode saved, the processor in kernel mode with interrupts disabled, the program
  -- counter in the return register and at the vector, unless the counter stood at 1 or 2; then it
  -- raises SystemExit with the exit event set. No other register, and no part of the memory, changes.
  pub trap_lem :
      (addr st n : ℕ) (s : Machine B)
      → s.registers reg_status ≡ pos st
      → s.registers reg_fc ≡ pos n
      → trap (pos addr) s ≡ trapped n (pos addr) s
  unfolding trap
  trap_lem addr st n s status faults = trap_fuel_lem 0 addr st n s status faults

  -- The recursion of a trap ends: with fuel for two calls the result is that with any more, for a
  -- status register and a fault counter that are not negative.
  pub trap_fuel-eq-trap :
      (fuel addr st n : ℕ) (s : Machine B)
      → s.registers reg_status ≡ pos st
      → s.registers reg_fc ≡ pos n
      → trap_fuel (suc (suc fuel)) (pos addr) s ≡ trap (pos addr) s
  trap_fuel-eq-trap fuel addr st n s status faults =
      trap_fuel_lem fuel addr st n s status faults ∙ sym (trap_lem addr st n s status faults)
