-- ===== src/Computer/Delivery.antt =====
-- How an interrupt of a device reaches the processor: the timer's thread, the thread of the interrupt
-- controller and `CPU.intr`, one after the other.
use compyter.Prelude.{
  ℕ, zero, suc, ◌≡◌, ◌∙◌, refl, ap, Bool, Bool-cases, inl, inr, true, false, some, List, [], ◌∷◌,
}
use compyter.Prelude.Int.{ℤ, pos, ltb_ℤ}
use compyter.Result.{Result, ok}
use compyter.Exec.{⊤, Exec, pure, modify, ◌>>=◌, ◌>>◌}
use compyter.Register.{reg_status, reg_fc, has_bit, intr as intr_bit}
use compyter.Cpu.{cpu_intr}
use compyter.Cpu.Interrupts.{interrupted, cpu_intr_lem}
use compyter.Hardware.Intc
use compyter.Hardware.Intc.{Intc, Stage, getting, waiting, woken, clearing, calling}
use compyter.Hardware.Timer
use compyter.Hardware.Internet.Sockets.{Host}
use compyter.Computer.{
  Computer, with_devices, hw, wake, survived, advance, unless_ended, Turn, turn, turns, fire_timer,
  step_controller,
}

module _ (n : ℤ) (c : Intc) where
  -- The controller whose thread has come to a stage with the interrupt.
  abbrev at : Stage → Bool → Intc
  at stage unmasked = record c { pending = []; stage = stage; unmasked = unmasked }

  get_lem :
      c.stage ≡ getting
      → Intc.process_pending (record c { pending = n ∷ [] })
        ≡ some (at (waiting n) c.unmasked, false)
  unfolding Intc.process_pending
  get_lem free = rw free refl

  wait_lem : Intc.process_pending (at (waiting n) true) ≡ some (at (woken n) true, false)
  unfolding Intc.process_pending
  wait_lem = refl

  is_set_lem : Intc.process_pending (at (woken n) true) ≡ some (at (clearing n) true, false)
  unfolding Intc.process_pending
  is_set_lem = refl

  clear_lem : Intc.process_pending (at (clearing n) true) ≡ some (at (calling n) false, false)
  unfolding Intc.process_pending
  clear_lem = refl

  call_lem :
      (v : ℤ)
      → c.interrupts n ≡ some v
      → Intc.process_pending (at (calling n) false)
        ≡ some (record (at getting false) { current = v }, true)
  unfolding Intc.process_pending Intc.interrupt_nowait
  call_lem v handler = rw (handler, Intc.interrupt_nowait) refl

-- So many steps of the controller's thread.
abbrev pub thread_steps : ℕ → List Turn
thread_steps zero = []
thread_steps (suc n) = step_controller ∷ thread_steps n

module _ {H : Host} where
  abbrev with_intc : Intc → Computer H → Computer H
  with_intc c = with_devices (λ d. record d { intc = c })

  -- The controller has handed an interrupt with the handler `v` on, and masks the next ones.
  abbrev pub handed : ℤ → Computer H → Computer H
  handed v = with_devices (λ d. record d {
    intc = record (d.intc) { current = v; pending = []; stage = getting; unmasked = false };
  })

  -- The handler wakes a processor that sleeps.
  woken_lem :
      (st : ℕ) (s : Computer H)
      → s.registers reg_status ≡ pos st
      → s.registers reg_fc ≡ pos 0
      → (do modify wake; cpu_intr) s ≡ (ok tt, interrupted (wake s))
  unfolding ◌>>=◌ wake
  woken_lem st s status faults = elim (Bool-cases (has_bit intr_bit s)) [
    | inl h ↦ rw h (cpu_intr_lem st (record s { waiting = false }) status faults)
    | inr h ↦ rw h (cpu_intr_lem st s status faults)
  ]

  turns-next :
      (t : Turn) (ts : List Turn) (s u : Computer H) (r : Result ⊤ × Computer H)
      → turn t s ≡ (ok tt, u)
      → turns ts u ≡ r
      → turns (t ∷ ts) s ≡ r
  unfolding turns ◌>>=◌
  turns-next t ts s u r h rest = rw h rest

  live_lem :
      (b : Bool) (m : Exec (Computer H) ⊤) (s : Computer H) (r : Result ⊤ × Computer H)
      → b ≡ false
      → m s ≡ r
      → unless_ended b m s ≡ r
  live_lem false m s r live h = h
  live_lem true m s r live h = cc

  -- A step of the controller's thread that calls nobody.
  quiet_step :
      (c d : Intc) (ts : List Turn) (s : Computer H) (r : Result ⊤ × Computer H)
      → s.exit_event ≡ false
      → Intc.process_pending c ≡ some (d, false)
      → turns ts (with_intc d s) ≡ r
      → turns (step_controller ∷ ts) (with_intc c s) ≡ r
  unfolding turn advance pure
  quiet_step c d ts s r live e rest =
      turns-next step_controller ts (with_intc c s) (with_intc d s) r
        (live_lem s.exit_event advance (with_intc c s) (ok tt, with_intc d s) live
          (rw (e, advance) refl))
        rest

  timer-posted :
      (s : Computer H)
      → ltb_ℤ (pos 0) ((hw s).timer).duration ≡ true
      → ((hw s).intc).pending ≡ []
      → turn fire_timer s
        ≡ (ok tt, with_intc (record ((hw s).intc) { pending = Timer.int_num ∷ [] }) s)
  unfolding turn Timer.timer Intc.interrupt
  timer-posted s runs idle = rw (runs, idle) refl

  called-interrupted :
      (v : ℤ) (st : ℕ) (s : Computer H)
      → s.exit_event ≡ false
      → ((hw s).intc).interrupts Timer.int_num ≡ some v
      → s.registers reg_status ≡ pos st
      → s.registers reg_fc ≡ pos 0
      → turn step_controller
          (with_intc (at Timer.int_num ((hw s).intc) (calling Timer.int_num) false) s)
        ≡ (ok tt, interrupted (wake (handed v s)))
  unfolding turn advance ◌>>=◌
  called-interrupted v st s live handler status faults =
      let c = at Timer.int_num ((hw s).intc) (calling Timer.int_num) false in
      live_lem s.exit_event advance (with_intc c s) (ok tt, interrupted (wake (handed v s))) live
        (rw (call_lem Timer.int_num ((hw s).intc) v handler, advance)
          (ap survived (woken_lem st (handed v s) status faults)))

  -- The timer reaches the processor. When the exit event is clear, its duration is positive, no
  -- interrupt waits in the controller or is held by its thread, a handler is registered for the timer,
  -- interrupts are not masked, the fault counter is 0 and the status register is not negative, then
  -- after one turn of the timer's thread and the five steps of one round of the controller's, the
  -- controller points its jump at the handler and masks the next interrupts, and the processor has
  -- entered the interrupt vector, awake; or, with the interrupt bit clear, it has the interrupt pending.
  pub timer-interrupted :
      (v : ℤ) (st : ℕ) (s : Computer H)
      → s.exit_event ≡ false
      → ltb_ℤ (pos 0) ((hw s).timer).duration ≡ true
      → ((hw s).intc).pending ≡ []
      → ((hw s).intc).stage ≡ getting
      → ((hw s).intc).interrupts Timer.int_num ≡ some v
      → ((hw s).intc).unmasked ≡ true
      → s.registers reg_status ≡ pos st
      → s.registers reg_fc ≡ pos 0
      → turns (fire_timer ∷ thread_steps 5) s ≡ (ok tt, interrupted (wake (handed v s)))
  unfolding turns pure
  timer-interrupted v st s live runs idle free handler unmasked status faults =
      let n = Timer.int_num in
      let c = (hw s).intc in
      let r : Result ⊤ × Computer H = (ok tt, interrupted (wake (handed v s))) in
      turns-next fire_timer (thread_steps 5) s _ r (timer-posted s runs idle) (
        quiet_step _ (at n c (waiting n) true) (thread_steps 4) s r live
          (get_lem n c free ∙ ap (λ u. some (at n c (waiting n) u, false)) unmasked)
          (quiet_step (at n c (waiting n) true) (at n c (woken n) true) (thread_steps 3) s r live
            (wait_lem n c)
            (quiet_step (at n c (woken n) true) (at n c (clearing n) true) (thread_steps 2) s r live
              (is_set_lem n c)
              (quiet_step (at n c (clearing n) true) (at n c (calling n) false) (thread_steps 1) s r
                live (clear_lem n c)
                (turns-next step_controller [] _ (interrupted (wake (handed v s))) r
                  (called-interrupted v st s live handler status faults) refl)))))
