-- ===== src/Cpu/Control/Rfe.antt =====
-- What `rfe` does, after a trap and with an interrupt pending.
use compyter.Prelude.{ℕ, zero, suc, ◌<◌, ◌≡◌, refl, sym, ap, arith, Bool, true, false, ◌&&◌, ltb}
use compyter.Prelude.Int.{ℤ, pos, ◌+ℤ◌, ◌-ℤ◌}
use mathlib.Core.Path.{subst}
use compyter.Result.{Result, ok}
use compyter.Exec.{⊤, ◌>>=◌}
use compyter.Memory.{Bus}
use compyter.Machine.{Machine, put, update-update}
use compyter.Register.{
  reg_pc, reg_ret, reg_fc, reg_status, reg_last, intr, intr_prev, intr_old, user, user_prev,
  user_old, mmu_enable, status_bit, set_status_bit, get_item, test_bit, with_bit, has_enabled_intr,
  has_bit, is_priv_reg,
}
use compyter.Register.StatusBits.{status_laws, with_bit-pos, with_digit}
use compyter.Cpu.{trap, set}
use compyter.Cpu.Traps.{set_by-quiet, push_mode, entered, trap_lem}
use compyter.Cpu.Control.{rfe, restore_mode}

abbrev pub pop_mode : ℤ → ℤ
pop_mode st =
    let a = with_bit intr (test_bit intr_prev st) st in
    let b = with_bit intr_prev (test_bit intr_old a) a in
    let c = with_bit user (test_bit user_prev b) b in with_bit user_prev (test_bit user_old c) c

module _ {B : Bus} where
  pub restore_mode_lem :
      (s : Machine B)
      → restore_mode s ≡ (ok tt, put reg_status (pop_mode (s.registers reg_status)) s)
  unfolding restore_mode ◌>>=◌ status_bit set_status_bit
  restore_mode_lem s = simp update-update

  pub set-quiet :
      (r : ℕ) (v : ℤ) (s : Machine B)
      → r < reg_last
      → (is_priv_reg (pos r) && has_bit user s) ≡ false
      → has_enabled_intr (put r v s) ≡ false
      → set (pos r) v s ≡ (ok tt, put r v s)
  unfolding set
  set-quiet = set_by-quiet trap

  abbrev pub popped : Machine B → Machine B
  popped s = put reg_status (pop_mode (s.registers reg_status)) s

  -- The state that `rfe` ends in, for a fault counter that was `n`.
  abbrev pub left : ℕ → Machine B → Machine B
  left zero s = put reg_pc (s.registers reg_ret) (popped s)
  left (suc n) s = put reg_pc (s.registers reg_ret) (put reg_fc (pos n) (popped s))

  module _ (s : Machine B) (quiet : s.intr_pending ≡ false) where
    still : (b : Bool) → (b && s.intr_pending) ≡ false
    still b = ground (arith, quiet)

    pub rfe_lem : (n : ℕ) → s.registers reg_fc ≡ pos n → rfe s ≡ (ok tt, left n s)
    unfolding rfe ◌>>=◌ get_item
    rfe_lem zero faults = rw (restore_mode_lem s) (
        rw faults (
          rw (still (test_bit intr (pop_mode (s.registers reg_status)))) (
            rw (set-quiet reg_pc (s.registers reg_ret) (popped s) (omega arith) refl (still _))
              refl)))
    rfe_lem (suc n) faults =
        let less : pos (suc n) -ℤ pos 1 ≡ pos n = ground arith in
        let some : ltb 0 (suc n) ≡ true = ground arith in
        rw (restore_mode_lem s) (
          rw faults (
            rw (some, faults, less)
              (rw (set-quiet reg_fc (pos n) (popped s) (omega arith) refl (still _)) (
                rw (still (test_bit intr (pop_mode (s.registers reg_status)))) (
                  rw
                    (set-quiet reg_pc (s.registers reg_ret) (put reg_fc (pos n) (popped s))
                      (omega arith) refl (still _))
                    refl)))))

-- The bits that a trap and a return leave as they were.
abbrev pub SameMode : ℤ → ℤ → Type 0
SameMode st st' =
    (test_bit mmu_enable st' ≡ test_bit mmu_enable st)
    × (test_bit intr st' ≡ test_bit intr st)
    × (test_bit user st' ≡ test_bit user st)
    × (test_bit intr_prev st' ≡ test_bit intr_prev st)
    × (test_bit user_prev st' ≡ test_bit user_prev st)

pop_mode-push_mode : (st : ℕ) → SameMode (pos st) (pop_mode (push_mode (pos st)))
pop_mode-push_mode st =
    (simp status_laws, simp status_laws, simp status_laws, simp status_laws, simp status_laws)

pub popped_status : ℕ → ℕ
popped_status st =
    let a = with_digit intr (test_bit intr_prev (pos st)) st in
    let b = with_digit intr_prev (test_bit intr_old (pos a)) a in
    let c = with_digit user (test_bit user_prev (pos b)) b in
    with_digit user_prev (test_bit user_old (pos c)) c

pub pop_mode-pos : (st : ℕ) → pop_mode (pos st) ≡ pos (popped_status st)
unfolding popped_status
pop_mode-pos st = simp with_bit-pos

pub pop_mode-intr : (st : ℕ) → test_bit intr (pop_mode (pos st)) ≡ test_bit intr_prev (pos st)
pop_mode-intr st = simp status_laws

module _ {B : Bus} where
  -- What a program sees of a trap whose handler returns at once.
  abbrev pub Resumed : Machine B → Result ⊤ × Machine B → Type 0
  Resumed s (result, s') =
      (result ≡ ok tt)
      × (s'.registers reg_pc ≡ s.registers reg_pc)
      × (s'.registers reg_fc ≡ s.registers reg_fc)
      × (SameMode (s.registers reg_status) (s'.registers reg_status))
      × (s'.memory ≡ s.memory)

  outcome :
      (addr st : ℕ) (s : Machine B)
      → s.registers reg_status ≡ pos st
      → s.registers reg_fc ≡ pos 0
      → s.intr_pending ≡ false
      → (trap (pos addr) >>= λ _. rfe) s ≡ (ok tt, left 1 (entered (pos addr) s))
  unfolding ◌>>=◌
  outcome addr st s status faults quiet =
      rw (trap_lem addr st 0 s status faults)
        (rfe_lem (entered (pos addr) s) quiet 1 (ap (λ n. n +ℤ pos 1) faults))

  -- A trap and the `rfe` that follows it at once resume the program: for a machine with no fault
  -- open and no interrupt pending, and a status register that is not negative, both return, and the
  -- program counter, the fault counter, the memory, and the bits for the MMU, interrupts and user
  -- mode with their previous values are those before the trap.
  pub trap-rfe :
      (addr st : ℕ) (s : Machine B)
      → s.registers reg_status ≡ pos st
      → s.registers reg_fc ≡ pos 0
      → s.intr_pending ≡ false
      → Resumed s ((trap (pos addr) >>= λ _. rfe) s)
  trap-rfe addr st s status faults quiet =
      subst (Resumed s) (sym (outcome addr st s status faults quiet))
        (refl, refl, sym faults, rw status (pop_mode-push_mode st), refl)

  -- What a return from a trap restores.
  abbrev pub Returned : Machine B → Result ⊤ × Machine B → Type 0
  Returned s (result, s') =
      (result ≡ ok tt)
      × (s'.registers reg_pc ≡ s.registers reg_ret)
      × (has_bit user s' ≡ has_bit user_prev s)
      × (has_bit user_prev s' ≡ has_bit user_old s)
      × (has_bit intr s' ≡ has_bit intr_prev s)
      × (has_bit intr_prev s' ≡ has_bit intr_old s)

  -- `rfe` with no interrupt pending, a fault counter and a status register that are not negative: it
  -- returns, continues at the return register, and moves the mode bits one place down. It does so in
  -- user mode as well as in kernel mode, so that a program in user mode whose previous mode bit is
  -- clear leaves user mode by it.
  pub rfe-Returned :
      (n st : ℕ) (s : Machine B)
      → s.registers reg_status ≡ pos st
      → s.registers reg_fc ≡ pos n
      → s.intr_pending ≡ false
      → Returned s (rfe s)
  rfe-Returned n st s status faults quiet =
      subst (Returned s) (sym (rfe_lem s quiet n faults)) (returned n)
    where
      bits :
          (test_bit user (pop_mode (pos st)) ≡ test_bit user_prev (pos st))
          × (test_bit user_prev (pop_mode (pos st)) ≡ test_bit user_old (pos st))
          × (test_bit intr (pop_mode (pos st)) ≡ test_bit intr_prev (pos st))
          × (test_bit intr_prev (pop_mode (pos st)) ≡ test_bit intr_old (pos st))
      bits = (simp status_laws, simp status_laws, simp status_laws, simp status_laws)

      returned : (k : ℕ) → Returned s (ok tt, left k s)
      returned zero =
          (refl, refl, rw status bits.0, rw status bits.1, rw status bits.2, rw status bits.3)
      returned (suc k) =
          (refl, refl, rw status bits.0, rw status bits.1, rw status bits.2, rw status bits.3)
