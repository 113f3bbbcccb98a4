-- ===== src/Cpu/UserMode.antt =====
-- What a program in user mode can do to the registers (compyter/register.py).
use compyter.Prelude.{
  ℕ, ◌≡◌, refl, arith, Bool, true, false, ltb, ltb→lt, ◌==◌, inl, inr, Bool-cases, if◌then◌else◌,
}
use compyter.Prelude.Int.{ℤ, pos}
use compyter.Result.{Result, ok, err, privilege, index_error}
use compyter.Exec.{⊤, ◌>>=◌}
use compyter.Memory.{Bus}
use compyter.Machine.{Machine, put}
use compyter.Register.{
  reg_status, reg_last, user, get_item, set_item, has_bit, has_enabled_intr, is_priv_reg,
}
use compyter.Cpu.{set, set_by}
use compyter.Cpu.Access.{set-open}

module _ {B : Bus} (r : ℕ) (s : Machine B) (in_user : has_bit user s ≡ true)
    (quiet : has_enabled_intr s ≡ false) where
  abbrev pub read_result : Bool → Bool → Result ℤ × Machine B
  read_result priv inside =
      if priv
      then (err privilege, s)
      else if inside
      then (ok (s.registers r), s)
      else (err index_error, s)

  abbrev pub write_result : ℤ → Bool → Bool → Result ⊤ × Machine B
  write_result v priv inside =
      if priv
      then (err privilege, s)
      else if inside
      then (ok tt, put r v s)
      else (err index_error, s)

  reads : get_item (pos r) s ≡ read_result (is_priv_reg (pos r)) (ltb r reg_last)
  unfolding get_item ◌>>=◌
  reads = ground (arith, in_user)

  write_priv : (v : ℤ) → is_priv_reg (pos r) ≡ true → set (pos r) v s ≡ (err privilege, s)
  unfolding set set_by set_item ◌>>=◌
  write_priv v priv = ground (arith, in_user)

  write_past :
      (v : ℤ)
      → is_priv_reg (pos r) ≡ false
      → ltb r reg_last ≡ false
      → set (pos r) v s ≡ (err index_error, s)
  unfolding set set_by set_item ◌>>=◌
  write_past v priv past = ground arith

  writes : (v : ℤ) → set (pos r) v s ≡ write_result v (is_priv_reg (pos r)) (ltb r reg_last)
  writes v = elim (Bool-cases (is_priv_reg (pos r))) [
    | inl p ↦ rw p (write_priv v p)
    | inr p ↦ elim (Bool-cases (ltb r reg_last)) [
      | inl h ↦ rw (p, h) (set-open r v s (ltb→lt r reg_last h) p quiet)
      | inr h ↦ rw (p, h) (write_past v p h)
    ]
  ]

  -- The status register behind a write.
  kept : (v : ℤ) → (set (pos r) v s).1.registers reg_status ≡ s.registers reg_status
  kept v = elim (Bool-cases (is_priv_reg (pos r))) [
    | inl p ↦ rw (write_priv v p) refl
    | inr p ↦ elim (Bool-cases (ltb r reg_last)) [
      | inl h ↦
          let other : (reg_status == r) ≡ false = ground (arith, p) in
          rw (set-open r v s (ltb→lt r reg_last h) p quiet) (rw other refl)
      | inr h ↦ rw (write_past v p h) refl
    ]
  ]

  -- Accesses to a register by its number, in user mode and with no interrupt both pending and
  -- enabled: a privileged register raises the privilege exception and a number past the last register
  -- an IndexError, both before anything changes; any other register is read or written. The status
  -- register, and with it the mode, stays as it was.
  pub user-access :
      (v : ℤ)
      → (get_item (pos r) s ≡ read_result (is_priv_reg (pos r)) (ltb r reg_last))
        × (set (pos r) v s ≡ write_result v (is_priv_reg (pos r)) (ltb r reg_last))
        × ((set (pos r) v s).1.registers reg_status ≡ s.registers reg_status)
  user-access v = (reads, writes v, kept v)
