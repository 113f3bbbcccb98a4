-- ===== src/Cpu/Keeps.antt =====
-- The cache before `MMU.get_address` agrees with memory from turn to turn: the parts that the
-- instructions of compyter/cpu.py are made of.
pub mod Accesses
use compyter.Prelude.{
  ℕ, zero, suc, ◌≡◌, refl, sym, arith, Bool, true, false, Option, none, some, List, [], ◌∷◌,
  Bool-cases, Option-cases, inl, inr, ◌&&◌, if◌then◌else◌,
}
use mathlib.Core.Path.{subst}
use compyter.Prelude.Int.{ℤ, pos, ltb_ℤ, eqb_ℤ}
use compyter.Result.{
  Exception, recursion_error, Result, ok, err, page_fault, invalid_base_pointer, privilege, map_ok,
  ok_injective, place, or_raise,
}
use compyter.Exec.{
  ⊤, Exec, pure, raise, lift, gets, reads, modify, changes, changes-eq-ok, changes-eq-err, continue,
  when, ◌>>=◌, ◌>>◌,
}
use compyter.Memory.{Bus}
use compyter.Machine.{Machine, put}
use compyter.Register.{
  StatusBit, status_bit, set_status_bit, set_rsvd, rsvd, get_item, set_item, read, write,
  has_enabled_intr,
}
use compyter.Mmu.Coherence.{Coherent}
use compyter.Cpu.{
  halt, save_mode, intr_by, set_by, jmp_by, enter_by, trap_by, trap_fuel, trap, cpu_intr, set, jmp,
}

-- The exceptions that `decode_next_instr` catches.
abbrev pub is_caught : Exception → Bool
is_caught (page_fault a) = true
is_caught invalid_base_pointer = true
is_caught privilege = true
is_caught e = false

module _ {B : Bus} where
  -- What is left of an action, behind which the exceptions of `p` are survived.
  abbrev pub KeptOn : (p : Exception → Bool) {A : Type 0} → Result A × Machine B → Type 0
  KeptOn p (ok a, t) = Coherent t
  KeptOn p (err e, t) = p e ≡ true → Coherent t

  -- The action keeps the cache in agreement with memory, unless it ends the program.
  pub record KeepsOn (p : Exception → Bool) {A : Type 0} (m : Exec (Machine B) A) : Type 0 where
    pub kept : (s : Machine B) → Coherent s → KeptOn p (m s)

  -- For the exceptions that the processor catches.
  abbrev pub Kept : {A : Type 0} → Result A × Machine B → Type 0
  Kept r = KeptOn is_caught r

  abbrev pub Keeps : {A : Type 0} → Exec (Machine B) A → Type 0
  Keeps m = KeepsOn is_caught m

  result-Kept :
      (p : Exception → Bool) {A : Type 0} (r : Result A) (s : Machine B)
      → Coherent s
      → KeptOn p (r, s)
  result-Kept p (ok a) s c = c
  result-Kept p (err e) s c = λ h. c

  write-Coherent :
      (b : Bool) (o : Result ℕ) (v : ℤ) (s t : Machine B)
      → Coherent s
      → (if b then err privilege else map_ok (λ r. put r v s) o) ≡ ok t
      → Coherent t
  write-Coherent true o v s t c e = cc
  write-Coherent false (err x) v s t c e = cc
  write-Coherent false (ok r) v s t c e = subst Coherent (ok_injective e) c

module _ {B : Bus} {p : Exception → Bool} where
  pub continue-Kept :
      {A C : Type 0} (r : Result A × Machine B) (f : A → Exec (Machine B) C)
      → KeptOn p r
      → ((a : A) → KeepsOn {B = B} p (f a))
      → KeptOn p (continue (r.0) f (r.1))
  continue-Kept (ok a, t) f h next = (next a).kept t h
  continue-Kept (err e, t) f h next = h

  pub bind-Keeps :
      {A C : Type 0} (m : Exec (Machine B) A) (f : A → Exec (Machine B) C)
      → KeepsOn {B = B} p m
      → ((a : A) → KeepsOn {B = B} p (f a))
      → KeepsOn {B = B} p (m >>= f)
  unfolding ◌>>=◌
  bind-Keeps m f h next = record { kept = λ s c. continue-Kept (m s) f (h.kept s c) next }

  pub pure-Keeps : {A : Type 0} (a : A) → KeepsOn {B = B} p (pure a)
  unfolding pure
  pure-Keeps a = record { kept = λ s c. c }

  pub raise-Keeps : (A : Type 0) (e : Exception) → KeepsOn {B = B} p (raise {A = A} e)
  unfolding raise
  raise-Keeps A e = record { kept = λ s c h. c }

  pub lift-Keeps : {A : Type 0} (r : Result A) → KeepsOn {B = B} p (lift r)
  unfolding lift
  lift-Keeps r = record { kept = λ s c. result-Kept p r s c }

  pub reads-Keeps : {A : Type 0} (f : Machine B → Result A) → KeepsOn {B = B} p (reads f)
  unfolding reads
  reads-Keeps f = record { kept = λ s c. result-Kept p (f s) s c }

  pub gets-Keeps : {A : Type 0} (f : Machine B → A) → KeepsOn {B = B} p (gets f)
  unfolding gets
  gets-Keeps f = record { kept = λ s c. c }

  pub modify-Keeps :
      (f : Machine B → Machine B)
      → ((s : Machine B) → Coherent s → Coherent (f s))
      → KeepsOn {B = B} p (modify f)
  unfolding modify
  modify-Keeps f h = record { kept = h }

  pub if-Keeps :
      {A : Type 0} (b : Bool) (m n : Exec (Machine B) A)
      → KeepsOn {B = B} p m
      → KeepsOn {B = B} p n
      → KeepsOn {B = B} p (if b then m else n)
  if-Keeps true m n hm hn = hm
  if-Keeps false m n hm hn = hn

  pub when-Keeps :
      (b : Bool) (m : Exec (Machine B) ⊤) → KeepsOn {B = B} p m → KeepsOn {B = B} p (when b m)
  when-Keeps b m h = if-Keeps b m (pure tt) h (pure-Keeps tt)

  pub status_bit-Keeps : (b : StatusBit) → KeepsOn {B = B} p (status_bit b)
  unfolding status_bit
  status_bit-Keeps b = gets-Keeps _

  pub set_status_bit-Keeps : (b : StatusBit) (v : Bool) → KeepsOn {B = B} p (set_status_bit b v)
  unfolding set_status_bit
  set_status_bit-Keeps b v = modify-Keeps _ (λ s c. c)

  pub get_item-Keeps : (r : ℤ) → KeepsOn {B = B} p (get_item r)
  unfolding get_item
  get_item-Keeps r = reads-Keeps (read r)

  pub set_rsvd-Keeps : (v : ℤ) → KeepsOn {B = B} p (set_rsvd v)
  unfolding set_rsvd
  set_rsvd-Keeps v = modify-Keeps _ (λ s c. c)

  pub changes-Keeps :
      (f : Machine B → Result (Machine B))
      → ((s t : Machine B) → Coherent s → f s ≡ ok t → Coherent t)
      → KeepsOn {B = B} p (changes f)
  changes-Keeps f h = record { kept = λ s c. changed s c (f s) refl }
    where
      changed :
          (s : Machine B) → Coherent s → (r : Result (Machine B)) → f s ≡ r → KeptOn p (changes f s)
      changed s c (ok t) e = subst (KeptOn p) (sym (changes-eq-ok f s t e)) (h s t c e)
      changed s c (err x) e = subst (KeptOn p) (sym (changes-eq-err f s x e)) (λ caught. c)

  write-Keeps : (r v : ℤ) → KeepsOn {B = B} p (changes (write r v))
  write-Keeps r v = changes-Keeps (write r v) (λ s t c e. write-Coherent _ _ v s t c e)

  pub ruleset keeps = (
    bind-Keeps, pure-Keeps, raise-Keeps, lift-Keeps, reads-Keeps, gets-Keeps, if-Keeps, when-Keeps,
    get_item-Keeps, set_rsvd-Keeps,
  )

  set_item-Keeps :
      (fire : Exec (Machine B) ⊤) (r v : ℤ)
      → KeepsOn {B = B} p fire
      → KeepsOn {B = B} p (set_item fire r v)
  unfolding set_item
  set_item-Keeps fire r v h = search (keeps, write-Keeps)

  pub halt-Keeps : KeepsOn {B = B} p halt
  unfolding halt
  halt-Keeps = search (keeps, modify-Keeps)

  save_mode-Keeps : KeepsOn {B = B} p save_mode
  unfolding save_mode
  save_mode-Keeps = search (keeps, status_bit-Keeps, set_status_bit-Keeps) depth 30

  module _ (trap : ℤ → Exec (Machine B) ⊤) (trap-Keeps : (a : ℤ) → KeepsOn {B = B} p (trap a)) where
    intr_by-Keeps : KeepsOn {B = B} p (intr_by trap)
    unfolding intr_by
    intr_by-Keeps = search (keeps, status_bit-Keeps, trap-Keeps, modify-Keeps)

    set_by-Keeps : (r v : ℤ) → KeepsOn {B = B} p (set_by trap r v)
    unfolding set_by
    set_by-Keeps r v = set_item-Keeps (intr_by trap) r v intr_by-Keeps

    jmp_by-Keeps : (a : ℤ) → KeepsOn {B = B} p (jmp_by trap a)
    unfolding jmp_by
    jmp_by-Keeps a = search (keeps, trap-Keeps, set_by-Keeps)

    enter_by-Keeps : (a : ℤ) → KeepsOn {B = B} p (enter_by trap a)
    unfolding enter_by
    enter_by-Keeps a = search (keeps, set_by-Keeps, jmp_by-Keeps, modify-Keeps)

    trap_by-Keeps : (a : ℤ) → KeepsOn {B = B} p (trap_by trap a)
    unfolding trap_by
    trap_by-Keeps a =
        search
          (
            keeps, save_mode-Keeps, set_by-Keeps, trap-Keeps, halt-Keeps, enter_by-Keeps,
            modify-Keeps,
          )
          depth 30

  trap_fuel-Keeps : (n : ℕ) (a : ℤ) → KeepsOn {B = B} p (trap_fuel n a)
  unfolding trap_fuel
  trap_fuel-Keeps zero a = raise-Keeps ⊤ recursion_error
  trap_fuel-Keeps (suc n) a = trap_by-Keeps (trap_fuel n) (trap_fuel-Keeps n) a

  pub trap-Keeps : (a : ℤ) → KeepsOn {B = B} p (trap a)
  unfolding trap
  trap-Keeps a = trap_fuel-Keeps 2 a

  pub cpu_intr-Keeps : KeepsOn {B = B} p cpu_intr
  unfolding cpu_intr
  cpu_intr-Keeps = intr_by-Keeps trap trap-Keeps

  pub set-Keeps : (r v : ℤ) → KeepsOn {B = B} p (set r v)
  unfolding set
  set-Keeps r v = set_by-Keeps trap trap-Keeps r v

  pub jmp-Keeps : (a : ℤ) → KeepsOn {B = B} p (jmp a)
  unfolding jmp
  jmp-Keeps a = jmp_by-Keeps trap trap-Keeps a
