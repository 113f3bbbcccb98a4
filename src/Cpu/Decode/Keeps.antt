-- ===== src/Cpu/Decode/Keeps.antt =====
-- One turn of the processor (compyter/cpu.py) leaves the cache in agreement with memory.
use compyter.Prelude.{
  ◌≡◌, refl, true, Option, Option-cases, inl, inr, none, some, List, [], ◌∷◌, All, All-get_elem?,
  length, get_elem?,
}
use mathlib.Core.Path.{subst}
use compyter.Prelude.Int.{ℤ, pos}
use compyter.Result.{
  Exception, Result, ok, err, page_fault, invalid_base_pointer, privilege, type_error, index,
  index_error, or_raise, place, bind-eq-ok, ok_injective,
}
use compyter.Exec.{⊤, Exec, rescue, lift, raise, ◌>>=◌}
use compyter.Memory.{Bus}
use compyter.Machine.{Machine}
use compyter.Register.{rsvd, reg_vaddr}
use compyter.Cpu.{trap_ill, trap_pfault, trap_bbptr, trap}
use compyter.Mmu.Coherence.{Coherent}
use compyter.Cpu.Keeps.{
  is_caught, Kept, Keeps, keeps, bind-Keeps, raise-Keeps, gets-Keeps, if-Keeps, set-Keeps,
  jmp-Keeps, trap-Keeps, cpu_intr-Keeps, halt-Keeps,
}
use compyter.Cpu.LoadStore.Stores.{IsUncaught, savew-Keeps, saveb-Keeps}
use compyter.Cpu.LoadStore.Keeps.{
  loadw-Keeps, loadb-Keeps, savewr-Keeps, loadwr-Keeps, savebr-Keeps, loadbr-Keeps, savewi-Keeps,
  loadwi-Keeps, savebi-Keeps, loadbi-Keeps, savewri-Keeps, savebri-Keeps, strapr-Keeps,
  strapi-Keeps,
}
use compyter.Cpu.Arith.Keeps.{
  add-Keeps, sub-Keeps, mul-Keeps, div-Keeps, mod_-Keeps, addi-Keeps, subi-Keeps, muli-Keeps,
  divi-Keeps, modi-Keeps, and_-Keeps, or_-Keeps, xor_-Keeps, andi-Keeps, ori-Keeps, xori-Keeps,
  not_-Keeps, shl-Keeps, shr-Keeps, shli-Keeps, shri-Keeps,
}
use compyter.Cpu.Jumps.Keeps.{
  jmpr-Keeps, jmplt-Keeps, jmpgt-Keeps, jmple-Keeps, jmpge-Keeps, jmpeq-Keeps, jmpne-Keeps,
  jmplti-Keeps, jmpgti-Keeps, jmplei-Keeps, jmpgei-Keeps, jmpeqi-Keeps, jmpnei-Keeps, jmpltr-Keeps,
  jmpgtr-Keeps, jmpler-Keeps, jmpger-Keeps, jmpeqr-Keeps, jmpner-Keeps, jmpltri-Keeps,
  jmpgtri-Keeps, jmpleri-Keeps, jmpgeri-Keeps, jmpeqri-Keeps, jmpneri-Keeps,
}
use compyter.Cpu.Control.Keeps.{
  nop-Keeps, rfe-Keeps, wait-Keeps, swap-Keeps, copy-Keeps, cpuid-Keeps,
}
use compyter.Cpu.Decode.{
  Instr, fn0, fn1, fn2, fn3, instrs, fetch, retry, except, execute, check_args, decode_next_instr,
}

module _ {B : Bus} where
  fn0-Keeps : {f : Exec (Machine B) ⊤} → Keeps f → (args : List ℤ) → Keeps (fn0 f args)
  fn0-Keeps h [] = h
  fn0-Keeps h (a ∷ args) = raise-Keeps ⊤ type_error

  fn1-Keeps :
      {f : ℤ → Exec (Machine B) ⊤} → ((a : ℤ) → Keeps (f a)) → (args : List ℤ) → Keeps (fn1 f args)
  fn1-Keeps h [] = raise-Keeps ⊤ type_error
  fn1-Keeps h (a ∷ args) = fn0-Keeps (h a) args

  fn2-Keeps :
      {f : ℤ → ℤ → Exec (Machine B) ⊤}
      → ((a b : ℤ) → Keeps (f a b))
      → (args : List ℤ) → Keeps (fn2 f args)
  fn2-Keeps h [] = raise-Keeps ⊤ type_error
  fn2-Keeps h (a ∷ args) = fn1-Keeps (h a) args

  fn3-Keeps :
      {f : ℤ → ℤ → ℤ → Exec (Machine B) ⊤}
      → ((a b c : ℤ) → Keeps (f a b c))
      → (args : List ℤ) → Keeps (fn3 f args)
  fn3-Keeps h [] = raise-Keeps ⊤ type_error
  fn3-Keeps h (a ∷ args) = fn2-Keeps (h a) args

  rsvd-Keeps : Keeps {B = B} rsvd
  unfolding rsvd
  rsvd-Keeps = gets-Keeps _

  retry-Keeps : (v : ℤ) → Keeps {B = B} (retry v)
  unfolding retry
  retry-Keeps v = search (keeps, set-Keeps, trap-Keeps)

  -- An exception is caught on a state that agrees, or goes on as it is.
  handled :
      (e : Exception) (t : Machine B)
      → (is_caught e ≡ true → Coherent t)
      → Kept {B = B} (except e t)
  unfolding except raise
  handled (page_fault a) t h =
      (bind-Keeps _ _ (set-Keeps (pos reg_vaddr) a) (λ u. retry-Keeps trap_pfault)).kept t (h refl)
  handled invalid_base_pointer t h = (retry-Keeps trap_bbptr).kept t (h refl)
  handled privilege t h = (retry-Keeps trap_ill).kept t (h refl)
  handled e t h = h

  rescue-Keeps : (m : Exec (Machine B) ⊤) → Keeps m → Keeps (rescue except m)
  unfolding rescue
  rescue-Keeps m h = record { kept = λ s c. rescued (m s) (h.kept s c) }
    where
      rescued :
          (r : Result ⊤ × Machine B)
          → Kept {B = B} r
          → Kept {B = B} {A = ⊤} (elim (r.0) [ ok a ↦ (ok a, r.1) | err e ↦ except e (r.1) ])
      rescued (ok a, t) c = c
      rescued (err e, t) c = handled e t c

  fetch-Keeps : Keeps {B = B} fetch
  unfolding fetch
  fetch-Keeps = search (keeps, loadw-Keeps, rsvd-Keeps, set-Keeps) depth 12

  abbrev KeepsInstr : Instr B → Type 0
  KeepsInstr instr = (args : List ℤ) → Keeps (instr.instr_fn args)

  execute-Keeps :
      (instr : Instr B) (op1 op2 op3 : ℤ) → KeepsInstr instr → Keeps (execute instr op1 op2 op3)
  unfolding execute
  execute-Keeps instr op1 op2 op3 h =
      checked (check_args ((instr.arg1, op1) ∷ (instr.arg2, op2) ∷ (instr.arg3, op3) ∷ []))
    where
      checked :
          (o : Option (List ℤ))
          → Keeps {B = B}
              (elim o [ none ↦ trap trap_ill | some args ↦ rescue except (instr.instr_fn args) ])
      checked none = trap-Keeps trap_ill
      checked (some args) = rescue-Keeps (instr.instr_fn args) (h args)

index-All :
    {A : Type 0} (P : A → Type 0) (xs : List A) (i : ℤ) (x : A) → All P xs → index xs i ≡ ok x → P x
index-All P xs i x all h =
    let (p, _, got) =
      bind-eq-ok (or_raise (place i (length xs)) index_error)
        (λ q. or_raise (get_elem? xs q) index_error) x h in
    elim (Option-cases (get_elem? xs p)) [
      | inl nothing ↦ let no_item : err index_error ≡ ok x = rw nothing at got in cc
      | inr (y, found) ↦
          let same : ok y ≡ ok x = rw found at got in
          subst P (ok_injective same) (All-get_elem? P xs p y all found)
    ]

module _ (B : Bus) (un : IsUncaught B) where
  instrs-Keeps : All (KeepsInstr {B = B}) instrs
  unfolding instrs
  instrs-Keeps =
      search
        (
          fn0-Keeps, fn1-Keeps, fn2-Keeps, fn3-Keeps, nop-Keeps, savew-Keeps, loadw-Keeps,
          saveb-Keeps, loadb-Keeps, savewr-Keeps, loadwr-Keeps, savebr-Keeps, loadbr-Keeps,
          savewi-Keeps, loadwi-Keeps, savebi-Keeps, loadbi-Keeps, savewri-Keeps, savebri-Keeps,
          add-Keeps, sub-Keeps, mul-Keeps, div-Keeps, mod_-Keeps, addi-Keeps, subi-Keeps,
          muli-Keeps, divi-Keeps, modi-Keeps, jmp-Keeps, jmpr-Keeps, jmplt-Keeps, jmpgt-Keeps,
          jmple-Keeps, jmpge-Keeps, jmpeq-Keeps, jmpne-Keeps, jmplti-Keeps, jmpgti-Keeps,
          jmplei-Keeps, jmpgei-Keeps, jmpeqi-Keeps, jmpnei-Keeps, jmpltr-Keeps, jmpgtr-Keeps,
          jmpler-Keeps, jmpger-Keeps, jmpeqr-Keeps, jmpner-Keeps, jmpltri-Keeps, jmpgtri-Keeps,
          jmpleri-Keeps, jmpgeri-Keeps, jmpeqri-Keeps, jmpneri-Keeps, halt-Keeps, cpu_intr-Keeps,
          rfe-Keeps, wait-Keeps, swap-Keeps, copy-Keeps, and_-Keeps, or_-Keeps, xor_-Keeps,
          andi-Keeps, ori-Keeps, xori-Keeps, not_-Keeps, shl-Keeps, shr-Keeps, shli-Keeps,
          shri-Keeps, cpuid-Keeps, strapr-Keeps, strapi-Keeps,
        )
        depth 100

  found-Keeps :
      (op op1 op2 op3 : ℤ) (r : Result (Instr B))
      → index instrs op ≡ r
      → Keeps (lift r >>= λ instr. execute instr op1 op2 op3)
  unfolding ◌>>=◌ lift
  found-Keeps op op1 op2 op3 (err e) h = record { kept = λ s c caught. c }
  found-Keeps op op1 op2 op3 (ok instr) h = record {
    kept =
        (execute-Keeps instr op1 op2 op3
          (index-All KeepsInstr instrs op instr instrs-Keeps h)).kept;
  }

  pub decode-Keeps : Keeps {B = B} decode_next_instr
  unfolding decode_next_instr
  decode-Keeps = bind-Keeps _ _ fetch-Keeps λ opcode. bind-Keeps _ _ fetch-Keeps λ op1.
      bind-Keeps _ _ fetch-Keeps λ op2. bind-Keeps _ _ fetch-Keeps λ op3.
        if-Keeps _ _ _ (trap-Keeps trap_ill)
          (found-Keeps opcode op1 op2 op3 (index instrs opcode) refl)
