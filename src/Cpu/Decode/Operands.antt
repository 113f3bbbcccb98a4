-- ===== src/Cpu/Decode/Operands.antt =====
-- The check of the operands in `decode_next_instr` (compyter/cpu.py).
use mathlib.Core.Option
use compyter.Prelude.{
  ◌≡◌, refl, Bool, true, false, ◌||◌, Option, none, some, List, [], ◌∷◌, inl, inr, Bool-cases,
  if◌then◌else◌,
}
use compyter.Prelude.Int.{ℤ}
use compyter.Exec.{⊤, Exec, rescue}
use compyter.Memory.{Bus}
use compyter.Machine.{Machine}
use compyter.Register.{is_dis_reg}
use compyter.Cpu.{trap, trap_ill}
use compyter.Cpu.Decode.{
  ArgType, ia_none, ia_immed, ia_addr, ia_reg, Instr, check_args, execute, except,
}

-- An operand that names the fault counter or the reserved register.
abbrev pub is_bad : ArgType → ℤ → Bool
is_bad ia_none arg = false
is_bad ia_immed arg = false
is_bad ia_addr arg = false
is_bad ia_reg arg = is_dis_reg arg

abbrev pub any_bad : List (ArgType × ℤ) → Bool
any_bad [] = false
any_bad ((type, arg) ∷ rest) = is_bad type arg || any_bad rest

-- The operands that the instruction has.
abbrev pub used : List (ArgType × ℤ) → List ℤ
used [] = []
used ((ia_none, arg) ∷ rest) = used rest
used ((ia_immed, arg) ∷ rest) = arg ∷ used rest
used ((ia_addr, arg) ∷ rest) = arg ∷ used rest
used ((ia_reg, arg) ∷ rest) = arg ∷ used rest

abbrev checked : Bool → List ℤ → Option (List ℤ)
checked bad args = if bad then none else some args

map-checked :
    (bad : Bool) (arg : ℤ) (args : List ℤ)
    → Option.map (λ rest. arg ∷ rest) (checked bad args) ≡ checked bad (arg ∷ args)
map-checked true arg args = refl
map-checked false arg args = refl

check_args-checked :
    (args : List (ArgType × ℤ)) → check_args args ≡ checked (any_bad args) (used args)
unfolding check_args
check_args-checked [] = refl
check_args-checked ((ia_none, arg) ∷ rest) = check_args-checked rest
check_args-checked ((ia_immed, arg) ∷ rest) =
    rw (check_args-checked rest) (map-checked (any_bad rest) arg (used rest))
check_args-checked ((ia_addr, arg) ∷ rest) =
    rw (check_args-checked rest) (map-checked (any_bad rest) arg (used rest))
check_args-checked ((ia_reg, arg) ∷ rest) = elim (Bool-cases (is_dis_reg arg)) [
  | inl h ↦ rw h refl
  | inr h ↦ rw (h, check_args-checked rest) (map-checked (any_bad rest) arg (used rest))
]

module _ {B : Bus} where
  abbrev pub operands : Instr B → ℤ → ℤ → ℤ → List (ArgType × ℤ)
  operands instr op1 op2 op3 = (instr.arg1, op1) ∷ (instr.arg2, op2) ∷ (instr.arg3, op3) ∷ []

  abbrev dispatch : Instr B → Option (List ℤ) → Exec (Machine B) ⊤
  dispatch instr none = trap trap_ill
  dispatch instr (some arglist) = rescue except (instr.instr_fn arglist)

  dispatch-checked :
      (instr : Instr B) (bad : Bool) (args : List ℤ) (s : Machine B)
      → dispatch instr (checked bad args) s
        ≡ (if bad then trap trap_ill s else rescue except (instr.instr_fn args) s)
  dispatch-checked instr true args s = refl
  dispatch-checked instr false args s = refl

  -- An instruction runs on the operands it has, in their order, unless one of them is a register
  -- operand that names the fault counter or the reserved register: then the trap TRAP_ILL is all
  -- that happens, whatever the other operands are.
  pub execute_lem :
      (instr : Instr B) (op1 op2 op3 : ℤ) (s : Machine B)
      → execute instr op1 op2 op3 s ≡ (
          if any_bad (operands instr op1 op2 op3)
          then trap trap_ill s
          else rescue except (instr.instr_fn (used (operands instr op1 op2 op3))) s)
  unfolding execute
  execute_lem instr op1 op2 op3 s =
      let args = operands instr op1 op2 op3 in
      rw (execute, check_args-checked args) (dispatch-checked instr (any_bad args) (used args) s)
