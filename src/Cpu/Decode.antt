-- ===== src/Cpu/Decode.antt =====
-- `CPU.INSTRS` and `CPU.decode_next_instr` of compyter/cpu.py: the table of the instructions and one
-- turn of the processor.
pub mod Operands
pub mod Turn
pub mod Keeps
use mathlib.Core.Option
use compyter.Prelude.{ℕ, Bool, true, false, Option, none, some, List, [], ◌∷◌, ◌&&◌, if◌then◌else◌}
use compyter.Prelude.Int.{ℤ, pos, ◌+ℤ◌, ◌-ℤ◌, ◌|ℤ◌, leb_ℤ}
use compyter.Result.{
  Exception, Result, ok, err, page_fault, invalid_base_pointer, privilege, type_error, index,
}
use compyter.Exec.{⊤, Exec, pure, raise, lift, rescue, ◌>>=◌, ◌>>◌}
use compyter.Memory.{Bus}
use compyter.Machine.{Machine}
use compyter.Register.{reg_pc, reg_vaddr, reg_rsvd, is_dis_reg, get_item, rsvd}
use compyter.Mmu.{pte_read, pte_execute}
use compyter.Cpu.{trap_ill, trap_pfault, trap_bbptr, halt, cpu_intr, trap, set, jmp}
use compyter.Cpu.Jumps.{
  jmpr, jmplt, jmpgt, jmple, jmpge, jmpeq, jmpne, jmplti, jmpgti, jmplei, jmpgei, jmpeqi, jmpnei,
  jmpltr, jmpgtr, jmpler, jmpger, jmpeqr, jmpner, jmpltri, jmpgtri, jmpleri, jmpgeri, jmpeqri,
  jmpneri,
}
use compyter.Cpu.Arith.{
  add, sub, mul, div, mod_, addi, subi, muli, divi, modi, and_, or_, xor_, andi, ori, xori, not_,
  shl, shr, shli, shri,
}
use compyter.Cpu.LoadStore.{
  savew, loadw, saveb, loadb, savewr, loadwr, savebr, loadbr, savewi, loadwi, savebi, loadbi,
  savewri, savebri, strapr, strapi,
}
use compyter.Cpu.Control.{nop, rfe, wait, swap, copy, cpuid}

-- `IA_NONE`, `IA_IMMED`, `IA_ADDR` and `IA_REG`
pub data ArgType : Type 0 where
  ia_none ia_immed ia_addr ia_reg : ArgType

pub record Instr (B : Bus) : Type 0 where
  pub arg1 : ArgType
  pub arg2 : ArgType
  pub arg3 : ArgType
  pub instr_fn : List ℤ → Exec (Machine B) ⊤

-- The loop over the arguments; `none` is a register that is not allowed.
unfoldable pub check_args : List (ArgType × ℤ) → Option (List ℤ)
check_args [] = some []
check_args ((ia_none, arg) ∷ rest) = check_args rest
check_args ((ia_immed, arg) ∷ rest) = Option.map (λ args. arg ∷ args) (check_args rest)
check_args ((ia_addr, arg) ∷ rest) = Option.map (λ args. arg ∷ args) (check_args rest)
check_args ((ia_reg, arg) ∷ rest) =
    if is_dis_reg arg then none else Option.map (λ args. arg ∷ args) (check_args rest)

module _ {B : Bus} where
  -- `instr_fn(self, *arglist)` for a method of so many arguments.
  abbrev pub fn0 : Exec (Machine B) ⊤ → List ℤ → Exec (Machine B) ⊤
  fn0 f [] = f
  fn0 f (_ ∷ _) = raise type_error

  abbrev pub fn1 : (ℤ → Exec (Machine B) ⊤) → List ℤ → Exec (Machine B) ⊤
  fn1 f [] = raise type_error
  fn1 f (a ∷ args) = fn0 (f a) args

  abbrev pub fn2 : (ℤ → ℤ → Exec (Machine B) ⊤) → List ℤ → Exec (Machine B) ⊤
  fn2 f [] = raise type_error
  fn2 f (a ∷ args) = fn1 (f a) args

  abbrev pub fn3 : (ℤ → ℤ → ℤ → Exec (Machine B) ⊤) → List ℤ → Exec (Machine B) ⊤
  fn3 f [] = raise type_error
  fn3 f (a ∷ args) = fn2 (f a) args

  abbrev row : ArgType → ArgType → ArgType → (List ℤ → Exec (Machine B) ⊤) → Instr B
  row a b c f = record { arg1 = a; arg2 = b; arg3 = c; instr_fn = f }

  unfoldable pub instrs : List (Instr B)
  instrs =
      row ia_none ia_none ia_none (fn0 nop)
      ∷ row ia_reg ia_addr ia_none (fn2 savew)
      ∷ row ia_reg ia_addr ia_none (fn2 (λ reg1 addr. loadw reg1 addr pte_read))
      ∷ row ia_reg ia_addr ia_none (fn2 saveb)
      ∷ row ia_reg ia_addr ia_none (fn2 loadb)
      ∷ row ia_reg ia_reg ia_none (fn2 savewr)
      ∷ row ia_reg ia_reg ia_none (fn2 loadwr)
      ∷ row ia_reg ia_reg ia_none (fn2 savebr)
      ∷ row ia_reg ia_reg ia_none (fn2 loadbr)
      ∷ row ia_immed ia_addr ia_none (fn2 savewi)
      ∷ row ia_reg ia_immed ia_none (fn2 loadwi)
      ∷ row ia_immed ia_addr ia_none (fn2 savebi)
      ∷ row ia_reg ia_immed ia_none (fn2 loadbi)
      ∷ row ia_immed ia_reg ia_none (fn2 savewri)
      ∷ row ia_immed ia_reg ia_none (fn2 savebri)
      ∷ row ia_reg ia_reg ia_reg (fn3 add)
      ∷ row ia_reg ia_reg ia_reg (fn3 sub)
      ∷ row ia_reg ia_reg ia_reg (fn3 mul)
      ∷ row ia_reg ia_reg ia_reg (fn3 div)
      ∷ row ia_reg ia_reg ia_reg (fn3 mod_)
      ∷ row ia_reg ia_immed ia_reg (fn3 addi)
      ∷ row ia_reg ia_immed ia_reg (fn3 subi)
      ∷ row ia_reg ia_immed ia_reg (fn3 muli)
      ∷ row ia_reg ia_immed ia_reg (fn3 divi)
      ∷ row ia_reg ia_immed ia_reg (fn3 modi)
      ∷ row ia_addr ia_none ia_none (fn1 jmp)
      ∷ row ia_reg ia_none ia_none (fn1 jmpr)
      ∷ row ia_reg ia_reg ia_addr (fn3 jmplt)
      ∷ row ia_reg ia_reg ia_addr (fn3 jmpgt)
      ∷ row ia_reg ia_reg ia_addr (fn3 jmple)
      ∷ row ia_reg ia_reg ia_addr (fn3 jmpge)
      ∷ row ia_reg ia_reg ia_addr (fn3 jmpeq)
      ∷ row ia_reg ia_reg ia_addr (fn3 jmpne)
      ∷ row ia_reg ia_immed ia_addr (fn3 jmplti)
      ∷ row ia_reg ia_immed ia_addr (fn3 jmpgti)
      ∷ row ia_reg ia_immed ia_addr (fn3 jmplei)
      ∷ row ia_reg ia_immed ia_addr (fn3 jmpgei)
      ∷ row ia_reg ia_immed ia_addr (fn3 jmpeqi)
      ∷ row ia_reg ia_immed ia_addr (fn3 jmpnei)
      ∷ row ia_reg ia_reg ia_reg (fn3 jmpltr)
      ∷ row ia_reg ia_reg ia_reg (fn3 jmpgtr)
      ∷ row ia_reg ia_reg ia_reg (fn3 jmpler)
      ∷ row ia_reg ia_reg ia_reg (fn3 jmpger)
      ∷ row ia_reg ia_reg ia_reg (fn3 jmpeqr)
      ∷ row ia_reg ia_reg ia_reg (fn3 jmpner)
      ∷ row ia_reg ia_reg ia_reg (fn3 jmpltri)
      ∷ row ia_reg ia_reg ia_reg (fn3 jmpgtri)
      ∷ row ia_reg ia_reg ia_reg (fn3 jmpleri)
      ∷ row ia_reg ia_reg ia_reg (fn3 jmpgeri)
      ∷ row ia_reg ia_reg ia_reg (fn3 jmpeqri)
      ∷ row ia_reg ia_reg ia_reg (fn3 jmpneri)
      ∷ row ia_none ia_none ia_none (fn0 halt)
      ∷ row ia_none ia_none ia_none (fn0 cpu_intr)
      ∷ row ia_none ia_none ia_none (fn0 rfe)
      ∷ row ia_none ia_none ia_none (fn0 wait)
      ∷ row ia_reg ia_reg ia_none (fn2 swap)
      ∷ row ia_reg ia_reg ia_none (fn2 copy)
      ∷ row ia_reg ia_reg ia_reg (fn3 and_)
      ∷ row ia_reg ia_reg ia_reg (fn3 or_)
      ∷ row ia_reg ia_reg ia_reg (fn3 xor_)
      ∷ row ia_reg ia_immed ia_reg (fn3 andi)
      ∷ row ia_reg ia_immed ia_reg (fn3 ori)
      ∷ row ia_reg ia_immed ia_reg (fn3 xori)
      ∷ row ia_reg ia_reg ia_none (fn2 not_)
      ∷ row ia_reg ia_reg ia_reg (fn3 shl)
      ∷ row ia_reg ia_reg ia_reg (fn3 shr)
      ∷ row ia_reg ia_immed ia_reg (fn3 shli)
      ∷ row ia_reg ia_immed ia_reg (fn3 shri)
      ∷ row ia_none ia_none ia_none (fn0 cpuid)
      ∷ row ia_reg ia_addr ia_none (fn2 strapr)
      ∷ row ia_immed ia_addr ia_none (fn2 strapi)
      ∷ []

  -- One of the four words of an instruction.
  pub fetch : Exec (Machine B) ℤ
  fetch = do
    pc ← get_item (pos reg_pc)
    loadw (pos reg_rsvd) pc (pte_read |ℤ pte_execute)
    op ← rsvd
    pc ← get_item (pos reg_pc)
    set (pos reg_pc) (pc +ℤ pos 4)
    pure op

  -- "Retry instruction"
  pub retry : ℤ → Exec (Machine B) ⊤
  retry vector = do pc ← get_item (pos reg_pc); set (pos reg_pc) (pc -ℤ pos 16); trap vector

  -- The `except` clauses.
  pub except : Exception → Exec (Machine B) ⊤
  unfolding retry
  except (page_fault addr) = do set (pos reg_vaddr) addr; retry trap_pfault
  except invalid_base_pointer = retry trap_bbptr
  except privilege = retry trap_ill
  except e = raise e

  pub execute : Instr B → ℤ → ℤ → ℤ → Exec (Machine B) ⊤
  unfolding check_args except
  execute instr op1 op2 op3 =
      elim (check_args ((instr.arg1, op1) ∷ (instr.arg2, op2) ∷ (instr.arg3, op3) ∷ [])) [
        | none ↦ trap trap_ill
        | some arglist ↦ rescue except (instr.instr_fn arglist)
      ]

  pub decode_next_instr : Exec (Machine B) ⊤
  unfolding fetch execute instrs
  decode_next_instr = do
    opcode ← fetch
    op1 ← fetch
    op2 ← fetch
    op3 ← fetch
    if leb_ℤ (pos 71) opcode
        then trap trap_ill
        else do instr ← lift (index instrs opcode); execute instr op1 op2 op3
