-- ===== src/Assembler/Grammar/Methods.antt =====
-- The methods of compyter/cpu.py by the names that assembler/grammar.py gives to the instructions.
use Prim.Native.String.{String}
use compyter.Prelude.{List, [], ◌∷◌}
use compyter.Prelude.Int.{ℤ}
use compyter.Exec.{⊤, Exec}
use compyter.Memory.{Bus}
use compyter.Machine.{Machine}
use compyter.Mmu.{pte_read}
use compyter.Cpu.{halt, cpu_intr, jmp}
use compyter.Cpu.Jumps.{
  jmpr, jmplt, jmpgt, jmple, jmpge, jmpeq, jmpne, jmplti, jmpgti, jmplei, jmpgei, jmpeqi, jmpnei,
  jmpltr, jmpgtr, jmpler, jmpger, jmpeqr, jmpner, jmpltri, jmpgtri, jmpleri, jmpgeri, jmpeqri,
  jmpneri,
}
use compyter.Cpu.Arith.{
  add, sub, mul, div, mod_, addi, subi, muli, divi, modi, and_, or_, xor_, andi, ori, xori, not_,
  shl, shr, shli, shri,
}
use compyter.Cpu.LoadStore.{
  savew, loadw, saveb, loadb, savewr, loadwr, savebr, loadbr, savewi, loadwi, savebi, loadbi,
  savewri, savebri, strapr, strapi,
}
use compyter.Cpu.Control.{nop, rfe, wait, swap, copy, cpuid}
use compyter.Cpu.Decode.{fn0, fn1, fn2, fn3}

module _ {B : Bus} where
  -- The methods of `CPU` that are instructions, in the order of the class: a method has the name of its
  -- instruction, with an underscore behind `and`, `or`, `xor` and `not`.
  unfoldable pub methods : List (String × (List ℤ → Exec (Machine B) ⊤))
  methods =
      ("jmp", fn1 jmp)
      ∷ ("jmpr", fn1 jmpr)
      ∷ ("jmpeq", fn3 jmpeq)
      ∷ ("jmpeqi", fn3 jmpeqi)
      ∷ ("jmpeqr", fn3 jmpeqr)
      ∷ ("jmpeqri", fn3 jmpeqri)
      ∷ ("jmpne", fn3 jmpne)
      ∷ ("jmpnei", fn3 jmpnei)
      ∷ ("jmpner", fn3 jmpner)
      ∷ ("jmpneri", fn3 jmpneri)
      ∷ ("jmpgt", fn3 jmpgt)
      ∷ ("jmpgti", fn3 jmpgti)
      ∷ ("jmpgtr", fn3 jmpgtr)
      ∷ ("jmpgtri", fn3 jmpgtri)
      ∷ ("jmpge", fn3 jmpge)
      ∷ ("jmpgei", fn3 jmpgei)
      ∷ ("jmpger", fn3 jmpger)
      ∷ ("jmpgeri", fn3 jmpgeri)
      ∷ ("jmplt", fn3 jmplt)
      ∷ ("jmplti", fn3 jmplti)
      ∷ ("jmpltr", fn3 jmpltr)
      ∷ ("jmpltri", fn3 jmpltri)
      ∷ ("jmple", fn3 jmple)
      ∷ ("jmplei", fn3 jmplei)
      ∷ ("jmpler", fn3 jmpler)
      ∷ ("jmpleri", fn3 jmpleri)
      ∷ ("add", fn3 add)
      ∷ ("addi", fn3 addi)
      ∷ ("sub", fn3 sub)
      ∷ ("subi", fn3 subi)
      ∷ ("mul", fn3 mul)
      ∷ ("muli", fn3 muli)
      ∷ ("div", fn3 div)
      ∷ ("divi", fn3 divi)
      ∷ ("mod", fn3 mod_)
      ∷ ("modi", fn3 modi)
      ∷ ("loadw", fn2 (λ reg1 addr. loadw reg1 addr pte_read))
      ∷ ("loadwr", fn2 loadwr)
      ∷ ("loadwi", fn2 loadwi)
      ∷ ("savew", fn2 savew)
      ∷ ("savewr", fn2 savewr)
      ∷ ("savewi", fn2 savewi)
      ∷ ("savewri", fn2 savewri)
      ∷ ("loadb", fn2 loadb)
      ∷ ("loadbr", fn2 loadbr)
      ∷ ("loadbi", fn2 loadbi)
      ∷ ("saveb", fn2 saveb)
      ∷ ("savebr", fn2 savebr)
      ∷ ("savebi", fn2 savebi)
      ∷ ("savebri", fn2 savebri)
      ∷ ("nop", fn0 nop)
      ∷ ("halt", fn0 halt)
      ∷ ("intr", fn0 cpu_intr)
      ∷ ("rfe", fn0 rfe)
      ∷ ("wait", fn0 wait)
      ∷ ("swap", fn2 swap)
      ∷ ("copy", fn2 copy)
      ∷ ("and", fn3 and_)
      ∷ ("andi", fn3 andi)
      ∷ ("or", fn3 or_)
      ∷ ("ori", fn3 ori)
      ∷ ("xor", fn3 xor_)
      ∷ ("xori", fn3 xori)
      ∷ ("not", fn2 not_)
      ∷ ("shl", fn3 shl)
      ∷ ("shli", fn3 shli)
      ∷ ("shr", fn3 shr)
      ∷ ("shri", fn3 shri)
      ∷ ("cpuid", fn0 cpuid)
      ∷ ("strapr", fn2 strapr)
      ∷ ("strapi", fn2 strapi)
      ∷ []
