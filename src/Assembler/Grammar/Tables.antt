-- ===== src/Assembler/Grammar/Tables.antt =====
-- The tables of assembler/grammar.py against the table of the processor.
use Prim.Native.String.{String}
use text.Mathlib.Text.{◌==◌ as str_eq}
use mathlib.Core.Option
use mathlib.Core.Path.{subst}
use compyter.Prelude.{
  ℕ, ◌<◌, ◌≡◌, ◌∙◌, ap, refl, sym, arith, some, List, [], ◌∷◌, map, get_elem?, get_elem?-map,
  map-get_elem?, All, All-get_elem?, length, inl, inr, Bool-cases,
}
use compyter.Prelude.Int.{ℤ, pos}
use compyter.Memory.{Bus}
use compyter.Cpu.Decode.{ArgType, ia_none, ia_immed, ia_addr, ia_reg, Instr, instrs, check_args}
use compyter.Assembler.{lookup}
use compyter.Assembler.Grammar.Methods.{methods}
use compyter.Assembler.Grammar.{Operand, reg, addr, immed, inst_ops, reg_map}

-- The operands of an instruction as the processor's table has them.
unfoldable pub kind : Operand → ArgType
kind reg = ia_reg
kind addr = ia_addr
kind immed = ia_immed

unfoldable pub kinds : List Operand → ArgType × ArgType × ArgType
kinds [] = (ia_none, ia_none, ia_none)
kinds (a ∷ []) = (kind a, ia_none, ia_none)
kinds (a ∷ b ∷ []) = (kind a, kind b, ia_none)
kinds (a ∷ b ∷ c ∷ ops) = (kind a, kind b, kind c)

-- The processor and the assembler agree on the operands of every opcode, whatever the devices are: the
-- kinds of the arguments in the table of the processor are those in the table of the grammar, row by
-- row.
abbrev kinds_of : {B : Bus} → Instr B → ArgType × ArgType × ArgType
kinds_of i = (i.arg1, i.arg2, i.arg3)

abbrev entry_kinds : String × List Operand → ArgType × ArgType × ArgType
entry_kinds op = kinds (op.1)

inst_ops-instrs : (B : Bus) → map (kinds_of {B = B}) instrs ≡ map entry_kinds inst_ops
unfolding instrs inst_ops kinds kind
inst_ops-instrs B = refl

some_injective : {A : Type 0} {a b : A} → some a ≡ some b → a ≡ b
some_injective h = cc

-- The method behind every opcode is the one with the name of the opcode's instruction.
inst_ops-methods :
    (B : Bus)
    → map (λ (i : Instr B). some i.instr_fn) instrs
      ≡ map (λ (op : String × List Operand). lookup (op.0) (methods {B = B})) inst_ops
unfolding instrs inst_ops methods
inst_ops-methods B = refl

-- Every register number of the table is of a register that instructions may name.
pub lookup-All :
    {V : Type 0} (P : V → Type 0) (name : String) (r : V) (regs : List (String × V))
    → All (λ entry. P (entry.1)) regs
    → lookup name regs ≡ some r
    → P r
lookup-All P name r [] all h = cc
lookup-All P name r ((k, i) ∷ regs) all h = elim (Bool-cases (str_eq k name)) [
  | inl same ↦
      let found : some i ≡ some r = rw same at h in let number : i ≡ r = cc in subst P number all.0
  | inr other ↦ lookup-All P name r regs all.1 (rw other at h)
]

-- A register name stands for one of the registers 0 to 39.
reg_map-lt : (name : String) (r : ℕ) → lookup name reg_map ≡ some r → r < 40
unfolding reg_map
reg_map-lt name r h = lookup-All (λ r. r < 40) name r reg_map (omega arith) h

inst_ops-short :
    (opcode : ℕ) (name : String) (ops : List Operand)
    → get_elem? inst_ops opcode ≡ some (name, ops)
    → length ops < 4
unfolding inst_ops
inst_ops-short opcode name ops h =
    All-get_elem? (λ entry. length (entry.1) < 4) inst_ops opcode (name, ops) (omega arith) h

-- The words that the operands of an instruction make, labels by their addresses: a register by its name,
-- an address or a number as it stands. A real number, which the grammar accepts as an immediate, makes
-- no word.
pub data Parsed : Operand → ℕ → Type 0 where
  register : (name : String) (r : ℕ) → lookup name reg_map ≡ some r → Parsed reg r
  address : (a : ℕ) → Parsed addr a
  number : (n : ℕ) → Parsed immed n

unfoldable pub AllParsed : List Operand → List ℕ → Type 0
AllParsed [] [] = Unit
AllParsed [] (n ∷ ns) = ⊥
AllParsed (op ∷ ops) [] = ⊥
AllParsed (op ∷ ops) (n ∷ ns) = Parsed op n × AllParsed ops ns

-- The three words behind the opcode, with zeros for the operands that are missing.
abbrev pub padded : List ℕ → ℤ × ℤ × ℤ
padded [] = (pos 0, pos 0, pos 0)
padded (a ∷ []) = (pos a, pos 0, pos 0)
padded (a ∷ b ∷ []) = (pos a, pos b, pos 0)
padded (a ∷ b ∷ c ∷ ns) = (pos a, pos b, pos c)

abbrev pub pairs : ArgType × ArgType × ArgType → ℤ × ℤ × ℤ → List (ArgType × ℤ)
pairs (t1, t2, t3) (a, b, c) = (t1, a) ∷ (t2, b) ∷ (t3, c) ∷ []

Parsed-check_args :
    (op : Operand) (n : ℕ) (rest : List (ArgType × ℤ))
    → Parsed op n
    → check_args ((kind op, pos n) ∷ rest) ≡ Option.map (λ args. pos n ∷ args) (check_args rest)
unfolding check_args kind
Parsed-check_args reg n rest (register name _ h) = let small = reg_map-lt name n h in ground arith
Parsed-check_args addr n rest (address _) = refl
Parsed-check_args immed n rest (number _) = refl

kinds-check_args :
    (ops : List Operand) (ns : List ℕ)
    → length ops < 4
    → AllParsed ops ns
    → check_args (pairs (kinds ops) (padded ns)) ≡ some (map pos ns)
unfolding check_args kinds AllParsed
kinds-check_args [] [] h p = refl
kinds-check_args (a ∷ []) (x ∷ []) h p = Parsed-check_args a x _ p.0
kinds-check_args (a ∷ b ∷ []) (x ∷ y ∷ []) h p =
    rw
      (
        Parsed-check_args a x ((kind b, pos y) ∷ (ia_none, pos 0) ∷ []) p.0,
        Parsed-check_args b y ((ia_none, pos 0) ∷ []) p.1.0,
      )
      refl
kinds-check_args (a ∷ b ∷ c ∷ []) (x ∷ y ∷ z ∷ []) h p =
    rw
      (
        Parsed-check_args a x ((kind b, pos y) ∷ (kind c, pos z) ∷ []) p.0,
        Parsed-check_args b y ((kind c, pos z) ∷ []) p.1.0,
        Parsed-check_args c z [] p.1.1.0,
      )
      refl
kinds-check_args (a ∷ b ∷ c ∷ d ∷ ops) ns h p = absurd (omega arith)
kinds-check_args [] (x ∷ ns) h p = elim p [ ]
kinds-check_args (a ∷ ops) [] h p = elim p [ ]
kinds-check_args (a ∷ []) (x ∷ y ∷ ns) h p = elim p.1 [ ]
kinds-check_args (a ∷ b ∷ ops) (x ∷ []) h p = elim p.1 [ ]
kinds-check_args (a ∷ b ∷ []) (x ∷ y ∷ z ∷ ns) h p = elim p.1.1 [ ]
kinds-check_args (a ∷ b ∷ c ∷ ops) (x ∷ y ∷ []) h p = elim p.1.1 [ ]
kinds-check_args (a ∷ b ∷ c ∷ []) (x ∷ y ∷ z ∷ w ∷ ns) h p = elim p.1.1.1 [ ]

-- The grammar and the processor agree, whatever the devices are: every opcode of the grammar's table is
-- in the table of the processor, with the method that has the name of the instruction; and the
-- processor's check accepts the words of the operands that the grammar accepts for the opcode, when none
-- of them is a real number, with zeros in the words that are left, and leaves exactly these words as the
-- arguments of the method.
pub check_args-accepted :
    (B : Bus) (opcode : ℕ) (name : String) (ops : List Operand) (ns : List ℕ)
    → get_elem? inst_ops opcode ≡ some (name, ops)
    → AllParsed ops ns
    → (instr : Instr B) × (get_elem? instrs opcode ≡ some instr)
      × (lookup name methods ≡ some instr.instr_fn)
      × (check_args (pairs (instr.arg1, instr.arg2, instr.arg3) (padded ns)) ≡ some (map pos ns))
check_args-accepted B opcode name ops ns h p =
    let row : get_elem? (map kinds_of instrs) opcode ≡ some (kinds ops) =
      rw (inst_ops-instrs B) (get_elem?-map entry_kinds inst_ops opcode (name, ops) h) in
    let (instr, found, same) = map-get_elem? kinds_of instrs opcode (kinds ops) row in
    let by_name =
      get_elem?-map (λ (op : String × List Operand). lookup (op.0) (methods {B = B})) inst_ops
        opcode (name, ops) h in
    let by_number = get_elem?-map (λ (i : Instr B). some i.instr_fn) instrs opcode instr found in
    let tables = ap (λ l. get_elem? l opcode) (inst_ops-methods B) in
    (
      instr,
      found,
      some_injective (sym by_name ∙ sym tables ∙ by_number),
      subst (λ t. check_args (pairs t (padded ns)) ≡ some (map pos ns)) (sym same)
          (kinds-check_args ops ns (inst_ops-short opcode name ops h) p),
    )
