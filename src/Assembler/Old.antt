-- ===== src/Assembler/Old.antt =====
-- old/assembler.py, the assembler that assemble.py replaced, over lines that are split into words, with
-- numbers as `int` reads them in base 16.
pub mod Slices
pub mod Operands
pub mod Lines
pub mod Agrees
pub mod Text
pub mod Source
pub mod Printer
pub mod Numbers
pub mod Blanks
pub mod Endings
pub mod Arguments
pub mod RoundTrip
pub mod Printed
use Prim.Native.String.{String}
use mathlib.Core.List.{map}
use compyter.Prelude.{
  ℕ, zero, suc, ◌+◌, ◌-◌, ◌*◌, ◌%◌, ◌^◌, ◌==◌, Bool, true, false, Option, none, some, List, [], ◌∷◌,
  ◌++◌, length, replicate, take, drop, ltb, if◌then◌else◌,
}
use compyter.Prelude.Int.{ℤ, pos, negsuc, ◌+ℤ◌, ◌-ℤ◌, mask}
use compyter.Result.{
  Result, ok, err, system_exit, overflow_error, zero_division_error, key_error, ◌>>=◌,
}
use compyter.Memory.{Bus}
use compyter.Cpu.Decode.{ArgType, ia_none, ia_immed, ia_addr, ia_reg, Instr, instrs}
use compyter.Assembler.{lookup, places, without, word_bytes}

-- An argument: a label behind its dot, or a number.
pub data Arg : Type 0 where
  ref : String → Arg
  number : ℤ → Arg

-- `blank` is a line that is skipped: an empty one, or an unknown word behind an exclamation mark.
pub data Line : Type 0 where
  blank : Line
  data_line : List ℤ → Line
  zero_line align_line : ℤ → Line
  label_line : String → Line
  instr_line : String → List Arg → Line

pub record OldAssembler : Type 0 where
  pub out : List ℕ
  pub pc : ℤ
  pub labeltable : List (String × ℤ)
  pub resolve_pending : List (String × ℤ)

unfoldable pub init : OldAssembler
init = record { out = []; pc = pos 0; labeltable = []; resolve_pending = [] }

-- `fn.__name__`, without the underscores at its end.
unfoldable pub names : List String
names =
    "nop" ∷ "savew" ∷ "loadw" ∷ "saveb" ∷ "loadb" ∷ "savewr" ∷ "loadwr" ∷ "savebr" ∷ "loadbr"
    ∷ "savewi" ∷ "loadwi" ∷ "savebi" ∷ "loadbi" ∷ "savewri" ∷ "savebri" ∷ "add" ∷ "sub" ∷ "mul"
    ∷ "div" ∷ "mod" ∷ "addi" ∷ "subi" ∷ "muli" ∷ "divi" ∷ "modi" ∷ "jmp" ∷ "jmpr" ∷ "jmplt"
    ∷ "jmpgt" ∷ "jmple" ∷ "jmpge" ∷ "jmpeq" ∷ "jmpne" ∷ "jmplti" ∷ "jmpgti" ∷ "jmplei" ∷ "jmpgei"
    ∷ "jmpeqi" ∷ "jmpnei" ∷ "jmpltr" ∷ "jmpgtr" ∷ "jmpler" ∷ "jmpger" ∷ "jmpeqr" ∷ "jmpner"
    ∷ "jmpltri" ∷ "jmpgtri" ∷ "jmpleri" ∷ "jmpgeri" ∷ "jmpeqri" ∷ "jmpneri" ∷ "halt" ∷ "intr"
    ∷ "rfe" ∷ "wait" ∷ "swap" ∷ "copy" ∷ "and" ∷ "or" ∷ "xor" ∷ "andi" ∷ "ori" ∷ "xori" ∷ "not"
    ∷ "shl" ∷ "shr" ∷ "shli" ∷ "shri" ∷ "cpuid" ∷ "strapr" ∷ "strapi" ∷ []

-- The loop over `enumerate(CPU.INSTRS)`.
unfoldable pub enumerate :
    {B : Bus}
    → ℕ
    → List String
    → List (Instr B)
    → List (String × (ℕ × (ArgType × ArgType × ArgType)))
enumerate i [] fns = []
enumerate i (name ∷ rest) [] = []
enumerate i (name ∷ rest) (fn ∷ fns) =
    (name, (i, (fn.arg1, fn.arg2, fn.arg3))) ∷ enumerate (i + 1) rest fns

unfoldable pub symtable : Bus → List (String × (ℕ × (ArgType × ArgType × ArgType)))
unfolding enumerate names instrs
symtable B = enumerate {B = B} 0 names instrs

-- `n.to_bytes(4, "big")`
unfoldable pub to_bytes : ℤ → Result (List ℕ)
to_bytes (pos n) = if ltb n (2 ^ 32) then ok (word_bytes n) else err overflow_error
to_bytes (negsuc n) = err overflow_error

-- An end of a slice, in a sequence of `n` items.
abbrev pub bound : ℕ → ℤ → ℕ
bound n (pos i) = if ltb n i then n else i
bound n (negsuc i) = n - suc i

-- `out[addr:addr+4] = data`
abbrev pub replace : ℤ → List ℕ → List ℕ → List ℕ
replace addr bytes xs =
    let lo = bound (length xs) addr in
    let hi = bound (length xs) (addr +ℤ pos 4) in
    take lo xs ++ (bytes ++ drop (if ltb hi lo then lo else hi) xs)

-- The loop over the places that wait for a label.
unfoldable pub resolve : ℤ → List ℤ → List ℕ → Result (List ℕ)
unfolding to_bytes
resolve pc [] out = ok out
resolve pc (addr ∷ addrs) out = do bytes ← to_bytes pc; resolve pc addrs (replace addr bytes out)

-- `b"\x00" * n`
abbrev pub zero_bytes : ℤ → List ℕ
zero_bytes (pos n) = replicate n 0
zero_bytes (negsuc n) = []

-- `align - len(out) % align`, where the remainder has the sign of `align`.
unfoldable pub fill : ℤ → ℕ → Result ℤ
fill (pos n) size = if n == 0 then err zero_division_error else ok (pos n -ℤ pos (size % n))
fill (negsuc n) size = ok (if size % suc n == 0 then negsuc n else pos 0 -ℤ pos (size % suc n))

abbrev pub abs : ℤ → ℤ
abs (pos n) = pos n
abs (negsuc n) = pos (suc n)

-- The argument `i` of an instruction: its word, and a place that waits for a label.
unfoldable pub word : ℕ → Arg → OldAssembler → ℤ × OldAssembler
word i (ref l) s = elim (lookup l s.labeltable) [
  | some a ↦ (a, s)
  | none ↦ (
    pos 0,
    record s { resolve_pending = s.resolve_pending ++ (l, s.pc +ℤ pos ((i + 1) * 4)) ∷ [] },
  )
]
word i (number (pos n)) s = (pos n, s)
word i (number (negsuc n)) s = (abs (pos (2 ^ 32) -ℤ pos (suc n)), s)

abbrev pub tail {ℓ} : {A : Type ℓ} → List A → List A
tail [] = []
tail (x ∷ xs) = xs

-- The loop over the kinds of the arguments, from the argument `i`; a missing argument ends the program.
unfoldable pub words : ℕ → List ArgType → List Arg → OldAssembler → Result (List ℤ × OldAssembler)
unfolding word
words i [] args s = ok ([], s)
words i (ia_none ∷ ts) args s = do
  rest ← words (i + 1) ts (tail args) s
  ok (pos 0 ∷ rest.0, rest.1)
words i (t ∷ ts) [] s = err system_exit
words i (t ∷ ts) (arg ∷ args) s = do
  let w = word i arg s
  rest ← words (i + 1) ts args w.1
  ok (w.0 ∷ rest.0, rest.1)

unfoldable pub emit : List ℤ → Result (List ℕ)
unfolding to_bytes
emit [] = ok []
emit (w ∷ ws) = do b ← to_bytes w; bs ← emit ws; ok (b ++ bs)

unfoldable pub add_label : String → OldAssembler → Result OldAssembler
unfolding resolve
add_label l s = do
  out ← resolve s.pc (places l s.resolve_pending) s.out
  ok (record s {
    out = out;
    labeltable = (l, s.pc) ∷ s.labeltable;
    resolve_pending = without l s.resolve_pending;
  })

unfoldable pub add_instr :
    ℕ → ArgType × ArgType × ArgType → List Arg → OldAssembler → Result OldAssembler
unfolding words emit
add_instr opcode (t1, t2, t3) args s = do
  rest ← words 0 (t1 ∷ t2 ∷ t3 ∷ []) args s
  bytes ← emit (pos opcode ∷ rest.0)
  ok (record (rest.1) { out = (rest.1).out ++ bytes; pc = (rest.1).pc +ℤ pos 16 })

-- One turn of the loop over the lines.
unfoldable pub add_line : Bus → Line → OldAssembler → Result OldAssembler
unfolding symtable add_label add_instr fill
add_line B blank s = ok s
add_line B (data_line ns) s =
    ok (record s { out = s.out ++ map (mask 0xff) ns; pc = s.pc +ℤ pos (length ns) })
add_line B (zero_line n) s = ok (record s { out = s.out ++ zero_bytes n; pc = s.pc +ℤ n })
add_line B (align_line n) s = do
  a ← fill n (length s.out)
  ok (record s { out = s.out ++ zero_bytes a; pc = s.pc +ℤ a })
add_line B (label_line l) s = add_label l s
add_line B (instr_line name args) s =
    if ltb 3 (length args) then err system_exit else elim (lookup name (symtable B)) [
      | none ↦ err (key_error name)
      | some (opcode, kinds) ↦ add_instr opcode kinds args s
    ]

unfoldable pub add_lines : Bus → List Line → OldAssembler → Result OldAssembler
unfolding add_line
add_lines B [] s = ok s
add_lines B (x ∷ xs) s = do s' ← add_line B x s; add_lines B xs s'

-- The image of a file.
unfoldable pub assemble : Bus → List Line → Result (List ℕ)
unfolding add_lines init
assemble B lines = do s ← add_lines B lines init; ok s.out
