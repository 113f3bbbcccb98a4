-- ===== src/Assembler/Old/Printer.antt =====
-- Source text for the lines of old/assembler.py: the words of a line with one blank between them.
use Prim.Native.Char.{Char, code}
use Prim.Native.String.{String, [] as empty, ◌∷◌ as ◌▹◌}
use compyter.Prelude.{
  ℕ, zero, suc, ◌/◌, ◌%◌, ◌≡◌, Bool, true, false, ◌&&◌, not, List, [], ◌∷◌, map, ltb, ◌==◌,
  get_elem?, none, some,
}
use compyter.Prelude.Int.{ℤ, pos, negsuc}
use compyter.Memory.{Bus}
use compyter.Cpu.Decode.{ArgType, ia_none}
use compyter.Assembler.{lookup}
use compyter.Assembler.Old.{
  Arg, ref, number, Line, blank, data_line, zero_line, align_line, label_line, instr_line, symtable,
}
use compyter.Assembler.Old.Text.{is_space}

abbrev pub append : String → String → String
append empty t = t
append (c ▹ s) t = c ▹ append s t

abbrev pub join_rest : List String → String
join_rest [] = empty
join_rest (w ∷ ws) = " " ▹ append w (join_rest ws)

-- `" ".join(words)`
abbrev pub join : List String → String
join [] = empty
join (w ∷ ws) = append w (join_rest ws)

abbrev pub hex_digits : List Char
hex_digits =
    "0" ∷ "1" ∷ "2" ∷ "3" ∷ "4" ∷ "5" ∷ "6" ∷ "7" ∷ "8" ∷ "9" ∷ "a" ∷ "b" ∷ "c" ∷ "d" ∷ "e" ∷ "f"
    ∷ []

unfoldable pub hex_digit : ℕ → Char
hex_digit n = elim (get_elem? hex_digits n) [ none ↦ "0" | some c ↦ c ]

-- The digits of a number that is not above the fuel.
unfoldable pub hex : ℕ → ℕ → String
unfolding hex_digit
hex zero n = hex_digit n ▹ empty
hex (suc k) n = elim (ltb n 16) [
  | true ↦ hex_digit n ▹ empty
  | false ↦ append (hex k (n / 16)) (hex_digit (n % 16) ▹ empty)
]

unfoldable pub print_int : ℤ → String
unfolding hex
print_int (pos n) = hex n n
print_int (negsuc n) = "-" ▹ hex (suc n) (suc n)

unfoldable pub print_arg : Arg → String
unfolding print_int
print_arg (ref l) = "." ▹ l
print_arg (number n) = print_int n

unfoldable pub print_words : Line → List String
unfolding print_arg
print_words blank = []
print_words (data_line ns) = "!data" ∷ map print_int ns
print_words (zero_line n) = "!zero" ∷ print_int n ∷ []
print_words (align_line n) = "!align" ∷ print_int n ∷ []
print_words (label_line l) = ("." ▹ l) ∷ []
print_words (instr_line name args) = name ∷ map print_arg args

unfoldable pub print_line : Line → String
unfolding print_words
print_line line = append (join (print_words line)) "\n"

unfoldable pub print_lines : List Line → String
unfolding print_line
print_lines [] = empty
print_lines (line ∷ lines) = append (print_line line) (print_lines lines)

-- A test holds of every character.
abbrev pub AllChars : (Char → Bool) → String → Type 0
AllChars test empty = Unit
AllChars test (c ▹ s) = (test c ≡ true) × AllChars test s

-- Neither a blank nor the beginning of a comment.
unfoldable pub is_plain : Char → Bool
unfolding is_space
is_plain c = not (is_space c) && not (code c == 35)

abbrev pub IsWord : String → Type 0
IsWord empty = ⊥
IsWord (c ▹ s) = AllChars is_plain (c ▹ s)

abbrev pub IsPlainArg : Arg → Type 0
IsPlainArg (ref l) = AllChars is_plain l
IsPlainArg (number n) = Unit

abbrev pub is_taken : ArgType → Bool
is_taken ia_none = false
is_taken t = true

-- The arguments that can be written for these kinds: none too many, and a zero where none is taken.
pub data Fits : List ArgType → List Arg → Type 0 where
  stops : (ts : List ArgType) → Fits ts []
  skips :
      (ts : List ArgType) (args : List Arg)
      → Fits ts args
      → Fits (ia_none ∷ ts) (number (pos 0) ∷ args)
  takes :
      (t : ArgType) (ts : List ArgType) (arg : Arg) (args : List Arg)
      → is_taken t ≡ true
      → IsPlainArg arg
      → Fits ts args
      → Fits (t ∷ ts) (arg ∷ args)

-- The lines that a text can be written for.
pub data Printable (B : Bus) : Line → Type 0 where
  blank_printable : Printable B blank
  data_printable : (ns : List ℤ) → Printable B (data_line ns)
  zero_printable : (n : ℤ) → Printable B (zero_line n)
  align_printable : (n : ℤ) → Printable B (align_line n)
  label_printable : (l : String) → AllChars is_plain l → Printable B (label_line l)
  instr_printable :
      (name : String) (opcode : ℕ) (t1 t2 t3 : ArgType) (args : List Arg)
      → lookup name (symtable B) ≡ some (opcode, (t1, t2, t3))
      → Fits (t1 ∷ t2 ∷ t3 ∷ []) args
      → Printable B (instr_line name args)
