-- ===== src/Assembler/Old/Source.antt =====
-- old/assembler.py on the text of a file: the lines, without comments and blanks, are read and assembled
-- one after the other.
use Prim.Native.Char.{code}
use Prim.Native.String.{String, [] as empty, ◌∷◌ as ◌▹◌}
use text.Mathlib.Text.{◌==◌ as str_eq}
use compyter.Prelude.{ℕ, Option, none, some, List, [], ◌∷◌, length, ltb, ◌==◌, if◌then◌else◌}
use compyter.Prelude.Int.{ℤ, pos}
use compyter.Result.{Result, ok, err, index_error, system_exit, key_error, ◌>>=◌, map_ok}
use compyter.Memory.{Bus}
use compyter.Cpu.Decode.{ArgType, ia_none}
use compyter.Assembler.{lookup}
use compyter.Assembler.Old.{
  Arg, ref, number, Line, blank, data_line, zero_line, align_line, label_line, instr_line,
  OldAssembler, init, symtable, add_line,
}
use compyter.Assembler.Old.Text.{readlines, uncomment, strip, split, int}

-- `int` on each word.
unfoldable pub ints : List String → Result (List ℤ)
unfolding int
ints [] = ok []
ints (w ∷ ws) = do n ← int w; ns ← ints ws; ok (n ∷ ns)

-- `int(statement[1], base=16)`, where the words are those behind the first.
unfoldable pub first_int : List String → Result ℤ
unfolding int
first_int [] = err index_error
first_int (w ∷ ws) = int w

-- The words behind an exclamation mark.
unfoldable pub read_directive : List String → Result Line
unfolding ints first_int
read_directive [] = err index_error
read_directive (name ∷ args) =
    if str_eq name "data"
    then map_ok data_line (ints args)
    else if str_eq name "zero"
    then map_ok zero_line (first_int args)
    else if str_eq name "align"
    then map_ok align_line (first_int args)
    else ok blank

unfoldable pub read_arg : String → Result Arg
unfolding int
read_arg empty = map_ok number (int empty)
read_arg (c ▹ s) = if code c == 46 then ok (ref s) else map_ok number (int (c ▹ s))

-- The arguments, by the kinds that the instruction takes. One that it does not take is not read, and a
-- zero stands for it.
unfoldable pub read_args : List ArgType → List String → Result (List Arg)
unfolding read_arg
read_args [] ws = ok []
read_args (t ∷ ts) [] = ok []
read_args (ia_none ∷ ts) (w ∷ ws) = do args ← read_args ts ws; ok (number (pos 0) ∷ args)
read_args (t ∷ ts) (w ∷ ws) = do arg ← read_arg w; args ← read_args ts ws; ok (arg ∷ args)

-- What is read once the name has been looked up.
unfoldable pub read_found :
    String → List String → Option (ℕ × (ArgType × ArgType × ArgType)) → Result Line
unfolding read_args
read_found name args none = err (key_error name)
read_found name args (some (opcode, (t1, t2, t3))) =
    map_ok (instr_line name) (read_args (t1 ∷ t2 ∷ t3 ∷ []) args)

unfoldable pub read_statement : Bus → List String → Result Line
unfolding read_found
read_statement B [] = err index_error
read_statement B (name ∷ args) =
    if ltb 3 (length args) then err system_exit else read_found name args (lookup name (symtable B))

-- A line without its comment and the blanks around it.
unfoldable pub read_stripped : Bus → String → Result Line
unfolding read_directive read_statement split
read_stripped B empty = ok blank
read_stripped B (c ▹ s) =
    if code c == 33
    then read_directive (split s)
    else if code c == 46
    then ok (label_line s)
    else read_statement B (split (c ▹ s))

unfoldable pub read_line : Bus → String → Result Line
unfolding read_stripped strip uncomment
read_line B line = read_stripped B (strip (uncomment line))

-- The loop over the lines of the file.
unfoldable pub assemble_lines : Bus → List String → OldAssembler → Result OldAssembler
unfolding read_line add_line
assemble_lines B [] s = ok s
assemble_lines B (line ∷ lines) s = do
  x ← read_line B line
  s' ← add_line B x s
  assemble_lines B lines s'

-- The image of a file with this text.
unfoldable pub assemble_text : Bus → String → Result (List ℕ)
unfolding assemble_lines readlines init
assemble_text B text = do s ← assemble_lines B (readlines text) init; ok s.out
