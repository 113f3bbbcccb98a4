-- ===== src/Examples/Source.antt =====
-- The text layer of the old assembler, tried and applied.
use compyter.Examples.{latch}
use compyter.Prelude.{◌≡◌, refl, List, [], ◌∷◌}
use compyter.Prelude.Int.{pos, negsuc}
use compyter.Result.{ok, err, value_error, index_error}
use compyter.Cpu.Decode.{ia_none, ia_immed, ia_addr, ia_reg}
use compyter.Assembler.Old.Printer.{
  is_plain, AllChars, stops, takes, Printable, blank_printable, data_printable, zero_printable,
  align_printable, label_printable, instr_printable, print_lines,
}
use compyter.Assembler.Old.Printed.{assemble_text-print_lines}
use compyter.Assembler.Old.{
  ref, number, Line, blank, instr_line, data_line, zero_line, align_line, label_line, symtable,
  assemble,
}
use compyter.Assembler.Old.Text.{is_space, readlines, split, int}
use compyter.Assembler.Old.Source.{ints, read_line, assemble_text}

texts : split " jmp   .end\t" ≡ "jmp" ∷ ".end" ∷ []
unfolding split
texts = refl

numbers : ints ("0x1F" ∷ "-1_0" ∷ "+fF" ∷ []) ≡ ok (pos 31 ∷ negsuc 15 ∷ pos 255 ∷ [])
unfolding ints
numbers = refl

bad_numbers : int "1__0" ≡ err value_error
unfolding int
bad_numbers = refl

lines : readlines "a\r\nb\rc\n\nd" ≡ "a\n" ∷ "b\n" ∷ "c\n" ∷ "\n" ∷ "d" ∷ []
unfolding readlines
lines = refl

comment : read_line latch "  jmp .end # to the end\n" ≡ ok (instr_line "jmp" (ref "end" ∷ []))
unfolding read_line symtable
comment = refl

-- An argument that the instruction does not take is not read.
not_read : read_line latch "halt zz" ≡ ok (instr_line "halt" (number (pos 0) ∷ []))
unfolding read_line symtable
not_read = refl

bare_mark : read_line latch "!" ≡ err index_error
unfolding read_line symtable
bare_mark = refl

source :
    assemble_text latch "  jmp .end # go\r\n!align 4\n.end\njmp .end"
    ≡ ok (
        0 ∷ 0 ∷ 0 ∷ 25 ∷ 0 ∷ 0 ∷ 0 ∷ 20 ∷ 0 ∷ 0 ∷ 0 ∷ 0 ∷ 0 ∷ 0 ∷ 0 ∷ 0 ∷ 0 ∷ 0 ∷ 0 ∷ 0 ∷ 0 ∷ 0 ∷ 0
        ∷ 25 ∷ 0 ∷ 0 ∷ 0 ∷ 20 ∷ 0 ∷ 0 ∷ 0 ∷ 0 ∷ 0 ∷ 0 ∷ 0 ∷ 0 ∷ [])
unfolding assemble_text symtable
source = refl

-- A line of each kind.
abbrev program : List Line
program =
    data_line (pos 0xff ∷ negsuc 0 ∷ [])
    ∷ align_line (pos 4)
    ∷ label_line "loop"
    ∷ instr_line "addi" (number (pos 1) ∷ number (pos 0x2a) ∷ number (pos 1) ∷ [])
    ∷ instr_line "jmp" (ref "loop" ∷ [])
    ∷ blank
    ∷ zero_line (pos 2)
    ∷ []

program-text :
    print_lines program ≡ "!data ff -1\n!align 4\n.loop\naddi 1 2a 1\njmp .loop\n\n!zero 2\n"
unfolding print_lines
program-text = refl

loop-plain : AllChars is_plain "loop"
unfolding is_plain is_space
loop-plain = (refl, (refl, (refl, (refl, tt))))

addi-Printable :
    Printable latch (instr_line "addi" (number (pos 1) ∷ number (pos 0x2a) ∷ number (pos 1) ∷ []))
unfolding symtable
addi-Printable =
    instr_printable "addi" 20 ia_reg ia_immed ia_reg _ refl
      (takes _ _ _ _ refl tt (takes _ _ _ _ refl tt (takes _ _ _ _ refl tt (stops []))))

jmp-Printable : Printable latch (instr_line "jmp" (ref "loop" ∷ []))
unfolding symtable
jmp-Printable =
    instr_printable "jmp" 25 ia_addr ia_none ia_none _ refl
      (takes _ _ _ _ refl loop-plain (stops (ia_none ∷ ia_none ∷ [])))

assemble_text-print_lines_example :
    assemble_text latch (print_lines program) ≡ assemble latch program
assemble_text-print_lines_example = assemble_text-print_lines latch program (
  data_printable _,
  (
    align_printable _,
    (
      label_printable _ loop-plain,
      (addi-Printable, (jmp-Printable, (blank_printable, (zero_printable _, tt)))),
    ),
  ),
)
