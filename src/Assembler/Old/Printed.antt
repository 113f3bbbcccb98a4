-- ===== src/Assembler/Old/Printed.antt =====
-- A printed file of old/assembler.py is assembled as its lines are.
use compyter.Prelude.{◌≡◌, refl, ap, ◌∙◌, List, [], ◌∷◌, All}
use compyter.Result.{ok, ◌>>=◌, bind_cong}
use compyter.Memory.{Bus}
use compyter.Assembler.Old.{Line, OldAssembler, init, add_line, add_lines, assemble}
use compyter.Assembler.Old.Text.{split_lines, readlines}
use compyter.Assembler.Old.Source.{assemble_lines, assemble_text}
use compyter.Assembler.Old.Printer.{print_words, print_line, print_lines, AllChars, Printable}
use compyter.Assembler.Old.Numbers.{AllChars-append}
use compyter.Assembler.Old.Endings.{not_return, not_return-join, newlines-same, split_lines-join}
use compyter.Assembler.Old.RoundTrip.{print_words-IsWord, read_line-print_line}

not_return-print_lines :
    (B : Bus) (lines : List Line)
    → All (Printable B) lines
    → AllChars not_return (print_lines lines)
unfolding print_lines
not_return-print_lines B [] h = tt
not_return-print_lines B (line ∷ lines) (first, rest) =
    AllChars-append not_return (print_line line) (print_lines lines)
      (not_return-join (print_words line) (print_words-IsWord B line first))
      (not_return-print_lines B lines rest)

split_lines-print_lines :
    (B : Bus) (line : Line) (lines : List Line)
    → Printable B line
    → split_lines (print_lines (line ∷ lines)) ≡ print_line line ∷ split_lines (print_lines lines)
unfolding print_lines
split_lines-print_lines B line lines h =
    split_lines-join (print_words line) (print_lines lines) (print_words-IsWord B line h)

assemble_lines-printed :
    (B : Bus) (lines : List Line) (s : OldAssembler)
    → All (Printable B) lines
    → assemble_lines B (split_lines (print_lines lines)) s ≡ add_lines B lines s
unfolding assemble_lines add_lines print_lines split_lines
assemble_lines-printed B [] s h = refl
assemble_lines-printed B (line ∷ lines) s (first, rest) =
    ap (λ texts. assemble_lines B texts s) (split_lines-print_lines B line lines first)
    ∙ ap (λ r. r >>= λ x. add_line B x s >>= assemble_lines B (split_lines (print_lines lines)))
        (read_line-print_line B line first)
    ∙ bind_cong (add_line B line s) (assemble_lines B (split_lines (print_lines lines)))
        (add_lines B lines) (λ s' e. assemble_lines-printed B lines s' rest)

-- Whatever the devices are, the old assembler makes of a printed text what it makes of the lines that were
-- printed, when each of the lines is blank, a directive with numbers, a label without blanks and `#`, or
-- an instruction of the table with at most the arguments that its kinds take, zero where they take none,
-- and the labels among them without blanks and `#`.
pub assemble_text-print_lines :
    (B : Bus) (lines : List Line)
    → All (Printable B) lines
    → assemble_text B (print_lines lines) ≡ assemble B lines
unfolding assemble_text assemble readlines
assemble_text-print_lines B lines h =
    ap (λ text. assemble_lines B (split_lines text) init >>= λ s. ok s.out)
      (newlines-same (print_lines lines) (not_return-print_lines B lines h))
    ∙ ap (λ r. r >>= λ s. ok s.out) (assemble_lines-printed B lines init h)
