-- ===== src/Examples/Assembly.antt =====
-- The theorems on the assembler, applied.
use compyter.Prelude.{ℕ, get_elem?, ◌≡◌, ◌↔◌, refl, some, List, [], ◌∷◌}
use compyter.Result.{ok}
use compyter.Examples.{latch}
use compyter.Prelude.Int.{pos}
use compyter.Cpu.Decode.{Instr, instrs, check_args}
use compyter.Assembler.{lookup, Reals, Stmt, label, align, define, inst, pack_word, main}
use compyter.Assembler.Grammar.{Operand, reg, immed, addr, inst_ops, reg_map, opcodes, opcodes_from}
use compyter.Assembler.Grammar.Methods.{methods}
use compyter.Assembler.Grammar.Tables.{AllParsed, register, number, pairs, check_args-accepted}
use compyter.Assembler.Reference.{two_pass}
use compyter.Assembler.Pieces.{packed}
use compyter.Assembler.Accepts.{main-two_pass}
use compyter.Assembler.Old.{ref, Line, blank, instr_line, align_line, label_line, assemble}
use compyter.Assembler.Old.Operands.{SameOperands, label_operand}
use compyter.Assembler.Old.Lines.{SameLine, inst_line, aligned_line, defined_line}
use compyter.Assembler.Old.Agrees.{SameLines, nothing, skipped, next, assemble-main}

-- Reals as the bits of their single precision.
abbrev bits : Reals
bits = record { Real = ℕ; pack_real = pack_word; length_packed = packed }

-- A jump forward, a jump back and a label behind an alignment.
abbrev loop : List (Stmt bits)
loop = inst 25 (label "end" ∷ []) ∷ align 4 ∷ define "end" ∷ inst 25 (label "end" ∷ []) ∷ []

abbrev image : List ℕ
image =
    0 ∷ 0 ∷ 0 ∷ 25 ∷ 0 ∷ 0 ∷ 0 ∷ 20 ∷ 0 ∷ 0 ∷ 0 ∷ 0 ∷ 0 ∷ 0 ∷ 0 ∷ 0 ∷ 0 ∷ 0 ∷ 0 ∷ 0 ∷ 0 ∷ 0 ∷ 0 ∷ 25
    ∷ 0 ∷ 0 ∷ 0 ∷ 20 ∷ 0 ∷ 0 ∷ 0 ∷ 0 ∷ 0 ∷ 0 ∷ 0 ∷ 0 ∷ []

loop-image : main loop ≡ ok image
unfolding main
loop-image = refl

main-two_pass_example : (main loop ≡ ok image) ↔ (two_pass loop ≡ ok image)
main-two_pass_example = main-two_pass loop image

-- `addi $1 5 $ret`
abbrev addi_operands : List Operand
addi_operands = reg ∷ immed ∷ reg ∷ []

addi_parsed : AllParsed addi_operands (1 ∷ 5 ∷ 0x24 ∷ [])
unfolding AllParsed reg_map
addi_parsed = (register "1" 1 refl, (number 5, (register "ret" 0x24 refl, tt)))

check_args-accepted_example :
    (instr : Instr latch) × (get_elem? instrs 20 ≡ some instr)
    × (lookup "addi" methods ≡ some instr.instr_fn)
    × (check_args (pairs (instr.arg1, instr.arg2, instr.arg3) (pos 1, pos 5, pos 0x24))
        ≡ some (pos 1 ∷ pos 5 ∷ pos 0x24 ∷ []))
unfolding inst_ops
check_args-accepted_example =
    check_args-accepted latch 20 "addi" addi_operands (1 ∷ 5 ∷ 0x24 ∷ []) refl addi_parsed

-- The loop above, as the old assembler reads it, with a comment before it.
abbrev old_loop : List Line
old_loop =
    blank
    ∷ instr_line "jmp" (ref "end" ∷ [])
    ∷ align_line (pos 4)
    ∷ label_line "end"
    ∷ instr_line "jmp" (ref "end" ∷ [])
    ∷ []

jmp_line : SameLine {R = bits} (instr_line "jmp" (ref "end" ∷ [])) (inst 25 (label "end" ∷ []))
unfolding opcodes opcodes_from inst_ops SameOperands
jmp_line =
    inst_line "jmp" 25 (addr ∷ []) (ref "end" ∷ []) (label "end" ∷ []) refl refl
      (label_operand "end", tt)

same_loop : SameLines old_loop loop
same_loop = skipped _ _ (
    next _ _ _ _ jmp_line (
      next _ _ _ _ (aligned_line 4)
        (next _ _ _ _ (defined_line "end") (next _ _ _ _ jmp_line nothing))))

assemble-main_example : assemble latch old_loop ≡ ok image
assemble-main_example = assemble-main latch old_loop loop image same_loop loop-image
