-- ===== src/Assembler/Old/Agrees.antt =====
-- old/assembler.py makes the images that assemble.py makes.
use compyter.Prelude.{ℕ, ◌≡◌, ap, arith, List, [], ◌∷◌, length}
use compyter.Result.{ok, bind-eq-ok, ok_injective}
use compyter.Memory.{Bus}
use compyter.Assembler.{
  Reals, Stmt, align, zeros, items, define, inst, Assembler, init, add_stmt, do_parse, finish, main,
}
use compyter.Assembler.Patch.{IsSpaced}
use compyter.Assembler.Pieces.{add_stmt-Chain}
use compyter.Assembler.Labels.{IsPlain, add_label-Defined, Defined-IsSpaced}
use compyter.Assembler.TwoPass.{finish-eq-ok}
use compyter.Assembler.Old
use compyter.Assembler.Old.{
  Arg, Line, blank, zero_line, align_line, label_line, instr_line, OldAssembler, symtable,
  enumerate, names, to_bytes, fill, words, emit, add_instr, add_line, add_lines, assemble,
}
use compyter.Assembler.Old.Lines.{old, SameLine, add_line-agrees}

module _ {R : Reals} where
  -- The lines of a file and the statements of the program; lines that are skipped stand for nothing.
  pub data SameLines : List Line → List (Stmt R) → Type 0 where
    nothing : SameLines [] []
    skipped :
        (lines : List Line) (xs : List (Stmt R)) → SameLines lines xs → SameLines (blank ∷ lines) xs
    next :
        (line : Line) (x : Stmt R) (lines : List Line) (xs : List (Stmt R))
        → SameLine line x
        → SameLines lines xs
        → SameLines (line ∷ lines) (x ∷ xs)

  add_stmt-IsSpaced :
      (x : Stmt R) (s t : Assembler)
      → IsSpaced 0 (length s.output) s.label_pending
      → add_stmt x s ≡ ok t
      → IsSpaced 0 (length t.output) t.label_pending
  unfolding add_stmt
  add_stmt-IsSpaced (define l) s t h e = (Defined-IsSpaced l s t h (add_label-Defined l s t e)).1
  add_stmt-IsSpaced (align n) s t h e =
      let plain : IsPlain {R = R} (align n) = λ l c. cc in
      (add_stmt-Chain s.symtable_label (align n) s t plain (λ l a known. known) h e).spaced
  add_stmt-IsSpaced (zeros n) s t h e =
      let plain : IsPlain {R = R} (zeros n) = λ l c. cc in
      (add_stmt-Chain s.symtable_label (zeros n) s t plain (λ l a known. known) h e).spaced
  add_stmt-IsSpaced (items xs) s t h e =
      let plain : IsPlain {R = R} (items xs) = λ l c. cc in
      (add_stmt-Chain s.symtable_label (items xs) s t plain (λ l a known. known) h e).spaced
  add_stmt-IsSpaced (inst o ps) s t h e =
      let plain : IsPlain {R = R} (inst o ps) = λ l c. cc in
      (add_stmt-Chain s.symtable_label (inst o ps) s t plain (λ l a known. known) h e).spaced

  add_lines-agrees :
      (B : Bus) (lines : List Line) (xs : List (Stmt R)) (s t : Assembler)
      → SameLines lines xs
      → IsSpaced 0 (length s.output) s.label_pending
      → do_parse xs s ≡ ok t
      → add_lines B lines (old s) ≡ ok (old t)
  unfolding do_parse add_lines add_line
  add_lines-agrees B _ _ s t nothing h e = ap ok (ap old (ok_injective e))
  add_lines-agrees B _ _ s t (skipped lines xs same) h e = add_lines-agrees B lines xs s t same h e
  add_lines-agrees B _ _ s t (next line x lines xs one same) h e =
      let (u, found, after) = bind-eq-ok (add_stmt x s) (do_parse xs) t e in
      rw (add_line-agrees B line x s u one h found)
        (add_lines-agrees B lines xs u t same (add_stmt-IsSpaced x s u h found) after)

  -- The two assemblers make the same images: a program that assemble.py accepts has the same image by
  -- old/assembler.py from the same instructions, labels, zeros and alignments, whatever the devices are.
  pub assemble-main :
      (B : Bus) (lines : List Line) (program : List (Stmt R)) (image : List ℕ)
      → SameLines lines program
      → main program ≡ ok image
      → assemble B lines ≡ ok image
  unfolding main assemble init Old.init finish
  assemble-main B lines program image same h =
      let (t, parsed, last) = bind-eq-ok (do_parse program init) finish image h in
      let (_, written) = finish-eq-ok t image last in
      rw (add_lines-agrees B lines program init t same (omega arith) parsed) (ap ok written)
