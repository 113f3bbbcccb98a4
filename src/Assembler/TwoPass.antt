-- ===== src/Assembler/TwoPass.antt =====
-- The one pass of assemble.py against the two passes of Reference.
use Prim.Native.String.{String}
use mathlib.Core.List.{append-nil}
use text.Mathlib.TextEquality.{eq_iff}
use compyter.Prelude.{
  ℕ, ◌+◌, ◌≡◌, refl, ap, ◌∙◌, arith, some, List, [], ◌∷◌, ◌++◌, ltb, false, length,
}
use compyter.Result.{Result, ok, err, ◌>>=◌, bind-eq-ok, ok_injective}
use compyter.Assembler.{
  Reals, Stmt, align, zeros, items, define, inst, Assembler, init, lookup, add_label, add_stmt,
  do_parse, finish, main,
}
use compyter.Assembler.Reference.{bytes_program, two_pass}
use compyter.Assembler.Patch.{IsSpaced}
use compyter.Assembler.Places.{patch, patch-resolve}
use compyter.Assembler.Chain.{Table, Extends, bind_nothing, written_after}
use compyter.Assembler.Pieces.{add_stmt-Chain}
use compyter.Assembler.Labels.{
  add_label-Defined, Defined-IsSpaced, IsPlain, do_parse-Labels, do_parse-Extends,
  addresses-Extends,
}

none_pending : (d : Table) → ltb 0 (length d) ≡ false → d ≡ []
none_pending [] h = refl
none_pending (x ∷ d) h = ground arith

pub finish-eq-ok :
    (s : Assembler) (image : List ℕ)
    → finish s ≡ ok image
    → (s.label_pending ≡ []) × (s.output ≡ image)
unfolding finish
finish-eq-ok s image h = ground (arith, none_pending s.label_pending)

bind-ok : (m : Result (List ℕ)) → m ≡ (m >>= λ b. ok b)
bind-ok (ok b) = refl
bind-ok (err e) = refl

module _ {R : Reals} where
  -- The bytes that the second pass writes behind those of an assembler, the places filled in.
  abbrev Written : Table → Assembler → List (Stmt R) → Assembler → Type 0
  Written table s xs t =
      (patch table s.label_pending s.output >>= λ o.
      bytes_program table (length s.output) xs >>= λ b. ok (o ++ b))
      ≡ ok t.output

  Written-plain :
      (x : Stmt R) (xs : List (Stmt R)) (s t : Assembler)
      → IsPlain x
      → Extends s.symtable_label t.symtable_label
      → IsSpaced 0 (length s.output) s.label_pending
      → do_parse (x ∷ xs) s ≡ ok t
      → ((u : Assembler)
          → IsSpaced 0 (length u.output) u.label_pending
          → do_parse xs u ≡ ok t
          → Written t.symtable_label u xs t)
      → Written t.symtable_label s (x ∷ xs) t
  unfolding do_parse bytes_program
  Written-plain x xs s t plain ext h e rest =
      let (u, found, after) = bind-eq-ok (add_stmt x s) (do_parse xs) t e in
      let c = add_stmt-Chain t.symtable_label x s u plain ext h found in
      written_after (patch t.symtable_label s.label_pending s.output) _ _ _ t.output c.written
        (rw (← c.longer) (rest u c.spaced after))

  Written-define :
      (l : String) (xs : List (Stmt R)) (s t : Assembler)
      → IsSpaced 0 (length s.output) s.label_pending
      → do_parse (define l ∷ xs) s ≡ ok t
      → ((u : Assembler)
          → IsSpaced 0 (length u.output) u.label_pending
          → do_parse xs u ≡ ok t
          → Written t.symtable_label u xs t)
      → Written t.symtable_label s (define l ∷ xs) t
  unfolding do_parse bytes_program add_stmt
  Written-define l xs s t h e rest =
      let (u, found, after) = bind-eq-ok (add_label l s) (do_parse xs) t e in
      let d = add_label-Defined l s u found in
      let (same, spaced) = Defined-IsSpaced l s u h d in
      let ext =
        addresses-Extends xs (length u.output) u.symtable_label t.symtable_label
          (do_parse-Labels xs u t spaced after) in
      let a = length s.output in
      let here : lookup l u.symtable_label ≡ some a = rw (d.labels, (eq_iff l l).1 refl) refl in
      let table = t.symtable_label in
      let filled : patch table u.label_pending u.output ≡ patch table s.label_pending s.output =
        rw (d.pending) (
          patch-resolve table l a 0 s.label_pending s.output u.output (ext l a here) h
            d.resolved) in
      let from : a + 0 ≡ length u.output = omega (arith, same) in
      written_after (patch table s.label_pending s.output) _ (ok []) _ t.output
        (filled ∙ bind_nothing (patch table s.label_pending s.output))
        (rw from (rest u spaced after))

  do_parse-Written :
      (xs : List (Stmt R)) (s t : Assembler)
      → IsSpaced 0 (length s.output) s.label_pending
      → do_parse xs s ≡ ok t
      → t.label_pending ≡ []
      → Written t.symtable_label s xs t
  unfolding do_parse bytes_program patch
  do_parse-Written [] s t h e none_left =
      rw (ok_injective e) (rw none_left (ap ok (append-nil t.output)))
  do_parse-Written (align n ∷ xs) s t h e none_left =
      Written-plain (align n) xs s t (λ l c. cc) (do_parse-Extends (align n ∷ xs) s t h e) h e
        (λ u k f. do_parse-Written xs u t k f none_left)
  do_parse-Written (zeros n ∷ xs) s t h e none_left =
      Written-plain (zeros n) xs s t (λ l c. cc) (do_parse-Extends (zeros n ∷ xs) s t h e) h e
        (λ u k f. do_parse-Written xs u t k f none_left)
  do_parse-Written (items ys ∷ xs) s t h e none_left =
      Written-plain (items ys) xs s t (λ l c. cc) (do_parse-Extends (items ys ∷ xs) s t h e) h e
        (λ u k f. do_parse-Written xs u t k f none_left)
  do_parse-Written (inst o ps ∷ xs) s t h e none_left =
      Written-plain (inst o ps) xs s t (λ l c. cc) (do_parse-Extends (inst o ps ∷ xs) s t h e) h e
        (λ u k f. do_parse-Written xs u t k f none_left)
  do_parse-Written (define l ∷ xs) s t h e none_left =
      Written-define l xs s t h e (λ u k f. do_parse-Written xs u t k f none_left)

  -- A program that assemble.py accepts is accepted by an assembler in two passes, which finds the
  -- addresses of all labels first and writes the bytes then, and the two images are the same: every
  -- operand that is a label, before or behind its definition, becomes the address of the label.
  pub two_pass-main :
      (program : List (Stmt R)) (image : List ℕ)
      → main program ≡ ok image
      → two_pass program ≡ ok image
  unfolding main two_pass init patch
  two_pass-main program image h =
      let (t, parsed, last) = bind-eq-ok (do_parse program init) finish image h in
      let (none_left, written) = finish-eq-ok t image last in
      let labels = do_parse-Labels program init t (omega arith) parsed in
      let bytes = do_parse-Written program init t (omega arith) parsed none_left in
      rw (labels, ← written) (bind-ok (bytes_program t.symtable_label 0 program) ∙ bytes)
