-- ===== src/Assembler/Old/Lines.antt =====
-- One line of source text, in old/assembler.py and in assemble.py.
use Prim.Native.String.{String}
use mathlib.Core.List.{map, append_assoc}
use mathlib.Core.Path.{subst}
use native.Mathlib.Nat.{mod-lt, zero-lt-suc, le_of_lt}
use text.Mathlib.Text.{◌==◌ as str_eq}
use compyter.Prelude.{
  ℕ, zero, suc, ◌+◌, ◌-◌, ◌*◌, ◌%◌, ◌<◌, ◌==◌, ◌≡◌, refl, sym, ap, ◌∙◌, arith, List, [], ◌∷◌, ◌++◌,
  length, length-append, length-replicate, replicate, inl, inr, Bool-cases, some, ltb, false,
}
use compyter.Prelude.Int.{ℤ, pos, ◌+ℤ◌, pos-sub}
use compyter.Result.{ok, err, zero_division_error, bind-eq-ok, ok_injective}
use compyter.Memory.{Bus}
use compyter.Cpu.Decode.{ArgType, ia_none, instrs}
use compyter.Assembler
use compyter.Assembler.{
  Reals, Stmt, align, zeros, items, define, inst, Assembler, init, lookup, pack_word, extend,
  add_params, add_stmt, do_parse, finish, main,
}
use compyter.Assembler.Grammar.{Operand, inst_ops, opcodes, opcodes_from}
use compyter.Assembler.Grammar.Tables.{kind, kinds, lookup-All}
use compyter.Assembler.Patch.{IsSpaced}
use compyter.Assembler.Pieces.{packed}
use compyter.Assembler.Labels.{add_label-Defined, Defined-IsSpaced}
use compyter.Assembler.Old
use compyter.Assembler.Old.{
  Arg, Line, blank, zero_line, align_line, label_line, instr_line, OldAssembler, symtable,
  enumerate, names, to_bytes, fill, words, emit, add_instr, add_line, add_lines, assemble,
}
use compyter.Assembler.Old.Slices.{without-map, to_bytes-pack_word, resolve-map}
use compyter.Assembler.Old.Operands.{old_state, SameOperands, add_params-WordsOf}

-- The state of the old assembler that has read what the new one has.
abbrev pub old : Assembler → OldAssembler
old s = old_state s.output (length s.output) s

-- The table that the old assembler builds from the processor has the opcodes and the operands of the
-- grammar.
abbrev rows : ℕ → List (String × List Operand) → List (String × (ℕ × (ArgType × ArgType × ArgType)))
rows i [] = []
rows i ((name, ops) ∷ table) = (name, (i, kinds ops)) ∷ rows (i + 1) table

symtable-rows : (B : Bus) → symtable B ≡ rows 0 inst_ops
unfolding symtable enumerate names instrs inst_ops kinds kind
symtable-rows B = refl

lookup-rows :
    (name : String) (opcode i : ℕ) (ops : List Operand) (table : List (String × List Operand))
    → lookup name (opcodes_from i table) ≡ some opcode
    → lookup name table ≡ some ops
    → lookup name (rows i table) ≡ some (opcode, kinds ops)
unfolding opcodes_from
lookup-rows name opcode i ops [] h g = cc
lookup-rows name opcode i ops ((k, os) ∷ table) h g = elim (Bool-cases (str_eq k name)) [
  | inl same ↦
      let number : some i ≡ some opcode = rw same at h in
      let form : some os ≡ some ops = rw same at g in
      let number' : i ≡ opcode = cc in let form' : os ≡ ops = cc in rw (same, number', form') refl
  | inr other ↦ rw other (lookup-rows name opcode (i + 1) ops table (rw other at h) (rw other at g))
]

lookup-few : (name : String) (ops : List Operand) → lookup name inst_ops ≡ some ops → length ops < 4
unfolding inst_ops
lookup-few name ops h = lookup-All (λ ops. length ops < 4) name ops inst_ops (omega arith) h

-- The kinds of the three words behind an opcode.
kinds_list :
    (ops : List Operand)
    → length ops < 4
    → (kinds ops).0 ∷ (kinds ops).1 ∷ (kinds ops).2 ∷ []
      ≡ map kind ops ++ replicate (3 - length ops) ia_none
unfolding kinds
kinds_list [] h = refl
kinds_list (a ∷ []) h = refl
kinds_list (a ∷ b ∷ []) h = refl
kinds_list (a ∷ b ∷ c ∷ []) h = refl
kinds_list (a ∷ b ∷ c ∷ d ∷ ops) h = absurd (omega arith)

zeros-agree :
    (n : ℕ) (s : Assembler)
    → old (extend (replicate n 0) s)
      ≡ record (old s) { out = s.output ++ replicate n 0; pc = pos (length s.output) +ℤ pos n }
unfolding extend
zeros-agree n s = rw (length-append s.output (replicate n 0), length-replicate {A = ℕ} n 0) refl

fill-agrees : (n size : ℕ) → (n == 0) ≡ false → fill (pos n) size ≡ ok (pos (n - size % n))
unfolding fill
fill-agrees zero size h = cc
fill-agrees (suc n) size h =
    rw (h, pos-sub (suc n) (size % suc n) (le_of_lt (mod-lt size (zero-lt-suc n)))) refl

add_label-agrees :
    (l : String) (s t : Assembler)
    → IsSpaced 0 (length s.output) s.label_pending
    → Assembler.add_label l s ≡ ok t
    → Old.add_label l (old s) ≡ ok (old t)
unfolding Old.add_label
add_label-agrees l s t h e =
    let d = add_label-Defined l s t e in
    let (same, _) = Defined-IsSpaced l s t h d in
    let loop = resolve-map l (length s.output) 0 s.label_pending s.output t.output h d.resolved in
    rw (loop, d.labels, d.pending, same, without-map l s.label_pending) refl

instr-state :
    (b bytes : List ℕ) (k : ℕ) (s u : Assembler)
    → u.output ++ replicate (4 * k) 0 ≡ (s.output ++ b) ++ bytes
    → length b ≡ 4
    → length bytes ≡ 12
    → record (old_state s.output (length s.output) u) {
      out = s.output ++ (b ++ bytes);
      pc = pos (length s.output) +ℤ pos 16;
    }
      ≡ old (extend (replicate (4 * k) 0) u)
unfolding extend
instr-state b bytes k s u h four twelve =
    let out : u.output ++ replicate (4 * k) 0 ≡ s.output ++ (b ++ bytes) =
      h ∙ append_assoc s.output b bytes in
    let size : length (s.output ++ (b ++ bytes)) ≡ length s.output + 16 =
      omega (arith, length-append s.output (b ++ bytes), length-append b bytes) in
    rw (out, size) refl

instr-outcome :
    (opcode : ℕ) (ops : List Operand) (args : List Arg) (s : Assembler) (o : OldAssembler)
    (values : List ℤ) (bytes : List ℕ)
    → words 0 ((kinds ops).0 ∷ (kinds ops).1 ∷ (kinds ops).2 ∷ []) args (old s) ≡ ok (values, o)
    → emit (pos opcode ∷ values) ≡ ok bytes
    → add_instr opcode (kinds ops) args (old s)
      ≡ ok (record o { out = o.out ++ bytes; pc = o.pc +ℤ pos 16 })
unfolding add_instr
instr-outcome opcode ops args s o values bytes works emits = rw (works, emits) refl

lookup-symtable :
    (B : Bus) (name : String) (opcode : ℕ) (ops : List Operand)
    → lookup name opcodes ≡ some opcode
    → lookup name inst_ops ≡ some ops
    → lookup name (symtable B) ≡ some (opcode, kinds ops)
unfolding opcodes
lookup-symtable B name opcode ops code form =
    ap (lookup name) (symtable-rows B) ∙ lookup-rows name opcode 0 ops inst_ops code form

short_args : (n m : ℕ) → n ≡ m → m < 4 → ltb 3 n ≡ false
short_args n m h lt = ground arith

module _ {R : Reals} where
  -- The same line, as the old assembler reads it and as the grammar does.
  pub data SameLine : Line → Stmt R → Type 0 where
    zeros_line : (n : ℕ) → SameLine (zero_line (pos n)) (zeros n)
    aligned_line : (n : ℕ) → SameLine (align_line (pos n)) (align n)
    defined_line : (l : String) → SameLine (label_line l) (define l)
    inst_line :
        (name : String) (opcode : ℕ) (ops : List Operand) (args : List Arg)
        (ps : List (Assembler.Param R))
        → lookup name opcodes ≡ some opcode
        → lookup name inst_ops ≡ some ops
        → SameOperands ops args ps
        → SameLine (instr_line name args) (inst opcode ps)

  length-SameOperands :
      (ops : List Operand) (args : List Arg) (ps : List (Assembler.Param R))
      → SameOperands ops args ps
      → (length args ≡ length ops) × (length ps ≡ length ops)
  unfolding SameOperands
  length-SameOperands [] [] [] h = (refl, refl)
  length-SameOperands (op ∷ ops) (a ∷ args) (p ∷ ps) h =
      let (n, m) = length-SameOperands ops args ps h.1 in (ap suc n, ap suc m)
  length-SameOperands [] [] (p ∷ ps) h = elim h [ ]
  length-SameOperands [] (a ∷ args) ps h = elim h [ ]
  length-SameOperands (op ∷ ops) [] ps h = elim h [ ]
  length-SameOperands (op ∷ ops) (a ∷ args) [] h = elim h [ ]

  add_instr-agrees :
      (opcode : ℕ) (ops : List Operand) (args : List Arg) (ps : List (Assembler.Param R))
      (s t : Assembler)
      → length ops < 4
      → SameOperands ops args ps
      → add_stmt (inst opcode ps) s ≡ ok t
      → add_instr opcode (kinds ops) args (old s) ≡ ok (old t)
  unfolding add_stmt emit extend
  add_instr-agrees opcode ops args ps s t few same e =
      let (b, found, e1) = bind-eq-ok (pack_word opcode) _ t e in
      let (u, e2, e3) = bind-eq-ok (add_params ps (extend b s)) _ t e1 in
      let (n, m) = length-SameOperands ops args ps same in
      let four = packed opcode b found in
      let w =
        add_params-WordsOf s.output (length s.output) 0 (3 - length ops) ops args ps (extend b s) u
          same (omega (arith, length-append s.output b, four)) e2 in
      let list = kinds_list ops few in
      let twelve : length w.bytes ≡ 12 = w.size ∙ ap (λ ts. 4 * length ts) (sym list) in
      let works =
        subst
          (λ ts. words 0 ts args (old s) ≡ ok (w.values, old_state s.output (length s.output) u))
          (sym list) w.works in
      let emits : emit (pos opcode ∷ w.values) ≡ ok (b ++ w.bytes) =
        rw (to_bytes-pack_word opcode b found, w.fits) refl in
      let made : add_instr opcode (kinds ops) args (old s)
          ≡ ok (old (extend (replicate (4 * (3 - length ops)) 0) u)) =
        instr-outcome opcode ops args s (old_state s.output (length s.output) u) w.values
          (b ++ w.bytes) works emits
        ∙ ap ok (instr-state b w.bytes (3 - length ops) s u w.added four twelve) in
      made
      ∙ ap ok
          (ap (λ k. old (extend (replicate (4 * (3 - k)) 0) u)) (sym m) ∙ ap old (ok_injective e3))

  pub add_line-agrees :
      (B : Bus) (line : Line) (x : Stmt R) (s t : Assembler)
      → SameLine line x
      → IsSpaced 0 (length s.output) s.label_pending
      → add_stmt x s ≡ ok t
      → add_line B line (old s) ≡ ok (old t)
  unfolding add_stmt add_line
  add_line-agrees B line x s t (zeros_line n) h e =
      ap ok (sym (zeros-agree n s)) ∙ ap ok (ap old (ok_injective e))
  add_line-agrees B line x s t (aligned_line n) h e = elim (Bool-cases (n == 0)) [
    | inl none_wide ↦ let e' : err zero_division_error ≡ ok t = rw none_wide at e in cc
    | inr other ↦
        let k = n - length s.output % n in
        let e' : ok (extend (replicate k 0) s) ≡ ok t = rw other at e in
        rw (fill-agrees n (length s.output) other)
          (ap ok (sym (zeros-agree k s)) ∙ ap ok (ap old (ok_injective e')))
  ]
  add_line-agrees B line x s t (defined_line l) h e = add_label-agrees l s t h e
  add_line-agrees B line x s t (inst_line name opcode ops args ps code form same) h e =
      let few = lookup-few name ops form in
      let (n, _) = length-SameOperands ops args ps same in
      rw (short_args (length args) (length ops) n few, lookup-symtable B name opcode ops code form)
        (add_instr-agrees opcode ops args ps s t few same e)
