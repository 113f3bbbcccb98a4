-- ===== src/Assembler/Old/Operands.antt =====
-- The operands of an instruction, in old/assembler.py and in assemble.py.
use Prim.Native.String.{String}
use mathlib.Core.List.{map, append_assoc}
use mathlib.Core.Path.{subst}
use compyter.Prelude.{
  ℕ, zero, suc, ◌+◌, ◌-◌, ◌*◌, ◌^◌, ◌<◌, ◌≡◌, refl, ap, ◌∙◌, arith, List, [], ◌∷◌, ◌++◌, length,
  length-append, length-replicate, replicate, inl, inr, Option-cases,
}
use compyter.Prelude.Int.{ℤ, pos, negsuc, ◌-ℤ◌}
use compyter.Result.{ok, ◌>>=◌, bind-eq-ok, ok_injective}
use compyter.Cpu.Decode.{ArgType, ia_none}
use compyter.Assembler.{
  Reals, Param, int, label, Assembler, lookup, pack_word, extend, add_reference, add_param,
  add_params,
}
use compyter.Assembler.Old.{Arg, ref, number, OldAssembler, abs, to_bytes, word, words, emit}
use compyter.Assembler.Old.Slices.{entry, lookup-map, append-map, to_bytes-pack_word}
use compyter.Assembler.Pieces.{packed}
use compyter.Assembler.Grammar.{Operand, reg, addr, immed}
use compyter.Assembler.Grammar.Tables.{kind}

-- The old assembler at the address `base`, with the bytes, the labels and the places of the new one.
abbrev pub old_state : List ℕ → ℕ → Assembler → OldAssembler
old_state out base s = record {
  out = out;
  pc = pos base;
  labeltable = map entry s.symtable_label;
  resolve_pending = map entry s.label_pending;
}

-- One operand makes the same word and the same place.
record WordOf (out : List ℕ) (base i : ℕ) (a : Arg) (s t : Assembler) : Type 0 where
  value : ℤ
  bytes : List ℕ
  works : word i a (old_state out base s) ≡ (value, old_state out base t)
  fits : to_bytes value ≡ ok bytes
  four : length bytes ≡ 4
  added : t.output ≡ s.output ++ bytes
  same_labels : t.symtable_label ≡ s.symtable_label

abs_lem : (n : ℕ) → n < 2 ^ 32 → abs (pos (2 ^ 32) -ℤ pos (suc n)) ≡ pos (2 ^ 32 - suc n)
abs_lem n h = ground arith

word-extend :
    (out : List ℕ) (base i : ℕ) (a : Arg) (n : ℕ) (s t : Assembler)
    → word i a (old_state out base s) ≡ (pos n, old_state out base s)
    → (pack_word n >>= λ b. ok (extend b s)) ≡ ok t
    → WordOf out base i a s t
unfolding extend
word-extend out base i a n s t works e =
    let (b, found, rest) = bind-eq-ok (pack_word n) (λ b. ok (extend b s)) t e in
    subst (WordOf out base i a s) (ok_injective rest) (record {
      value = pos n;
      bytes = b;
      works = works;
      fits = to_bytes-pack_word n b found;
      four = packed n b found;
      added = refl;
      same_labels = refl;
    })

add_reference-WordOf :
    (out : List ℕ) (base i : ℕ) (l : String) (s t : Assembler)
    → length s.output ≡ base + (i + 1) * 4
    → add_reference l s ≡ ok t
    → WordOf out base i (ref l) s t
unfolding add_reference extend word to_bytes
add_reference-WordOf out base i l s t at e = elim (Option-cases (lookup l s.symtable_label)) [
  | inl new ↦
      let waits = record s { label_pending = s.label_pending ++ (l, length s.output) ∷ [] } in
      let e' : ok (extend (0 ∷ 0 ∷ 0 ∷ 0 ∷ []) waits) ≡ ok t = rw (new, add_reference) at e in
      subst (WordOf out base i (ref l) s) (ok_injective e') (record {
        value = pos 0;
        bytes = 0 ∷ 0 ∷ 0 ∷ 0 ∷ [];
        works =
            rw
              (
                word,
                lookup-map l s.symtable_label,
                new,
                ← append-map s.label_pending l (length s.output),
                at,
              )
              refl;
        fits = refl;
        four = refl;
        added = refl;
        same_labels = refl;
      })
  | inr (a, known) ↦
      word-extend out base i (ref l) a s t (rw (word, lookup-map l s.symtable_label, known) refl)
        (rw (known, add_reference) at e)
]

-- The operands from the one numbered `i`, and `k` words of zeros behind them.
pub record WordsOf (out : List ℕ) (base i k : ℕ) (ts : List ArgType) (args : List Arg)
    (s t : Assembler) : Type 0 where
  pub values : List ℤ
  pub bytes : List ℕ
  pub works : words i ts args (old_state out base s) ≡ ok (values, old_state out base t)
  pub fits : emit values ≡ ok bytes
  pub size : length bytes ≡ 4 * length ts
  pub added : t.output ++ replicate (4 * k) 0 ≡ s.output ++ bytes
  pub same_labels : t.symtable_label ≡ s.symtable_label

words_missing :
    (k i : ℕ) (s : OldAssembler) → words i (replicate k ia_none) [] s ≡ ok (replicate k (pos 0), s)
unfolding words
words_missing zero i s = refl
words_missing (suc k) i s = rw (words_missing k (i + 1) s) refl

emit_zeros : (k : ℕ) → emit (replicate k (pos 0)) ≡ ok (replicate (4 * k) 0)
unfolding emit to_bytes
emit_zeros zero = refl
emit_zeros (suc k) =
    let four : 4 * suc k ≡ suc (suc (suc (suc (4 * k)))) = omega arith in
    rw (emit_zeros k, four) refl

words_next :
    (op : Operand) (i : ℕ) (ts : List ArgType) (a : Arg) (args : List Arg) (s : OldAssembler)
    → words i (kind op ∷ ts) (a ∷ args) s
      ≡ (words (i + 1) ts args (word i a s).1 >>= λ rest. ok ((word i a s).0 ∷ rest.0, rest.1))
unfolding words kind
words_next reg i ts a args s = refl
words_next addr i ts a args s = refl
words_next immed i ts a args s = refl

operands_missing :
    (out : List ℕ) (base i k : ℕ) (s : Assembler)
    → WordsOf out base i k (replicate k ia_none) [] s s
operands_missing out base i k s = record {
  values = replicate k (pos 0);
  bytes = replicate (4 * k) 0;
  works = words_missing k i (old_state out base s);
  fits = emit_zeros k;
  size =
      omega (arith, length-replicate {A = ℕ} (4 * k) 0, length-replicate {A = ArgType} k ia_none);
  added = refl;
  same_labels = refl;
}

operand_next :
    (out : List ℕ) (base i k : ℕ) (op : Operand) (ts : List ArgType) (a : Arg) (args : List Arg)
    (s u t : Assembler)
    → WordOf out base i a s u
    → WordsOf out base (i + 1) k ts args u t
    → WordsOf out base i k (kind op ∷ ts) (a ∷ args) s t
unfolding emit
operand_next out base i k op ts a args s u t w rest = record {
  values = w.value ∷ rest.values;
  bytes = w.bytes ++ rest.bytes;
  works = words_next op i ts a args (old_state out base s) ∙ rw (w.works, rest.works) refl;
  fits = rw (w.fits, rest.fits) refl;
  size = omega (arith, length-append w.bytes rest.bytes, w.four, rest.size);
  added = rest.added ∙ rw w.added (append_assoc s.output w.bytes rest.bytes);
  same_labels = rest.same_labels ∙ w.same_labels;
}

module _ {R : Reals} where
  -- The same operand, as the old assembler reads it and as the grammar does.
  pub data SameOperand : Arg → Param R → Type 0 where
    label_operand : (l : String) → SameOperand (ref l) (label l)
    positive : (n : ℕ) → SameOperand (number (pos n)) (int n)
    negative : (n : ℕ) → n < 2 ^ 32 → SameOperand (number (negsuc n)) (int (2 ^ 32 - suc n))

  add_param-WordOf :
      (out : List ℕ) (base i : ℕ) (a : Arg) (p : Param R) (s t : Assembler)
      → SameOperand a p
      → length s.output ≡ base + (i + 1) * 4
      → add_param p s ≡ ok t
      → WordOf out base i a s t
  unfolding add_param word
  add_param-WordOf out base i a p s t (label_operand l) at e =
      add_reference-WordOf out base i l s t at e
  add_param-WordOf out base i a p s t (positive n) at e =
      word-extend out base i (number (pos n)) n s t refl e
  add_param-WordOf out base i a p s t (negative n h) at e =
      word-extend out base i (number (negsuc n)) (2 ^ 32 - suc n) s t (rw (abs_lem n h) refl) e

  unfoldable pub SameOperands : List Operand → List Arg → List (Param R) → Type 0
  SameOperands [] [] [] = Unit
  SameOperands [] [] (p ∷ ps) = ⊥
  SameOperands [] (a ∷ args) ps = ⊥
  SameOperands (op ∷ ops) [] ps = ⊥
  SameOperands (op ∷ ops) (a ∷ args) [] = ⊥
  SameOperands (op ∷ ops) (a ∷ args) (p ∷ ps) = SameOperand a p × SameOperands ops args ps

  pub add_params-WordsOf :
      (out : List ℕ) (base i k : ℕ) (ops : List Operand) (args : List Arg) (ps : List (Param R))
      (s t : Assembler)
      → SameOperands ops args ps
      → length s.output ≡ base + (i + 1) * 4
      → add_params ps s ≡ ok t
      → WordsOf out base i k (map kind ops ++ replicate k ia_none) args s t
  unfolding add_params SameOperands
  add_params-WordsOf out base i k [] [] [] s t same at e =
      subst (WordsOf out base i k (replicate k ia_none) [] s) (ok_injective e)
        (operands_missing out base i k s)
  add_params-WordsOf out base i k (op ∷ ops) (a ∷ args) (p ∷ ps) s t same at e =
      let (u, first, later) = bind-eq-ok (add_param p s) (add_params ps) t e in
      let w = add_param-WordOf out base i a p s u same.0 at first in
      let size : length u.output ≡ length s.output + length w.bytes =
        ap length w.added ∙ length-append s.output w.bytes in
      operand_next out base i k op (map kind ops ++ replicate k ia_none) a args s u t w (
        add_params-WordsOf out base (i + 1) k ops args ps u t same.1 (omega (arith, w.four, size))
          later)
  add_params-WordsOf out base i k [] [] (p ∷ ps) s t same at e = elim same [ ]
  add_params-WordsOf out base i k [] (a ∷ args) ps s t same at e = elim same [ ]
  add_params-WordsOf out base i k (op ∷ ops) [] ps s t same at e = elim same [ ]
  add_params-WordsOf out base i k (op ∷ ops) (a ∷ args) [] s t same at e = elim same [ ]
