-- ===== src/Assembler/Progress.antt =====
-- A piece of source text (assemble.py) whose bytes Reference finds is accepted by the one pass.
use Prim.Native.String.{String}
use text.Mathlib.Text.{◌==◌ as str_eq}
use text.Mathlib.TextEquality.{eq_iff}
use mathlib.Core.Path.{subst}
use compyter.Prelude.{
  ℕ, ◌-◌, ◌*◌, ◌%◌, ◌==◌, ◌≡◌, ◌≢◌, refl, sym, ◌∙◌, none, some, List, [], ◌∷◌, ◌++◌, length,
  replicate, All, inl, inr, Bool-cases, Option-cases, true, false,
}
use compyter.Result.{Result, ok, err, zero_division_error, bind-eq-ok}
use compyter.Assembler.{
  Reals, Item, Param, Stmt, int, real, label, align, zeros, items, define, inst, Assembler, lookup,
  places, without, assign, resolve, extend, pack_word, item_bytes, add_items, add_reference,
  add_param, add_params, add_stmt,
}
use compyter.Assembler.Reference.{bytes_items, bytes_param, bytes_params, bytes_stmt}
use compyter.Assembler.Places.{address}
use compyter.Assembler.Chain.{Table, Extends}

-- The second pass finds bytes for a label.
abbrev pub Known : Table → String → Type 0
Known table l = (b : List ℕ) × (address table l ≡ ok b)

-- The labels that wait are not in the table so far, and are in the whole one.
abbrev pub Waits : Table → Table → Table → Type 0
Waits table small = All (λ entry. (lookup (entry.0) small ≡ none) × Known table (entry.0))

-- An assembler after a step that defines no label.
abbrev pub Accepts : Table → Assembler → Result Assembler → Type 0
Accepts table s r =
    (t : Assembler) × (r ≡ ok t)
    × (t.symtable_label ≡ s.symtable_label)
    × Waits table t.symtable_label t.label_pending

pub Known-pack_word :
    (table : Table) (l : String) (a : ℕ)
    → lookup l table ≡ some a
    → Known table l
    → (b : List ℕ) × (pack_word a ≡ ok b)
Known-pack_word table l a h (b, found) = (b, rw h at found)

append-Waits :
    (table small d : Table) (l : String) (i : ℕ)
    → lookup l small ≡ none
    → Known table l
    → Waits table small d
    → Waits table small (d ++ (l, i) ∷ [])
append-Waits table small [] l i new known h = ((new, known), tt)
append-Waits table small (e ∷ d) l i new known h =
    (h.0, append-Waits table small d l i new known h.1)

add_reference-Accepts :
    (table : Table) (l : String) (s : Assembler)
    → Extends s.symtable_label table
    → Known table l
    → Waits table s.symtable_label s.label_pending
    → Accepts table s (add_reference l s)
unfolding add_reference extend
add_reference-Accepts table l s ext known h = elim (Option-cases (lookup l s.symtable_label)) [
  | inl new ↦ (
    extend (0 ∷ 0 ∷ 0 ∷ 0 ∷ [])
        (record s { label_pending = s.label_pending ++ (l, length s.output) ∷ [] }),
    rw (new, add_reference) refl,
    refl,
    append-Waits table s.symtable_label s.label_pending l (length s.output) new known h,
  )
  | inr (a, at) ↦
      let (b, packed) = Known-pack_word table l a (ext l a at) known in
      (extend b s, rw (at, add_reference, packed) refl, refl, h)
]

module _ {R : Reals} (table : Table) where
  add_param-Accepts :
      (x : Param R) (s : Assembler) (b : List ℕ)
      → bytes_param table x ≡ ok b
      → Extends s.symtable_label table
      → Waits table s.symtable_label s.label_pending
      → Accepts table s (add_param x s)
  unfolding add_param bytes_param extend
  add_param-Accepts (int n) s b e ext h = (extend b s, rw e refl, refl, h)
  add_param-Accepts (real x) s b e ext h = (s, refl, refl, h)
  add_param-Accepts (label l) s b e ext h = add_reference-Accepts table l s ext (b, e) h

  add_params-Accepts :
      (ps : List (Param R)) (s : Assembler) (b : List ℕ)
      → bytes_params table ps ≡ ok b
      → Extends s.symtable_label table
      → Waits table s.symtable_label s.label_pending
      → Accepts table s (add_params ps s)
  unfolding add_params bytes_params
  add_params-Accepts [] s b e ext h = (s, refl, refl, h)
  add_params-Accepts (x ∷ ps) s b e ext h =
      let (b1, e1, rest) = bind-eq-ok (bytes_param table x) _ b e in
      let (b2, e2, _) = bind-eq-ok (bytes_params table ps) _ b rest in
      let (t, added, same, waits) = add_param-Accepts x s b1 e1 ext h in
      let (u, added', same', waits') = add_params-Accepts ps t b2 e2 (rw same ext) waits in
      (u, rw added added', same' ∙ same, waits')

  add_items-Accepts :
      (xs : List (Item R)) (s : Assembler) (b : List ℕ)
      → bytes_items xs ≡ ok b
      → Waits table s.symtable_label s.label_pending
      → Accepts table s (add_items xs s)
  unfolding add_items bytes_items extend
  add_items-Accepts [] s b e h = (s, refl, refl, h)
  add_items-Accepts (x ∷ xs) s b e h =
      let (b1, e1, rest) = bind-eq-ok (item_bytes x) _ b e in
      let (b2, e2, _) = bind-eq-ok (bytes_items xs) _ b rest in
      let (t, added, same, waits) = add_items-Accepts xs (extend b1 s) b2 e2 h in
      (t, rw e1 added, same, waits)

  -- A statement that defines no label.
  pub add_stmt-Accepts :
      (x : Stmt R) (s : Assembler) (b : List ℕ)
      → ((l : String) → x ≢ define l)
      → bytes_stmt table (length s.output) x ≡ ok b
      → Extends s.symtable_label table
      → Waits table s.symtable_label s.label_pending
      → Accepts table s (add_stmt x s)
  unfolding add_stmt bytes_stmt extend
  add_stmt-Accepts (align n) s b plain e ext h = elim (Bool-cases (n == 0)) [
    | inl zero ↦ let e' : err zero_division_error ≡ ok b = rw zero at e in cc
    | inr other ↦ (extend (replicate (n - length s.output % n) 0) s, rw other refl, refl, h)
  ]
  add_stmt-Accepts (zeros n) s b plain e ext h = (extend (replicate n 0) s, refl, refl, h)
  add_stmt-Accepts (items xs) s b plain e ext h = add_items-Accepts xs s b e h
  add_stmt-Accepts (define l) s b plain e ext h = absurd (plain l refl)
  add_stmt-Accepts (inst o ps) s b plain e ext h =
      let (b1, e1, rest) = bind-eq-ok (pack_word o) _ b e in
      let (b2, e2, _) = bind-eq-ok (bytes_params table ps) _ b rest in
      let (t, added, same, waits) = add_params-Accepts ps (extend b1 s) b2 e2 ext h in
      (extend (replicate (4 * (3 - length ps)) 0) t, rw (e1, added) refl, same, waits)

-- The definition of a label succeeds when the labels that wait are in the whole table.
pub resolve-ok :
    (table d : Table) (l : String) (a : ℕ) (xs : List ℕ)
    → lookup l table ≡ some a
    → All (λ entry. Known table (entry.0)) d
    → (ys : List ℕ) × (resolve a (places l d) xs ≡ ok ys)
unfolding resolve
resolve-ok table [] l a xs at h = (xs, refl)
resolve-ok table ((k, i) ∷ d) l a xs at h = elim (Bool-cases (str_eq k l)) [
  | inl same ↦
      let known : Known table l = subst (Known table) ((eq_iff k l).0 same) h.0 in
      let (b, packed) = Known-pack_word table l a at known in
      let (ys, rest) = resolve-ok table d l a (assign i b xs) at h.1 in
      (ys, rw (same, resolve, packed) rest)
  | inr other ↦ let (ys, rest) = resolve-ok table d l a xs at h.1 in (ys, rw other rest)
]

pub without-Waits :
    (table small d : Table) (l : String) (a : ℕ)
    → Waits table small d
    → Waits table ((l, a) ∷ small) (without l d)
without-Waits table small [] l a h = tt
without-Waits table small ((k, i) ∷ d) l a h = elim (Bool-cases (str_eq k l)) [
  | inl same ↦ rw same (without-Waits table small d l a h.1)
  | inr other ↦
      let later : str_eq l k ≡ false = elim (Bool-cases (str_eq l k)) [
        | inl same ↦ let here : str_eq k l ≡ true = (eq_iff k l).1 (sym ((eq_iff l k).0 same)) in cc
        | inr differs ↦ differs
      ] in
      rw other ((rw later h.0.0, h.0.1), without-Waits table small d l a h.1)
]
