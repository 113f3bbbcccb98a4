-- ===== src/Assembler/Labels.antt =====
-- The labels that the one pass of assemble.py finds are those of the first pass of Reference.
use Prim.Native.String.{String}
use mathlib.Core.Path.{subst}
use text.Mathlib.Text.{◌==◌ as str_eq}
use text.Mathlib.TextEquality.{eq_iff}
use compyter.Prelude.{
  ℕ, ◌+◌, ◌≡◌, ◌≢◌, refl, sym, ap, ◌∙◌, none, some, List, [], ◌∷◌, length, inl, inr, Bool-cases,
  Option-cases,
}
use compyter.Result.{ok, err, duplicate_label, ◌>>=◌, bind-eq-ok, ok_injective}
use compyter.Assembler.{
  Reals, Stmt, align, zeros, items, define, inst, Assembler, lookup, places, without, assign,
  resolve, add_label, add_stmt, do_parse, word_bytes,
}
use compyter.Assembler.Reference.{size, addresses}
use compyter.Assembler.Patch.{IsSpaced, IsSpaced-le, length-assign, without-IsSpaced}
use compyter.Assembler.Places.{resolve_one}
use compyter.Assembler.Chain.{Table, Extends}
use compyter.Assembler.Pieces.{add_stmt-Chain}

length-resolve :
    (l : String) (a lo : ℕ) (d : Table) (xs ys : List ℕ)
    → IsSpaced lo (length xs) d
    → resolve a (places l d) xs ≡ ok ys
    → length ys ≡ length xs
unfolding resolve
length-resolve l a lo [] xs ys h e = ap length (sym (ok_injective e))
length-resolve l a lo ((k, i) ∷ d) xs ys h e =
    let inside = IsSpaced-le (i + 4) (length xs) d h.1 in
    elim (Bool-cases (str_eq k l)) [
      | inl same ↦
          let e' : resolve a (i ∷ places l d) xs ≡ ok ys = rw same at e in
          let same_length = length-assign i a xs inside in
          length-resolve l a (i + 4) d (assign i (word_bytes a) xs) ys (rw same_length h.1)
            (resolve_one a i (places l d) xs ys e').1
          ∙ same_length
      | inr other ↦ length-resolve l a (i + 4) d xs ys h.1 (rw other at e)
    ]

-- What the definition of a label does.
pub record Defined (l : String) (s t : Assembler) : Type 0 where
  pub unknown : lookup l s.symtable_label ≡ none
  pub resolved : resolve (length s.output) (places l s.label_pending) s.output ≡ ok t.output
  pub labels : t.symtable_label ≡ (l, length s.output) ∷ s.symtable_label
  pub pending : t.label_pending ≡ without l s.label_pending

pub add_label-Defined : (l : String) (s t : Assembler) → add_label l s ≡ ok t → Defined l s t
unfolding add_label
add_label-Defined l s t e = elim (Option-cases (lookup l s.symtable_label)) [
  | inl new ↦
      let a = length s.output in
      let build = λ (o : List ℕ). ok (record s {
        output = o;
        symtable_label = (l, a) ∷ s.symtable_label;
        label_pending = without l s.label_pending;
      }) in
      let e' : (resolve a (places l s.label_pending) s.output >>= build) ≡ ok t =
        rw (new, add_label) at e in
      let (o, found, made) =
        bind-eq-ok (resolve a (places l s.label_pending) s.output) build t e' in
      rw (← ok_injective made)
        (record { unknown = new; resolved = found; labels = refl; pending = refl })
  | inr (a, old) ↦ let e' : err (duplicate_label l) ≡ ok t = rw (old, add_label) at e in cc
]

pub Defined-IsSpaced :
    (l : String) (s t : Assembler)
    → IsSpaced 0 (length s.output) s.label_pending
    → Defined l s t
    → (length t.output ≡ length s.output) × IsSpaced 0 (length t.output) t.label_pending
Defined-IsSpaced l s t h d =
    let same =
      length-resolve l (length s.output) 0 s.label_pending s.output t.output h d.resolved in
    (same, rw (same, d.pending) (without-IsSpaced l 0 (length s.output) s.label_pending h))

Extends-add :
    (l : String) (a : ℕ) (small table : Table)
    → lookup l small ≡ none
    → Extends ((l, a) ∷ small) table
    → Extends small table
Extends-add l a small table new ext k b found = elim (Bool-cases (str_eq l k)) [
  | inl same ↦
      let here : lookup l small ≡ some b =
        subst (λ m. lookup m small ≡ some b) (sym ((eq_iff l k).0 same)) found in
      cc
  | inr other ↦ ext k b (rw other found)
]

module _ {R : Reals} where
  -- A definition that the first pass takes is the first of its label.
  pub addresses-define :
      (l : String) (xs : List (Stmt R)) (at : ℕ) (small table : Table)
      → addresses at (define l ∷ xs) small ≡ ok table
      → (lookup l small ≡ none) × (addresses at xs ((l, at) ∷ small) ≡ ok table)
  unfolding addresses
  addresses-define l xs at small table h = elim (Option-cases (lookup l small)) [
    | inl new ↦ (new, rw (new, addresses) at h)
    | inr (a, old) ↦ let h' : err (duplicate_label l) ≡ ok table = rw (old, addresses) at h in cc
  ]

  -- The first pass never forgets a label.
  pub addresses-Extends :
      (xs : List (Stmt R)) (at : ℕ) (small table : Table)
      → addresses at xs small ≡ ok table
      → Extends small table
  unfolding addresses
  addresses-Extends [] at small table h = rw (ok_injective h) (λ l a found. found)
  addresses-Extends (align n ∷ xs) at small table h = addresses-Extends xs _ small table h
  addresses-Extends (zeros n ∷ xs) at small table h = addresses-Extends xs _ small table h
  addresses-Extends (items ys ∷ xs) at small table h = addresses-Extends xs _ small table h
  addresses-Extends (inst o ps ∷ xs) at small table h = addresses-Extends xs _ small table h
  addresses-Extends (define l ∷ xs) at small table h =
      let (new, rest) = addresses-define l xs at small table h in
      Extends-add l at small table new (addresses-Extends xs at ((l, at) ∷ small) table rest)

  abbrev pub IsPlain : Stmt R → Type 0
  IsPlain x = (l : String) → x ≢ define l

  abbrev pub Labels : Assembler → List (Stmt R) → Assembler → Type 0
  Labels s xs t = addresses (length s.output) xs s.symtable_label ≡ ok t.symtable_label

  -- A statement that defines no label leaves the rest of the first pass.
  Labels-plain :
      (x : Stmt R) (xs : List (Stmt R)) (s t : Assembler)
      → IsPlain x
      → IsSpaced 0 (length s.output) s.label_pending
      → do_parse (x ∷ xs) s ≡ ok t
      → ((u : Assembler)
          → IsSpaced 0 (length u.output) u.label_pending
          → do_parse xs u ≡ ok t
          → Labels u xs t)
      → addresses (length s.output + size (length s.output) x) xs s.symtable_label
        ≡ ok t.symtable_label
  unfolding do_parse
  Labels-plain x xs s t plain h e rest =
      let (u, found, after) = bind-eq-ok (add_stmt x s) (do_parse xs) t e in
      let c = add_stmt-Chain s.symtable_label x s u plain (λ l a known. known) h found in
      rw (← c.longer, ← c.same_labels) (rest u c.spaced after)

  -- The first pass finds the labels of the one pass.
  pub do_parse-Labels :
      (xs : List (Stmt R)) (s t : Assembler)
      → IsSpaced 0 (length s.output) s.label_pending
      → do_parse xs s ≡ ok t
      → Labels s xs t
  unfolding do_parse addresses add_stmt
  do_parse-Labels [] s t h e = ap (λ r. r >>= λ u. ok u.symtable_label) e
  do_parse-Labels (align n ∷ xs) s t h e =
      Labels-plain (align n) xs s t (λ l c. cc) h e (λ u. do_parse-Labels xs u t)
  do_parse-Labels (zeros n ∷ xs) s t h e =
      Labels-plain (zeros n) xs s t (λ l c. cc) h e (λ u. do_parse-Labels xs u t)
  do_parse-Labels (items ys ∷ xs) s t h e =
      Labels-plain (items ys) xs s t (λ l c. cc) h e (λ u. do_parse-Labels xs u t)
  do_parse-Labels (inst o ps ∷ xs) s t h e =
      Labels-plain (inst o ps) xs s t (λ l c. cc) h e (λ u. do_parse-Labels xs u t)
  do_parse-Labels (define l ∷ xs) s t h e =
      let (u, found, after) = bind-eq-ok (add_label l s) (do_parse xs) t e in
      let d = add_label-Defined l s u found in
      let (same, spaced) = Defined-IsSpaced l s u h d in
      let rest = do_parse-Labels xs u t spaced after in
      rw (d.unknown, addresses, ← d.labels, ← same) rest

  pub do_parse-Extends :
      (xs : List (Stmt R)) (s t : Assembler)
      → IsSpaced 0 (length s.output) s.label_pending
      → do_parse xs s ≡ ok t
      → Extends s.symtable_label t.symtable_label
  do_parse-Extends xs s t h e =
      addresses-Extends xs (length s.output) s.symtable_label t.symtable_label
        (do_parse-Labels xs s t h e)
