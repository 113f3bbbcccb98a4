-- ===== src/Assembler/Errors.antt =====
-- The programs that assemble.py refuses.
use Prim.Native.String.{String}
use text.Mathlib.Text.{◌==◌ as str_eq}
use text.Mathlib.TextEquality.{eq_iff}
use compyter.Prelude.{ℕ, ◌≡◌, ◌≢◌, refl, none, some, List, [], ◌∷◌, ◌++◌, inl, inr, Bool-cases}
use compyter.Result.{ok, bind-eq-ok}
use compyter.Assembler.{Reals, Stmt, align, zeros, items, define, inst, lookup, main}
use compyter.Assembler.Reference.{addresses, bytes_program, two_pass}
use compyter.Assembler.Chain.{Table}
use compyter.Assembler.Labels.{addresses-define}
use compyter.Assembler.TwoPass.{two_pass-main}

lookup_tail :
    (l k : String) (a : ℕ) (small : Table)
    → lookup l ((k, a) ∷ small) ≡ none
    → lookup l small ≡ none
lookup_tail l k a small h = elim (Bool-cases (str_eq k l)) [
  | inl same ↦ let clash : some a ≡ none = rw same at h in cc
  | inr other ↦ rw other at h
]

module _ {R : Reals} where
  -- A label that is defined later is not in the table.
  addresses_new :
      (xs ys : List (Stmt R)) (l : String) (at : ℕ) (small table : Table)
      → addresses at (xs ++ define l ∷ ys) small ≡ ok table
      → lookup l small ≡ none
  unfolding addresses
  addresses_new [] ys l at small table h = (addresses-define l ys at small table h).0
  addresses_new (align n ∷ xs) ys l at small table h = addresses_new xs ys l _ small table h
  addresses_new (zeros n ∷ xs) ys l at small table h = addresses_new xs ys l _ small table h
  addresses_new (items zs ∷ xs) ys l at small table h = addresses_new xs ys l _ small table h
  addresses_new (inst o ps ∷ xs) ys l at small table h = addresses_new xs ys l _ small table h
  addresses_new (define k ∷ xs) ys l at small table h =
      let (_, rest) = addresses-define k (xs ++ define l ∷ ys) at small table h in
      lookup_tail l k at small (addresses_new xs ys l at ((k, at) ∷ small) table rest)

  addresses_twice :
      (xs ys zs : List (Stmt R)) (l : String) (at : ℕ) (small table : Table)
      → addresses at (xs ++ define l ∷ (ys ++ define l ∷ zs)) small ≢ ok table
  unfolding addresses
  addresses_twice [] ys zs l at small table h =
      let (_, rest) = addresses-define l (ys ++ define l ∷ zs) at small table h in
      let new = addresses_new ys zs l at ((l, at) ∷ small) table rest in
      let clash : some at ≡ none = rw ((eq_iff l l).1 refl) at new in cc
  addresses_twice (align n ∷ xs) ys zs l at small table h =
      addresses_twice xs ys zs l _ small table h
  addresses_twice (zeros n ∷ xs) ys zs l at small table h =
      addresses_twice xs ys zs l _ small table h
  addresses_twice (items ws ∷ xs) ys zs l at small table h =
      addresses_twice xs ys zs l _ small table h
  addresses_twice (inst o ps ∷ xs) ys zs l at small table h =
      addresses_twice xs ys zs l _ small table h
  addresses_twice (define k ∷ xs) ys zs l at small table h =
      let (_, rest) =
        addresses-define k (xs ++ define l ∷ (ys ++ define l ∷ zs)) at small table h in
      addresses_twice xs ys zs l at ((k, at) ∷ small) table rest

  -- A program that defines a label twice is refused, wherever the definitions stand: there is no image.
  main-twice :
      (xs ys zs : List (Stmt R)) (l : String) (image : List ℕ)
      → main (xs ++ define l ∷ (ys ++ define l ∷ zs)) ≢ ok image
  unfolding two_pass
  main-twice xs ys zs l image h =
      let program = xs ++ define l ∷ (ys ++ define l ∷ zs) in
      let (table, found, _) =
        bind-eq-ok (addresses 0 program []) (λ table. bytes_program table 0 program) image
          (two_pass-main program image h) in
      addresses_twice xs ys zs l 0 [] table found
