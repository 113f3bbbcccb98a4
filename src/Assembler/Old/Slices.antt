-- ===== src/Assembler/Old/Slices.antt =====
-- The places that wait for a label, in old/assembler.py and in assemble.py.
use Prim.Native.String.{String}
use text.Mathlib.Text.{◌==◌ as str_eq}
use mathlib.Core.List.{map}
use mathlib.Core.Option
use compyter.Prelude.{
  ℕ, zero, suc, ◌+◌, ◌≤◌, ◌≡◌, refl, ap, arith, List, [], ◌∷◌, ◌++◌, length, take, drop, ltb, false,
  inl, inr, Bool-cases,
}
use compyter.Prelude.Int.{ℤ, pos}
use compyter.Result.{ok}
use compyter.Assembler
use compyter.Assembler.{lookup, places, without, assign, word_bytes, pack_word}
use compyter.Assembler.Patch.{IsSpaced, IsSpaced-le, length-assign}
use compyter.Assembler.Places.{resolve_one}
use compyter.Assembler.Old.{to_bytes, replace, resolve}

abbrev pub entry : String × ℕ → String × ℤ
entry (l, a) = (l, pos a)

pub lookup-map :
    (l : String) (d : List (String × ℕ))
    → lookup l (map entry d) ≡ Option.map (λ a. pos a) (lookup l d)
lookup-map l [] = refl
lookup-map l ((k, a) ∷ d) = elim (Bool-cases (str_eq k l)) [
  | inl same ↦ rw same refl
  | inr other ↦ rw other (lookup-map l d)
]

pub without-map :
    (l : String) (d : List (String × ℕ)) → without l (map entry d) ≡ map entry (without l d)
without-map l [] = refl
without-map l ((k, a) ∷ d) = elim (Bool-cases (str_eq k l)) [
  | inl same ↦ rw same (without-map l d)
  | inr other ↦ rw other (ap (λ e. (k, pos a) ∷ e) (without-map l d))
]

pub append-map :
    (d : List (String × ℕ)) (l : String) (i : ℕ)
    → map entry d ++ (l, pos i) ∷ [] ≡ map entry (d ++ (l, i) ∷ [])
append-map [] l i = refl
append-map (e ∷ d) l i = ap (λ r. entry e ∷ r) (append-map d l i)

-- A slice of four bytes inside the sequence.
slice-assign :
    (i j : ℕ) (bytes xs : List ℕ)
    → j ≡ i + 4
    → j ≤ length xs
    → take i xs ++ (bytes ++ drop j xs) ≡ assign i bytes xs
slice-assign zero j bytes xs e h = rw e refl
slice-assign (suc i) zero bytes xs e h = absurd (omega arith)
slice-assign (suc i) (suc j) bytes [] e h = absurd (omega arith)
slice-assign (suc i) (suc j) bytes (x ∷ xs) e h =
    ap (λ r. x ∷ r) (slice-assign i j bytes xs (omega arith) (omega arith))

replace-assign :
    (i : ℕ) (bytes xs : List ℕ) → i + 4 ≤ length xs → replace (pos i) bytes xs ≡ assign i bytes xs
replace-assign i bytes xs h =
    let lo : ltb (length xs) i ≡ false = ground arith in
    let hi : ltb (length xs) (i + 4) ≡ false = ground arith in
    let over : ltb (i + 4) i ≡ false = ground arith in
    rw (lo, hi, over) (slice-assign i (i + 4) bytes xs refl h)

pub to_bytes-pack_word : (n : ℕ) (b : List ℕ) → pack_word n ≡ ok b → to_bytes (pos n) ≡ ok b
unfolding pack_word to_bytes
to_bytes-pack_word n b h = ground arith

-- The two loops over the places fill in the same bytes.
pub resolve-map :
    (l : String) (a lo : ℕ) (d : List (String × ℕ)) (xs ys : List ℕ)
    → IsSpaced lo (length xs) d
    → Assembler.resolve a (places l d) xs ≡ ok ys
    → resolve (pos a) (places l (map entry d)) xs ≡ ok ys
unfolding Assembler.resolve resolve
resolve-map l a lo [] xs ys h e = e
resolve-map l a lo ((k, i) ∷ d) xs ys h e =
    let inside = IsSpaced-le (i + 4) (length xs) d h.1 in
    elim (Bool-cases (str_eq k l)) [
      | inl same ↦
          let e' : Assembler.resolve a (i ∷ places l d) xs ≡ ok ys = rw same at e in
          let (packed, rest) = resolve_one a i (places l d) xs ys e' in
          rw
            (
              same,
              resolve,
              to_bytes-pack_word a (word_bytes a) packed,
              replace-assign i (word_bytes a) xs inside,
            )
            (resolve-map l a (i + 4) d (assign i (word_bytes a) xs) ys
              (rw (length-assign i a xs inside) h.1) rest)
      | inr other ↦ rw other (resolve-map l a (i + 4) d xs ys h.1 (rw other at e))
    ]
