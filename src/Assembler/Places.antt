-- ===== src/Assembler/Places.antt =====
-- The places that wait for a label, filled in at once.
use Prim.Native.String.{String}
use text.Mathlib.Text.{◌==◌ as str_eq}
use text.Mathlib.TextEquality.{eq_iff}
use compyter.Prelude.{
  ℕ, ◌+◌, ◌≤◌, ◌≡◌, refl, sym, ap, ◌∙◌, arith, true, some, List, [], ◌∷◌, ◌++◌, length, inl, inr,
  Bool-cases,
}
use compyter.Result.{
  Result, ok, unresolved_labels, or_raise, ◌>>=◌, bind_cong, bind_assoc, bind-eq-ok,
}
use compyter.Assembler.{lookup, places, without, assign, resolve, word_bytes, pack_word}
use compyter.Assembler.Patch.{
  pack_word-eq-ok, length-assign, assign-append, assign_last, assign_comm, IsSpaced, IsSpaced-le,
}

abbrev pub address : List (String × ℕ) → String → Result (List ℕ)
address table l = or_raise (lookup l table) unresolved_labels >>= pack_word

-- All places filled in, with the addresses of a table.
unfoldable pub patch : List (String × ℕ) → List (String × ℕ) → List ℕ → Result (List ℕ)
patch table [] xs = ok xs
patch table ((l, i) ∷ d) xs = do bytes ← address table l; patch table d (assign i bytes xs)

-- The bytes of an address are four.
address-eq-ok :
    (table : List (String × ℕ)) (l : String) (w : List ℕ)
    → address table l ≡ ok w
    → (a : ℕ) × (w ≡ word_bytes a)
address-eq-ok table l w h =
    let (a, _, packed) = bind-eq-ok (or_raise (lookup l table) unresolved_labels) pack_word w h in
    (a, pack_word-eq-ok a w packed)

-- Bytes behind the last place stay.
pub patch-append :
    (table : List (String × ℕ)) (lo : ℕ) (d : List (String × ℕ)) (xs ys : List ℕ)
    → IsSpaced lo (length xs) d
    → patch table d (xs ++ ys) ≡ (patch table d xs >>= λ o. ok (o ++ ys))
unfolding patch
patch-append table lo [] xs ys h = refl
patch-append table lo ((l, i) ∷ d) xs ys h =
    let inside = IsSpaced-le (i + 4) (length xs) d h.1 in
    bind_cong (address table l) _ _ (λ w e.
      let (a, bytes) = address-eq-ok table l w e in
      let same = length-assign i a xs inside in
      rw bytes (
        rw (assign-append i a xs ys inside)
          (patch-append table (i + 4) d (assign i (word_bytes a) xs) ys (rw same h.1))))
    ∙ sym (bind_assoc (address table l) _ _)

-- One place of a label, and the others.
pub resolve_one :
    (a i : ℕ) (is xs ys : List ℕ)
    → resolve a (i ∷ is) xs ≡ ok ys
    → (pack_word a ≡ ok (word_bytes a)) × (resolve a is (assign i (word_bytes a) xs) ≡ ok ys)
unfolding resolve pack_word
resolve_one a i is xs ys h = ground arith

-- An assignment before the places of a label commutes with theirs.
resolve-assign :
    (l : String) (a p n lo : ℕ) (d : List (String × ℕ)) (xs ys : List ℕ)
    → p + 4 ≤ lo
    → IsSpaced lo (length xs) d
    → resolve a (places l d) xs ≡ ok ys
    → resolve a (places l d) (assign p (word_bytes n) xs) ≡ ok (assign p (word_bytes n) ys)
unfolding resolve
resolve-assign l a p n lo [] xs ys g h e = ap (λ r. r >>= λ o. ok (assign p (word_bytes n) o)) e
resolve-assign l a p n lo ((k, i) ∷ d) xs ys g h e =
    let inside = IsSpaced-le (i + 4) (length xs) d h.1 in
    elim (Bool-cases (str_eq k l)) [
      | inl same ↦
          let e' : resolve a (i ∷ places l d) xs ≡ ok ys = rw same at e in
          let (packed, rest) = resolve_one a i (places l d) xs ys e' in
          let ih =
            resolve-assign l a p n (i + 4) d (assign i (word_bytes a) xs) ys (omega (arith, h.0))
              (rw (length-assign i a xs inside) h.1) rest in
          rw (same, packed, ← assign_comm p i n a xs (omega (arith, h.0)) inside) ih
      | inr other ↦
          let e' : resolve a (places l d) xs ≡ ok ys = rw other at e in
          rw other (resolve-assign l a p n (i + 4) d xs ys (omega (arith, h.0)) h.1 e')
    ]

str_eq→eq : (k l : String) → str_eq k l ≡ true → k ≡ l
str_eq→eq k l = (eq_iff k l).0

-- Filling in the places of one label first changes nothing.
pub patch-resolve :
    (table : List (String × ℕ)) (l : String) (a lo : ℕ) (d : List (String × ℕ)) (xs ys : List ℕ)
    → lookup l table ≡ some a
    → IsSpaced lo (length xs) d
    → resolve a (places l d) xs ≡ ok ys
    → patch table (without l d) ys ≡ patch table d xs
unfolding patch resolve
patch-resolve table l a lo [] xs ys at h e = sym e
patch-resolve table l a lo ((k, i) ∷ d) xs ys at h e =
    let inside = IsSpaced-le (i + 4) (length xs) d h.1 in
    elim (Bool-cases (str_eq k l)) [
      | inl same ↦
          let e' : resolve a (i ∷ places l d) xs ≡ ok ys = rw same at e in
          let (packed, rest) = resolve_one a i (places l d) xs ys e' in
          let ih =
            patch-resolve table l a (i + 4) d (assign i (word_bytes a) xs) ys at
              (rw (length-assign i a xs inside) h.1) rest in
          rw (same, str_eq→eq k l same, at, packed) ih
      | inr other ↦
          let e' : resolve a (places l d) xs ≡ ok ys = rw other at e in
          rw other (
            bind_cong (address table k) _ _ (λ w found.
              let (b, bytes) = address-eq-ok table k w found in
              let before = resolve-assign l a i b (i + 4) d xs ys (omega arith) h.1 e' in
              rw bytes (
                patch-resolve table l a (i + 4) d (assign i (word_bytes b) xs)
                  (assign i (word_bytes b) ys) at (rw (length-assign i b xs inside) h.1) before)))
    ]

-- A place behind the last one.
pub patch_last :
    (table : List (String × ℕ)) (l : String) (lo n : ℕ) (d : List (String × ℕ)) (xs : List ℕ)
    → n ≡ length xs
    → IsSpaced lo n d
    → patch table (d ++ (l, n) ∷ []) (xs ++ 0 ∷ 0 ∷ 0 ∷ 0 ∷ [])
      ≡ (patch table d xs >>= λ o. address table l >>= λ bytes. ok (o ++ bytes))
unfolding patch
patch_last table l lo n [] xs e h = bind_cong (address table l) _ _ (λ w found.
    let (b, bytes) = address-eq-ok table l w found in rw bytes (ap ok (assign_last n b xs (sym e))))
patch_last table l lo n ((k, i) ∷ d) xs e h =
    let inside : i + 4 ≤ length xs = omega (arith, e, IsSpaced-le (i + 4) n d h.1) in
    bind_cong (address table k) _ _ (λ w found.
      let (b, bytes) = address-eq-ok table k w found in
      rw (bytes, assign-append i b xs (0 ∷ 0 ∷ 0 ∷ 0 ∷ []) inside)
        (patch_last table l (i + 4) n d (assign i (word_bytes b) xs)
          (e ∙ sym (length-assign i b xs inside)) h.1))
    ∙ sym (bind_assoc (address table k) _ _)
