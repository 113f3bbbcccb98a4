-- ===== src/Assembler/Patch.antt =====
-- The places that wait for a label, filled in at once: what the assignments of assemble.py to the
-- bytes already written come to.
use Prim.Native.String.{String}
use text.Mathlib.Text.{◌==◌ as str_eq}
use compyter.Prelude.{
  ℕ, zero, suc, ◌+◌, ◌≤◌, ◌≡◌, refl, ap, arith, List, [], ◌∷◌, ◌++◌, length, inl, inr, Bool-cases,
}
use compyter.Result.{ok}
use compyter.Assembler.{without, assign, word_bytes, pack_word}

pub pack_word-eq-ok : (n : ℕ) (w : List ℕ) → pack_word n ≡ ok w → w ≡ word_bytes n
unfolding pack_word
pack_word-eq-ok n w h = ground arith

-- What an assignment of four bytes does.
pub length-assign :
    (i n : ℕ) (xs : List ℕ) → i + 4 ≤ length xs → length (assign i (word_bytes n) xs) ≡ length xs
length-assign zero n (a ∷ b ∷ c ∷ d ∷ xs) h = refl
length-assign zero n (a ∷ b ∷ c ∷ []) h = absurd (omega arith)
length-assign zero n (a ∷ b ∷ []) h = absurd (omega arith)
length-assign zero n (a ∷ []) h = absurd (omega arith)
length-assign zero n [] h = absurd (omega arith)
length-assign (suc i) n [] h = absurd (omega arith)
length-assign (suc i) n (x ∷ xs) h = ap suc (length-assign i n xs (omega arith))

pub assign-append :
    (i n : ℕ) (xs ys : List ℕ)
    → i + 4 ≤ length xs
    → assign i (word_bytes n) (xs ++ ys) ≡ assign i (word_bytes n) xs ++ ys
assign-append zero n (a ∷ b ∷ c ∷ d ∷ xs) ys h = refl
assign-append zero n (a ∷ b ∷ c ∷ []) ys h = absurd (omega arith)
assign-append zero n (a ∷ b ∷ []) ys h = absurd (omega arith)
assign-append zero n (a ∷ []) ys h = absurd (omega arith)
assign-append zero n [] ys h = absurd (omega arith)
assign-append (suc i) n [] ys h = absurd (omega arith)
assign-append (suc i) n (x ∷ xs) ys h = ap (λ zs. x ∷ zs) (assign-append i n xs ys (omega arith))

pub assign_last :
    (i n : ℕ) (xs : List ℕ)
    → length xs ≡ i
    → assign i (word_bytes n) (xs ++ 0 ∷ 0 ∷ 0 ∷ 0 ∷ []) ≡ xs ++ word_bytes n
assign_last zero n [] h = refl
assign_last zero n (x ∷ xs) h = absurd (omega arith)
assign_last (suc i) n [] h = absurd (omega arith)
assign_last (suc i) n (x ∷ xs) h = ap (λ zs. x ∷ zs) (assign_last i n xs (omega arith))

pub assign_comm :
    (i j m n : ℕ) (xs : List ℕ)
    → i + 4 ≤ j
    → j + 4 ≤ length xs
    → assign i (word_bytes m) (assign j (word_bytes n) xs)
      ≡ assign j (word_bytes n) (assign i (word_bytes m) xs)
assign_comm zero (suc (suc (suc (suc j)))) m n (a ∷ b ∷ c ∷ d ∷ xs) g h = refl
assign_comm zero (suc (suc (suc (suc j)))) m n (a ∷ b ∷ c ∷ []) g h = absurd (omega arith)
assign_comm zero (suc (suc (suc (suc j)))) m n (a ∷ b ∷ []) g h = absurd (omega arith)
assign_comm zero (suc (suc (suc (suc j)))) m n (a ∷ []) g h = absurd (omega arith)
assign_comm zero (suc (suc (suc (suc j)))) m n [] g h = absurd (omega arith)
assign_comm zero zero m n xs g h = absurd (omega arith)
assign_comm zero (suc zero) m n xs g h = absurd (omega arith)
assign_comm zero (suc (suc zero)) m n xs g h = absurd (omega arith)
assign_comm zero (suc (suc (suc zero))) m n xs g h = absurd (omega arith)
assign_comm (suc i) zero m n xs g h = absurd (omega arith)
assign_comm (suc i) (suc j) m n [] g h = absurd (omega arith)
assign_comm (suc i) (suc j) m n (x ∷ xs) g h =
    ap (λ zs. x ∷ zs) (assign_comm i j m n xs (omega arith) (omega arith))

-- The places lie in order between two addresses, and do not overlap.
abbrev pub IsSpaced : ℕ → ℕ → List (String × ℕ) → Type 0
IsSpaced lo hi [] = lo ≤ hi
IsSpaced lo hi ((l, i) ∷ d) = (lo ≤ i) × IsSpaced (i + 4) hi d

pub IsSpaced-le : (lo hi : ℕ) (d : List (String × ℕ)) → IsSpaced lo hi d → lo ≤ hi
IsSpaced-le lo hi [] h = h
IsSpaced-le lo hi ((l, i) ∷ d) h = omega (arith, IsSpaced-le (i + 4) hi d h.1)

pub IsSpaced-weaken :
    (lo lo' hi hi' : ℕ) (d : List (String × ℕ))
    → lo' ≤ lo
    → hi ≤ hi'
    → IsSpaced lo hi d
    → IsSpaced lo' hi' d
IsSpaced-weaken lo lo' hi hi' [] g k h = omega arith
IsSpaced-weaken lo lo' hi hi' ((l, i) ∷ d) g k h =
    (omega arith, IsSpaced-weaken (i + 4) (i + 4) hi hi' d (omega arith) k h.1)

pub without-IsSpaced :
    (l : String) (lo hi : ℕ) (d : List (String × ℕ))
    → IsSpaced lo hi d
    → IsSpaced lo hi (without l d)
without-IsSpaced l lo hi [] h = h
without-IsSpaced l lo hi ((k, i) ∷ d) h =
    let rest = without-IsSpaced l (i + 4) hi d h.1 in
    elim (Bool-cases (str_eq k l)) [
      | inl e ↦
          rw e (IsSpaced-weaken (i + 4) lo hi hi (without l d) (omega arith) (omega arith) rest)
      | inr e ↦ rw e (h.0, rest)
    ]

pub append-IsSpaced :
    (l : String) (lo hi : ℕ) (d : List (String × ℕ))
    → IsSpaced lo hi d
    → IsSpaced lo (hi + 4) (d ++ (l, hi) ∷ [])
append-IsSpaced l lo hi [] h = (h, omega arith)
append-IsSpaced l lo hi ((k, i) ∷ d) h = (h.0, append-IsSpaced l (i + 4) hi d h.1)
