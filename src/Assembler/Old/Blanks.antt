-- ===== src/Assembler/Old/Blanks.antt =====
-- Words with blanks between them: what `strip`, `split` and `readlines` of old/assembler.py make of them.
use Prim.Native.Char.{Char, code}
use Prim.Native.String.{String, [] as empty, ◌∷◌ as ◌▹◌}
use compyter.Prelude.{
  ◌≡◌, refl, sym, ap, ◌∙◌, Bool, true, false, ◌&&◌, not, List, [], ◌∷◌, All, ◌==◌, Bool-cases, inl,
  inr,
}
use compyter.Assembler.Old.Text.{
  is_space, uncomment, lstrip, keep_blank, rstrip, strip, add_word, pieces, split,
}
use compyter.Assembler.Old.Printer.{append, join_rest, join, is_plain, AllChars, IsWord}

pub append-empty : (s : String) → append s empty ≡ s
append-empty empty = refl
append-empty (c ▹ s) = ap (λ t. c ▹ t) (append-empty s)

pub append_assoc : (s t u : String) → append (append s t) u ≡ append s (append t u)
append_assoc empty t u = refl
append_assoc (c ▹ s) t u = ap (λ v. c ▹ v) (append_assoc s t u)

plain-not_space : (c : Char) → is_plain c ≡ true → is_space c ≡ false
unfolding is_plain
plain-not_space c h = elim (Bool-cases (is_space c)) [
  | inl blank ↦ let no : false ≡ true = rw blank at h in cc
  | inr other ↦ other
]

and-false : (b : Bool) → b && false ≡ true → ⊥
and-false true h = cc
and-false false h = cc

plain-not_hash : (c : Char) → is_plain c ≡ true → code c == 35 ≡ false
unfolding is_plain
plain-not_hash c h = elim (Bool-cases (code c == 35)) [
  | inl hash ↦
      let no : not (is_space c) && false ≡ true = rw hash at h in
      absurd (and-false (not (is_space c)) no)
  | inr other ↦ other
]

uncomment-word :
    (w t : String) → AllChars is_plain w → uncomment (append w t) ≡ append w (uncomment t)
unfolding uncomment
uncomment-word empty t h = refl
uncomment-word (c ▹ w) t (first, rest) = rw (plain-not_hash c first, uncomment-word w t rest) refl

pieces-word :
    (w t : String)
    → AllChars is_plain w
    → pieces (append w t) ≡ (append w ((pieces t).0), (pieces t).1)
unfolding pieces
pieces-word empty t h = refl
pieces-word (c ▹ w) t (first, rest) = rw (plain-not_space c first, pieces-word w t rest) refl

pub IsWord-AllChars : (w : String) → IsWord w → AllChars is_plain w
IsWord-AllChars empty h = elim h [ ]
IsWord-AllChars (c ▹ w) h = h

add_word-word : (w : String) (ws : List String) → IsWord w → add_word w ws ≡ w ∷ ws
add_word-word empty ws h = elim h [ ]
add_word-word (c ▹ w) ws h = refl

-- The words of a text that goes on with a word.
pieces-words :
    (w : String) (ws : List String)
    → IsWord w
    → pieces (join_rest ws) ≡ (empty, ws)
    → pieces (append w (join_rest ws)) ≡ (w, ws)
pieces-words w ws h rest =
    rw (pieces-word w (join_rest ws) (IsWord-AllChars w h), rest, append-empty w) refl

pieces-join_rest : (ws : List String) → All IsWord ws → pieces (join_rest ws) ≡ (empty, ws)
unfolding pieces is_space
pieces-join_rest [] h = refl
pieces-join_rest (w ∷ ws) (first, rest) =
    rw (pieces-words w ws first (pieces-join_rest ws rest), add_word-word w ws first) refl

-- `" ".join(words).split()`
pub split-word :
    (w : String) (ws : List String)
    → IsWord w
    → All IsWord ws
    → split (append w (join_rest ws)) ≡ w ∷ ws
unfolding split
split-word w ws h hs = rw (pieces-words w ws h (pieces-join_rest ws hs), add_word-word w ws h) refl

keep_blank-not_space : (c : Char) (s : String) → is_space c ≡ false → keep_blank c s ≡ c ▹ s
keep_blank-not_space c empty h = rw h refl
keep_blank-not_space c (d ▹ s) h = refl

rstrip-word : (w t : String) → AllChars is_plain w → rstrip (append w t) ≡ append w (rstrip t)
unfolding rstrip
rstrip-word empty t h = refl
rstrip-word (c ▹ w) t (first, rest) =
    rw (rstrip-word w t rest)
      (keep_blank-not_space c (append w (rstrip t)) (plain-not_space c first))

-- The blank before a word stays.
keep_blank-word : (c : Char) (w t : String) → IsWord w → keep_blank c (append w t) ≡ c ▹ append w t
keep_blank-word c empty t h = elim h [ ]
keep_blank-word c (d ▹ w) t h = refl

rstrip-join_rest :
    (ws : List String) → All IsWord ws → rstrip (append (join_rest ws) "\n") ≡ join_rest ws
unfolding rstrip is_space
rstrip-join_rest [] h = refl
rstrip-join_rest (w ∷ ws) (first, rest) =
    rw
      (
        append_assoc w (join_rest ws) "\n",
        rstrip-word w (append (join_rest ws) "\n") (IsWord-AllChars w first),
        rstrip-join_rest ws rest,
      )
      (keep_blank-word " " w (join_rest ws) first)

uncomment-join_rest :
    (ws : List String)
    → All IsWord ws
    → uncomment (append (join_rest ws) "\n") ≡ append (join_rest ws) "\n"
unfolding uncomment
uncomment-join_rest [] h = refl
uncomment-join_rest (w ∷ ws) (first, rest) =
    ap (λ t. " " ▹ t)
      (ap uncomment (append_assoc w (join_rest ws) "\n")
        ∙ uncomment-word w (append (join_rest ws) "\n") (IsWord-AllChars w first)
        ∙ ap (append w) (uncomment-join_rest ws rest)
        ∙ sym (append_assoc w (join_rest ws) "\n"))

lstrip-word : (w t : String) → IsWord w → lstrip (append w t) ≡ append w t
unfolding lstrip
lstrip-word empty t h = elim h [ ]
lstrip-word (c ▹ w) t (first, rest) = rw (plain-not_space c first) refl

strip-end : strip (uncomment "\n") ≡ empty
unfolding strip uncomment is_space
strip-end = refl

-- A line of words is what is left of it without its end.
pub strip-join :
    (ws : List String) → All IsWord ws → strip (uncomment (append (join ws) "\n")) ≡ join ws
unfolding strip
strip-join [] h = strip-end
strip-join (w ∷ ws) (first, rest) =
    let t = append (join_rest ws) "\n" in
    let plain = IsWord-AllChars w first in
    ap strip (
      ap uncomment (append_assoc w (join_rest ws) "\n")
      ∙ uncomment-word w t plain
      ∙ ap (append w) (uncomment-join_rest ws rest))
    ∙ ap rstrip (lstrip-word w t first)
    ∙ rstrip-word w t plain
    ∙ ap (append w) (rstrip-join_rest ws rest)
