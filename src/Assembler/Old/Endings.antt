-- ===== src/Assembler/Old/Endings.antt =====
-- The lines of a printed text: how old/assembler.py finds them again.
use Prim.Native.Char.{Char, code}
use Prim.Native.String.{String, [] as empty, ◌∷◌ as ◌▹◌}
use compyter.Prelude.{◌≡◌, refl, arith, Bool, true, false, ◌&&◌, not, List, [], ◌∷◌, All, ◌==◌}
use compyter.Assembler.Old.Text.{is_space, newlines, split_lines}
use compyter.Assembler.Old.Printer.{append, join_rest, join, is_plain, AllChars, IsWord}
use compyter.Assembler.Old.Numbers.{AllChars-append}
use compyter.Assembler.Old.Blanks.{IsWord-AllChars}

-- No end of a line.
abbrev pub in_line : Char → Bool
in_line c = not (code c == 10) && not (code c == 13)

abbrev pub not_return : Char → Bool
not_return c = not (code c == 13)

plain-in_line : (c : Char) → is_plain c ≡ true → in_line c ≡ true
unfolding is_plain is_space
plain-in_line c h = ground arith

in_line-not_return : (c : Char) → in_line c ≡ true → not_return c ≡ true
in_line-not_return c h = ground arith

AllChars-map :
    (p q : Char → Bool) (s : String)
    → ((c : Char) → p c ≡ true → q c ≡ true)
    → AllChars p s
    → AllChars q s
AllChars-map p q empty f h = h
AllChars-map p q (c ▹ s) f (first, rest) = (f c first, AllChars-map p q s f rest)

in_line-word : (w : String) → IsWord w → AllChars in_line w
in_line-word w h = AllChars-map is_plain in_line w plain-in_line (IsWord-AllChars w h)

in_line-join_rest : (ws : List String) → All IsWord ws → AllChars in_line (join_rest ws)
in_line-join_rest [] h = h
in_line-join_rest (w ∷ ws) (first, rest) = (
  refl,
  AllChars-append in_line w (join_rest ws) (in_line-word w first) (in_line-join_rest ws rest),
)

in_line-join : (ws : List String) → All IsWord ws → AllChars in_line (join ws)
in_line-join [] h = h
in_line-join (w ∷ ws) (first, rest) =
    AllChars-append in_line w (join_rest ws) (in_line-word w first) (in_line-join_rest ws rest)

-- A printed line has no `\r` in it.
pub not_return-join :
    (ws : List String) → All IsWord ws → AllChars not_return (append (join ws) "\n")
not_return-join ws h =
    AllChars-append not_return (join ws) "\n"
      (AllChars-map in_line not_return (join ws) in_line-not_return (in_line-join ws h)) (refl, tt)

pub newlines-same : (s : String) → AllChars not_return s → newlines false s ≡ s
unfolding newlines
newlines-same empty h = refl
newlines-same (c ▹ s) (first, rest) =
    let other : code c == 13 ≡ false = ground arith in rw (other, newlines-same s rest) refl

split_lines-line :
    (l t : String)
    → AllChars in_line l
    → split_lines (append (append l "\n") t) ≡ append l "\n" ∷ split_lines t
unfolding split_lines
split_lines-line empty t h = refl
split_lines-line (c ▹ l) t (first, rest) =
    let other : code c == 10 ≡ false = ground arith in rw (other, split_lines-line l t rest) refl

-- The first line of a printed text.
pub split_lines-join :
    (ws : List String) (t : String)
    → All IsWord ws
    → split_lines (append (append (join ws) "\n") t) ≡ append (join ws) "\n" ∷ split_lines t
split_lines-join ws t h = split_lines-line (join ws) t (in_line-join ws h)
