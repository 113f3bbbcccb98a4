-- ===== src/Assembler/Old/Text.antt =====
-- What old/assembler.py uses of Python's `str`: lines, blanks, words and numbers in base 16. A digit
-- outside ASCII, which `int` would take as well, is none here.
use Prim.Native.Char.{Char, code}
use Prim.Native.String.{String, [] as empty, ◌∷◌ as ◌▹◌}
use compyter.Prelude.{
  ℕ, ◌+◌, ◌-◌, ◌*◌, Bool, true, false, Option, none, some, List, [], ◌∷◌, ◌&&◌, ◌||◌, leb, ◌==◌,
  if◌then◌else◌,
}
use compyter.Prelude.Int.{ℤ, pos, sub_ℕ}
use compyter.Result.{Result, ok, err, value_error}

-- `str.isspace`, which is what `strip` and `split` cut at.
unfoldable pub is_space : Char → Bool
is_space c =
    let n = code c in
    (leb 9 n && leb n 13)
    || (leb 28 n && leb n 32)
    || n == 0x85
    || n == 0xa0
    || n == 0x1680
    || (leb 0x2000 n && leb n 0x200a)
    || n == 0x2028
    || n == 0x2029
    || n == 0x202f
    || n == 0x205f
    || n == 0x3000

-- A file opened in text mode: `\r` and `\r\n` are read as `\n`. The test says whether `\r` came last.
unfoldable pub newlines : Bool → String → String
newlines after empty = empty
newlines after (c ▹ s) =
    if code c == 13
    then "\n" ▹ newlines true s
    else if after && code c == 10
    then newlines false s
    else c ▹ newlines false s

abbrev pub push : Char → List String → List String
push c [] = (c ▹ empty) ∷ []
push c (line ∷ lines) = (c ▹ line) ∷ lines

-- `readlines` on the translated text: each line keeps its end.
unfoldable pub split_lines : String → List String
split_lines empty = []
split_lines (c ▹ s) = if code c == 10 then (c ▹ empty) ∷ split_lines s else push c (split_lines s)

unfoldable pub readlines : String → List String
unfolding split_lines newlines
readlines s = split_lines (newlines false s)

-- `line[0:line.find("#")]`, and the whole line if there is no `#` in it.
unfoldable pub uncomment : String → String
uncomment empty = empty
uncomment (c ▹ s) = if code c == 35 then empty else c ▹ uncomment s

unfoldable pub lstrip : String → String
unfolding is_space
lstrip empty = empty
lstrip (c ▹ s) = if is_space c then lstrip s else c ▹ s

abbrev pub keep_blank : Char → String → String
keep_blank c empty = if is_space c then empty else c ▹ empty
keep_blank c (d ▹ s) = c ▹ (d ▹ s)

unfoldable pub rstrip : String → String
rstrip empty = empty
rstrip (c ▹ s) = keep_blank c (rstrip s)

-- `line.strip()`
unfoldable pub strip : String → String
unfolding lstrip rstrip
strip s = rstrip (lstrip s)

abbrev pub add_word : String → List String → List String
add_word empty words = words
add_word (c ▹ w) words = (c ▹ w) ∷ words

-- The word that a text begins with, if it does not begin with a blank, and the words behind it.
unfoldable pub pieces : String → String × List String
unfolding is_space
pieces empty = (empty, [])
pieces (c ▹ s) =
    let (word, words) = pieces s in
    if is_space c then (empty, add_word word words) else ((c ▹ word), words)

-- `s.split()`
unfoldable pub split : String → List String
unfolding pieces
split s = let (word, words) = pieces s in add_word word words

unfoldable pub digit : ℕ → Option ℕ
digit n =
    if leb 48 n && leb n 57
    then some (n - 48)
    else if leb 97 n && leb n 102
    then some (n - 87)
    else if leb 65 n && leb n 70
    then some (n - 55)
    else none

-- The digits of a number, with single underscores between them; the test says that the last character
-- was a digit.
unfoldable pub digits : ℕ → Bool → String → Option ℕ
unfolding digit
digits n last empty = if last then some n else none
digits n last (c ▹ s) =
    if code c == 95
    then (if last then digits n false s else none)
    else elim (digit (code c)) [ none ↦ none | some d ↦ digits (n * 16 + d) true s ]

-- Behind the prefix `0x` one underscore may stand.
unfoldable pub prefixed : String → Option ℕ
unfolding digits
prefixed empty = none
prefixed (c ▹ s) = if code c == 95 then digits 0 false s else digits 0 false (c ▹ s)

unfoldable pub unsigned : String → Option ℕ
unfolding prefixed digits
unsigned empty = none
unsigned (c ▹ empty) = digits 0 false (c ▹ empty)
unsigned (c ▹ (x ▹ s)) =
    if code c == 48 && (code x == 120 || code x == 88)
    then prefixed s
    else digits 0 false (c ▹ (x ▹ s))

abbrev pub signed : (ℕ → ℤ) → Option ℕ → Result ℤ
signed sign none = err value_error
signed sign (some n) = ok (sign n)

-- `int(s, base=16)` on a word.
unfoldable pub int : String → Result ℤ
unfolding unsigned
int empty = err value_error
int (c ▹ s) =
    if code c == 45
    then signed (λ n. sub_ℕ 0 n) (unsigned s)
    else if code c == 43
    then signed pos (unsigned s)
    else signed pos (unsigned (c ▹ s))
