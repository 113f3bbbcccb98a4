-- ===== src/Assembler/Old/RoundTrip.antt =====
-- What old/assembler.py reads from a printed text.
use Prim.Native.Char.{code}
use Prim.Native.String.{String, [] as empty, ◌∷◌ as ◌▹◌}
use text.Mathlib.Text.{◌==◌ as str_eq}
use text.Mathlib.TextEquality.{eq_iff}
use mathlib.Core.Path.{subst}
use compyter.Prelude.{
  ℕ, ◌≡◌, refl, ap, ◌∙◌, arith, Bool, true, false, ◌&&◌, not, some, List, [], ◌∷◌, map, length, All,
  ltb, ◌==◌, Bool-cases, inl, inr,
}
use compyter.Prelude.Int.{ℤ}
use compyter.Result.{ok, map_ok}
use compyter.Memory.{Bus}
use compyter.Cpu.Decode.{ArgType, instrs}
use compyter.Assembler.{lookup}
use compyter.Assembler.Old.{
  Arg, Line, blank, data_line, zero_line, align_line, label_line, instr_line, symtable, enumerate,
  names,
}
use compyter.Assembler.Old.Text.{is_space}
use compyter.Assembler.Old.Source.{read_directive, read_statement, read_stripped, read_line}
use compyter.Assembler.Old.Printer.{
  append, join_rest, join, print_int, print_arg, print_words, print_line, is_plain, AllChars,
  IsWord, Fits, Printable, blank_printable, data_printable, zero_printable, align_printable,
  label_printable, instr_printable,
}
use compyter.Assembler.Old.Numbers.{int-print_int}
use compyter.Assembler.Old.Blanks.{append-empty, split-word, strip-join}
use compyter.Assembler.Old.Arguments.{
  ints-print_int, print_int-IsWord, map-print_int-IsWord, Fits-IsWord, Fits-length,
  read_args-print_arg,
}

abbrev all_plain : String → Bool
all_plain empty = true
all_plain (c ▹ s) = is_plain c && all_plain s

-- A word that begins with no mark.
abbrev is_name : String → Bool
is_name empty = false
is_name (c ▹ s) = not (code c == 33) && not (code c == 46) && all_plain (c ▹ s)

all_plain-AllChars : (s : String) → all_plain s ≡ true → AllChars is_plain s
all_plain-AllChars empty h = tt
all_plain-AllChars (c ▹ s) h = elim (Bool-cases (is_plain c)) [
  | inl first ↦ (first, all_plain-AllChars s (rw first at h))
  | inr other ↦ let no : false ≡ true = rw other at h in cc
]

-- Every key of a table passes a test.
abbrev all_keys {ℓ} : {V : Type ℓ} → (String → Bool) → List (String × V) → Bool
all_keys test [] = true
all_keys test ((k, v) ∷ table) = test k && all_keys test table

lookup-key {ℓ} :
    {V : Type ℓ} (test : String → Bool) (name : String) (v : V) (table : List (String × V))
    → all_keys test table ≡ true
    → lookup name table ≡ some v
    → test name ≡ true
lookup-key test name v [] all h = cc
lookup-key test name v ((k, w) ∷ table) all h = elim (Bool-cases (test k)) [
  | inl holds ↦ elim (Bool-cases (str_eq k name)) [
    | inl same ↦ subst (λ s. test s ≡ true) ((eq_iff k name).0 same) holds
    | inr other ↦ lookup-key test name v table (rw holds at all) (rw other at h)
  ]
  | inr fails ↦ let no : false ≡ true = rw fails at all in cc
]

names-is_name : (B : Bus) → all_keys is_name (symtable B) ≡ true
unfolding symtable enumerate names instrs is_plain is_space
names-is_name B = refl

symtable-is_name :
    (B : Bus) (name : String) (o : ℕ × (ArgType × ArgType × ArgType))
    → lookup name (symtable B) ≡ some o
    → is_name name ≡ true
symtable-is_name B name o h = lookup-key is_name name o (symtable B) (names-is_name B) h

read_statement-printed :
    (B : Bus) (name : String) (opcode : ℕ) (t1 t2 t3 : ArgType) (args : List Arg)
    → lookup name (symtable B) ≡ some (opcode, (t1, t2, t3))
    → Fits (t1 ∷ t2 ∷ t3 ∷ []) args
    → read_statement B (name ∷ map print_arg args) ≡ ok (instr_line name args)
unfolding read_statement
read_statement-printed B name opcode t1 t2 t3 args h fits =
    let short : ltb 3 (length (map print_arg args)) ≡ false =
      ground (arith, Fits-length _ _ fits) in
    rw (short, h)
      (ap (map_ok (instr_line name)) (read_args-print_arg (t1 ∷ t2 ∷ t3 ∷ []) args fits))

-- What is behind a name that begins with no mark is read as an instruction.
read_stripped-name :
    (B : Bus) (name : String) (ws : List String)
    → is_name name ≡ true
    → All IsWord ws
    → read_stripped B (append name (join_rest ws)) ≡ read_statement B (name ∷ ws)
unfolding read_stripped
read_stripped-name B empty ws h hs = cc
read_stripped-name B (c ▹ s) ws h hs =
    let directive : code c == 33 ≡ false = ground arith in
    let label : code c == 46 ≡ false = ground arith in
    let plain : all_plain (c ▹ s) ≡ true = ground arith in
    rw (directive, label, split-word (c ▹ s) ws (all_plain-AllChars (c ▹ s) plain) hs) refl

read_stripped-directive :
    (B : Bus) (w : String) (ws : List String)
    → IsWord w
    → All IsWord ws
    → read_stripped B ("!" ▹ append w (join_rest ws)) ≡ read_directive (w ∷ ws)
unfolding read_stripped
read_stripped-directive B w ws h hs = ap read_directive (split-word w ws h hs)

directive_words : All IsWord ("data" ∷ "zero" ∷ "align" ∷ [])
unfolding is_plain is_space
directive_words = (
  all_plain-AllChars "data" refl,
  (all_plain-AllChars "zero" refl, (all_plain-AllChars "align" refl, tt)),
)

read_directive-data : (ns : List ℤ) → read_directive ("data" ∷ map print_int ns) ≡ ok (data_line ns)
unfolding read_directive
read_directive-data ns = ap (map_ok data_line) (ints-print_int ns)

read_directive-zero : (n : ℤ) → read_directive ("zero" ∷ print_int n ∷ []) ≡ ok (zero_line n)
unfolding read_directive
read_directive-zero n = ap (map_ok zero_line) (int-print_int n)

read_directive-align : (n : ℤ) → read_directive ("align" ∷ print_int n ∷ []) ≡ ok (align_line n)
unfolding read_directive
read_directive-align n = ap (map_ok align_line) (int-print_int n)

nothing_left : (B : Bus) → read_stripped B empty ≡ ok blank
unfolding read_stripped
nothing_left B = refl

read_stripped-label : (B : Bus) (l : String) → read_stripped B ("." ▹ l) ≡ ok (label_line l)
unfolding read_stripped
read_stripped-label B l = refl

read_stripped-printed :
    (B : Bus) (line : Line) → Printable B line → read_stripped B (join (print_words line)) ≡ ok line
unfolding print_words
read_stripped-printed B _ blank_printable = nothing_left B
read_stripped-printed B _ (data_printable ns) =
    read_stripped-directive B "data" (map print_int ns) directive_words.0 (map-print_int-IsWord ns)
    ∙ read_directive-data ns
read_stripped-printed B _ (zero_printable n) =
    read_stripped-directive B "zero" (print_int n ∷ []) directive_words.1.0 (print_int-IsWord n, tt)
    ∙ read_directive-zero n
read_stripped-printed B _ (align_printable n) =
    read_stripped-directive B "align" (print_int n ∷ []) directive_words.1.1.0
      (print_int-IsWord n, tt)
    ∙ read_directive-align n
read_stripped-printed B _ (label_printable l h) =
    ap (λ s. read_stripped B ("." ▹ s)) (append-empty l) ∙ read_stripped-label B l
read_stripped-printed B _ (instr_printable name opcode t1 t2 t3 args h fits) =
    read_stripped-name B name (map print_arg args) (symtable-is_name B name _ h)
      (Fits-IsWord _ args fits)
    ∙ read_statement-printed B name opcode t1 t2 t3 args h fits

is_name-IsWord : (s : String) → is_name s ≡ true → IsWord s
is_name-IsWord empty h = cc
is_name-IsWord (c ▹ s) h = all_plain-AllChars (c ▹ s) (ground arith)

marked_words : All IsWord ("!data" ∷ "!zero" ∷ "!align" ∷ [])
unfolding is_plain is_space
marked_words = (
  all_plain-AllChars "!data" refl,
  (all_plain-AllChars "!zero" refl, (all_plain-AllChars "!align" refl, tt)),
)

pub print_words-IsWord : (B : Bus) (line : Line) → Printable B line → All IsWord (print_words line)
unfolding print_words is_plain is_space
print_words-IsWord B _ blank_printable = tt
print_words-IsWord B _ (data_printable ns) = (marked_words.0, map-print_int-IsWord ns)
print_words-IsWord B _ (zero_printable n) = (marked_words.1.0, (print_int-IsWord n, tt))
print_words-IsWord B _ (align_printable n) = (marked_words.1.1.0, (print_int-IsWord n, tt))
print_words-IsWord B _ (label_printable l h) = ((refl, h), tt)
print_words-IsWord B _ (instr_printable name opcode t1 t2 t3 args h fits) =
    (is_name-IsWord name (symtable-is_name B name _ h), Fits-IsWord _ args fits)

-- A printed line is read as the line.
pub read_line-print_line :
    (B : Bus) (line : Line) → Printable B line → read_line B (print_line line) ≡ ok line
unfolding read_line print_line
read_line-print_line B line h =
    ap (read_stripped B) (strip-join (print_words line) (print_words-IsWord B line h))
    ∙ read_stripped-printed B line h
