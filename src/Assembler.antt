-- ===== src/Assembler.antt =====
-- assemble.py: the emission of an image from the statements of a source text, in one pass, with the
-- places that wait for the address of a label. The parser (pyparsing, by the grammar of
-- assembler/grammar.py) is not modelled: the statements are what it hands over.
pub mod Grammar
pub mod Reference
pub mod Patch
pub mod Places
pub mod Chain
pub mod Pieces
pub mod Labels
pub mod TwoPass
pub mod Progress
pub mod Accepts
pub mod Errors
pub mod Old
use Prim.Native.String.{String}
use text.Mathlib.Text.{◌==◌ as str_eq}
use compyter.Prelude.{
  ℕ, zero, suc, ◌+◌, ◌-◌, ◌*◌, ◌/◌, ◌%◌, ◌^◌, ◌≡◌, Option, none, some, List, [], ◌∷◌, ◌++◌, ◌==◌,
  ltb, length, drop, replicate, if◌then◌else◌,
}
use compyter.Result.{
  Result, ok, err, struct_error, zero_division_error, duplicate_label, unresolved_labels, ◌>>=◌,
}

-- `struct.pack(">f", x)` for the reals of the language: four bytes, or an `OverflowError`.
pub record Reals : Type 1 where
  pub Real : Type 0
  pub pack_real : Real → Result (List ℕ)
  pub length_packed : (x : Real) (bytes : List ℕ) → pack_real x ≡ ok bytes → length bytes ≡ 4

-- The items of a `!data` statement. A text is its code points.
pub data Item (R : Reals) : Type 0 where
  int : ℕ → Item R
  real : R.Real → Item R
  string : List ℕ → Item R

-- The operands of an instruction: a register, an address or a number; a real; a label.
pub data Param (R : Reals) : Type 0 where
  int : ℕ → Param R
  real : R.Real → Param R
  label : String → Param R

pub data Stmt (R : Reals) : Type 0 where
  align zeros : ℕ → Stmt R
  items : List (Item R) → Stmt R
  define : String → Stmt R
  inst : ℕ → List (Param R) → Stmt R

-- `label_pending` as the pairs of a label and a place, in the order in which they are added; the
-- dictionary groups them by the label.
pub record Assembler : Type 0 where
  pub output : List ℕ
  pub symtable_label : List (String × ℕ)
  pub label_pending : List (String × ℕ)

unfoldable pub init : Assembler
init = record { output = []; symtable_label = []; label_pending = [] }

abbrev pub word_bytes : ℕ → List ℕ
word_bytes n = n / 2 ^ 24 ∷ n / 2 ^ 16 % 256 ∷ n / 2 ^ 8 % 256 ∷ n % 256 ∷ []

-- `pack(">I", n)`
unfoldable pub pack_word : ℕ → Result (List ℕ)
pack_word n = if ltb n (2 ^ 32) then ok (word_bytes n) else err struct_error

-- A code point in UTF-8.
unfoldable pub encode : ℕ → List ℕ
encode c =
    if ltb c 0x80
    then c ∷ []
    else if ltb c 0x800
    then (0xc0 + c / 2 ^ 6) ∷ (0x80 + c % 2 ^ 6) ∷ []
    else if ltb c 0x10000
    then (0xe0 + c / 2 ^ 12) ∷ (0x80 + c / 2 ^ 6 % 2 ^ 6) ∷ (0x80 + c % 2 ^ 6) ∷ []
    else (0xf0 + c / 2 ^ 18)
      ∷ (0x80 + c / 2 ^ 12 % 2 ^ 6)
      ∷ (0x80 + c / 2 ^ 6 % 2 ^ 6)
      ∷ (0x80 + c % 2 ^ 6)
      ∷ []

-- `data.encode("utf-8")`
unfoldable pub encode_text : List ℕ → List ℕ
unfolding encode
encode_text [] = []
encode_text (c ∷ cs) = encode c ++ encode_text cs

-- `d.get(k)`, on the pairs of a dictionary.
abbrev pub lookup {ℓ} : {V : Type ℓ} → String → List (String × V) → Option V
lookup k [] = none
lookup k ((j, v) ∷ d) = if str_eq j k then some v else lookup k d

-- `label_pending.pop(k, [])`: the places, and what is left of the dictionary.
abbrev pub places {ℓ} : {V : Type ℓ} → String → List (String × V) → List V
places k [] = []
places k ((j, i) ∷ d) = if str_eq j k then i ∷ places k d else places k d

abbrev pub without {ℓ} : {V : Type ℓ} → String → List (String × V) → List (String × V)
without k [] = []
without k ((j, i) ∷ d) = if str_eq j k then without k d else (j, i) ∷ without k d

-- `output[i:i+4] = bytes`
abbrev pub assign : ℕ → List ℕ → List ℕ → List ℕ
assign zero bytes xs = bytes ++ drop 4 xs
assign (suc i) bytes [] = bytes
assign (suc i) bytes (x ∷ xs) = x ∷ assign i bytes xs

-- The loop over the places that wait for the address `a`.
unfoldable pub resolve : ℕ → List ℕ → List ℕ → Result (List ℕ)
resolve a [] output = ok output
resolve a (i ∷ is) output = do bytes ← pack_word a; resolve a is (assign i bytes output)

unfoldable pub extend : List ℕ → Assembler → Assembler
extend bytes s = record s { output = s.output ++ bytes }

unfoldable pub add_label : String → Assembler → Result Assembler
unfolding resolve
add_label l s = elim (lookup l s.symtable_label) [
  | some _ ↦ err (duplicate_label l)
  | none ↦ do
    let a = length s.output
    output ← resolve a (places l s.label_pending) s.output
    ok (record {
      output = output;
      symtable_label = (l, a) ∷ s.symtable_label;
      label_pending = without l s.label_pending;
    })
]

-- An operand that is a label: its address, or zeros and a place that waits.
unfoldable pub add_reference : String → Assembler → Result Assembler
unfolding pack_word extend
add_reference l s = elim (lookup l s.symtable_label) [
  | some a ↦ do bytes ← pack_word a; ok (extend bytes s)
  | none ↦ ok (
      extend (0 ∷ 0 ∷ 0 ∷ 0 ∷ [])
        (record s { label_pending = s.label_pending ++ (l, length s.output) ∷ [] }))
]

-- `if len(label_pending) > 0`, and the image.
unfoldable pub finish : Assembler → Result (List ℕ)
finish s = if ltb 0 (length s.label_pending) then err unresolved_labels else ok s.output

module _ {R : Reals} where
  unfoldable pub item_bytes : Item R → Result (List ℕ)
  unfolding pack_word encode_text
  item_bytes (int n) = pack_word n
  item_bytes (real x) = R.pack_real x
  item_bytes (string cs) = ok (encode_text cs)

  unfoldable pub add_items : List (Item R) → Assembler → Result Assembler
  unfolding item_bytes extend
  add_items [] s = ok s
  add_items (x ∷ xs) s = do bytes ← item_bytes x; add_items xs (extend bytes s)

  -- A real is neither an `int` nor a `str`, and adds nothing.
  unfoldable pub add_param : Param R → Assembler → Result Assembler
  unfolding pack_word extend add_reference
  add_param (int n) s = do bytes ← pack_word n; ok (extend bytes s)
  add_param (real x) s = ok s
  add_param (label l) s = add_reference l s

  unfoldable pub add_params : List (Param R) → Assembler → Result Assembler
  unfolding add_param
  add_params [] s = ok s
  add_params (x ∷ xs) s = do s' ← add_param x s; add_params xs s'

  -- One turn of the loop of `do_parse`.
  unfoldable pub add_stmt : Stmt R → Assembler → Result Assembler
  unfolding add_items add_params add_label extend pack_word
  add_stmt (align n) s =
      if n == 0
      then err zero_division_error
      else ok (extend (replicate (n - length s.output % n) 0) s)
  add_stmt (zeros n) s = ok (extend (replicate n 0) s)
  add_stmt (items xs) s = add_items xs s
  add_stmt (define l) s = add_label l s
  add_stmt (inst opcode params) s = do
    bytes ← pack_word opcode
    s' ← add_params params (extend bytes s)
    ok (extend (replicate (4 * (3 - length params)) 0) s')

  unfoldable pub do_parse : List (Stmt R) → Assembler → Result Assembler
  unfolding add_stmt
  do_parse [] s = ok s
  do_parse (x ∷ xs) s = do s' ← add_stmt x s; do_parse xs s'

  -- The image of a program.
  unfoldable pub main : List (Stmt R) → Result (List ℕ)
  unfolding do_parse init finish
  main program = do s ← do_parse program init; finish s
