-- ===== src/Assembler/Reference.antt =====
-- An assembler in two passes, to compare assemble.py with: the first finds the addresses of the labels,
-- the second writes the bytes.
use Prim.Native.String.{String}
use compyter.Prelude.{
  ℕ, ◌+◌, ◌-◌, ◌*◌, ◌%◌, none, some, List, [], ◌∷◌, ◌++◌, length, replicate, ◌==◌, if◌then◌else◌,
}
use compyter.Result.{
  Result, ok, err, zero_division_error, duplicate_label, unresolved_labels, or_raise, ◌>>=◌,
}
use compyter.Assembler.{
  Reals, Item, Param, Stmt, int, real, string, label, align, zeros, items, define, inst, lookup,
  pack_word, encode_text, item_bytes,
}

module _ {R : Reals} where
  -- The sizes, in bytes.
  unfoldable pub size_items : List (Item R) → ℕ
  size_items [] = 0
  size_items (int n ∷ xs) = 4 + size_items xs
  size_items (real x ∷ xs) = 4 + size_items xs
  size_items (string cs ∷ xs) = length (encode_text cs) + size_items xs

  unfoldable pub size_params : List (Param R) → ℕ
  size_params [] = 0
  size_params (int n ∷ xs) = 4 + size_params xs
  size_params (real x ∷ xs) = size_params xs
  size_params (label l ∷ xs) = 4 + size_params xs

  -- Of a statement at the address `at`.
  unfoldable pub size : ℕ → Stmt R → ℕ
  unfolding size_items size_params
  size at (align n) = n - at % n
  size at (zeros n) = n
  size at (items xs) = size_items xs
  size at (define l) = 0
  size at (inst opcode params) = 4 + size_params params + 4 * (3 - length params)

  -- The first pass, over a program from the address `at`.
  unfoldable pub addresses : ℕ → List (Stmt R) → List (String × ℕ) → Result (List (String × ℕ))
  unfolding size
  addresses at [] table = ok table
  addresses at (define l ∷ xs) table = elim (lookup l table) [
    | some _ ↦ err (duplicate_label l)
    | none ↦ addresses at xs ((l, at) ∷ table)
  ]
  addresses at (align n ∷ xs) table = addresses (at + size at (align n)) xs table
  addresses at (zeros n ∷ xs) table = addresses (at + size at (zeros n)) xs table
  addresses at (items ys ∷ xs) table = addresses (at + size at (items ys)) xs table
  addresses at (inst o ps ∷ xs) table = addresses (at + size at (inst o ps)) xs table

  unfoldable pub bytes_items : List (Item R) → Result (List ℕ)
  bytes_items [] = ok []
  bytes_items (x ∷ xs) = do b ← item_bytes x; bs ← bytes_items xs; ok (b ++ bs)

  -- With the addresses of the labels in a table.
  unfoldable pub bytes_param : List (String × ℕ) → Param R → Result (List ℕ)
  bytes_param table (int n) = pack_word n
  bytes_param table (real x) = ok []
  bytes_param table (label l) = or_raise (lookup l table) unresolved_labels >>= pack_word

  unfoldable pub bytes_params : List (String × ℕ) → List (Param R) → Result (List ℕ)
  unfolding bytes_param
  bytes_params table [] = ok []
  bytes_params table (x ∷ xs) = do b ← bytes_param table x; bs ← bytes_params table xs; ok (b ++ bs)

  unfoldable pub bytes_stmt : List (String × ℕ) → ℕ → Stmt R → Result (List ℕ)
  unfolding bytes_items bytes_params
  bytes_stmt table at (align n) =
      if n == 0 then err zero_division_error else ok (replicate (n - at % n) 0)
  bytes_stmt table at (zeros n) = ok (replicate n 0)
  bytes_stmt table at (items xs) = bytes_items xs
  bytes_stmt table at (define l) = ok []
  bytes_stmt table at (inst opcode params) = do
    b ← pack_word opcode
    bs ← bytes_params table params
    ok (b ++ (bs ++ replicate (4 * (3 - length params)) 0))

  -- The second pass.
  unfoldable pub bytes_program : List (String × ℕ) → ℕ → List (Stmt R) → Result (List ℕ)
  unfolding bytes_stmt size
  bytes_program table at [] = ok []
  bytes_program table at (x ∷ xs) = do
    b ← bytes_stmt table at x
    bs ← bytes_program table (at + size at x) xs
    ok (b ++ bs)

  unfoldable pub two_pass : List (Stmt R) → Result (List ℕ)
  unfolding addresses bytes_program
  two_pass program = do table ← addresses 0 program []; bytes_program table 0 program
