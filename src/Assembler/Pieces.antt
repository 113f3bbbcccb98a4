-- ===== src/Assembler/Pieces.antt =====
-- The chains of the pieces of a program (assemble.py): items, operands, instructions, statements.
use Prim.Native.String.{String}
use mathlib.Core.Path.{subst}
use compyter.Prelude.{
  ℕ, ◌≢◌, false, ◌+◌, ◌-◌, ◌*◌, ◌%◌, ◌≡◌, refl, sym, ap, arith, List, [], ◌∷◌, ◌++◌, ◌==◌, length,
  length-append, length-replicate, replicate, inl, inr, Option-cases,
}
use compyter.Result.{Result, ok, err, ◌>>=◌, bind-eq-ok, ok_injective}
use compyter.Assembler.{
  Reals, Item, Param, Stmt, int, real, string, label, align, zeros, items, define, inst, Assembler,
  lookup, pack_word, encode_text, extend, item_bytes, add_items, add_reference, add_param,
  add_params, add_stmt,
}
use compyter.Assembler.Reference.{
  size_items, size_params, size, bytes_items, bytes_param, bytes_params, bytes_stmt,
}
use compyter.Assembler.Patch.{pack_word-eq-ok, IsSpaced, append-IsSpaced}
use compyter.Assembler.Places.{address, patch_last}
use compyter.Assembler.Chain.{Table, Extends, Chain, done, joined, extended, rewritten}

pub packed : (n : ℕ) (b : List ℕ) → pack_word n ≡ ok b → length b ≡ 4
packed n b h = ap length (pack_word-eq-ok n b h)

-- A label whose address is known, or waits.
add_reference-Chain :
    (table : Table) (l : String) (s t : Assembler)
    → Extends s.symtable_label table
    → IsSpaced 0 (length s.output) s.label_pending
    → add_reference l s ≡ ok t
    → Chain table s t (address table l) 4
unfolding add_reference extend
add_reference-Chain table l s t ext h e = elim (Option-cases (lookup l s.symtable_label)) [
  | inl none_yet ↦
      let waits = record s { label_pending = s.label_pending ++ (l, length s.output) ∷ [] } in
      let e' : ok (extend (0 ∷ 0 ∷ 0 ∷ 0 ∷ []) waits) ≡ ok t = rw (none_yet, add_reference) at e in
      subst (λ u. Chain table s u (address table l) 4) (ok_injective e')
        (record {
          written = patch_last table l 0 (length s.output) s.label_pending s.output refl h;
          spaced =
              rw (length-append s.output (0 ∷ 0 ∷ 0 ∷ 0 ∷ []))
                (append-IsSpaced l 0 (length s.output) s.label_pending h);
          longer = length-append s.output (0 ∷ 0 ∷ 0 ∷ 0 ∷ []);
          same_labels = refl;
        })
  | inr (a, at) ↦
      let e' : (pack_word a >>= λ b. ok (extend b s)) ≡ ok t = rw (at, add_reference) at e in
      let (b, found, rest) = bind-eq-ok (pack_word a) (λ b. ok (extend b s)) t e' in
      let known : ok b ≡ address table l = rw (ext l a at) (sym found) in
      rewritten (ok_injective rest) known (packed a b found) (extended b s h)
]

-- The bytes of an instruction, in two orders.
inst_bytes :
    (b fill : List ℕ) (m q : Result (List ℕ))
    → q ≡ ok b
    → (ok b >>= λ b. (m >>= λ c. ok fill >>= λ d. ok (c ++ d)) >>= λ c. ok (b ++ c))
      ≡ (q >>= λ b. m >>= λ bs. ok (b ++ (bs ++ fill)))
inst_bytes b fill (ok c) q h = rw h refl
inst_bytes b fill (err e) q h = rw h refl

module _ {R : Reals} where
  size_item : Item R → ℕ
  size_item (int n) = 4
  size_item (real x) = 4
  size_item (string cs) = length (encode_text cs)

  size_item_lem :
      (x : Item R) (xs : List (Item R)) → size_items (x ∷ xs) ≡ size_item x + size_items xs
  unfolding size_item size_items
  size_item_lem (int n) xs = refl
  size_item_lem (real x) xs = refl
  size_item_lem (string cs) xs = refl

  length-item_bytes : (x : Item R) (b : List ℕ) → item_bytes x ≡ ok b → length b ≡ size_item x
  unfolding item_bytes size_item
  length-item_bytes (int n) b h = packed n b h
  length-item_bytes (real x) b h = R.length_packed x b h
  length-item_bytes (string cs) b h = ground (arith, h)

  size_param : Param R → ℕ
  size_param (int n) = 4
  size_param (real x) = 0
  size_param (label l) = 4

  size_param_lem :
      (x : Param R) (xs : List (Param R)) → size_params (x ∷ xs) ≡ size_param x + size_params xs
  unfolding size_param size_params
  size_param_lem (int n) xs = refl
  size_param_lem (real x) xs = omega arith
  size_param_lem (label l) xs = refl

module _ {R : Reals} (table : Table) where
  items-Chain :
      (xs : List (Item R)) (s t : Assembler)
      → IsSpaced 0 (length s.output) s.label_pending
      → add_items xs s ≡ ok t
      → Chain table s t (bytes_items xs) (size_items xs)
  unfolding add_items bytes_items size_items
  items-Chain [] s t h e = rewritten (ok_injective e) refl refl (done s h)
  items-Chain (x ∷ xs) s t h e =
      let (b, found, rest) = bind-eq-ok (item_bytes x) (λ b. add_items xs (extend b s)) t e in
      let first = extended {table = table} b s h in
      let second = items-Chain xs (extend b s) t first.spaced rest in
      rw (found, size_item_lem x xs, ← length-item_bytes x b found) (joined first second)

  param-Chain :
      (x : Param R) (s t : Assembler)
      → Extends s.symtable_label table
      → IsSpaced 0 (length s.output) s.label_pending
      → add_param x s ≡ ok t
      → Chain table s t (bytes_param table x) (size_param x)
  unfolding add_param bytes_param size_param
  param-Chain (int n) s t ext h e =
      let (b, found, rest) = bind-eq-ok (pack_word n) (λ b. ok (extend b s)) t e in
      rewritten (ok_injective rest) (sym found) (packed n b found) (extended b s h)
  param-Chain (real x) s t ext h e = rewritten (ok_injective e) refl refl (done s h)
  param-Chain (label l) s t ext h e = add_reference-Chain table l s t ext h e

  params-Chain :
      (xs : List (Param R)) (s t : Assembler)
      → Extends s.symtable_label table
      → IsSpaced 0 (length s.output) s.label_pending
      → add_params xs s ≡ ok t
      → Chain table s t (bytes_params table xs) (size_params xs)
  unfolding add_params bytes_params size_params
  params-Chain [] s t ext h e = rewritten (ok_injective e) refl refl (done s h)
  params-Chain (x ∷ xs) s t ext h e =
      let (u, found, rest) = bind-eq-ok (add_param x s) (add_params xs) t e in
      let first = param-Chain x s u ext h found in
      let second = params-Chain xs u t (rw first.same_labels ext) first.spaced rest in
      rw (size_param_lem x xs) (joined first second)

  inst-Chain :
      (opcode : ℕ) (xs : List (Param R)) (s t : Assembler)
      → Extends s.symtable_label table
      → IsSpaced 0 (length s.output) s.label_pending
      → add_stmt (inst opcode xs) s ≡ ok t
      → Chain table s t
          (bytes_stmt table (length s.output) (inst opcode xs))
          (size (length s.output) (inst opcode xs))
  unfolding add_stmt bytes_stmt size
  inst-Chain opcode xs s t ext h e =
      let fill = replicate (4 * (3 - length xs)) 0 in
      let (b, found, rest) =
        bind-eq-ok (pack_word opcode) (λ b. add_params xs (extend b s) >>= λ u. ok (extend fill u))
          t e in
      let (u, added, last) =
        bind-eq-ok (add_params xs (extend b s)) (λ u. ok (extend fill u)) t rest in
      let first = extended {table = table} b s h in
      let second = params-Chain xs (extend b s) u (rw first.same_labels ext) first.spaced added in
      let third = extended {table = table} fill u second.spaced in
      rewritten (ok_injective last)
        (inst_bytes b fill (bytes_params table xs) (pack_word opcode) found)
        (omega (arith, packed opcode b found, length-replicate {A = ℕ} (4 * (3 - length xs)) 0))
        (joined first (joined second third))

  -- The statements that define no label.
  pub add_stmt-Chain :
      (x : Stmt R) (s t : Assembler)
      → ((l : String) → x ≢ define l)
      → Extends s.symtable_label table
      → IsSpaced 0 (length s.output) s.label_pending
      → add_stmt x s ≡ ok t
      → Chain table s t (bytes_stmt table (length s.output) x) (size (length s.output) x)
  unfolding add_stmt bytes_stmt size
  add_stmt-Chain (align n) s t plain ext h e =
      let fill = n - length s.output % n in
      let aligned : (t ≡ extend (replicate fill 0) s) × ((n == 0) ≡ false) = ground arith in
      rewritten (sym aligned.0) (rw (aligned.1) refl) (length-replicate {A = ℕ} fill 0)
        (extended (replicate fill 0) s h)
  add_stmt-Chain (zeros n) s t plain ext h e =
      rewritten (ok_injective e) refl (length-replicate {A = ℕ} n 0) (extended (replicate n 0) s h)
  add_stmt-Chain (items xs) s t plain ext h e = items-Chain xs s t h e
  add_stmt-Chain (define l) s t plain ext h e = absurd (plain l refl)
  add_stmt-Chain (inst opcode xs) s t plain ext h e = inst-Chain opcode xs s t ext h e
