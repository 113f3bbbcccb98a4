-- ===== src/Assembler/Accepts.antt =====
-- assemble.py accepts the programs that the two passes of Reference accept, and no others.
use Prim.Native.String.{String}
use text.Mathlib.TextEquality.{eq_iff}
use compyter.Prelude.{
  ℕ, ◌+◌, ◌≡◌, ◌↔◌, refl, sym, ◌∙◌, arith, none, some, List, [], ◌∷◌, length, All,
}
use compyter.Result.{ok, err, unresolved_labels, bind-eq-ok, ok_injective}
use compyter.Assembler.{
  Reals, Stmt, align, zeros, items, define, inst, Assembler, init, lookup, without, add_label,
  add_stmt, do_parse, finish, main,
}
use compyter.Assembler.Reference.{size, addresses, bytes_stmt, bytes_program, two_pass}
use compyter.Assembler.Patch.{IsSpaced}
use compyter.Assembler.Chain.{Table}
use compyter.Assembler.Pieces.{add_stmt-Chain}
use compyter.Assembler.Labels.{
  Defined, Defined-IsSpaced, IsPlain, addresses-define, addresses-Extends,
}
use compyter.Assembler.Progress.{Known, Waits, add_stmt-Accepts, resolve-ok, without-Waits}
use compyter.Assembler.TwoPass.{two_pass-main}

Waits-Known : (table small d : Table) → Waits table small d → All (λ entry. Known table (entry.0)) d
Waits-Known table small [] h = tt
Waits-Known table small (e ∷ d) h = (h.0.1, Waits-Known table small d h.1)

-- No label waits for ever.
Waits-nothing : (table small d : Table) → small ≡ table → Waits table small d → d ≡ []
Waits-nothing table small [] same h = refl
Waits-nothing table small ((l, i) ∷ d) same h =
    let (b, found) = h.0.1 in
    let new : lookup l table ≡ none = rw same at h.0.0 in
    let refused : err unresolved_labels ≡ ok b = rw new at found in cc

add_label-ok :
    (table : Table) (l : String) (s : Assembler)
    → lookup l s.symtable_label ≡ none
    → lookup l table ≡ some (length s.output)
    → Waits table s.symtable_label s.label_pending
    → (t : Assembler) × (add_label l s ≡ ok t)
      × Defined l s t
      × Waits table t.symtable_label t.label_pending
unfolding add_label
add_label-ok table l s new at h =
    let a = length s.output in
    let (ys, resolved) =
      resolve-ok table s.label_pending l a s.output at
        (Waits-Known table s.symtable_label s.label_pending h) in
    (
      record {
        output = ys;
        symtable_label = (l, a) ∷ s.symtable_label;
        label_pending = without l s.label_pending;
      },
      rw (new, add_label, resolved) refl,
      record { unknown = new; resolved = resolved; labels = refl; pending = refl },
      without-Waits table s.symtable_label s.label_pending l a h,
    )

module _ {R : Reals} (table : Table) where
  -- The one pass takes the rest of a program, and no label is left waiting.
  abbrev Taken : List (Stmt R) → Assembler → Type 0
  Taken xs s = (t : Assembler) × (do_parse xs s ≡ ok t) × (t.label_pending ≡ [])

  abbrev Takes : List (Stmt R) → Type 0
  Takes xs =
      (s : Assembler) (b : List ℕ)
      → IsSpaced 0 (length s.output) s.label_pending
      → Waits table s.symtable_label s.label_pending
      → addresses (length s.output) xs s.symtable_label ≡ ok table
      → bytes_program table (length s.output) xs ≡ ok b
      → Taken xs s

  plain-Takes :
      (x : Stmt R) (xs : List (Stmt R)) (s : Assembler) (b : List ℕ)
      → IsPlain x
      → IsSpaced 0 (length s.output) s.label_pending
      → Waits table s.symtable_label s.label_pending
      → addresses (length s.output + size (length s.output) x) xs s.symtable_label ≡ ok table
      → bytes_program table (length s.output) (x ∷ xs) ≡ ok b
      → Takes xs
      → Taken (x ∷ xs) s
  unfolding bytes_program do_parse
  plain-Takes x xs s b plain h w labels bytes rest =
      let at = length s.output in
      let ext = addresses-Extends xs (at + size at x) s.symtable_label table labels in
      let (b1, e1, later) = bind-eq-ok (bytes_stmt table at x) _ b bytes in
      let (b2, e2, _) = bind-eq-ok (bytes_program table (at + size at x) xs) _ b later in
      let (u, added, same, waits) = add_stmt-Accepts table x s b1 plain e1 ext w in
      let c = add_stmt-Chain table x s u plain ext h added in
      let (t, parsed, left) =
        rest u b2 c.spaced waits (rw (c.longer, same) labels) (rw c.longer e2) in
      (t, rw added parsed, left)

  do_parse-Takes : (xs : List (Stmt R)) → Takes xs
  unfolding do_parse addresses bytes_program add_stmt bytes_stmt
  do_parse-Takes [] s b h w labels bytes =
      (s, refl, Waits-nothing table s.symtable_label s.label_pending (ok_injective labels) w)
  do_parse-Takes (align n ∷ xs) s b h w labels bytes =
      plain-Takes (align n) xs s b (λ l c. cc) h w labels bytes (do_parse-Takes xs)
  do_parse-Takes (zeros n ∷ xs) s b h w labels bytes =
      plain-Takes (zeros n) xs s b (λ l c. cc) h w labels bytes (do_parse-Takes xs)
  do_parse-Takes (items ys ∷ xs) s b h w labels bytes =
      plain-Takes (items ys) xs s b (λ l c. cc) h w labels bytes (do_parse-Takes xs)
  do_parse-Takes (inst o ps ∷ xs) s b h w labels bytes =
      plain-Takes (inst o ps) xs s b (λ l c. cc) h w labels bytes (do_parse-Takes xs)
  do_parse-Takes (define l ∷ xs) s b h w labels bytes =
      let at = length s.output in
      let (new, after) = addresses-define l xs at s.symtable_label table labels in
      let ext = addresses-Extends xs at ((l, at) ∷ s.symtable_label) table after in
      let here : lookup l table ≡ some at = ext l at (rw ((eq_iff l l).1 refl) refl) in
      let (t, added, d, waits) = add_label-ok table l s new here w in
      let (same, spaced) = Defined-IsSpaced l s t h d in
      let from : at + 0 ≡ length t.output = omega (arith, same) in
      let (bs, found, _) = bind-eq-ok (bytes_program table (at + 0) xs) _ b bytes in
      let (u, parsed, left) =
        do_parse-Takes xs t bs spaced waits (rw (same, d.labels) after) (rw (← from) found) in
      (u, rw added parsed, left)

module _ {R : Reals} where
  accepted :
      (program : List (Stmt R)) (image : List ℕ)
      → two_pass program ≡ ok image
      → main program ≡ ok image
  unfolding main two_pass init finish
  accepted program image h =
      let (table, labels, bytes) =
        bind-eq-ok (addresses 0 program []) (λ table. bytes_program table 0 program) image h in
      let (t, parsed, left) =
        do_parse-Takes table program init image (omega arith) tt labels bytes in
      let made : main program ≡ ok t.output = rw (parsed, left) refl in
      let same : ok t.output ≡ ok image = sym (two_pass-main program t.output made) ∙ h in
      made ∙ same

  -- A program has an image by assemble.py exactly when it has one by an assembler in two passes, which
  -- finds the addresses of all labels first and writes the bytes then, and the images are the same:
  -- every operand that is a label, before or behind its definition, becomes the address of the label.
  pub main-two_pass :
      (program : List (Stmt R)) (image : List ℕ)
      → (main program ≡ ok image) ↔ (two_pass program ≡ ok image)
  main-two_pass program image = (two_pass-main program image, accepted program image)
