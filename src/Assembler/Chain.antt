-- ===== src/Assembler/Chain.antt =====
-- What a piece of source text adds to an assembler (assemble.py), in terms of the bytes that it stands
-- for when the addresses of all labels are known.
use Prim.Native.String.{String}
use mathlib.Core.List.{append-nil, append_assoc}
use compyter.Prelude.{
  ℕ, ◌+◌, ◌≡◌, refl, sym, ap, ◌∙◌, arith, some, List, [], ◌++◌, length, length-append,
}
use compyter.Result.{Result, ok, err, ◌>>=◌}
use compyter.Assembler.{Assembler, lookup, extend}
use compyter.Assembler.Patch.{IsSpaced, IsSpaced-weaken}
use compyter.Assembler.Places.{patch, patch-append}

abbrev pub Table : Type 0
Table = List (String × ℕ)

abbrev pub Extends : Table → Table → Type 0
Extends small table = (l : String) (a : ℕ) → lookup l small ≡ some a → lookup l table ≡ some a

-- From `s` to `t`: the bytes `r`, `n` of them, and no label.
pub record Chain (table : Table) (s t : Assembler) (r : Result (List ℕ)) (n : ℕ) : Type 0 where
  pub written :
      patch table t.label_pending t.output
      ≡ (patch table s.label_pending s.output >>= λ o. r >>= λ b. ok (o ++ b))
  pub spaced : IsSpaced 0 (length t.output) t.label_pending
  pub longer : length t.output ≡ length s.output + n
  pub same_labels : t.symtable_label ≡ s.symtable_label

append_bind :
    (m r q : Result (List ℕ))
    → ((m >>= λ o. r >>= λ b. ok (o ++ b)) >>= λ o. q >>= λ b. ok (o ++ b))
      ≡ (m >>= λ o. (r >>= λ b. q >>= λ c. ok (b ++ c)) >>= λ b. ok (o ++ b))
append_bind (err e) r q = refl
append_bind (ok o) (err e) q = refl
append_bind (ok o) (ok b) (err e) = refl
append_bind (ok o) (ok b) (ok c) = ap ok (append_assoc o b c)

pub bind_nothing : (m : Result (List ℕ)) → m ≡ (m >>= λ o. ok (o ++ []))
bind_nothing (ok o) = ap ok (sym (append-nil o))
bind_nothing (err e) = refl

-- What follows a piece follows the bytes of the piece.
pub written_after :
    (m n r q : Result (List ℕ)) (z : List ℕ)
    → n ≡ (m >>= λ o. r >>= λ b. ok (o ++ b))
    → (n >>= λ o. q >>= λ b. ok (o ++ b)) ≡ ok z
    → (m >>= λ o. (r >>= λ b. q >>= λ c. ok (b ++ c)) >>= λ b. ok (o ++ b)) ≡ ok z
written_after m n r q z e h = sym (append_bind m r q) ∙ (rw (← e) h)

module _ {table : Table} where
  pub done :
      (s : Assembler) → IsSpaced 0 (length s.output) s.label_pending → Chain table s s (ok []) 0
  done s h = record {
    written = bind_nothing (patch table s.label_pending s.output);
    spaced = h;
    longer = omega arith;
    same_labels = refl;
  }

  pub joined :
      {s t u : Assembler} {r q : Result (List ℕ)} {n k : ℕ}
      → Chain table s t r n
      → Chain table t u q k
      → Chain table s u (r >>= λ b. q >>= λ c. ok (b ++ c)) (n + k)
  joined {s} {r = r} {q = q} first second = record {
    written =
        second.written
        ∙ ap (λ m. m >>= λ o. q >>= λ b. ok (o ++ b)) first.written
        ∙ append_bind (patch table s.label_pending s.output) r q;
    spaced = second.spaced;
    longer = omega (arith, first.longer, second.longer);
    same_labels = second.same_labels ∙ first.same_labels;
  }

  pub extended :
      (bytes : List ℕ) (s : Assembler)
      → IsSpaced 0 (length s.output) s.label_pending
      → Chain table s (extend bytes s) (ok bytes) (length bytes)
  unfolding extend
  extended bytes s h = record {
    written = patch-append table 0 s.label_pending s.output bytes h;
    spaced =
        IsSpaced-weaken 0 0 (length s.output) (length (s.output ++ bytes)) s.label_pending
          (omega arith) (omega (arith, length-append s.output bytes)) h;
    longer = length-append s.output bytes;
    same_labels = refl;
  }

  -- With the bytes and their number as the reference has them.
  pub rewritten :
      {s t t' : Assembler} {r q : Result (List ℕ)} {n k : ℕ}
      → t ≡ t'
      → r ≡ q
      → n ≡ k
      → Chain table s t r n
      → Chain table s t' q k
  rewritten {s} {t} e f g c = rw (← e, ← f, ← g) c
