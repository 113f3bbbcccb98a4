-- ===== src/Result.antt =====
-- Python exceptions as values, and the operations of the language that raise them
-- (compyter/mmu.py and compyter/register.py declare the first three).
use Prim.Native.String.{String}
use compyter.Prelude.{
  ◌≡◌, refl, ℕ, suc, ◌-◌, Option, none, some, List, ltb, length, get_elem?, if◌then◌else◌,
}
use compyter.Prelude.Int.{ℤ, pos, negsuc, ◌<<ℤ◌, ◌>>ℤ◌}

-- `system_exit` is what `quit()` raises; the two about labels are the `Exception`s of assemble.py. The
-- others are raised by the interpreter itself or its library; no code catches them, so they end the
-- program.
pub data Exception : Type 0 where
  page_fault : ℤ → Exception
  invalid_base_pointer privilege system_exit : Exception
  index_error type_error value_error name_error assertion_error recursion_error : Exception
  struct_error overflow_error zero_division_error unresolved_labels : Exception
  attribute_error os_error : Exception
  duplicate_label key_error : String → Exception

pub data Result {ℓ} (A : Type ℓ) : Type ℓ where
  ok : A → Result A
  err : Exception → Result A

infixl 5 ◌>>=◌
abbrev pub ◌>>=◌ {ℓ κ} : {A : Type ℓ} {B : Type κ} → Result A → (A → Result B) → Result B
ok a >>= f = f a
err e >>= f = err e

-- Two ways on from a result are equal when they are for its value.
pub bind_cong {ℓ κ} :
    {A : Type ℓ} {B : Type κ} (m : Result A) (f g : A → Result B)
    → ((a : A) → m ≡ ok a → f a ≡ g a)
    → (m >>= f) ≡ (m >>= g)
bind_cong (ok a) f g h = h a refl
bind_cong (err e) f g h = refl

pub bind_assoc {ℓ κ μ} :
    {A : Type ℓ} {B : Type κ} {C : Type μ} (m : Result A) (f : A → Result B) (g : B → Result C)
    → ((m >>= f) >>= g) ≡ (m >>= λ a. f a >>= g)
bind_assoc (ok a) f g = refl
bind_assoc (err e) f g = refl

pub ok_injective {ℓ} : {A : Type ℓ} {a b : A} → ok a ≡ ok b → a ≡ b
ok_injective h = cc

-- A result that is reached has a value to come from.
pub bind-eq-ok {ℓ κ} :
    {A : Type ℓ} {B : Type κ} (m : Result A) (f : A → Result B) (b : B)
    → (m >>= f) ≡ ok b
    → (a : A) × (m ≡ ok a) × (f a ≡ ok b)
bind-eq-ok (ok a) f b h = (a, refl, h)
bind-eq-ok (err e) f b h = cc

abbrev pub map_ok {ℓ κ} : {A : Type ℓ} {B : Type κ} → (A → B) → Result A → Result B
map_ok f (ok a) = ok (f a)
map_ok f (err e) = err e

abbrev pub or_raise {ℓ} : {A : Type ℓ} → Option A → Exception → Result A
or_raise none e = err e
or_raise (some a) e = ok a

-- The place that an index names in a sequence of `n` items; a negative one counts from the end.
abbrev pub place : ℤ → ℕ → Option ℕ
place (pos i) n = if ltb i n then some i else none
place (negsuc i) n = if ltb i n then some (n - suc i) else none

-- `xs[i]`
abbrev pub index {ℓ} : {A : Type ℓ} → List A → ℤ → Result A
index xs i =
    or_raise (place i (length xs)) index_error >>= λ p. or_raise (get_elem? xs p) index_error

-- `a << k` and `a >> k`
abbrev pub shift_left : ℤ → ℤ → Result ℤ
shift_left a (pos k) = ok (a <<ℤ k)
shift_left a (negsuc k) = err value_error

abbrev pub shift_right : ℤ → ℤ → Result ℤ
shift_right a (pos k) = ok (a >>ℤ k)
shift_right a (negsuc k) = err value_error
