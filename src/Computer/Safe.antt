-- ===== src/Computer/Safe.antt =====
-- The devices raise nothing that the processor catches (compyter/cpu.py): what their registers are
-- made of (compyter/util.py, compyter/hardware/).
pub mod Devices
use compyter.Prelude.{
  ℕ, ◌≡◌, refl, true, false, Bool, Option, none, some, List, length, get_elem?, bit_and,
  if◌then◌else◌,
}
use compyter.Prelude.Int.{ℤ, pos, negsuc, ◌-ℤ◌, ◌*ℤ◌}
use compyter.Result.{
  Exception, Result, ok, err, ◌>>=◌, map_ok, or_raise, place, index, index_error, shift_left,
  value_error,
}
use compyter.Exec.{⊤}
use compyter.Util.{mask_table, set_word_byte}
use compyter.Memory.{set_index}
use compyter.Hardware.Internet.Quad.{quad_mask_table, set_quad_byte}
use compyter.Cpu.Keeps.{is_caught}

-- The result is no exception that the processor catches.
abbrev pub Spared : {A : Type 0} → Result A → Type 0
Spared (ok a) = ⊤
Spared (err e) = is_caught e ≡ false

pub Spared-err :
    {A : Type 0} (r : Result A) (e : Exception) → Spared r → r ≡ err e → is_caught e ≡ false
Spared-err (ok a) e h same = cc
Spared-err (err x) e h same = cc

pub record Safe {A : Type 0} (r : Result A) : Type 0 where
  pub spared : Spared r

pub ok-Safe : {A : Type 0} (a : A) → Safe (ok a)
ok-Safe a = record { spared = tt }

pub err-Safe : (A : Type 0) (e : Exception) → is_caught e ≡ false → Safe {A = A} (err e)
err-Safe A e h = record { spared = h }

pub if-Safe : {A : Type 0} (b : Bool) (q r : Result A) → Safe q → Safe r → Safe (if b then q else r)
if-Safe true q r hq hr = hq
if-Safe false q r hq hr = hr

pub map_ok-Safe : {A C : Type 0} (f : A → C) (r : Result A) → Safe r → Safe (map_ok f r)
map_ok-Safe f (ok a) h = ok-Safe (f a)
map_ok-Safe f (err e) h = record { spared = h.spared }

bind-Safe :
    {A C : Type 0} (r : Result A) (f : A → Result C)
    → Safe r
    → ((a : A) → Safe (f a))
    → Safe (r >>= f)
bind-Safe (ok a) f h next = next a
bind-Safe (err e) f h next = record { spared = h.spared }

or_index_error-Safe : {A : Type 0} (o : Option A) → Safe (or_raise o index_error)
or_index_error-Safe none = err-Safe _ index_error refl
or_index_error-Safe (some a) = ok-Safe a

index-Safe : {A : Type 0} (xs : List A) (i : ℤ) → Safe (index xs i)
index-Safe xs i =
    bind-Safe (or_raise (place i (length xs)) index_error) _
      (or_index_error-Safe (place i (length xs))) (λ p. or_index_error-Safe (get_elem? xs p))

shift_left-Safe : (a k : ℤ) → Safe (shift_left a k)
shift_left-Safe a (pos k) = ok-Safe _
shift_left-Safe a (negsuc k) = err-Safe _ value_error refl

pub ruleset safe = (ok-Safe, if-Safe, map_ok-Safe)

pub set_index-Safe : (xs : List ℕ) (i : ℤ) (v : ℕ) → Safe (set_index xs i v)
set_index-Safe xs i v = map_ok-Safe _ _ (or_index_error-Safe (place i (length xs)))

pub set_word_byte-Safe : (n byte : ℤ) (v : ℕ) → Safe (set_word_byte n byte v)
unfolding set_word_byte
set_word_byte-Safe n byte v = bind-Safe _ _ (index-Safe mask_table (pos 3 -ℤ byte)) (λ m.
    bind-Safe _ _ (shift_left-Safe (pos (bit_and v 0xff)) ((pos 3 -ℤ byte) *ℤ pos 8))
      (λ w. ok-Safe _))

pub set_quad_byte-Safe : (n byte : ℤ) (v : ℕ) → Safe (set_quad_byte n byte v)
unfolding set_quad_byte
set_quad_byte-Safe n byte v = bind-Safe _ _ (index-Safe quad_mask_table (pos 15 -ℤ byte)) (λ m.
    bind-Safe _ _ (shift_left-Safe (pos (bit_and v 0xff)) ((pos 15 -ℤ byte) *ℤ pos 8))
      (λ w. ok-Safe _))
