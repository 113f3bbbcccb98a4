-- ===== src/Pte/Access.antt =====
-- The properties `read`, `write` and `execute` of `PTE` in compyter/mmu.py.
use compyter.Prelude.Bits.{bit_and_bit, bit_or_bit}
use compyter.Prelude.{
  ℕ, ◌≡◌, ◌+◌, ◌-◌, ◌*◌, ◌/◌, ◌%◌, ◌^◌, arith, if◌then◌else◌, Bool, true, false, bit_and, bit_or,
  ltb,
}
use compyter.Prelude.Int.{and_not}
use compyter.Pte.{Pte}

-- A bit of `PTEAccess`.
pub data Access : Type 0 where
  execute write read : Access

abbrev pub bit : Access → ℕ
bit execute = 0x1
bit write = 0x2
bit read = 0x4

-- The getters, and the setters for a value that is true or false.
unfoldable pub is_allowed : Access → Pte → Bool
is_allowed b p = ltb 0 (bit_and p.rwx (bit b))

unfoldable pub set_allowed : Access → Bool → Pte → Pte
set_allowed b true p = record p { rwx = bit_or p.rwx (bit b) }
set_allowed b false p = record p { rwx = and_not p.rwx (bit b) }

abbrev pub same_access : Access → Access → Bool
same_access execute execute = true
same_access write write = true
same_access read read = true
same_access a b = false

abbrev pub place : Access → ℕ
place execute = 0
place write = 1
place read = 2

-- The digit at a place of a number.
abbrev digit : Access → ℕ → ℕ
digit b n = n / 2 ^ place b % 2

rwx_set : Access → Bool → ℕ → ℕ
rwx_set b true n = n + (1 - digit b n) * 2 ^ place b
rwx_set b false n = n - digit b n * 2 ^ place b

is_allowed-digit : (b : Access) (p : Pte) → is_allowed b p ≡ ltb 0 (digit b p.rwx)
unfolding is_allowed
is_allowed-digit execute p = ground (arith, bit_and_bit 0 p.rwx)
is_allowed-digit write p = ground (arith, bit_and_bit 1 p.rwx)
is_allowed-digit read p = ground (arith, bit_and_bit 2 p.rwx)

set_allowed-rwx_set :
    (b : Access) (c : Bool) (p : Pte) → (set_allowed b c p).rwx ≡ rwx_set b c p.rwx
unfolding set_allowed rwx_set
set_allowed-rwx_set execute true p = bit_or_bit 0 p.rwx
set_allowed-rwx_set write true p = bit_or_bit 1 p.rwx
set_allowed-rwx_set read true p = bit_or_bit 2 p.rwx
set_allowed-rwx_set execute false p = ground (arith, bit_and_bit 0 p.rwx)
set_allowed-rwx_set write false p = ground (arith, bit_and_bit 1 p.rwx)
set_allowed-rwx_set read false p = ground (arith, bit_and_bit 2 p.rwx)

digit-rwx_set :
    (b b' : Access) (c : Bool) (n : ℕ)
    → ltb 0 (digit b (rwx_set b' c n)) ≡ (if same_access b b' then c else ltb 0 (digit b n))
unfolding rwx_set
digit-rwx_set b b' true n = ground arith
digit-rwx_set b b' false n = ground arith

-- A bit that is set reads as it was set, and the other two as before.
pub is_allowed-set_allowed :
    (b b' : Access) (c : Bool) (p : Pte)
    → is_allowed b (set_allowed b' c p) ≡ (if same_access b b' then c else is_allowed b p)
is_allowed-set_allowed b b' c p =
    rw (is_allowed-digit b (set_allowed b' c p), set_allowed-rwx_set b' c p, is_allowed-digit b p)
      (digit-rwx_set b b' c p.rwx)
