-- ===== src/Memory/Cells.antt =====
-- The cells of memory (compyter/memory.py): the addresses of RAM and of the trap vectors, which keep
-- the byte that is written to them.
use compyter.Prelude.{
  ℕ, zero, suc, ◌-◌, ◌%◌, ◌^◌, ◌<◌, ◌≤◌, ◌≡◌, ◌≢◌, ◌∙◌, ap, refl, arith, ◌⊎◌, inl, inr, none, some,
  List, [], ◌∷◌, true, false, leb, ltb, length, set, get_elem?, get_elem?-set_self,
  get_elem?-set_ne, length-set, if◌then◌else◌, lt→ltb, leb→le, Bool-cases, Option-cases,
}
use compyter.Prelude.Int.{pos}
use compyter.Prelude.Bits.{bit_and_mask}
use compyter.Result.{ok, index, ◌>>=◌}
use compyter.Memory.{Bus, Memory, trap_base, get_item, set_item, set_index}

-- The byte of a list, 0 out of range.
abbrev pub byte_at : List ℕ → ℕ → ℕ
byte_at xs i = elim (get_elem? xs i) [ some b ↦ b | none ↦ 0 ]

get_elem?-byte_at : (xs : List ℕ) (i : ℕ) → i < length xs → get_elem? xs i ≡ some (byte_at xs i)
get_elem?-byte_at [] i h = elim h [ ]
get_elem?-byte_at (x ∷ xs) zero h = refl
get_elem?-byte_at (x ∷ xs) (suc i) h = get_elem?-byte_at xs i (omega arith)

pub index-set_ne : (xs : List ℕ) (i j v : ℕ) → i ≢ j → index (set xs i v) (pos j) ≡ index xs (pos j)
index-set_ne xs i j v ne = elim (Bool-cases (ltb j (length xs))) [
  | inl h ↦ rw (length-set xs i v, h, get_elem?-set_ne xs i j v ne) refl
  | inr h ↦ rw (length-set xs i v, h) refl
]

byte_at-set_self : (xs : List ℕ) (i v : ℕ) → i < length xs → byte_at (set xs i v) i ≡ v
byte_at-set_self xs i v h = rw (byte_at, get_elem?-set_self xs i v h) refl

index-byte_at : (xs : List ℕ) (i : ℕ) → i < length xs → index xs (pos i) ≡ ok (byte_at xs i)
index-byte_at xs i h = rw (lt→ltb i (length xs) h, get_elem?-byte_at xs i h) refl

pub index-set_self : (xs : List ℕ) (i v : ℕ) → i < length xs → index (set xs i v) (pos i) ≡ ok v
index-set_self xs i v h =
    rw (length-set xs i v, lt→ltb i (length xs) h, get_elem?-set_self xs i v h) refl

pub set_index-set :
    (xs : List ℕ) (i v : ℕ) → i < length xs → set_index xs (pos i) v ≡ ok (set xs i v)
set_index-set xs i v h = rw (lt→ltb i (length xs) h) refl

module _ {B : Bus} where
  -- RAM that no device hides, and the trap vectors.
  pub record IsRam (m : Memory B) (a : ℕ) : Type 0 where
    pub below : a < trap_base
    pub free : m.hardware_mmio a ≡ none
    pub inside : a < length m.memory

  pub record IsVector (m : Memory B) (a : ℕ) : Type 0 where
    pub above : trap_base ≤ a
    pub inside : a - trap_base < length m.trap_vectors

  abbrev pub IsCell : Memory B → ℕ → Type 0
  IsCell m a = IsRam m a ⊎ IsVector m a

  abbrev ram_written : Memory B → ℕ → ℕ → Memory B
  ram_written m a v = record m { memory = set m.memory a (v % 2 ^ 8) }

  abbrev vector_written : Memory B → ℕ → ℕ → Memory B
  vector_written m a v = record m { trap_vectors = set m.trap_vectors (a - trap_base) (v % 2 ^ 8) }

  -- The memory after a write to a cell.
  abbrev pub written : Memory B → ℕ → ℕ → Memory B
  written m a v = if leb trap_base a then vector_written m a v else ram_written m a v

  -- The byte in a cell.
  abbrev pub cell : Memory B → ℕ → ℕ
  cell m a = if leb trap_base a then byte_at m.trap_vectors (a - trap_base) else byte_at m.memory a

  pub get_item-cell : (m : Memory B) (a : ℕ) → IsCell m a → get_item m (pos a) ≡ ok (cell m a)
  unfolding get_item
  get_item-cell m a (inl c) =
      let below : leb trap_base a ≡ false = ground (arith, c.below) in
      rw (below, c.free) (index-byte_at m.memory a c.inside)
  get_item-cell m a (inr c) =
      let above : leb trap_base a ≡ true = ground (arith, c.above) in
      rw above (index-byte_at m.trap_vectors (a - trap_base) c.inside)

  pub set_item-written :
      (m : Memory B) (a v : ℕ) → IsCell m a → set_item m (pos a) v ≡ ok (written m a v)
  unfolding set_item
  set_item-written m a v (inl c) =
      let below : leb trap_base a ≡ false = ground (arith, c.below) in
      rw (below, c.free, bit_and_mask 8 v, set_index-set m.memory a (v % 2 ^ 8) c.inside) refl
  set_item-written m a v (inr c) =
      let above : leb trap_base a ≡ true = ground (arith, c.above) in
      rw
        (above, bit_and_mask 8 v, set_index-set m.trap_vectors (a - trap_base) (v % 2 ^ 8) c.inside)
        refl

  other_ram :
      (m : Memory B) (a b v : ℕ) → a ≢ b → get_item (ram_written m a v) (pos b) ≡ get_item m (pos b)
  unfolding get_item
  other_ram m a b v ne = elim (Bool-cases (leb trap_base b)) [
    | inl h ↦ rw h refl
    | inr h ↦ elim (Option-cases (m.hardware_mmio b)) [
      | inl e ↦ rw (h, e) (index-set_ne m.memory a b (v % 2 ^ 8) ne)
      | inr (d, e) ↦ rw (h, e) refl
    ]
  ]

  other_vector :
      (m : Memory B) (a b v : ℕ)
      → trap_base ≤ a
      → a ≢ b
      → get_item (vector_written m a v) (pos b) ≡ get_item m (pos b)
  unfolding get_item
  other_vector m a b v above ne = elim (Bool-cases (leb trap_base b)) [
    | inl h ↦ rw h (
        index-set_ne m.trap_vectors (a - trap_base) (b - trap_base) (v % 2 ^ 8)
          (λ e. ne (ground arith)))
    | inr h ↦ rw h refl
  ]

  -- A write to a cell, and a read of any address after it.
  pub get_item-written_ne :
      (m : Memory B) (a b v : ℕ) → a ≢ b → get_item (written m a v) (pos b) ≡ get_item m (pos b)
  get_item-written_ne m a b v ne = elim (Bool-cases (leb trap_base a)) [
    | inl h ↦ rw h (other_vector m a b v (leb→le trap_base a h) ne)
    | inr h ↦ rw h (other_ram m a b v ne)
  ]

  pub written-IsCell : (m : Memory B) (a b v : ℕ) → IsCell m b → IsCell (written m a v) b
  written-IsCell m a b v (inl c) = elim (Bool-cases (leb trap_base a)) [
    | inl h ↦ rw h (inl (record { below = c.below; free = c.free; inside = c.inside }))
    | inr h ↦ rw h (
        inl (record {
          below = c.below;
          free = c.free;
          inside = rw (length-set m.memory a (v % 2 ^ 8)) c.inside;
        }))
  ]
  written-IsCell m a b v (inr c) = elim (Bool-cases (leb trap_base a)) [
    | inl h ↦ rw h (
        inr (record {
          above = c.above;
          inside = rw (length-set m.trap_vectors (a - trap_base) (v % 2 ^ 8)) c.inside;
        }))
    | inr h ↦ rw h (inr (record { above = c.above; inside = c.inside }))
  ]

  pub cell-written : (m : Memory B) (a v : ℕ) → IsCell m a → cell (written m a v) a ≡ v % 2 ^ 8
  cell-written m a v (inl c) =
      let below : leb trap_base a ≡ false = ground (arith, c.below) in
      rw below (byte_at-set_self m.memory a (v % 2 ^ 8) c.inside)
  cell-written m a v (inr c) =
      let above : leb trap_base a ≡ true = ground (arith, c.above) in
      rw above (byte_at-set_self m.trap_vectors (a - trap_base) (v % 2 ^ 8) c.inside)

  pub get_item-written :
      (m : Memory B) (a v : ℕ) → IsCell m a → get_item (written m a v) (pos a) ≡ ok (v % 2 ^ 8)
  get_item-written m a v c =
      get_item-cell (written m a v) a (written-IsCell m a a v c) ∙ ap ok (cell-written m a v c)

  -- A write to a cell of memory, RAM that no device hides or a trap vector, succeeds: a read of the
  -- cell then gives the low byte of what was written, and a read of any other address, a device's
  -- included, gives what it gave before.
  pub set_item-get_item :
      (m : Memory B) (a b v : ℕ)
      → IsCell m a
      → a ≢ b
      → ((set_item m (pos a) v >>= λ m'. get_item m' (pos a)) ≡ ok (v % 2 ^ 8))
        × ((set_item m (pos a) v >>= λ m'. get_item m' (pos b)) ≡ get_item m (pos b))
  set_item-get_item m a b v c ne =
      rw (set_item-written m a v c) (get_item-written m a v c, get_item-written_ne m a b v ne)
