-- ===== src/Mmu/Coherence.antt =====
-- The cache before `MMU.get_address` (compyter/mmu.py) against the memory behind it.
use mathlib.Core.Path.{subst}
use compyter.Prelude.{
  ℕ, zero, suc, ◌≤◌, ◌≡◌, ◌∙◌, sym, ap, refl, arith, inl, inr, Option, none, some, List, [], ◌∷◌,
  true, false, take, length, length-take-le, Option-cases, Bool-cases, if◌then◌else◌,
}
use compyter.Prelude.Int.{ℤ, pos, eqb_ℤ}
use compyter.Result.{Result, ok}
use compyter.Exec.{modify, ◌>>=◌, ◌>>◌}
use compyter.Memory.{Bus, Memory}
use compyter.Memory
use compyter.Memory.Cells.{IsCell, cell, get_item-cell}
use compyter.Cache.{lookup, without, cached-hit, cached-miss, hit, store, max_size}
use compyter.Machine.{Machine, AddressKey}
use compyter.Register.{has_bit, mmu_enable, status_bit}
use compyter.Mmu.{same_key, same_mask, find_address, get_address, translate}

eqb_ℤ-eq : (a b : ℤ) → eqb_ℤ a b ≡ true → a ≡ b
eqb_ℤ-eq a b h = ground arith

same_key-addr : (j k : AddressKey) → same_key j k ≡ true → j.addr ≡ k.addr
same_key-addr j k h = eqb_ℤ-eq j.addr k.addr (ground (arith, h))

pub length-without :
    (k : AddressKey) (v : ℕ) (c : List (AddressKey × ℕ))
    → lookup same_key k c ≡ some v
    → suc (length (without same_key k c)) ≡ length c
length-without k v [] found = absurd (ground arith)
length-without k v ((j, w) ∷ c) found = elim (Bool-cases (same_key j k)) [
  | inl h ↦ rw h refl
  | inr h ↦ rw h (
      ap suc (
        length-without k v c
          (subst (λ b. (if b then some w else lookup same_key k c) ≡ some v) h found)))
]

same_mask_refl : (m : Option ℤ) → same_mask m m ≡ true
same_mask_refl none = refl
same_mask_refl (some a) = ground arith

same_key_refl : (k : AddressKey) → same_key k k ≡ true
same_key_refl k = ground (arith, same_mask_refl k.mask)

module _ {B : Bus} where
  -- An entry tells the truth about a cell.
  abbrev pub Entry : Memory B → AddressKey → ℕ → Type 0
  Entry m k v = (a : ℕ) → k.addr ≡ pos a → IsCell m a → Memory.get_item m (pos a) ≡ ok v

  abbrev pub Entries : Memory B → List (AddressKey × ℕ) → Type 0
  Entries m [] = Unit
  Entries m ((k, v) ∷ c) = Entry m k v × Entries m c

  abbrev pub Coherent : Machine B → Type 0
  Coherent s = Entries s.memory s.address_cache × (length s.address_cache ≤ max_size)

  pub lookup-Entry :
      (m : Memory B) (k : AddressKey) (v : ℕ) (c : List (AddressKey × ℕ))
      → Entries m c
      → lookup same_key k c ≡ some v
      → Entry m k v
  lookup-Entry m k v [] entries found = absurd (ground arith)
  lookup-Entry m k v ((j, w) ∷ c) (e, entries) found = elim (Bool-cases (same_key j k)) [
    | inl h ↦
        let same : ◌≡◌ {A = Option ℕ} (some w) (some v) =
          subst (λ b. (if b then some w else lookup same_key k c) ≡ some v) h found in
        λ a at_a is_cell. e a (same_key-addr j k h ∙ at_a) is_cell ∙ ap ok (ground (arith, same))
    | inr h ↦
        lookup-Entry m k v c entries
          (subst (λ b. (if b then some w else lookup same_key k c) ≡ some v) h found)
  ]

  pub without-Entries :
      (m : Memory B) (k : AddressKey) (c : List (AddressKey × ℕ))
      → Entries m c
      → Entries m (without same_key k c)
  without-Entries m k [] entries = entries
  without-Entries m k ((j, w) ∷ c) (e, entries) = elim (Bool-cases (same_key j k)) [
    | inl h ↦ rw h entries
    | inr h ↦ rw h (e, without-Entries m k c entries)
  ]

  pub take-Entries :
      (m : Memory B) (n : ℕ) (c : List (AddressKey × ℕ)) → Entries m c → Entries m (take n c)
  take-Entries m zero c entries = tt
  take-Entries m (suc n) [] entries = tt
  take-Entries m (suc n) ((k, v) ∷ c) (e, entries) = (e, take-Entries m n c entries)

  pub find_address-off :
      (addr : ℤ) (s : Machine B)
      → has_bit mmu_enable s ≡ false
      → find_address addr s ≡ (Memory.get_item s.memory addr, s)
  unfolding find_address translate ◌>>=◌ status_bit
  find_address-off addr s off = rw off refl

  abbrev pub with_cache : List (AddressKey × ℕ) → Machine B → Machine B
  with_cache c s = record s { address_cache = c }

  pub hit_lem :
      (addr : ℤ) (mask : Option ℤ) (v : ℕ) (s : Machine B)
      → lookup same_key (record { addr = addr; mask = mask }) s.address_cache ≡ some v
      → get_address addr mask s ≡ (
        ok v,
        with_cache (hit same_key (record { addr = addr; mask = mask }) v s.address_cache) s,
      )
  unfolding get_address
  hit_lem addr mask v s found = cached-hit same_key _ _ _ _ s v found

  pub miss_lem :
      (addr : ℤ) (mask : Option ℤ) (v : ℕ) (s : Machine B)
      → lookup same_key (record { addr = addr; mask = mask }) s.address_cache ≡ none
      → has_bit mmu_enable s ≡ false
      → Memory.get_item s.memory addr ≡ ok v
      → get_address addr mask s ≡ (
        ok v,
        with_cache (store same_key (record { addr = addr; mask = mask }) v s.address_cache) s,
      )
  unfolding get_address ◌>>=◌
  miss_lem addr mask v s missing off held =
      cached-miss same_key _ _ _ (find_address addr) s missing
      ∙ rw (find_address-off addr s off, held) refl

  fresh :
      (m : Memory B) (a : ℕ) (mask : Option ℤ)
      → IsCell m a
      → Entry m (record { addr = pos a; mask = mask }) (cell m a)
  fresh m a mask is_cell b at_b is_cell_b =
      subst (λ c. Memory.get_item m (pos c) ≡ ok (cell m a)) (ground (arith, at_b))
        (get_item-cell m a is_cell)

  -- What a read of a cell is to do.
  abbrev pub ReadsCell : ℕ → Machine B → Result ℕ × Machine B → Type 0
  ReadsCell a s (result, s') =
      (result ≡ Memory.get_item s.memory (pos a))
      × (Coherent s')
      × (s' ≡ with_cache s'.address_cache s)

  -- With the MMU off, a read of a cell of memory through the cache gives what memory holds, whatever
  -- was read before: it is the uncached read, as long as every entry of the cache agrees with memory
  -- and there are at most 128. It changes nothing but the cache, and keeps both conditions.
  pub get_address-ReadsCell :
      (a : ℕ) (mask : Option ℤ) (s : Machine B)
      → has_bit mmu_enable s ≡ false
      → IsCell s.memory a
      → Coherent s
      → ReadsCell a s (get_address (pos a) mask s)
  unfolding hit store
  get_address-ReadsCell a mask s off is_cell (entries, fits) =
      let key : AddressKey = record { addr = pos a; mask = mask } in
      let held = get_item-cell s.memory a is_cell in
      elim (Option-cases (lookup same_key key s.address_cache)) [
        | inl missing ↦ subst (ReadsCell a s) (sym (miss_lem (pos a) mask _ s missing off held)) (
          sym held,
          (
            take-Entries s.memory max_size ((key, cell s.memory a) ∷ s.address_cache)
                (fresh s.memory a mask is_cell, entries),
            length-take-le max_size ((key, cell s.memory a) ∷ s.address_cache),
          ),
          refl,
        )
        | inr (v, found) ↦
            let e = lookup-Entry s.memory key v s.address_cache entries found in
            subst (ReadsCell a s) (sym (hit_lem (pos a) mask v s found)) (
              sym (e a refl is_cell),
              (
                (e, without-Entries s.memory key s.address_cache entries),
                omega (arith, length-without key v s.address_cache found),
              ),
              refl,
            )
      ]

  -- With the MMU off, a read that misses the cache and finds `v`, and the next read of the address
  -- with the same access, return `v` both, even when the devices and the memory have become any
  -- others between the two: a register of a device reads as it first did until a store clears the
  -- cache.
  pub get_address-again :
      (addr : ℤ) (mask : Option ℤ) (v : ℕ) (s : Machine B) (m : Memory B)
      → has_bit mmu_enable s ≡ false
      → lookup same_key (record { addr = addr; mask = mask }) s.address_cache ≡ none
      → Memory.get_item s.memory addr ≡ ok v
      → ((do get_address addr mask; modify (λ s'. record s' { memory = m }); get_address addr mask)
          s).0
        ≡ ok v
  unfolding ◌>>=◌ store
  get_address-again addr mask v s m off cold held =
      let key : AddressKey = record { addr = addr; mask = mask } in
      rw (miss_lem addr mask v s cold off held) (
        ap (λ r. r.0)
          (hit_lem addr mask v
            (record (with_cache (store same_key key v s.address_cache) s) { memory = m })
            (rw (same_key_refl key) refl)))
