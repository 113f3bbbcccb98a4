-- ===== src/Mmu/Enabled.antt =====
-- Accesses with the MMU on (compyter/mmu.py): the test `pte & mask` raises a TypeError.
use compyter.Prelude.{ℕ, ◌≡◌, refl, true, Option, Option-cases, none, inl, inr, List}
use compyter.Prelude.Int.{ℤ, eqb_ℤ}
use compyter.Result.{Result, ok, err, Exception, type_error}
use compyter.Exec.{Exec, raise, reads, modify, ◌>>=◌, ◌>>◌, pure, continue}
use compyter.Memory.{Bus}
use compyter.Pte.{Pte}
use compyter.Cache
use compyter.Machine.{Machine}
use compyter.Register.{status_bit, mmu_enable, has_bit}
use compyter.Mmu.{same_key, find_pte, get_pte, translate, find_address, get_address, write_address}

module _ {B : Bus} where
  -- An access that raises, and leaves the memory, the devices and the registers alone.
  abbrev pub Raises : {A : Type 0} → Machine B → Result A × Machine B → Type 0
  Raises s (r, t) =
      (e : Exception) × (r ≡ err e) × (t.memory ≡ s.memory) × (t.registers ≡ s.registers)

  -- Whatever it returns or raises, nothing but the caches differs.
  abbrev Leaves : {A : Type 0} → Machine B → Result A × Machine B → Type 0
  Leaves s (r, t) = (t.memory ≡ s.memory) × (t.registers ≡ s.registers)

  abbrev view : Machine B → List (ℤ × (ℕ × Pte))
  view s = s.pte_cache

  abbrev write : List (ℤ × (ℕ × Pte)) → Machine B → Machine B
  write c s = record s { pte_cache = c }

  stored-Leaves :
      (addr : ℤ) (s : Machine B) (r : Result (ℕ × Pte))
      → find_pte addr s ≡ r
      → Leaves s (
          (do
            v ← reads (find_pte addr)
            modify (λ s'. write (Cache.store eqb_ℤ addr v (view s')) s')
            pure v)
            s)
  unfolding ◌>>=◌
  stored-Leaves addr s (ok v) h = rw h (refl, refl)
  stored-Leaves addr s (err e) h = rw h (refl, refl)

  get_pte-Leaves : (addr : ℤ) (s : Machine B) → Leaves s (get_pte addr s)
  unfolding get_pte
  get_pte-Leaves addr s = elim (Option-cases (Cache.lookup eqb_ℤ addr s.pte_cache)) [
    | inl missing ↦
        rw (Cache.cached-miss eqb_ℤ view write addr (reads (find_pte addr)) s missing)
          (stored-Leaves addr s (find_pte addr s) refl)
    | inr (entry, found) ↦
        rw (Cache.cached-hit eqb_ℤ view write addr (reads (find_pte addr)) s entry found)
          (refl, refl)
  ]

  raised_after :
      {A C : Type 0} (s : Machine B) (r : Result A × Machine B)
      → Leaves s r
      → Raises s (continue {B = C} (r.0) (λ _. raise type_error) (r.1))
  unfolding raise
  raised_after s (ok a, t) h = (type_error, refl, h.0, h.1)
  raised_after s (err e, t) h = (e, refl, h.0, h.1)

  pub translate-Raises :
      (addr : ℤ) (s : Machine B) → has_bit mmu_enable s ≡ true → Raises s (translate addr s)
  unfolding translate ◌>>=◌ status_bit
  translate-Raises addr s on = rw on (raised_after s (get_pte addr s) (get_pte-Leaves addr s))

  pub after_raise :
      {A C : Type 0} (s : Machine B) (r : Result A × Machine B) (next : A → Exec (Machine B) C)
      → Raises s r
      → Raises s (continue (r.0) next (r.1))
  after_raise s (ok a, t) next (e, h, same, kept) = cc
  after_raise s (err d, t) next (e, h, same, kept) = (d, refl, same, kept)

  -- With the MMU on, no access gets through: a read of an address that no cache holds and a write to any
  -- address raise, whatever the page tables say, and leave the memory, the devices and the registers
  -- as they were.
  pub get_address-Raises :
      (addr : ℤ) (mask : Option ℤ) (val : ℕ) (s : Machine B)
      → has_bit mmu_enable s ≡ true
      → Cache.lookup same_key (record { addr = addr; mask = mask }) s.address_cache ≡ none
      → Raises s (get_address addr mask s) × Raises s (write_address addr val s)
  unfolding get_address write_address find_address ◌>>=◌
  get_address-Raises addr mask val s on missing =
      let first = translate-Raises addr s on in
      (
        rw
            (Cache.cached-miss same_key (λ u. u.address_cache)
              (λ c u. record u { address_cache = c }) (record { addr = addr; mask = mask })
              (find_address addr) s missing)
            (after_raise s (find_address addr s) _ (after_raise s (translate addr s) _ first)),
        after_raise s (translate addr s) _ first,
      )
