-- ===== src/Cpu/Keeps/Accesses.antt =====
-- The loads and stores of compyter/cpu.py and the cache before `MMU.get_address`.
use mathlib.Core.Path.{subst}
use compyter.Prelude.{
  ℕ, ◌≡◌, refl, sym, arith, true, Option, ◌∷◌, length-take-le, Bool-cases, Option-cases, inl, inr,
}
use compyter.Prelude.Int.{ℤ, eqb_ℤ}
use compyter.Result.{Result, ok, err}
use compyter.Exec.{Exec, pure, reads, modify, continue, ◌>>=◌, ◌>>◌}
use compyter.Memory.{Bus, Memory}
use compyter.Memory
use compyter.Cache
use compyter.Cache.{max_size}
use compyter.Machine.{Machine, AddressKey}
use compyter.Register.{has_bit, mmu_enable}
use compyter.Mmu.{same_key, find_pte, get_pte, translate, find_address, get_address, clear_cache}
use compyter.Mmu.Coherence.{
  Coherent, Entry, take-Entries, find_address-off, with_cache, hit_lem, without-Entries,
  lookup-Entry, length-without,
}
use compyter.Mmu.Enabled.{Raises, translate-Raises, after_raise}
use compyter.Cpu.Keeps.{
  Kept, Keeps, keeps, bind-Keeps, modify-Keeps, pure-Keeps, reads-Keeps, status_bit-Keeps,
}

module _ {B : Bus} where
  -- A call through the cache of another method.
  get_pte-Keeps : (addr : ℤ) → Keeps {B = B} (get_pte addr)
  unfolding get_pte
  get_pte-Keeps addr = record { kept = λ s c. called s c }
    where
      called : (s : Machine B) → Coherent s → Kept (get_pte addr s)
      called s c = elim (Option-cases (Cache.lookup eqb_ℤ addr s.pte_cache)) [
        | inl missing ↦
            subst Kept (sym (Cache.cached-miss eqb_ℤ _ _ addr (reads (find_pte addr)) s missing)) (
              (bind-Keeps _ _ (reads-Keeps _)
                  (λ v. bind-Keeps _ _ (modify-Keeps _ (λ t d. d)) (λ u. pure-Keeps v))).kept
                s c)
        | inr (entry, found) ↦
            subst Kept (sym (Cache.cached-hit eqb_ℤ _ _ addr (reads (find_pte addr)) s entry found))
              c
      ]

  pub translate-Keeps : (addr : ℤ) → Keeps {B = B} (translate addr)
  unfolding translate
  translate-Keeps addr = search (keeps, status_bit-Keeps, get_pte-Keeps)

  find_address-Keeps : (addr : ℤ) → Keeps {B = B} (find_address addr)
  unfolding find_address
  find_address-Keeps addr = search (keeps, translate-Keeps)

  pub clear_cache-Keeps : Keeps {B = B} clear_cache
  unfolding clear_cache
  clear_cache-Keeps = modify-Keeps _ (λ s c. (tt, omega arith))

  -- What an access that misses stores tells the truth.
  found-Entry :
      (m : Memory B) (addr : ℤ) (mask : Option ℤ) (v : ℕ)
      → Memory.get_item m addr ≡ ok v
      → Entry m (record { addr = addr; mask = mask }) v
  found-Entry m addr mask v held a at_a is_cell = subst (λ i. Memory.get_item m i ≡ ok v) at_a held

  stored-Kept :
      (addr : ℤ) (mask : Option ℤ) (s : Machine B) (r : Result ℕ)
      → Coherent s
      → Memory.get_item s.memory addr ≡ r
      → Kept (
          continue r
            (λ v. do
              modify (λ t.
                  with_cache
                    (Cache.store same_key (record { addr = addr; mask = mask }) v t.address_cache)
                    t)
              pure v)
            s)
  unfolding ◌>>=◌ Cache.store
  stored-Kept addr mask s (err e) c held = λ caught. c
  stored-Kept addr mask s (ok v) (entries, fits) held =
      let key : AddressKey = record { addr = addr; mask = mask } in
      (
        take-Entries s.memory max_size ((key, v) ∷ s.address_cache)
            (found-Entry s.memory addr mask v held, entries),
        length-take-le max_size ((key, v) ∷ s.address_cache),
      )

  pub raised-Kept :
      {A C : Type 0} (s : Machine B) (r : Result A × Machine B) (f : A → Exec (Machine B) C)
      → Raises s r
      → Kept r
      → Kept (continue (r.0) f (r.1))
  raised-Kept s (ok a, t) f (e, raised, same, left) h = cc
  raised-Kept s (err d, t) f raises h = h

  find_address-Raises :
      (addr : ℤ) (s : Machine B) → has_bit mmu_enable s ≡ true → Raises s (find_address addr s)
  unfolding find_address ◌>>=◌
  find_address-Raises addr s on = after_raise s (translate addr s) _ (translate-Raises addr s on)

  missed-Kept :
      (addr : ℤ) (mask : Option ℤ) (s : Machine B)
      → Coherent s
      → Kept (
          (do
            v ← find_address addr
            modify (λ t.
                with_cache
                  (Cache.store same_key (record { addr = addr; mask = mask }) v t.address_cache)
                  t)
            pure v)
            s)
  unfolding ◌>>=◌
  missed-Kept addr mask s c = elim (Bool-cases (has_bit mmu_enable s)) [
    | inl on ↦
        raised-Kept s (find_address addr s) _ (find_address-Raises addr s on)
          ((find_address-Keeps addr).kept s c)
    | inr off ↦
        rw (find_address-off addr s off)
          (stored-Kept addr mask s (Memory.get_item s.memory addr) c refl)
  ]

  pub get_address-Keeps : (addr : ℤ) (mask : Option ℤ) → Keeps {B = B} (get_address addr mask)
  unfolding get_address Cache.hit
  get_address-Keeps addr mask = record { kept = λ s c. called s c }
    where
      called : (s : Machine B) → Coherent s → Kept (get_address addr mask s)
      called s (entries, fits) =
          let key : AddressKey = record { addr = addr; mask = mask } in
          elim (Option-cases (Cache.lookup same_key key s.address_cache)) [
            | inl missing ↦
                subst Kept (sym (Cache.cached-miss same_key _ _ key (find_address addr) s missing))
                  (missed-Kept addr mask s (entries, fits))
            | inr (v, found) ↦ subst Kept (sym (hit_lem addr mask v s found)) (
              (
                lookup-Entry s.memory key v s.address_cache entries found,
                without-Entries s.memory key s.address_cache entries,
              ),
              omega (arith, length-without key v s.address_cache found),
            )
          ]
