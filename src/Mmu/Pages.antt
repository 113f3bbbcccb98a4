-- ===== src/Mmu/Pages.antt =====
-- The accesses of compyter/mmu.py to whole pages, `get_page` and `write_page`, and the write of an entry
-- back to the page tables. Nothing in the repository calls the first two.
pub mod RoundTrip
use compyter.Prelude.{ℕ, zero, suc, ◌*◌, ◌^◌, Bool, List, [], ◌∷◌, ◌&&◌, ltb, ◌==◌, if◌then◌else◌}
use compyter.Prelude.Int.{ℤ, pos, ◌+ℤ◌, ◌&ℤ◌, ◌>>ℤ◌, ◌<<ℤ◌, eqb_ℤ, ltb_ℤ}
use compyter.Result.{invalid_base_pointer, page_fault, name_error, index_error, map_ok}
use compyter.Exec.{⊤, Exec, pure, raise, reads, gets, modify, changes, ◌>>=◌, ◌>>◌}
use compyter.Memory.{Bus}
use compyter.Memory
use compyter.Pte.{Pte, to_bytes}
use compyter.Pte.Access.{write, is_allowed}
use compyter.Cache
use compyter.Machine.{Machine, PageKey}
use compyter.Register.{status_bit, mmu_enable}
use compyter.Mmu.{get_pte}

abbrev pub same_page : PageKey → PageKey → Bool
same_page a b = eqb_ℤ a.addr b.addr && eqb_ℤ a.mask b.mask

-- The entry that the cache of `get_pte` holds for an address is an object, so it changes there as well.
abbrev pub changed : (Pte → Pte) → ℤ → List (ℤ × (ℕ × Pte)) → List (ℤ × (ℕ × Pte))
changed f addr [] = []
changed f addr ((key, (size, pte)) ∷ c) =
    (if eqb_ℤ key addr then (key, (size, f pte)) else (key, (size, pte))) ∷ changed f addr c

module _ {B : Bus} where
  -- `self.memory[start:start+n] = data`: a byte of the slice that the data does not reach raises, and
  -- the bytes before it stay written.
  unfoldable pub set_bytes : ℤ → ℕ → List ℕ → Exec (Machine B) ⊤
  set_bytes start zero bytes = pure tt
  set_bytes start (suc n) [] = raise index_error
  set_bytes start (suc n) (b ∷ bytes) = do
    changes (λ s. map_ok (λ m. record s { memory = m }) (Memory.set_item s.memory start b))
    set_bytes (start +ℤ pos 1) n bytes

  -- `pte_writeback`: the name `pte_lvl1` is bound nowhere in it.
  unfoldable pub pte_writeback : ℤ → Pte → Exec (Machine B) ⊤
  unfolding set_bytes
  pte_writeback addr pte = do
    baseptr ← gets (λ s. s.baseptr)
    if ltb_ℤ (pos 0xffffffff) (baseptr +ℤ pos 4096)
        then raise invalid_base_pointer
        else let page_lvl1 = ((addr >>ℤ 12) &ℤ pos 0xffc00) >>ℤ 10 in
          if pte.phys == 0
          then raise name_error
          else set_bytes (baseptr +ℤ (page_lvl1 <<ℤ 2)) 4 (to_bytes pte)

  -- `self.vaddr = addr` and the exception.
  unfoldable pub fault : {A : Type 0} → ℤ → Exec (Machine B) A
  fault addr = do modify (λ s. record s { mmu_vaddr = addr }); raise (page_fault addr)

  -- A change of the entry, and its way back to the page table.
  unfoldable pub mark : (Pte → Pte) → ℤ → Pte → Exec (Machine B) ⊤
  unfolding pte_writeback
  mark f addr pte = do
    modify (λ s. record s { pte_cache = changed f addr s.pte_cache })
    pte_writeback addr (f pte)

  -- The body of `get_page`, and the method itself.
  unfoldable pub find_page : ℤ → ℤ → Exec (Machine B) (List ℕ)
  unfolding get_pte fault mark
  find_page addr mask = do
    on ← status_bit mmu_enable
    if on
        then (do
          (pagesize, pte) ← get_pte addr
          if eqb_ℤ (pos pte.rwx &ℤ mask) (pos 0) then fault addr else (do
            mark (λ p. record p { acc = 1 }) addr pte
            reads (λ s. Memory.get_slice s.memory (pos (pte.addr * 2 ^ 12)) pagesize)))
        else reads (λ s. Memory.get_slice s.memory (addr &ℤ pos 0xfffff000) 0x1000)

  unfoldable pub get_page : ℤ → ℤ → Exec (Machine B) (List ℕ)
  unfolding find_page
  get_page addr mask =
      Cache.cached same_page (λ s. s.page_cache) (λ c s. record s { page_cache = c })
        (record { addr = addr; mask = mask }) (find_page addr mask)

  unfoldable pub write_page : ℤ → List ℕ → Exec (Machine B) ⊤
  unfolding get_pte fault mark set_bytes
  write_page addr bytes = do
    on ← status_bit mmu_enable
    if on
        then (do
          (pagesize, pte) ← get_pte addr
          if is_allowed write pte
              then (do
                mark (λ p. record p { dirty = 1 }) addr pte
                set_bytes (pos (pte.addr * 2 ^ 12)) pagesize bytes)
              else fault addr)
        else set_bytes (addr &ℤ pos 0xfffff000) 0x1000 bytes
