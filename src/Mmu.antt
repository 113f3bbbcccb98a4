-- ===== src/Mmu.antt =====
-- `class MMU` of compyter/mmu.py: the accesses of the processor to single addresses, with the
-- caches that `lru_cache` puts before them. A `PTE` has no operator `&`, so `pte & mask` raises a TypeError, and no access gets past it.
pub mod Coherence
pub mod Enabled
pub mod Pages
use compyter.Prelude.{
  ℕ, ◌*◌, ◌^◌, Bool, true, false, Option, none, some, [], ◌&&◌, ltb, if◌then◌else◌,
}
use compyter.Prelude.Int.{ℤ, pos, ◌+ℤ◌, ◌&ℤ◌, ◌>>ℤ◌, ◌<<ℤ◌, eqb_ℤ, ltb_ℤ}
use compyter.Result.{Result, ok, err, invalid_base_pointer, type_error, ◌>>=◌ as ◌>>=ᵣ◌, map_ok}
use compyter.Exec.{⊤, Exec, raise, reads, modify, changes, ◌>>=◌, ◌>>◌, when}
use compyter.Memory.{Bus}
use compyter.Memory
use compyter.Pte.{Pte, from_bytes}
use compyter.Cache
use compyter.Machine.{Machine, AddressKey}
use compyter.Register.{status_bit, mmu_enable}

-- `PTEAccess`
abbrev pub pte_execute : ℤ
pte_execute = pos 0x1

abbrev pub pte_write : ℤ
pte_write = pos 0x2

abbrev pub pte_read : ℤ
pte_read = pos 0x4

abbrev pub same_mask : Option ℤ → Option ℤ → Bool
same_mask none none = true
same_mask (some a) (some b) = eqb_ℤ a b
same_mask none (some b) = false
same_mask (some a) none = false

abbrev pub same_key : AddressKey → AddressKey → Bool
same_key a b = eqb_ℤ a.addr b.addr && same_mask a.mask b.mask

module _ {B : Bus} where
  -- The body of `get_pte`: the size of the page and its entry.
  unfoldable pub find_pte : ℤ → Machine B → Result (ℕ × Pte)
  find_pte addr s =
      if ltb_ℤ (pos 0xffffffff) (s.baseptr +ℤ pos 4096)
      then err invalid_base_pointer
      else let page = addr >>ℤ 12 in
        let page_lvl1 = (page &ℤ pos 0xffc00) >>ℤ 10 in
        let page_lvl2 = page &ℤ pos 0x003ff in
        Memory.get_slice s.memory (s.baseptr +ℤ (page_lvl1 <<ℤ 2)) 4 >>=ᵣ λ bytes.
        from_bytes bytes >>=ᵣ λ pte_lvl1.
        if ltb 0 pte_lvl1.phys
        then ok (0x400000, pte_lvl1)
        else Memory.get_slice s.memory (pos (pte_lvl1.addr * 2 ^ 12) +ℤ (page_lvl2 <<ℤ 2)) 4
          >>=ᵣ λ bytes. map_ok (λ pte_lvl2. (0x1000, pte_lvl2)) (from_bytes bytes)

  -- `get_pte`
  unfoldable pub get_pte : ℤ → Exec (Machine B) (ℕ × Pte)
  get_pte addr =
      Cache.cached eqb_ℤ (λ s. s.pte_cache) (λ c s. record s { pte_cache = c }) addr
        (reads (find_pte addr))

  -- What both accesses do first: with the MMU on, the test `pte & mask` raises.
  unfoldable pub translate : ℤ → Exec (Machine B) ⊤
  unfolding get_pte
  translate addr = do
    on ← status_bit mmu_enable
    when on (do get_pte addr >>= λ _. raise type_error)

  -- The body of `get_address`, and the method itself.
  unfoldable pub find_address : ℤ → Exec (Machine B) ℕ
  unfolding translate
  find_address addr = do translate addr; reads (λ s. Memory.get_item s.memory addr)

  unfoldable pub get_address : ℤ → Option ℤ → Exec (Machine B) ℕ
  get_address addr mask =
      Cache.cached same_key (λ s. s.address_cache) (λ c s. record s { address_cache = c })
        (record { addr = addr; mask = mask }) (find_address addr)

  unfoldable pub write_address : ℤ → ℕ → Exec (Machine B) ⊤
  unfolding translate
  write_address addr val = do
    translate addr
    changes (λ s. map_ok (λ m. record s { memory = m }) (Memory.set_item s.memory addr val))

  unfoldable pub clear_cache : Exec (Machine B) ⊤
  clear_cache = modify (λ s. record s { page_cache = []; address_cache = []; pte_cache = [] })
