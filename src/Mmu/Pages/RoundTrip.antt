-- ===== src/Mmu/Pages/RoundTrip.antt =====
-- Pages that are written and read with the MMU off (compyter/mmu.py).
use mathlib.Core.Path.{subst}
use compyter.Prelude.{
  ℕ, suc, ◌+◌, ◌<◌, ◌^◌, ◌≡◌, ◌∙◌, sym, ap, refl, arith, List, [], ◌∷◌, All, length, leb, none,
  some, true, false, bit_and,
}
use compyter.Prelude.Int.{ℤ, pos, eqb_ℤ}
use compyter.Result.{ok}
use compyter.Exec.{◌>>=◌, ◌>>◌, changes}
use compyter.Memory.{Bus, Memory, get_item, set_item, get_slice}
use compyter.Memory.Cells.{
  IsCell, written, set_item-written, get_item-written, get_item-written_ne, written-IsCell,
}
use compyter.Cache
use compyter.Machine.{Machine, PageKey}
use compyter.Register.{has_bit, mmu_enable, status_bit}
use compyter.Mmu.Pages.{same_page, set_bytes, find_page, get_page, write_page}

-- The first address of a page.
abbrev pub page_of : ℕ → ℕ
page_of addr = bit_and addr 0xfffff000

eqb_ℤ_refl : (a : ℤ) → eqb_ℤ a a ≡ true
eqb_ℤ_refl a = ground arith

-- What has been stored is found.
lookup-store :
    (k : PageKey) (v : List ℕ) (c : List (PageKey × List ℕ))
    → Cache.lookup same_page k (Cache.store same_page k v c) ≡ some v
unfolding Cache.store
lookup-store k v c = rw (eqb_ℤ_refl k.addr, eqb_ℤ_refl k.mask) refl

module _ {B : Bus} where
  -- The cells from an address on.
  abbrev pub AreCells : Memory B → ℕ → ℕ → Type 0
  AreCells m a n = (i : ℕ) → i < n → IsCell m (a + i)

  -- The memory behind the writes of bytes to cells, one after the other.
  abbrev pub filled : Memory B → ℕ → List ℕ → Memory B
  filled m a [] = m
  filled m a (b ∷ bytes) = filled (written m a b) (a + 1) bytes

  first-IsCell : (m : Memory B) (a n : ℕ) → AreCells m a (suc n) → IsCell m a
  first-IsCell m a n cells = subst (IsCell m) (omega arith) (cells 0 (omega arith))

  next_cells :
      (m : Memory B) (a n b : ℕ) → AreCells m a (suc n) → AreCells (written m a b) (a + 1) n
  next_cells m a n b cells i h =
      written-IsCell m a (a + 1 + i) b
        (subst (IsCell m) (omega arith) (cells (suc i) (omega arith)))

  set_bytes-step :
      (a n b : ℕ) (bytes : List ℕ) (s : Machine B) (m : Memory B)
      → set_item s.memory (pos a) b ≡ ok m
      → set_bytes (pos a) (suc n) (b ∷ bytes) s
        ≡ set_bytes (pos (a + 1)) n bytes (record s { memory = m })
  unfolding set_bytes ◌>>=◌
  set_bytes-step a n b bytes s m h = rw (h, changes) refl

  set_bytes-filled :
      (bytes : List ℕ) (a : ℕ) (s : Machine B)
      → AreCells s.memory a (length bytes)
      → set_bytes (pos a) (length bytes) bytes s
        ≡ (ok tt, record s { memory = filled s.memory a bytes })
  unfolding set_bytes ◌>>=◌
  set_bytes-filled [] a s cells = refl
  set_bytes-filled (b ∷ bytes) a s cells =
      let first = set_item-written s.memory a b (first-IsCell s.memory a (length bytes) cells) in
      set_bytes-step a (length bytes) b bytes s (written s.memory a b) first
      ∙ set_bytes-filled bytes (a + 1) (record s { memory = written s.memory a b })
          (next_cells s.memory a (length bytes) b cells)

  get_item-filled :
      (bytes : List ℕ) (m : Memory B) (a c : ℕ)
      → c < a
      → get_item (filled m a bytes) (pos c) ≡ get_item m (pos c)
  get_item-filled [] m a c h = refl
  get_item-filled (b ∷ bytes) m a c h =
      get_item-filled bytes (written m a b) (a + 1) c (omega arith)
      ∙ get_item-written_ne m a c b (λ e. omega arith)

  get_slice-filled :
      (bytes : List ℕ) (m : Memory B) (a : ℕ)
      → AreCells m a (length bytes)
      → All (λ b. b < 2 ^ 8) bytes
      → get_slice (filled m a bytes) (pos a) (length bytes) ≡ ok bytes
  unfolding get_slice
  get_slice-filled [] m a cells small = refl
  get_slice-filled (b ∷ bytes) m a cells (h, small) =
      let held : get_item (filled m a (b ∷ bytes)) (pos a) ≡ ok b =
        get_item-filled bytes (written m a b) (a + 1) a (omega arith)
        ∙ get_item-written m a b (first-IsCell m a (length bytes) cells)
        ∙ ap ok (omega arith) in
      let is_byte : leb 256 b ≡ false = ground arith in
      rw
        (
          held,
          is_byte,
          get_slice-filled bytes (written m a b) (a + 1) (next_cells m a (length bytes) b cells)
              small,
        )
        refl

  write_page-filled :
      (addr : ℕ) (bytes : List ℕ) (s : Machine B)
      → has_bit mmu_enable s ≡ false
      → AreCells s.memory (page_of addr) 0x1000
      → length bytes ≡ 0x1000
      → write_page (pos addr) bytes s
        ≡ (ok tt, record s { memory = filled s.memory (page_of addr) bytes })
  unfolding write_page ◌>>=◌ status_bit
  write_page-filled addr bytes s off cells full = rw off (
      subst
        (λ n.
          set_bytes (pos (page_of addr)) n bytes s
          ≡ (ok tt, record s { memory = filled s.memory (page_of addr) bytes }))
        full
        (set_bytes-filled bytes (page_of addr) s
          (subst (AreCells s.memory (page_of addr)) (sym full) cells)))

  find_page-off :
      (addr : ℕ) (mask : ℤ) (s : Machine B)
      → has_bit mmu_enable s ≡ false
      → find_page (pos addr) mask s ≡ (get_slice s.memory (pos (page_of addr)) 0x1000, s)
  unfolding find_page ◌>>=◌ status_bit
  find_page-off addr mask s off = rw off refl

  abbrev with_pages : List (PageKey × List ℕ) → Machine B → Machine B
  with_pages c s = record s { page_cache = c }

  page_hit :
      (addr : ℕ) (mask : ℤ) (v : List ℕ) (s : Machine B)
      → Cache.lookup same_page (record { addr = pos addr; mask = mask }) s.page_cache ≡ some v
      → (get_page (pos addr) mask s).0 ≡ ok v
  unfolding get_page
  page_hit addr mask v s found =
      ap (λ r. r.0)
        (Cache.cached-hit same_page (λ u. u.page_cache) with_pages
          (record { addr = pos addr; mask = mask }) (find_page (pos addr) mask) s v found)

  page_miss :
      (addr : ℕ) (mask : ℤ) (v : List ℕ) (s : Machine B)
      → Cache.lookup same_page (record { addr = pos addr; mask = mask }) s.page_cache ≡ none
      → has_bit mmu_enable s ≡ false
      → get_slice s.memory (pos (page_of addr)) 0x1000 ≡ ok v
      → get_page (pos addr) mask s ≡ (
        ok v,
        with_pages
            (Cache.store same_page (record { addr = pos addr; mask = mask }) v s.page_cache)
            s,
      )
  unfolding get_page ◌>>=◌
  page_miss addr mask v s missing off held =
      Cache.cached-miss same_page (λ u. u.page_cache) with_pages
        (record { addr = pos addr; mask = mask }) (find_page (pos addr) mask) s missing
      ∙ rw (find_page-off addr mask s off, held) refl

  -- With the MMU off, a page of memory cells that is written with 4096 bytes is read back by any
  -- address in it, if the cache holds no read of that address.
  pub write_page-get_page :
      (addr from : ℕ) (mask : ℤ) (bytes : List ℕ) (s : Machine B)
      → has_bit mmu_enable s ≡ false
      → AreCells s.memory (page_of addr) 0x1000
      → length bytes ≡ 0x1000
      → All (λ b. b < 2 ^ 8) bytes
      → page_of from ≡ page_of addr
      → Cache.lookup same_page (record { addr = pos from; mask = mask }) s.page_cache ≡ none
      → ((do write_page (pos addr) bytes; get_page (pos from) mask) s).0 ≡ ok bytes
  unfolding ◌>>=◌
  write_page-get_page addr from mask bytes s off cells full small same missing =
      let m = filled s.memory (page_of addr) bytes in
      let t : Machine B = record s { memory = m } in
      let found : get_slice m (pos (page_of addr)) 0x1000 ≡ ok bytes =
        subst (λ n. get_slice m (pos (page_of addr)) n ≡ ok bytes) full
          (get_slice-filled bytes s.memory (page_of addr)
            (subst (AreCells s.memory (page_of addr)) (sym full) cells) small) in
      rw (write_page-filled addr bytes s off cells full)
        (ap (λ r. r.0) (page_miss from mask bytes t missing off (rw same found)))

  -- With the MMU off, a page that has been read reads the same after a write to any page of memory
  -- cells, its own included: the cache of `get_page` is not cleared.
  pub get_page-again :
      (addr to : ℕ) (mask : ℤ) (v bytes : List ℕ) (s : Machine B)
      → has_bit mmu_enable s ≡ false
      → Cache.lookup same_page (record { addr = pos addr; mask = mask }) s.page_cache ≡ none
      → get_slice s.memory (pos (page_of addr)) 0x1000 ≡ ok v
      → AreCells s.memory (page_of to) 0x1000
      → length bytes ≡ 0x1000
      → ((do get_page (pos addr) mask; write_page (pos to) bytes; get_page (pos addr) mask) s).0
        ≡ ok v
  unfolding ◌>>=◌
  get_page-again addr to mask v bytes s off missing held cells full =
      let key : PageKey = record { addr = pos addr; mask = mask } in
      let t : Machine B = with_pages (Cache.store same_page key v s.page_cache) s in
      rw (page_miss addr mask v s missing off held, write_page-filled to bytes t off cells full)
        (page_hit addr mask v (record t { memory = filled s.memory (page_of to) bytes })
          (lookup-store key v s.page_cache))
