-- ===== src/Examples/Pages.antt =====
-- The theorems on pages and their entries, applied.
use compyter.Examples.{latch, machine_with}
use compyter.Prelude.{
  ℕ, zero, suc, ◌+◌, ◌-◌, ◌≤◌, ◌∙◌, ap, leb, some, get_elem?, if◌then◌else◌, ◌<◌, ◌^◌, ◌≡◌, refl,
  arith, false, none, [], All, length-replicate, replicate, inl,
}
use compyter.Prelude.Int.{pos}
use compyter.Result.{ok}
use compyter.Exec.{◌>>◌}
use compyter.Memory
use compyter.Memory.{Memory, trap_base}
use compyter.Memory.Cells.{IsCell, byte_at, get_item-cell}
use compyter.Machine.{Machine}
use compyter.Register.{has_bit, mmu_enable, test_bit}
use compyter.Mmu.Pages.{get_page, write_page}
use compyter.Mmu.Pages.RoundTrip.{AreCells, write_page-get_page, get_page-again}

-- One page of RAM, behind no device.
abbrev page_memory : Memory latch
page_memory = record {
  hardware_mmio = λ _. none;
  trap_vectors = [];
  memory = replicate 0x1000 0;
  hardware = 0;
}

abbrev off : Machine latch
off = record (machine_with 0 0) { memory = page_memory }

off-mmu : has_bit mmu_enable off ≡ false
unfolding test_bit
off-mmu = refl

page-IsCell : (i : ℕ) → i < 0x1000 → IsCell page_memory i
page-IsCell i h = inl (record {
  below = omega arith;
  free = refl;
  inside = omega (arith, length-replicate {A = ℕ} 0x1000 0);
})

off-AreCells : AreCells page_memory 0 0x1000
off-AreCells i h = page-IsCell (0 + i) (omega arith)

All-replicate : (n b : ℕ) → b < 2 ^ 8 → All (λ b. b < 2 ^ 8) (replicate n b)
All-replicate zero b h = tt
All-replicate (suc n) b h = (h, All-replicate n b h)

write_page-get_page_example :
    ((do write_page (pos 0x123) (replicate 0x1000 7); get_page (pos 0x40) (pos 4)) off).0
    ≡ ok (replicate 0x1000 7)
write_page-get_page_example =
    write_page-get_page 0x123 0x40 (pos 4) (replicate 0x1000 7) off off-mmu off-AreCells
      (length-replicate {A = ℕ} 0x1000 7) (All-replicate 0x1000 7 (omega arith)) refl refl

get_elem?-replicate : (n i : ℕ) → i < n → get_elem? (replicate {A = ℕ} n 0) i ≡ some 0
get_elem?-replicate zero i h = elim h [ ]
get_elem?-replicate (suc n) zero h = refl
get_elem?-replicate (suc n) (suc i) h = get_elem?-replicate n i (omega arith)

off-zero : (i : ℕ) → i < 0x1000 → Memory.get_item page_memory (pos i) ≡ ok 0
off-zero i h =
    let nought : get_elem? (replicate {A = ℕ} 0x1000 0) i ≡ some 0 =
      get_elem?-replicate 0x1000 i h in
    let ram : leb trap_base i ≡ false = ground arith in
    let held : byte_at (replicate 0x1000 0) i ≡ 0 = rw (byte_at, nought) refl in
    get_item-cell page_memory i (page-IsCell i h)
    ∙ ap ok (
        ap (λ b. if b then byte_at [] (i - trap_base) else byte_at (replicate 0x1000 0) i) ram
        ∙ held)

get_slice-zeros :
    (n a : ℕ) → a + n ≤ 0x1000 → Memory.get_slice page_memory (pos a) n ≡ ok (replicate n 0)
unfolding Memory.get_slice
get_slice-zeros zero a h = refl
get_slice-zeros (suc n) a h =
    rw (off-zero a (omega arith), get_slice-zeros n (a + 1) (omega arith)) refl

get_page-again_example :
    ((do
      get_page (pos 0x40) (pos 4)
      write_page (pos 0x123) (replicate 0x1000 7)
      get_page (pos 0x40) (pos 4))
      off).0
    ≡ ok (replicate 0x1000 0)
get_page-again_example =
    get_page-again 0x40 0x123 (pos 4) (replicate 0x1000 0) (replicate 0x1000 7) off off-mmu refl
      (get_slice-zeros 0x1000 0 (omega arith)) off-AreCells (length-replicate {A = ℕ} 0x1000 7)
