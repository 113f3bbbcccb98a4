-- ===== src/Examples.antt =====
-- Small machines on which the theorems are applied: 64 bytes of RAM and one device, at one address,
-- whose register is all its state.
pub mod Devices
pub mod Turns
pub mod Assembly
pub mod Pages
pub mod Coherence
pub mod Source
pub mod Network
pub mod Whole
use compyter.Prelude.{
  ℕ, ◌<◌, ◌==◌, ◌≡◌, refl, arith, true, false, inl, none, some, [], replicate, if◌then◌else◌,
}
use compyter.Prelude.Int.{ℤ, pos, negsuc}
use compyter.Result.{ok, ◌>>=◌ as ◌>>=ᵣ◌}
use compyter.Exec.{◌>>=◌, ◌>>◌, modify}
use compyter.Memory.{Bus, Memory, get_item, set_item}
use compyter.Memory.Cells.{IsCell, set_item-get_item}
use compyter.Machine.{Machine, put}
use compyter.Util.WordByte.{set_word, set_word-eq-low_half}
use compyter.Register.{
  reg_pc, reg_fc, reg_ret, reg_status, reg_rsvd, test_bit, has_enabled_intr, has_bit, mmu_enable,
}
use compyter.Mmu.{get_address, write_address}
use compyter.Mmu.Enabled.{Raises, get_address-Raises}
use compyter.Mmu.Coherence.{ReadsCell, get_address-ReadsCell, get_address-again}
use compyter.Cpu.{trap, trap_fuel, trap_ill}
use compyter.Cpu.Traps.{trapped, trap_lem, trap_fuel-eq-trap}
use compyter.Cpu.Control.{rfe, swap, copy}
use compyter.Cpu.Control.Swap.{swap-copy}
use compyter.Cpu.Control.Rfe.{Resumed, trap-rfe, Returned, rfe-Returned}
use compyter.Cpu.Control.Pending.{Dropped, rfe-drops}
use compyter.Cpu.Divmod.{divmod}
use compyter.Cpu.Divmod.Correct.{divmod-eq-div-mod}
use compyter.Cpu.Arith.{add, sub, mul, div, mod_}
use compyter.Cpu.Arith.Sums.{result, div-mod_lem, add-sub-mul_lem}
use compyter.Cpu.Jumps.{jmpeq, jmpne, jmplt, jmple, jmpgt, jmpge}
use compyter.Cpu.Jumps.Signed.{jump-order}
use compyter.Cpu.LoadStore.{savew, loadw}
use compyter.Cpu.LoadStore.Words.{IsWord}
use compyter.Cpu.LoadStore.RoundTrip.{Restored, savew-loadw}
use compyter.Cpu.Decode.{ia_reg, execute, fn3}
use compyter.Cpu.Decode.Operands.{execute_lem}

abbrev latch : Bus
latch = record {
  Device = Unit;
  State = ℕ;
  addr_begin = λ _. 0x2000;
  addr_end = λ _. 0x2000;
  get_item = λ _ i h. ok h;
  set_item = λ _ i v h. ok v;
}

abbrev small_memory : Memory latch
small_memory = record {
  hardware_mmio = λ a. if a == 0x2000 then some tt else none;
  trap_vectors = replicate 16 0;
  memory = replicate 64 0;
  hardware = 7;
}

-- Registers 1 and 2 hold words; the status register and the fault counter are given.
abbrev registers_with : ℕ → ℕ → ℕ → ℤ
registers_with status faults r =
    if r == 1
    then pos 0xdeadbeef
    else if r == 2
    then pos 7
    else if r == reg_pc
    then pos 0x20
    else if r == reg_ret
    then pos 0x10
    else if r == reg_status
    then pos status
    else if r == reg_fc
    then pos faults
    else pos 0

abbrev machine_with : ℕ → ℕ → Machine latch
machine_with status faults = record {
  memory = small_memory;
  registers = registers_with status faults;
  intr_pending = false;
  exit_event = false;
  trap_event = false;
  waiting = false;
  baseptr = pos 0;
  address_cache = [];
  page_cache = [];
  pte_cache = [];
  mmu_vaddr = pos 0;
}

-- User mode with interrupts enabled.
abbrev running : Machine latch
running = machine_with 3 0

-- A handler that was entered with interrupts enabled, and an interrupt that waits.
abbrev handling : Machine latch
handling = record (machine_with 4 1) { intr_pending = true }

ram-IsCell : IsCell small_memory 8
ram-IsCell = inl (record { below = omega arith; free = refl; inside = omega arith })

pub IsCell-at : (a : ℕ) → a < 64 → a < 0x2000 → IsCell small_memory a
IsCell-at a lt below = inl (record { below = omega arith; free = ground arith; inside = lt })

ram-IsWord : IsWord small_memory 8
ram-IsWord = record {
  fits = omega arith;
  cell0 = ram-IsCell;
  cell1 = IsCell-at 9 (omega arith) (omega arith);
  cell2 = IsCell-at 10 (omega arith) (omega arith);
  cell3 = IsCell-at 11 (omega arith) (omega arith);
}

running-quiet : has_enabled_intr running ≡ false
unfolding test_bit
running-quiet = refl

running-off : has_bit mmu_enable running ≡ false
unfolding test_bit
running-off = refl

set_word-eq-low_half_example : set_word (pos 0x12345678) 0xde 0xad 0xbe 0xef ≡ ok (pos 0xbeef)
set_word-eq-low_half_example =
    set_word-eq-low_half 0x12345678 0xdeadbeef (omega arith) (omega arith)

divmod-eq-div-mod_example : divmod (pos 0xdeadbeef) (pos 7) ≡ (pos 533704079, pos 6)
divmod-eq-div-mod_example = divmod-eq-div-mod 0xdeadbeef 7 (omega arith) (omega arith) (omega arith)

trap_lem_example : trap (pos 0xfffff020) running ≡ trapped 0 (pos 0xfffff020) running
trap_lem_example = trap_lem 0xfffff020 3 0 running refl refl

trap_fuel-eq-trap_example : trap_fuel 9 (pos 0xfffff020) handling ≡ trap (pos 0xfffff020) handling
trap_fuel-eq-trap_example = trap_fuel-eq-trap 7 0xfffff020 4 1 handling refl refl

trap-rfe_example : Resumed running ((trap (pos 0xfffff020) >>= λ _. rfe) running)
trap-rfe_example = trap-rfe 0xfffff020 3 running refl refl refl

rfe-drops_example : Dropped handling (rfe handling)
unfolding test_bit
rfe-drops_example = rfe-drops 4 handling refl refl refl refl

set_item-get_item_example :
    ((set_item small_memory (pos 8) 0x1ff >>=ᵣ λ m. get_item m (pos 8)) ≡ ok 0xff)
    × ((set_item small_memory (pos 8) 0x1ff >>=ᵣ λ m. get_item m (pos 0x2000))
        ≡ get_item small_memory (pos 0x2000))
set_item-get_item_example =
    set_item-get_item small_memory 8 0x2000 0x1ff ram-IsCell (λ e. omega (arith, e))

add-sub-mul_lem_example :
    (add (pos 2) (pos 1) (pos 3) running ≡ (ok tt, result 3 (pos 0xdeadbef6) (pos 0) running))
    × (sub (pos 2) (pos 1) (pos 3) running
        ≡ (ok tt, result 3 (pos 0x21524118) (pos 0) (put reg_rsvd (negsuc 3735928558) running)))
    × (mul (pos 2) (pos 1) (pos 3) running ≡ (ok tt, result 3 (pos 381696137) (pos 1) running))
add-sub-mul_lem_example =
    add-sub-mul_lem 2 1 3 7 0xdeadbeef running (omega arith) (omega arith) (omega arith) refl refl
      running-quiet (omega arith) (omega arith)

div-mod_lem_example :
    (div (pos 1) (pos 2) (pos 3) running ≡ (ok tt, result 3 (pos 533704079) (pos 0) running))
    × (mod_ (pos 1) (pos 2) (pos 3) running ≡ (ok tt, result 3 (pos 6) (pos 0) running))
div-mod_lem_example =
    div-mod_lem 1 2 3 0xdeadbeef 7 running (omega arith) (omega arith) (omega arith) refl refl
      running-quiet (omega arith) (omega arith)

jump-order_example :
    (jmplt (pos 1) (pos 2) (pos 0x40) running ≡ (ok tt, put reg_pc (pos 0x40) running))
    × (jmpgt (pos 1) (pos 2) (pos 0x40) running ≡ (ok tt, running))
    × (jmple (pos 1) (pos 2) (pos 0x40) running ≡ (ok tt, put reg_pc (pos 0x40) running))
    × (jmpge (pos 1) (pos 2) (pos 0x40) running ≡ (ok tt, running))
    × (jmpeq (pos 1) (pos 2) (pos 0x40) running ≡ (ok tt, running))
    × (jmpne (pos 1) (pos 2) (pos 0x40) running ≡ (ok tt, put reg_pc (pos 0x40) running))
jump-order_example =
    jump-order 1 2 0xdeadbeef 7 0x40 running (omega arith) (omega arith) refl refl running-quiet
      (omega arith) (omega arith)

get_address-ReadsCell_example : ReadsCell 8 running (get_address (pos 8) none running)
get_address-ReadsCell_example =
    get_address-ReadsCell 8 none running running-off ram-IsCell (tt, omega arith)

get_address-again_example :
    ((do
      get_address (pos 0x2000) none
      modify (λ s. record s { memory = record small_memory { hardware = 9 } })
      get_address (pos 0x2000) none)
      running).0
    ≡ ok 7
unfolding get_item
get_address-again_example =
    get_address-again (pos 0x2000) none 7 running (record small_memory { hardware = 9 }) running-off
      refl refl

-- The MMU is on, and no page table is there.
abbrev mapped : Machine latch
mapped = machine_with 0x80000003 0

mapped-on : has_bit mmu_enable mapped ≡ true
unfolding test_bit
mapped-on = refl

get_address-Raises_example :
    Raises mapped (get_address (pos 8) none mapped) × Raises mapped (write_address (pos 8) 7 mapped)
get_address-Raises_example = get_address-Raises (pos 8) none 7 mapped mapped-on refl

savew-loadw_example :
    Restored 2 0xdeadbeef 0x2000 running
      ((savew (pos 1) (pos 8) >>= λ _. loadw (pos 2) (pos 8) (pos 4)) running)
savew-loadw_example =
    savew-loadw 1 2 8 0xdeadbeef 0x2000 (pos 4) running (omega arith) (omega arith) (omega arith)
      refl running-off running-quiet ram-IsWord (λ e. omega (arith, e)) (λ e. omega (arith, e))
      (λ e. omega (arith, e)) (λ e. omega (arith, e))

-- `add` may not name the fault counter.
execute_lem_example :
    execute
      (record { arg1 = ia_reg; arg2 = ia_reg; arg3 = ia_reg; instr_fn = fn3 add })
      (pos 1)
      (pos reg_fc)
      (pos 2)
      running
    ≡ trap trap_ill running
execute_lem_example =
    execute_lem (record { arg1 = ia_reg; arg2 = ia_reg; arg3 = ia_reg; instr_fn = fn3 add }) (pos 1)
      (pos reg_fc) (pos 2) running

rfe-Returned_example : Returned running (rfe running)
rfe-Returned_example = rfe-Returned 0 3 running refl refl refl

swap-copy_example :
    (swap (pos 1) (pos 2) running ≡ (ok tt, put 2 (pos 0xdeadbeef) (put 1 (pos 2) running)))
    × (copy (pos 1) (pos 2) running ≡ (ok tt, put 1 (pos 7) running))
swap-copy_example = swap-copy 1 2 running (omega arith) (omega arith) running-quiet
