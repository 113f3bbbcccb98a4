-- ===== src/Machine.antt =====
-- The state that compyter/cpu.py, compyter/register.py and compyter/mmu.py share: the fields of
-- `CPU`, with those of its `RegisterFile`, `MMU` and `Memory`.
use mathlib.Core.Path.{fun_ext}
use compyter.Prelude.{ℕ, Bool, false, Option, List, [], ◌==◌, ◌≡◌, arith, if◌then◌else◌}
use compyter.Prelude.Int.{ℤ, pos}
use compyter.Memory.{Bus, Memory}
use compyter.Pte.{Pte}

-- The arguments that `MMU.get_address` was called with; its second one may be left out.
pub record AddressKey : Type 0 where
  pub addr : ℤ
  pub mask : Option ℤ

-- Those of `MMU.get_page`.
pub record PageKey : Type 0 where
  pub addr : ℤ
  pub mask : ℤ

-- `baseptr` and `mmu_vaddr` are the fields `baseptr` and `vaddr` of the MMU, `waiting` is a processor that sleeps in `trap_event.wait()`.
pub record Machine (B : Bus) : Type 0 where
  pub memory : Memory B
  pub registers : ℕ → ℤ
  pub intr_pending : Bool
  pub exit_event : Bool
  pub trap_event : Bool
  pub waiting : Bool
  pub baseptr : ℤ
  pub address_cache : List (AddressKey × ℕ)
  pub page_cache : List (PageKey × List ℕ)
  pub pte_cache : List (ℤ × (ℕ × Pte))
  pub mmu_vaddr : ℤ

-- A store to one register.
abbrev pub update : (ℕ → ℤ) → ℕ → ℤ → ℕ → ℤ
update f r v q = if q == r then v else f q

abbrev pub put : {B : Bus} → ℕ → ℤ → Machine B → Machine B
put r v s = record s { registers = update s.registers r v }

pub update-update : (f : ℕ → ℤ) (r : ℕ) (v w : ℤ) → update (update f r v) r w ≡ update f r w
update-update f r v w = fun_ext λ q. ground arith

-- `CPU.__init__`, over a memory.
unfoldable pub init : {B : Bus} → Memory B → Machine B
init memory = record {
  memory = memory;
  registers = λ _. pos 0;
  intr_pending = false;
  exit_event = false;
  trap_event = false;
  waiting = false;
  baseptr = pos 0;
  address_cache = [];
  page_cache = [];
  pte_cache = [];
  mmu_vaddr = pos 0;
}
