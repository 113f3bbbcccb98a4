-- ===== src/Memory.antt =====
-- compyter/memory.py: physical memory, the trap vectors, and the dispatch of the addresses that
-- attached hardware has claimed (compyter/hardware/__init__.py gives the interface of a device).
pub mod Cells
pub mod Attach
use compyter.Prelude.{
  ℕ, zero, suc, ◌+◌, ◌-◌, Bool, false, Option, none, some, List, [], ◌∷◌, ◌++◌, leb, ltb, ◌==◌,
  length, set, replicate, if◌then◌else◌, bit_and,
}
use compyter.Prelude.Int.{ℤ, pos, negsuc, ◌+ℤ◌, ◌-ℤ◌}
use compyter.Result.{
  Result, ok, err, index_error, value_error, ◌>>=◌, map_ok, or_raise, place, index,
}

-- `class Hardware`: the devices that can be attached, the window of addresses of each, and what a
-- read or a write at an offset in the window does to the joint state of the devices.
pub record Bus : Type 1 where
  pub Device : Type 0
  pub State : Type 0
  pub addr_begin : Device → ℕ
  pub addr_end : Device → ℕ
  pub get_item : Device → ℕ → State → Result ℕ
  pub set_item : Device → ℕ → ℕ → State → Result State

pub record Memory (B : Bus) : Type 0 where
  pub hardware_mmio : ℕ → Option B.Device
  pub trap_vectors : List ℕ
  pub memory : List ℕ
  pub hardware : B.State

abbrev pub trap_base : ℕ
trap_base = 0xfffff000

-- `xs[i] = v`
abbrev pub set_index : List ℕ → ℤ → ℕ → Result (List ℕ)
set_index xs i v = map_ok (λ p. set xs p v) (or_raise (place i (length xs)) index_error)

-- The bytes of `load_file`, with zeros up to 4096.
unfoldable pub load_file : List ℕ → List ℕ
load_file file = if ltb (length file) 4096 then file ++ replicate (4096 - length file) 0 else file

-- The loop of `attach_hardware`, over the `n` addresses from `i`.
pub claim : {D : Type 0} → ℕ → ℕ → D → (ℕ → Option D) → ℕ → Option D
claim zero i d mmio = mmio
claim (suc n) i d mmio = claim n (i + 1) d (λ a. if a == i then some d else mmio a)

abbrev pub is_trap_vector : ℤ → Bool
is_trap_vector (pos a) = leb trap_base a
is_trap_vector (negsuc a) = false

-- `item - hardware.ADDR_BEGIN`, for an address that is claimed.
abbrev pub offset : ℕ → ℤ → ℕ
offset begin (pos a) = a - begin
offset begin (negsuc a) = 0

module _ {B : Bus} where
  -- `Memory.__init__`
  unfoldable pub init : List ℕ → B.State → Memory B
  init memory hardware = record {
    hardware_mmio = λ _. none;
    trap_vectors = replicate 4096 0;
    memory = memory;
    hardware = hardware;
  }

  unfoldable pub attach_hardware : B.Device → Memory B → Memory B
  unfolding claim
  attach_hardware d m = record m {
    hardware_mmio = claim (B.addr_end d + 1 - B.addr_begin d) (B.addr_begin d) d m.hardware_mmio;
  }

  -- `item in self.hardware_mmio`
  abbrev pub device_at : Memory B → ℤ → Option B.Device
  device_at m (pos a) = m.hardware_mmio a
  device_at m (negsuc a) = none

  unfoldable pub get_item : Memory B → ℤ → Result ℕ
  get_item m item =
      if is_trap_vector item
      then index m.trap_vectors (item -ℤ pos trap_base)
      else elim (device_at m item) [
        | some d ↦ B.get_item d (offset (B.addr_begin d) item) m.hardware
        | none ↦ index m.memory item
      ]

  unfoldable pub set_item : Memory B → ℤ → ℕ → Result (Memory B)
  set_item m item value =
      if is_trap_vector item
      then map_ok (λ v. record m { trap_vectors = v })
          (set_index m.trap_vectors (item -ℤ pos trap_base) (bit_and value 0xff))
      else elim (device_at m item) [
        | some d ↦
            map_ok (λ h. record m { hardware = h })
              (B.set_item d (offset (B.addr_begin d) item) value m.hardware)
        | none ↦
            map_ok (λ v. record m { memory = v }) (set_index m.memory item (bit_and value 0xff))
      ]

  -- `bytearray(self[i] for i in range(start, start + n))`, which refuses a value that is no byte.
  unfoldable pub get_slice : Memory B → ℤ → ℕ → Result (List ℕ)
  get_slice m start zero = ok []
  get_slice m start (suc n) = do
    b ← get_item m start
    rest ← if leb 256 b then err value_error else get_slice m (start +ℤ pos 1) n
    ok (b ∷ rest)

  -- `for i, j in enumerate(range(start, start + len(value))): self[j] = value[i]`
  unfoldable pub set_slice : Memory B → ℤ → List ℕ → Result (Memory B)
  set_slice m start [] = ok m
  set_slice m start (b ∷ bytes) = do m' ← set_item m start b; set_slice m' (start +ℤ pos 1) bytes
