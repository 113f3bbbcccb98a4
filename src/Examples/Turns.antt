-- ===== src/Examples/Turns.antt =====
-- The theorems on whole turns of the processor, on user mode, on page table entries and on
-- images, applied.
use compyter.Prelude.{ℕ, true, ◌+◌, ◌<◌, ◌≡◌, refl, arith, inl, [], ◌∷◌, ◌++◌, replicate}
use compyter.Prelude.Int.{pos}
use compyter.Result.{ok, err, privilege}
use compyter.Memory.{Memory}
use compyter.Pte.{Pte, from_bytes, to_bytes}
use compyter.Pte.Bytes.{from_bytes-to_bytes}
use compyter.Memory.Cells.{IsCell}
use compyter.Machine.{Machine, put}
use compyter.Register.{reg_status, has_bit, user, test_bit, get_item}
use compyter.Cpu.{set}
use compyter.Cpu.Arith.{not_, shl, shr}
use compyter.Cpu.Arith.Shifts.{shift-complement}
use compyter.Cpu.UserMode.{user-access}
use compyter.Cpu.LoadStore.Words.{IsWord}
use compyter.Cpu.Decode.Turn.{Turned, decode_next_instr-run}
use compyter.Examples.{latch, small_memory, running, running-quiet, running-off}

-- `add` of the registers 1 and 2 into 3, at the address 0x20.
abbrev program : Memory latch
program = record small_memory {
  memory =
      replicate 32 0
      ++ (0 ∷ 0 ∷ 0 ∷ 15 ∷ 0 ∷ 0 ∷ 0 ∷ 1 ∷ 0 ∷ 0 ∷ 0 ∷ 2 ∷ 0 ∷ 0 ∷ 0 ∷ 3 ∷ [])
      ++ replicate 16 0;
}

abbrev adding : Machine latch
adding = record running { memory = program }

program-IsCell : (a : ℕ) → a < 64 → IsCell program a
program-IsCell a lt = inl (record { below = omega arith; free = ground arith; inside = lt })

program-IsWord : (a : ℕ) → a < 61 → IsWord program a
program-IsWord a lt = record {
  fits = omega arith;
  cell0 = program-IsCell a (omega arith);
  cell1 = program-IsCell (a + 1) (omega arith);
  cell2 = program-IsCell (a + 2) (omega arith);
  cell3 = program-IsCell (a + 3) (omega arith);
}

decode_next_instr-run_example : Turned 0x20 adding
decode_next_instr-run_example =
    decode_next_instr-run 0x20 adding refl running-off running-quiet
      (record {
        word0 = program-IsWord 0x20 (omega arith);
        word1 = program-IsWord 0x24 (omega arith);
        word2 = program-IsWord 0x28 (omega arith);
        word3 = program-IsWord 0x2c (omega arith);
      })
      (tt, omega arith)

running-user : has_bit user running ≡ true
unfolding test_bit
running-user = refl

user-access_example :
    (get_item (pos reg_status) running ≡ (err privilege, running))
    × (set (pos reg_status) (pos 1) running ≡ (err privilege, running))
    × ((set (pos reg_status) (pos 1) running).1.registers reg_status ≡ pos 3)
user-access_example = user-access reg_status running running-user running-quiet (pos 1)

-- A page that may be read and written by the user.
abbrev entry : Pte
entry = record {
  addr = 0xabcde;
  rwx = 6;
  dirty = 1;
  acc = 0;
  usable = 1;
  user = 1;
  phys = 0;
  present = 1;
  resvd = 0;
}

from_bytes-to_bytes_example : from_bytes (to_bytes entry) ≡ ok entry
from_bytes-to_bytes_example = from_bytes-to_bytes entry (record {
  addr = omega arith;
  rwx = omega arith;
  dirty = omega arith;
  acc = omega arith;
  usable = omega arith;
  user = omega arith;
  phys = omega arith;
  present = omega arith;
  resvd = refl;
})

shift-complement_example :
    (shl (pos 1) (pos 2) (pos 3) running ≡ (ok tt, put 3 (pos 0x56df7780) running))
    × (shr (pos 1) (pos 2) (pos 3) running ≡ (ok tt, put 3 (pos 0x01bd5b7d) running))
    × (not_ (pos 1) (pos 3) running ≡ (ok tt, put 3 (pos 0x21524110) running))
shift-complement_example =
    shift-complement 1 2 3 0xdeadbeef 7 running (omega arith) (omega arith) (omega arith) refl refl
      running-quiet (omega arith)
