-- ===== src/Examples/Coherence.antt =====
-- The invariant of the cache in the whole computer, applied to a turn on four words of zeros and a key
-- that is pressed.
use compyter.Prelude.{ℕ, ◌+◌, ◌<◌, ◌≡◌, refl, arith, none, List, [], ◌∷◌, length, false, inl}
use compyter.Prelude.Int.{pos}
use compyter.Result.{ok}
use compyter.Exec.{pure, ◌>>=◌}
use compyter.Memory
use compyter.Memory.{load_file}
use compyter.Memory.Cells.{IsCell}
use compyter.Machine
use compyter.Machine.{Machine}
use compyter.Register.{test_bit, has_bit, mmu_enable}
use compyter.Hardware.Keyboard
use compyter.Mmu.{get_address}
use compyter.Mmu.Coherence.{Coherent, ReadsCell}
use compyter.Cpu.LoadStore.Words.{IsWord}
use compyter.Cpu.Decode.{decode_next_instr}
use compyter.Cpu.Decode.Turn.{fetched, decode_next_instr-nop}
use compyter.Examples.Network.{counting}
use compyter.Examples.Whole.{fresh}
use compyter.Computer.{Computer, init, attach_all, turn, turns, step, press}
use compyter.Computer.Windows.{init-elsewhere}
use compyter.Computer.Uncaught.{IsCalm}
use compyter.Computer.Coherence.{init-Coherent, turns-ReadsCell}

counting-IsCalm : IsCalm counting
counting-IsCalm = record {
  calm_idna = λ name. tt;
  calm_register = λ sock events w. tt;
  calm_unregister = λ sock w. tt;
}

-- A computer with nothing but zeros in its memory.
abbrev blank : Computer counting
blank = init [] fresh

blank_length : length (blank.memory).memory ≡ 4096
unfolding init attach_all Machine.init Memory.init load_file
blank_length = refl

blank-IsCell : (a : ℕ) → a < 4096 → IsCell blank.memory a
blank-IsCell a lt = inl (record {
  below = omega arith;
  free = init-elsewhere [] fresh a (ground arith);
  inside = omega (arith, blank_length);
})

blank-IsWord : (a : ℕ) → a + 3 < 4096 → IsWord blank.memory a
blank-IsWord a lt = record {
  fits = omega arith;
  cell0 = blank-IsCell a (omega arith);
  cell1 = blank-IsCell (a + 1) (omega arith);
  cell2 = blank-IsCell (a + 2) (omega arith);
  cell3 = blank-IsCell (a + 3) (omega arith);
}

blank-nop : (c : List _) × (decode_next_instr blank ≡ (ok tt, fetched 16 0 c blank))
unfolding test_bit init Machine.init attach_all Memory.init load_file
blank-nop =
    decode_next_instr-nop 0 blank refl refl refl
      (record {
        word0 = blank-IsWord 0 (omega arith);
        word1 = blank-IsWord 4 (omega arith);
        word2 = blank-IsWord 8 (omega arith);
        word3 = blank-IsWord 12 (omega arith);
      })
      (init-Coherent [] fresh) refl

-- The computer behind the turn and the key.
abbrev typed : Computer counting
typed = (turn (press 65) (fetched 16 0 (blank-nop.0) blank)).1

typed_lem : turns (step ∷ press 65 ∷ []) blank ≡ (ok tt, typed)
unfolding turns turn pure ◌>>=◌ init Machine.init
typed_lem = rw (blank-nop.1) refl

typed-off : has_bit mmu_enable typed ≡ false
unfolding turn test_bit init Machine.init Keyboard.input
typed-off = refl

typed-IsCell : IsCell typed.memory 8
unfolding turn Keyboard.input
typed-IsCell = inl (record {
  below = omega arith;
  free = init-elsewhere [] fresh 8 refl;
  inside = omega (arith, blank_length);
})

turns-ReadsCell_example : Coherent typed × ReadsCell 8 typed (get_address (pos 8) none typed)
turns-ReadsCell_example =
    turns-ReadsCell (step ∷ press 65 ∷ []) 8 none blank typed counting-IsCalm
      (init-Coherent [] fresh) typed_lem typed-off typed-IsCell
