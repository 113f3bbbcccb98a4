-- ===== src/Examples/Devices.antt =====
-- The theorems on the devices, applied.
use compyter.Prelude.{◌+◌, ◌≤◌, ◌≡◌, refl, arith, Bool, true, false, none, List, [], ◌∷◌, replicate}
use compyter.Prelude.Int.{ℤ, pos}
use compyter.Result.{ok, ◌>>=◌}
use compyter.Hardware.Intc.{Intc, Stage, getting, waiting, woken, clearing, calling, intc_jmp_instr}
use compyter.Hardware.Intc
use compyter.Hardware.Intc.Registers.{asked, set_item-asked}
use compyter.Hardware.Intc.Pending.{
  Run, Outcome, ignored, lost, remaining, passed, Run-in_order, Run-masked,
}
use compyter.Hardware.Storage.{Storage, reg_storage}
use compyter.Hardware.Storage
use compyter.Hardware.Storage.Blocks.{set_item-get_item_window}

-- A controller that masks, with a queue.
abbrev controller : List ℤ → Intc
controller pending = record {
  reg_intnum = pos 5;
  reg_intvec = pos 0x400;
  interrupts = λ _. none;
  current = pos 0x12345678;
  pending = pending;
  stage = getting;
  unmasked = false;
}

abbrev two_posted : Intc
two_posted = Intc.interrupt (pos 64) (Intc.interrupt (pos 32) Intc.init)

two_posted-Run : Run (pos 32 ∷ pos 64 ∷ []) [] 0 two_posted
two_posted-Run = Run.post (Run.post Run.start (pos 32)) (pos 64)

abbrev unmasked_two : Intc
unmasked_two = record two_posted { unmasked = true }

unmasked_two-Run : Run (pos 32 ∷ pos 64 ∷ []) [] 1 unmasked_two
unfolding Intc.set_item
unmasked_two-Run = Run.write two_posted-Run 3 0 refl refl

-- The first interrupt gets through and is ignored, and the second one is lost: the controller is masked
-- again when the thread has waited for it.
abbrev stopped : Stage → Bool → Intc
stopped stage unmasked = record unmasked_two {
  pending = pos 64 ∷ [];
  stage = stage;
  unmasked = unmasked;
}

abbrev posts : List ℤ
posts = pos 32 ∷ pos 64 ∷ []

first-Run : Run posts (ignored (pos 32) ∷ []) 1 (stopped getting false)
unfolding Intc.process_pending Intc.interrupt_nowait Intc.interrupt Intc.init
first-Run =
    let got : Run posts [] 1 (stopped (waiting (pos 32)) true) =
      Run.thread unmasked_two-Run false refl in
    let woke : Run posts [] 1 (stopped (woken (pos 32)) true) = Run.thread got false refl in
    let tested : Run posts [] 1 (stopped (clearing (pos 32)) true) = Run.thread woke false refl in
    let cleared : Run posts [] 1 (stopped (calling (pos 32)) false) =
      Run.thread tested false refl in
    Run.thread cleared false refl

-- What is left of the second interrupt.
abbrev emptied : Stage → Bool → Intc
emptied stage unmasked = record unmasked_two { pending = []; stage = stage; unmasked = unmasked }

abbrev outcomes : List Outcome
outcomes = ignored (pos 32) ∷ lost (pos 64) ∷ []

second-Run : Run posts outcomes 2 (emptied getting false)
unfolding Intc.process_pending Intc.interrupt Intc.init Intc.set_item
second-Run =
    let firsts : List Outcome = ignored (pos 32) ∷ [] in
    let got : Run posts firsts 1 (emptied (waiting (pos 64)) false) =
      Run.thread first-Run false refl in
    let unmasked : Run posts firsts 2 (emptied (waiting (pos 64)) true) =
      Run.write got 3 0 refl refl in
    let woke : Run posts firsts 2 (emptied (woken (pos 64)) true) =
      Run.thread unmasked false refl in
    let masked : Run posts firsts 2 (emptied (woken (pos 64)) false) =
      Run.write woke 3 1 refl refl in
    Run.thread masked false refl

Run-in_order_example : pos 32 ∷ pos 64 ∷ remaining (emptied getting false) ≡ posts
Run-in_order_example = Run-in_order posts outcomes 2 (emptied getting false) second-Run

Run-masked_example : passed outcomes + 0 ≤ 2
Run-masked_example = Run-masked posts outcomes 2 (emptied getting false) second-Run

set_item-asked_example :
    ((Intc.set_item 15 1 (controller []) >>= asked 3 1 (pos 5)) ≡ ok (pos 0x400))
    × ((Intc.set_item 19 1 (controller []) >>= asked 3 1 (pos 5)) ≡ ok (pos 0xffffffff))
set_item-asked_example =
    set_item-asked 3 3 1 1 (pos 5) (controller []) (omega arith) (omega arith) (omega arith)
      (omega arith)

-- A disk of 16 bytes, with the window at byte 4.
abbrev disk : Storage
disk = record { offset = pos 4; wrenable = false; storage_map = replicate 16 0; storage_size = 16 }

set_item-get_item_window_example :
    ((Storage.set_item (reg_storage + 2) 0x1ff (record disk { wrenable = true }) >>= λ s.
    Storage.get_item (reg_storage + 2) s)
      ≡ ok 0xff)
    × ((Storage.set_item (reg_storage + 2) 0x1ff (record disk { wrenable = true }) >>= λ s.
          Storage.get_item (reg_storage + 3) s)
        ≡ Storage.get_item (reg_storage + 3) disk)
    × (Storage.set_item (reg_storage + 2) 0x1ff (record disk { wrenable = false })
        ≡ ok (record disk { wrenable = false }))
set_item-get_item_window_example =
    set_item-get_item_window 4 3 2 0x1ff disk refl (omega arith) (omega arith)
      (λ e. omega (arith, e)) (omega arith)
