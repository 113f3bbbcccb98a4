-- ===== src/Hardware/Intc.antt =====
-- compyter/hardware/intc.py: the interrupt controller.
pub mod Registers
pub mod Pending
use compyter.Prelude.{
  ℕ, ◌+◌, Bool, true, false, Option, none, some, List, [], ◌∷◌, ◌++◌, ◌==◌, ltb, if◌then◌else◌,
}
use compyter.Prelude.Int.{ℤ, pos, ◌-ℤ◌, eqb_ℤ}
use compyter.Result.{Result, ok, map_ok}
use compyter.Util.{in_range, set_word_byte, get_word_byte}

abbrev pub addr_begin : ℕ
addr_begin = 0xffffefce

abbrev pub addr_end : ℕ
addr_end = 0xffffeffe

abbrev pub intc_mask : ℕ
intc_mask = 0x0

abbrev pub intc_reg_intnum : ℕ
intc_reg_intnum = 0x4

abbrev pub intc_reg_intvec : ℕ
intc_reg_intvec = 0x8

abbrev pub intc_add_int : ℕ
intc_add_int = 0xc

abbrev pub intc_del_int : ℕ
intc_del_int = 0x10

abbrev pub intc_get_int : ℕ
intc_get_int = 0x14

abbrev pub intc_trigger : ℕ
intc_trigger = 0x18

abbrev pub intc_jmp_instr : ℕ
intc_jmp_instr = 0x1c

-- How far the thread is in `process_pending`, with its local variable `interrupt`: in front of
-- `pending.get()`, in `unmasked.wait()`, in front of the test of `is_set`, of `unmasked.clear()`, and of
-- `interrupt_nowait`.
pub data Stage : Type 0 where
  getting : Stage
  waiting woken clearing calling : ℤ → Stage

pub record Intc : Type 0 where
  pub reg_intnum : ℤ
  pub reg_intvec : ℤ
  pub interrupts : ℤ → Option ℤ
  pub current : ℤ
  pub pending : List ℤ
  pub stage : Stage
  pub unmasked : Bool

unfoldable pub init : Intc
init = record {
  reg_intnum = pos 0;
  reg_intvec = pos 0;
  interrupts = λ _. none;
  current = pos 0;
  pending = [];
  stage = getting;
  unmasked = false;
}

-- The dictionary of the handlers.
abbrev pub insert : ℤ → ℤ → (ℤ → Option ℤ) → ℤ → Option ℤ
insert k v d j = if eqb_ℤ j k then some v else d j

abbrev pub pop : ℤ → (ℤ → Option ℤ) → ℤ → Option ℤ
pop k d j = if eqb_ℤ j k then none else d j

-- `self.interrupts.get(num, 0xffffffff)`
abbrev pub get_vector : ℤ → (ℤ → Option ℤ) → ℤ
get_vector k d = elim (d k) [ some v ↦ v | none ↦ pos 0xffffffff ]

unfoldable pub interrupt : ℤ → Intc → Intc
interrupt int_num s = record s { pending = s.pending ++ int_num ∷ [] }

unfoldable pub get_item : ℕ → Intc → Result ℕ
get_item item s =
    if item == intc_mask + 3
    then ok (if s.unmasked then 0 else 1)
    else if in_range item intc_reg_intnum (intc_reg_intnum + 3)
    then get_word_byte s.reg_intnum (pos item -ℤ pos intc_reg_intnum)
    else if in_range item intc_reg_intvec (intc_reg_intvec + 3)
    then get_word_byte s.reg_intvec (pos item -ℤ pos intc_reg_intvec)
    else if item == intc_jmp_instr + 3
    then ok 0x19
    else if in_range item (intc_jmp_instr + 4) (intc_jmp_instr + 7)
    then get_word_byte s.current (pos item -ℤ pos (intc_jmp_instr + 4))
    else ok 0

unfoldable pub set_item : ℕ → ℕ → Intc → Result Intc
unfolding interrupt
set_item item val s =
    if in_range item intc_mask (intc_mask + 3)
    then ok (record s { unmasked = if val == 0 then true else false })
    else if in_range item intc_reg_intnum (intc_reg_intnum + 3)
    then map_ok (λ n. record s { reg_intnum = n })
        (set_word_byte s.reg_intnum (pos item -ℤ pos intc_reg_intnum) val)
    else if in_range item intc_reg_intvec (intc_reg_intvec + 3)
    then map_ok (λ n. record s { reg_intvec = n })
        (set_word_byte s.reg_intvec (pos item -ℤ pos intc_reg_intvec) val)
    else if in_range item intc_add_int (intc_add_int + 3)
    then ok (
        if ltb 0 val
        then record s { interrupts = insert s.reg_intnum s.reg_intvec s.interrupts }
        else s)
    else if in_range item intc_del_int (intc_del_int + 3)
    then ok (if ltb 0 val then record s { interrupts = pop s.reg_intnum s.interrupts } else s)
    else if in_range item intc_get_int (intc_get_int + 3)
    then ok
        (if ltb 0 val then record s { reg_intvec = get_vector s.reg_intnum s.interrupts } else s)
    else if in_range item intc_trigger (intc_trigger + 3)
    then ok (if ltb 0 val then interrupt s.reg_intnum s else s)
    else ok s

-- `interrupt_nowait`: the controller after it, and whether it calls `CPU.intr`.
unfoldable pub interrupt_nowait : ℤ → Intc → Intc × Bool
interrupt_nowait int_num s = elim (s.interrupts int_num) [
  | none ↦ (s, false)
  | some v ↦ (record s { current = v }, true)
]

-- The steps of `process_pending`, between which other threads may run: the controller after a step, and
-- whether it calls `CPU.intr`; `none` is a thread that waits.
unfoldable pub process_pending : Intc → Option (Intc × Bool)
unfolding interrupt_nowait
process_pending s = elim s.stage [
  | getting ↦ elim s.pending [
    | [] ↦ none
    | int_num ∷ rest ↦ some (record s { pending = rest; stage = waiting int_num }, false)
  ]
  | waiting int_num ↦ if s.unmasked then some (record s { stage = woken int_num }, false) else none
  | woken int_num ↦
      some (record s { stage = if s.unmasked then clearing int_num else getting }, false)
  | clearing int_num ↦ some (record s { unmasked = false; stage = calling int_num }, false)
  | calling int_num ↦ some (interrupt_nowait int_num (record s { stage = getting }))
]
