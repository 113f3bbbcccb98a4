-- ===== src/Hardware/Keyboard.antt =====
-- compyter/hardware/keyboard.py. The characters come from the terminal.
use compyter.Prelude.{ℕ, ◌+◌, Bool, true, false, ◌==◌, if◌then◌else◌}
use compyter.Prelude.Int.{ℤ, pos, ◌-ℤ◌}
use compyter.Result.{Result, ok, map_ok}
use compyter.Util.{in_range, set_word_byte, get_word_byte}
use compyter.Hardware.Intc.{Intc, interrupt}

abbrev pub int_num : ℤ
int_num = pos 64

abbrev pub addr_begin : ℕ
addr_begin = 0xffffefc1

abbrev pub addr_end : ℕ
addr_end = 0xffffefc8

abbrev pub input_reg_enable : ℕ
input_reg_enable = 0x0

abbrev pub input_reg_char : ℕ
input_reg_char = 0x4

pub record Keyboard : Type 0 where
  pub enabled : Bool
  pub char : ℤ

pub init : Keyboard
init = record { enabled = false; char = pos 0 }

-- One turn of the thread, with the character that it reads.
unfoldable pub input : ℕ → Keyboard × Intc → Keyboard × Intc
input c (s, intc) = (record s { char = pos c }, if s.enabled then interrupt int_num intc else intc)

unfoldable pub get_item : ℕ → Keyboard → Result ℕ
get_item item s =
    if item == input_reg_enable + 3
    then ok (if s.enabled then 1 else 0)
    else if in_range item input_reg_char (input_reg_char + 3)
    then get_word_byte s.char (pos item -ℤ pos input_reg_char)
    else ok 0

unfoldable pub set_item : ℕ → ℕ → Keyboard → Result Keyboard
set_item item val s =
    if item == input_reg_enable + 3
    then ok (record s { enabled = if val == 0 then false else true })
    else if in_range item input_reg_char (input_reg_char + 3)
    then map_ok (λ n. record s { char = n })
        (set_word_byte s.char (pos item -ℤ pos input_reg_char) val)
    else ok s
