-- ===== src/Hardware/Printer.antt =====
-- compyter/hardware/printer.py. What is written to the terminal is kept in the state, the last
-- character first.
use compyter.Prelude.{ℕ, List, [], ◌∷◌, leb, if◌then◌else◌}
use compyter.Result.{Result, ok, err, value_error}

abbrev pub addr_begin : ℕ
addr_begin = 0xffffefff

abbrev pub addr_end : ℕ
addr_end = 0xffffefff

pub record Printer : Type 0 where
  pub char : ℕ
  pub stdout : List ℕ

pub init : Printer
init = record { char = 0; stdout = [] }

unfoldable pub get_item : ℕ → Printer → Result ℕ
get_item item s = ok s.char

-- `chr` refuses what is no code point. No code catches the exception, so what it leaves is not kept.
unfoldable pub set_item : ℕ → ℕ → Printer → Result Printer
set_item item val s =
    if leb val 0x10ffff
    then ok (record { char = val; stdout = val ∷ s.stdout })
    else err value_error
