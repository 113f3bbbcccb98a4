-- ===== src/Hardware/Timer.antt =====
-- compyter/hardware/timer.py. The thread sleeps for the duration, in milliseconds, and then fires; its
-- turns are the only times at which it looks at the register.
use compyter.Prelude.{ℕ, if◌then◌else◌}
use compyter.Prelude.Int.{ℤ, pos, ltb_ℤ}
use compyter.Result.{Result, map_ok}
use compyter.Util.{set_word_byte, get_word_byte}
use compyter.Hardware.Intc.{Intc, interrupt}

abbrev pub int_num : ℤ
int_num = pos 32

abbrev pub addr_begin : ℕ
addr_begin = 0xffffefc9

abbrev pub addr_end : ℕ
addr_end = 0xffffefcc

pub record Timer : Type 0 where
  pub duration : ℤ

pub init : Timer
init = record { duration = pos 0 }

unfoldable pub get_item : ℕ → Timer → Result ℕ
get_item item s = get_word_byte s.duration (pos item)

unfoldable pub set_item : ℕ → ℕ → Timer → Result Timer
set_item item val s =
    map_ok (λ n. record { duration = n }) (set_word_byte s.duration (pos item) val)

-- One turn of the thread, behind its sleep.
unfoldable pub timer : Timer → Intc → Intc
timer s intc = if ltb_ℤ (pos 0) s.duration then interrupt int_num intc else intc
