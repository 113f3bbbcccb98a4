-- ===== src/Hardware/Rtc.antt =====
-- compyter/hardware/rtc.py. What `datetime.now()` gives is an argument of the operations that ask.
use compyter.Prelude.{ℕ, ◌+◌, ◌==◌, if◌then◌else◌}
use compyter.Prelude.Int.{pos, ◌-ℤ◌}
use compyter.Result.{Result, ok}
use compyter.Util.{in_range, get_word_byte}

abbrev pub addr_begin : ℕ
addr_begin = 0xffffe937

abbrev pub addr_end : ℕ
addr_end = 0xffffe94e

-- The parts of a `datetime` that the clock shows.
pub record Datetime : Type 0 where
  pub year : ℕ
  pub month : ℕ
  pub day : ℕ
  pub hour : ℕ
  pub minute : ℕ
  pub second : ℕ
  pub microsecond : ℕ

abbrev pub reg_year : ℕ
reg_year = 0x0

abbrev pub reg_month : ℕ
reg_month = 0x4

abbrev pub reg_day : ℕ
reg_day = 0x5

abbrev pub reg_hour : ℕ
reg_hour = 0x6

abbrev pub reg_min : ℕ
reg_min = 0x7

abbrev pub reg_sec : ℕ
reg_sec = 0x8

abbrev pub reg_usec : ℕ
reg_usec = 0x9

abbrev pub reg_latch : ℕ
reg_latch = 0xd

-- The state is the time that was latched.
unfoldable pub get_item : ℕ → Datetime → Result ℕ
get_item item now =
    if in_range item reg_year (reg_year + 3)
    then get_word_byte (pos now.year) (pos item)
    else if item == reg_month
    then ok now.month
    else if item == reg_day
    then ok now.day
    else if item == reg_hour
    then ok now.hour
    else if item == reg_min
    then ok now.minute
    else if item == reg_sec
    then ok now.second
    else if in_range item reg_usec (reg_usec + 3)
    then get_word_byte (pos now.microsecond) (pos item -ℤ pos reg_usec)
    else ok 0

unfoldable pub set_item : Datetime → ℕ → ℕ → Datetime → Result Datetime
set_item current item val now =
    if item == reg_latch then ok (if val == 0 then now else current) else ok now
