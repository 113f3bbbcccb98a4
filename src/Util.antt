-- ===== src/Util.antt =====
-- compyter/util.py: the bytes of a big-endian word, and of a double word.
pub mod WordByte
use compyter.Prelude.{ℕ, Bool, List, [], ◌∷◌, ◌&&◌, leb, bit_and}
use compyter.Prelude.Int.{ℤ, pos, ◌-ℤ◌, ◌*ℤ◌, ◌&ℤ◌, ◌|ℤ◌, mask}
use compyter.Result.{Result, ok, ◌>>=◌, index, shift_left, shift_right}

-- `in_range`, on the offset in a window of registers.
abbrev pub in_range : ℕ → ℕ → ℕ → Bool
in_range c a b = leb a c && leb c b

abbrev pub mask_table : List ℤ
mask_table = pos 0x00ffffff ∷ pos 0xff00ffff ∷ pos 0xffff00ff ∷ pos 0xffffff00 ∷ []

unfoldable pub set_word_byte : ℤ → ℤ → ℕ → Result ℤ
set_word_byte num byte val = do
  let v = bit_and val 0xff
  let b = pos 3 -ℤ byte
  m ← index mask_table b
  w ← shift_left (pos v) (b *ℤ pos 8)
  ok (m &ℤ num |ℤ w)

unfoldable pub get_word_byte : ℤ → ℤ → Result ℕ
get_word_byte num byte = do w ← shift_right num ((pos 3 -ℤ byte) *ℤ pos 8); ok (mask 0xff w)

abbrev pub double_mask_table : List ℤ
double_mask_table =
    pos 0xffffffffffffff00
    ∷ pos 0xffffffffffff00ff
    ∷ pos 0xffffffffff00ffff
    ∷ pos 0xffffffff00ffffff
    ∷ pos 0xffffff00ffffffff
    ∷ pos 0xffff00ffffffffff
    ∷ pos 0xff00ffffffffffff
    ∷ pos 0x00ffffffffffffff
    ∷ []

pub set_double_byte : ℤ → ℤ → ℕ → Result ℤ
set_double_byte num byte val = do
  let v = bit_and val 0xff
  let b = pos 7 -ℤ byte
  m ← index double_mask_table b
  w ← shift_left (pos v) (b *ℤ pos 8)
  ok (m &ℤ num |ℤ w)

pub get_double_byte : ℤ → ℤ → Result ℕ
get_double_byte num byte = do w ← shift_right num ((pos 7 -ℤ byte) *ℤ pos 8); ok (mask 0xff w)
