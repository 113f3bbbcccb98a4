-- ===== src/Hardware/Internet/Quad.antt =====
-- The bytes of the address register of the network device (compyter/hardware/internet.py).
pub mod Bytes
use compyter.Prelude.{ℕ, List, [], ◌∷◌, bit_and}
use compyter.Prelude.Int.{ℤ, pos, ◌-ℤ◌, ◌*ℤ◌, ◌&ℤ◌, ◌|ℤ◌, mask}
use compyter.Result.{Result, ok, ◌>>=◌, index, shift_left, shift_right}

abbrev pub quad_mask_table : List ℤ
quad_mask_table =
    pos 0xffffffffffffffffffffffffffffff00
    ∷ pos 0xffffffffffffffffffffffffffff00ff
    ∷ pos 0xffffffffffffffffffffffffff00ffff
    ∷ pos 0xffffffffffffffffffffffff00ffffff
    ∷ pos 0xffffffffffffffffffffff00ffffffff
    ∷ pos 0xffffffffffffffffffff00ffffffffff
    ∷ pos 0xffffffffffffffffff00ffffffffffff
    ∷ pos 0xffffffffffffffff00ffffffffffffff
    ∷ pos 0xffffffffffffff00ffffffffffffffff
    ∷ pos 0xffffffffffff00ffffffffffffffffff
    ∷ pos 0xffffffffff00ffffffffffffffffffff
    ∷ pos 0xffffffff00ffffffffffffffffffffff
    ∷ pos 0xffffff00ffffffffffffffffffffffff
    ∷ pos 0xffff00ffffffffffffffffffffffffff
    ∷ pos 0xff00ffffffffffffffffffffffffffff
    ∷ pos 0x00ffffffffffffffffffffffffffffff
    ∷ []

unfoldable pub set_quad_byte : ℤ → ℤ → ℕ → Result ℤ
set_quad_byte num byte val = do
  let v = bit_and val 0xff
  let b = pos 15 -ℤ byte
  m ← index quad_mask_table b
  w ← shift_left (pos v) (b *ℤ pos 8)
  ok (m &ℤ num |ℤ w)

unfoldable pub get_quad_byte : ℤ → ℤ → Result ℕ
get_quad_byte num byte = do w ← shift_right num ((pos 15 -ℤ byte) *ℤ pos 8); ok (mask 0xff w)
