-- ===== src/Cpu/Arith/Shifts.antt =====
-- What the shifts and the complement leave in their registers (compyter/cpu.py).
use compyter.Prelude.{ℕ, ◌-◌, ◌*◌, ◌/◌, ◌%◌, ◌^◌, ◌<◌, ◌≡◌, ap, arith, false}
use compyter.Prelude.Int.{pos, ◌&ℤ◌, invert}
use compyter.Prelude.Bits.{bit_and_mask, bit_and_comm}
use compyter.Result.{ok}
use compyter.Exec.{◌>>=◌}
use compyter.Memory.{Bus}
use compyter.Machine.{Machine, put}
use compyter.Register.{has_enabled_intr}
use compyter.Cpu.Access.{general, get_item-general, set-general}
use compyter.Cpu.Arith.{not_, shl, shr}

-- `~a & 0xffffffff`
complement : (a : ℕ) → a < 2 ^ 32 → invert (pos a) &ℤ pos 0xffffffff ≡ pos (2 ^ 32 - 1 - a)
complement a lt = ap pos (omega (arith, bit_and_comm 0xffffffff a, bit_and_mask 32 a))

module _ {B : Bus} (r1 r2 r3 a k : ℕ) (s : Machine B) (lt1 : r1 < general) (lt2 : r2 < general)
    (lt3 : r3 < general) (reads1 : s.registers r1 ≡ pos a) (reads2 : s.registers r2 ≡ pos k)
    (quiet : has_enabled_intr s ≡ false) where
  left : shl (pos r1) (pos r2) (pos r3) s ≡ (ok tt, put r3 (pos (a * 2 ^ k % 2 ^ 32)) s)
  unfolding shl ◌>>=◌
  left =
      rw (get_item-general r1 s lt1, get_item-general r2 s lt2, reads1, reads2)
        (rw (bit_and_mask 32 (a * 2 ^ k)) (set-general r3 _ s lt3 quiet))

  right : shr (pos r1) (pos r2) (pos r3) s ≡ (ok tt, put r3 (pos (a / 2 ^ k)) s)
  unfolding shr ◌>>=◌
  right =
      rw (get_item-general r1 s lt1, get_item-general r2 s lt2, reads1, reads2)
        (set-general r3 _ s lt3 quiet)

  inverted : a < 2 ^ 32 → not_ (pos r1) (pos r3) s ≡ (ok tt, put r3 (pos (2 ^ 32 - 1 - a)) s)
  unfolding not_ ◌>>=◌
  inverted lt =
      rw (get_item-general r1 s lt1, reads1) (rw (complement a lt) (set-general r3 _ s lt3 quiet))

  -- `shl`, `shr` and `not_` on a word, for a count that is not negative, with general purpose
  -- registers and no interrupt both pending and enabled: the product with the power of two modulo
  -- 2^32, the quotient by it, and the difference from 2^32 - 1. Nothing else changes, not even the
  -- carry.
  pub shift-complement :
      a < 2 ^ 32
      → (shl (pos r1) (pos r2) (pos r3) s ≡ (ok tt, put r3 (pos (a * 2 ^ k % 2 ^ 32)) s))
        × (shr (pos r1) (pos r2) (pos r3) s ≡ (ok tt, put r3 (pos (a / 2 ^ k)) s))
        × (not_ (pos r1) (pos r3) s ≡ (ok tt, put r3 (pos (2 ^ 32 - 1 - a)) s))
  shift-complement lt = (left, right, inverted lt)
