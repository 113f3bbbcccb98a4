-- ===== src/Cpu/Access.antt =====
-- The reads and writes of an instruction (compyter/register.py), where no exception and no interrupt
-- is in the way.
use compyter.Prelude.{ℕ, ◌<◌, ◌≡◌, refl, arith, ◌==◌, false}
use compyter.Prelude.Int.{ℤ, pos}
use compyter.Result.{ok}
use compyter.Exec.{◌>>=◌}
use compyter.Memory.{Bus}
use compyter.Machine.{Machine, put}
use compyter.Register.{
  StatusBit, has_bit, reg_status, reg_last, get_item, set_item, has_enabled_intr, is_priv_reg,
}
use compyter.Cpu.{set, set_by}

-- The general purpose registers.
abbrev pub general : ℕ
general = 0x20

-- The registers that user mode may use too.
pub record IsOpen (r : ℕ) : Type 0 where
  pub below : r < reg_last
  pub open_ : is_priv_reg (pos r) ≡ false

pub general-IsOpen : (r : ℕ) → r < general → IsOpen r
general-IsOpen r lt = record { below = omega arith; open_ = ground arith }

not_status : (r : ℕ) → IsOpen r → (reg_status == r) ≡ false
not_status r is_open = ground (arith, is_open.open_)

module _ {B : Bus} where
  pub get_item-IsOpen :
      (r : ℕ) (s : Machine B) → IsOpen r → get_item (pos r) s ≡ (ok (s.registers r), s)
  unfolding get_item ◌>>=◌
  get_item-IsOpen r s is_open = ground (arith, is_open.below, is_open.open_)

  pub bit-put :
      (b : StatusBit) (r : ℕ) (v : ℤ) (s : Machine B)
      → IsOpen r
      → has_bit b (put r v s) ≡ has_bit b s
  bit-put b r v s is_open = rw (not_status r is_open) refl

  pub quiet-IsOpen :
      (r : ℕ) (v : ℤ) (s : Machine B)
      → IsOpen r
      → has_enabled_intr s ≡ false
      → has_enabled_intr (put r v s) ≡ false
  quiet-IsOpen r v s is_open quiet = rw (not_status r is_open) quiet

  pub set-open :
      (r : ℕ) (v : ℤ) (s : Machine B)
      → r < reg_last
      → is_priv_reg (pos r) ≡ false
      → has_enabled_intr s ≡ false
      → set (pos r) v s ≡ (ok tt, put r v s)
  unfolding set set_by set_item ◌>>=◌
  set-open r v s lt open_ quiet =
      let other : (reg_status == r) ≡ false = ground arith in ground arith

  pub set-IsOpen :
      (r : ℕ) (v : ℤ) (s : Machine B)
      → IsOpen r
      → has_enabled_intr s ≡ false
      → set (pos r) v s ≡ (ok tt, put r v s)
  set-IsOpen r v s is_open quiet = set-open r v s is_open.below is_open.open_ quiet

  pub get_item-general :
      (r : ℕ) (s : Machine B) → r < general → get_item (pos r) s ≡ (ok (s.registers r), s)
  unfolding get_item ◌>>=◌
  get_item-general r s lt = ground arith

  pub set-general :
      (r : ℕ) (v : ℤ) (s : Machine B)
      → r < general
      → has_enabled_intr s ≡ false
      → set (pos r) v s ≡ (ok tt, put r v s)
  set-general r v s lt quiet = set-open r v s (omega arith) (ground arith) quiet

  pub quiet-put :
      (r : ℕ) (v : ℤ) (s : Machine B)
      → r < general
      → has_enabled_intr s ≡ false
      → has_enabled_intr (put r v s) ≡ false
  quiet-put r v s lt quiet = ground arith
