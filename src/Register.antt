-- ===== src/Register.antt =====
-- compyter/register.py: the names of the registers, the bits of the status register, and the
-- privilege check on every access through `RegisterFile`.
pub mod StatusBits
use compyter.Prelude.{ℕ, Bool, true, false, ◌&&◌, ◌||◌, if◌then◌else◌}
use compyter.Prelude.Int.{ℤ, pos, ◌&ℤ◌, ◌|ℤ◌, invert, truthy, eqb_ℤ}
use compyter.Result.{Result, ok, err, privilege, type_error, index_error, or_raise, place, map_ok}
use compyter.Exec.{⊤, Exec, raise, modify, reads, gets, changes, ◌>>=◌, ◌>>◌, when}
use compyter.Memory.{Bus}
use compyter.Machine.{Machine, put}

-- `RegisterName`: the general purpose registers 0 to 31 go by their numbers.
abbrev pub reg_pc : ℕ
reg_pc = 0x20

abbrev pub reg_sp : ℕ
reg_sp = 0x21

abbrev pub reg_res : ℕ
reg_res = 0x22

abbrev pub reg_carry : ℕ
reg_carry = 0x23

abbrev pub reg_ret : ℕ
reg_ret = 0x24

abbrev pub reg_status : ℕ
reg_status = 0x25

abbrev pub reg_vaddr : ℕ
reg_vaddr = 0x26

abbrev pub reg_bptr : ℕ
reg_bptr = 0x27

abbrev pub reg_fc : ℕ
reg_fc = 0x28

abbrev pub reg_rsvd : ℕ
reg_rsvd = 0x29

abbrev pub reg_last : ℕ
reg_last = 0x2a

-- `StatusBit`
pub data StatusBit : Type 0 where
  mmu_enable user_old intr_old user_prev intr_prev user intr : StatusBit

abbrev pub value : StatusBit → ℕ
value mmu_enable = 0x80000000
value user_old = 0x20
value intr_old = 0x10
value user_prev = 0x8
value intr_prev = 0x4
value user = 0x2
value intr = 0x1

-- `item in PRIV_REGS` and `item in DIS_REGS`
abbrev pub is_priv_reg : ℤ → Bool
is_priv_reg r = eqb_ℤ r (pos reg_status) || eqb_ℤ r (pos reg_vaddr) || eqb_ℤ r (pos reg_bptr)

abbrev pub is_dis_reg : ℤ → Bool
is_dis_reg r = eqb_ℤ r (pos reg_fc) || eqb_ℤ r (pos reg_rsvd)

-- The getters and setters of one bit, on the value of the status register.
unfoldable pub test_bit : StatusBit → ℤ → Bool
test_bit b status = truthy (status &ℤ pos (value b))

unfoldable pub with_bit : StatusBit → Bool → ℤ → ℤ
with_bit b true status = status |ℤ pos (value b)
with_bit b false status = status &ℤ invert (pos (value b))

module _ {B : Bus} where
  -- `mmu_bit`, `user_bit` and the others: the getters see the register directly.
  abbrev pub has_bit : StatusBit → Machine B → Bool
  has_bit b s = test_bit b (s.registers reg_status)

  unfoldable pub status_bit : StatusBit → Exec (Machine B) Bool
  status_bit b = gets (has_bit b)

  unfoldable pub set_status_bit : StatusBit → Bool → Exec (Machine B) ⊤
  set_status_bit b val = modify λ s. put reg_status (with_bit b val (s.registers reg_status)) s

  -- The `rsvd` property, which sees the register directly too.
  unfoldable pub rsvd : Exec (Machine B) ℤ
  rsvd = gets λ s. s.registers reg_rsvd

  unfoldable pub set_rsvd : ℤ → Exec (Machine B) ⊤
  set_rsvd val = modify (put reg_rsvd val)

  -- The getter of `vaddr` has a parameter that no access passes.
  unfoldable pub vaddr : Exec (Machine B) ℤ
  vaddr = raise type_error

  unfoldable pub set_vaddr : ℤ → Exec (Machine B) ⊤
  set_vaddr val = modify (put reg_vaddr val)

  unfoldable pub bptr : Exec (Machine B) ℤ
  bptr = gets λ s. s.registers reg_bptr

  unfoldable pub set_bptr : ℤ → Exec (Machine B) ⊤
  set_bptr val = modify (put reg_bptr val)

  -- `__getitem__`, with the register that an index names.
  abbrev pub read : ℤ → Machine B → Result ℤ
  read item s =
      if is_priv_reg item && has_bit user s
      then err privilege
      else map_ok s.registers (or_raise (place item reg_last) index_error)

  unfoldable pub get_item : ℤ → Exec (Machine B) ℤ
  get_item item = reads (read item)

  -- The first half of `__setitem__`.
  abbrev pub write : ℤ → ℤ → Machine B → Result (Machine B)
  write item val s =
      if is_priv_reg item && has_bit user s
      then err privilege
      else map_ok (λ r. put r val s) (or_raise (place item reg_last) index_error)

  abbrev pub has_enabled_intr : Machine B → Bool
  has_enabled_intr s = has_bit intr s && s.intr_pending

  -- `__setitem__`: a write that leaves an interrupt both pending and enabled calls `CPU.intr`,
  -- which is the argument.
  unfoldable pub set_item : Exec (Machine B) ⊤ → ℤ → ℤ → Exec (Machine B) ⊤
  set_item cpu_intr item val = do
    changes (write item val)
    fire ← gets has_enabled_intr
    when fire cpu_intr
