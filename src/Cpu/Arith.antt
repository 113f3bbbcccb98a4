-- ===== src/Cpu/Arith.antt =====
-- The arithmetic and logical instructions of compyter/cpu.py.
pub mod Sums
pub mod Shifts
pub mod Keeps
use compyter.Prelude.{if◌then◌else◌}
use compyter.Prelude.Int.{ℤ, pos, ◌+ℤ◌, ◌*ℤ◌, ◌&ℤ◌, ◌|ℤ◌, ◌^ℤ◌, invert, of_bool, ltb_ℤ, eqb_ℤ}
use compyter.Result.{shift_left, shift_right}
use compyter.Exec.{⊤, Exec, lift, ◌>>=◌, ◌>>◌}
use compyter.Memory.{Bus}
use compyter.Machine.{Machine}
use compyter.Register.{reg_rsvd, reg_carry, get_item, set_rsvd}
use compyter.Cpu.{max_val, trap_div, trap, set}
use compyter.Cpu.Divmod.{divmod}

module _ {B : Bus} where
  pub add : ℤ → ℤ → ℤ → Exec (Machine B) ⊤
  add reg1 reg2 reg3 = do
    a ← get_item reg1
    b ← get_item reg2
    let result = a +ℤ b
    set reg3 (result &ℤ pos 0xffffffff)
    set (pos reg_carry) (of_bool (ltb_ℤ max_val result))

  pub addi : ℤ → ℤ → ℤ → Exec (Machine B) ⊤
  addi reg1 val reg2 = do set_rsvd val; add reg1 (pos reg_rsvd) reg2

  pub sub : ℤ → ℤ → ℤ → Exec (Machine B) ⊤
  unfolding addi
  sub reg1 reg2 reg3 = do b ← get_item reg2; addi reg1 (invert b +ℤ pos 1) reg3

  pub subi : ℤ → ℤ → ℤ → Exec (Machine B) ⊤
  subi reg1 val reg2 = do set_rsvd val; sub reg1 (pos reg_rsvd) reg2

  pub mul : ℤ → ℤ → ℤ → Exec (Machine B) ⊤
  mul reg1 reg2 reg3 = do
    a ← get_item reg1
    b ← get_item reg2
    let result = a *ℤ b
    set reg3 (result &ℤ pos 0xffffffff)
    set (pos reg_carry) (of_bool (ltb_ℤ max_val result))

  pub muli : ℤ → ℤ → ℤ → Exec (Machine B) ⊤
  muli reg1 val reg2 = do set_rsvd val; mul reg1 (pos reg_rsvd) reg2

  pub div : ℤ → ℤ → ℤ → Exec (Machine B) ⊤
  div reg1 reg2 reg3 = do
    b ← get_item reg2
    if eqb_ℤ b (pos 0) then trap trap_div else do
      a ← get_item reg1
      b ← get_item reg2
      set reg3 ((divmod a b).0 &ℤ pos 0xffffffff)
      set (pos reg_carry) (pos 0)

  pub divi : ℤ → ℤ → ℤ → Exec (Machine B) ⊤
  divi reg1 val reg2 = do set_rsvd val; div reg1 (pos reg_rsvd) reg2

  pub mod_ : ℤ → ℤ → ℤ → Exec (Machine B) ⊤
  mod_ reg1 reg2 reg3 = do
    b ← get_item reg2
    if eqb_ℤ b (pos 0) then trap trap_div else do
      a ← get_item reg1
      b ← get_item reg2
      set reg3 ((divmod a b).1 &ℤ pos 0xffffffff)
      set (pos reg_carry) (pos 0)

  pub modi : ℤ → ℤ → ℤ → Exec (Machine B) ⊤
  modi reg1 val reg2 = do set_rsvd val; mod_ reg1 (pos reg_rsvd) reg2

  pub and_ : ℤ → ℤ → ℤ → Exec (Machine B) ⊤
  and_ reg1 reg2 reg3 = do a ← get_item reg1; b ← get_item reg2; set reg3 (a &ℤ b)

  pub andi : ℤ → ℤ → ℤ → Exec (Machine B) ⊤
  andi reg1 val reg2 = do a ← get_item reg1; set reg2 (a &ℤ val)

  pub or_ : ℤ → ℤ → ℤ → Exec (Machine B) ⊤
  or_ reg1 reg2 reg3 = do a ← get_item reg1; b ← get_item reg2; set reg3 (a |ℤ b)

  pub ori : ℤ → ℤ → ℤ → Exec (Machine B) ⊤
  ori reg1 val reg2 = do a ← get_item reg1; set reg2 (a |ℤ val)

  pub xor_ : ℤ → ℤ → ℤ → Exec (Machine B) ⊤
  xor_ reg1 reg2 reg3 = do a ← get_item reg1; b ← get_item reg2; set reg3 (a ^ℤ b)

  pub xori : ℤ → ℤ → ℤ → Exec (Machine B) ⊤
  xori reg1 val reg2 = do a ← get_item reg1; set reg2 (a ^ℤ val)

  pub not_ : ℤ → ℤ → Exec (Machine B) ⊤
  not_ reg1 reg2 = do a ← get_item reg1; set reg2 (invert a &ℤ pos 0xffffffff)

  pub shl : ℤ → ℤ → ℤ → Exec (Machine B) ⊤
  shl reg1 reg2 reg3 = do
    a ← get_item reg1
    b ← get_item reg2
    r ← lift (shift_left a b)
    set reg3 (r &ℤ pos 0xffffffff)

  pub shli : ℤ → ℤ → ℤ → Exec (Machine B) ⊤
  shli reg1 val reg2 = do
    a ← get_item reg1
    r ← lift (shift_left a val)
    set reg2 (r &ℤ pos 0xffffffff)

  pub shr : ℤ → ℤ → ℤ → Exec (Machine B) ⊤
  shr reg1 reg2 reg3 = do
    a ← get_item reg1
    b ← get_item reg2
    r ← lift (shift_right a b)
    set reg3 r

  pub shri : ℤ → ℤ → ℤ → Exec (Machine B) ⊤
  shri reg1 val reg2 = do a ← get_item reg1; r ← lift (shift_right a val); set reg2 r
