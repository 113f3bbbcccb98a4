-- ===== src/Cpu/Jumps.antt =====
-- The conditional jumps of compyter/cpu.py. The suffix `i` compares with an immediate, `r` jumps to
-- an address in a register.
pub mod Signed
pub mod Keeps
use compyter.Prelude.{ℕ, Bool, not, ltb, if◌then◌else◌}
use compyter.Prelude.Int.{ℤ, pos, ◌-ℤ◌, ltb_ℤ, leb_ℤ, eqb_ℤ}
use compyter.Exec.{⊤, Exec, ◌>>=◌, ◌>>◌, when}
use compyter.Memory.{Bus}
use compyter.Machine.{Machine}
use compyter.Register.{reg_rsvd, get_item, set_rsvd}
use compyter.Cpu.{jmp}

-- `_binary_to_signed`
abbrev pub binary_to_signed : ℤ → ℤ
binary_to_signed num = if ltb_ℤ (pos 0x7fffffff) num then num -ℤ pos 0x100000000 else num

module _ {B : Bus} where
  pub jmpr : ℤ → Exec (Machine B) ⊤
  jmpr reg1 = do a ← get_item reg1; jmp a

  pub jmpeq : ℤ → ℤ → ℤ → Exec (Machine B) ⊤
  jmpeq reg1 reg2 addr = do a ← get_item reg1; b ← get_item reg2; when (eqb_ℤ a b) (jmp addr)

  pub jmpeqi : ℤ → ℤ → ℤ → Exec (Machine B) ⊤
  jmpeqi reg1 val addr = do set_rsvd val; jmpeq reg1 (pos reg_rsvd) addr

  pub jmpeqr : ℤ → ℤ → ℤ → Exec (Machine B) ⊤
  jmpeqr reg1 reg2 reg3 = do a ← get_item reg3; jmpeq reg1 reg2 a

  pub jmpeqri : ℤ → ℤ → ℤ → Exec (Machine B) ⊤
  jmpeqri reg1 val reg2 = do a ← get_item reg2; jmpeqi reg1 val a

  pub jmpne : ℤ → ℤ → ℤ → Exec (Machine B) ⊤
  jmpne reg1 reg2 addr = do a ← get_item reg1; b ← get_item reg2; when (not (eqb_ℤ a b)) (jmp addr)

  pub jmpnei : ℤ → ℤ → ℤ → Exec (Machine B) ⊤
  jmpnei reg1 val addr = do set_rsvd val; jmpne reg1 (pos reg_rsvd) addr

  pub jmpner : ℤ → ℤ → ℤ → Exec (Machine B) ⊤
  jmpner reg1 reg2 reg3 = do a ← get_item reg3; jmpne reg1 reg2 a

  pub jmpneri : ℤ → ℤ → ℤ → Exec (Machine B) ⊤
  jmpneri reg1 val reg2 = do a ← get_item reg2; jmpnei reg1 val a

  pub jmpgt : ℤ → ℤ → ℤ → Exec (Machine B) ⊤
  jmpgt reg1 reg2 addr = do
    a ← get_item reg1
    b ← get_item reg2
    when (ltb_ℤ (binary_to_signed b) (binary_to_signed a)) (jmp addr)

  pub jmpgti : ℤ → ℤ → ℤ → Exec (Machine B) ⊤
  jmpgti reg1 val addr = do set_rsvd val; jmpgt reg1 (pos reg_rsvd) addr

  pub jmpgtr : ℤ → ℤ → ℤ → Exec (Machine B) ⊤
  jmpgtr reg1 reg2 reg3 = do a ← get_item reg3; jmpgt reg1 reg2 a

  pub jmpgtri : ℤ → ℤ → ℤ → Exec (Machine B) ⊤
  jmpgtri reg1 val reg2 = do a ← get_item reg2; jmpgti reg1 val a

  pub jmpge : ℤ → ℤ → ℤ → Exec (Machine B) ⊤
  jmpge reg1 reg2 addr = do
    a ← get_item reg1
    b ← get_item reg2
    when (leb_ℤ (binary_to_signed b) (binary_to_signed a)) (jmp addr)

  pub jmpgei : ℤ → ℤ → ℤ → Exec (Machine B) ⊤
  jmpgei reg1 val addr = do set_rsvd val; jmpge reg1 (pos reg_rsvd) addr

  pub jmpger : ℤ → ℤ → ℤ → Exec (Machine B) ⊤
  jmpger reg1 reg2 reg3 = do a ← get_item reg3; jmpge reg1 reg2 a

  pub jmpgeri : ℤ → ℤ → ℤ → Exec (Machine B) ⊤
  jmpgeri reg1 val reg2 = do a ← get_item reg2; jmpgei reg1 val a

  pub jmplt : ℤ → ℤ → ℤ → Exec (Machine B) ⊤
  jmplt reg1 reg2 addr = do
    a ← get_item reg1
    b ← get_item reg2
    when (ltb_ℤ (binary_to_signed a) (binary_to_signed b)) (jmp addr)

  pub jmplti : ℤ → ℤ → ℤ → Exec (Machine B) ⊤
  jmplti reg1 val addr = do set_rsvd val; jmplt reg1 (pos reg_rsvd) addr

  pub jmpltr : ℤ → ℤ → ℤ → Exec (Machine B) ⊤
  jmpltr reg1 reg2 reg3 = do a ← get_item reg3; jmplt reg1 reg2 a

  pub jmpltri : ℤ → ℤ → ℤ → Exec (Machine B) ⊤
  jmpltri reg1 val reg2 = do a ← get_item reg2; jmplti reg1 val a

  pub jmple : ℤ → ℤ → ℤ → Exec (Machine B) ⊤
  jmple reg1 reg2 addr = do
    a ← get_item reg1
    b ← get_item reg2
    when (leb_ℤ (binary_to_signed a) (binary_to_signed b)) (jmp addr)

  pub jmplei : ℤ → ℤ → ℤ → Exec (Machine B) ⊤
  jmplei reg1 val addr = do set_rsvd val; jmple reg1 (pos reg_rsvd) addr

  pub jmpler : ℤ → ℤ → ℤ → Exec (Machine B) ⊤
  jmpler reg1 reg2 reg3 = do a ← get_item reg3; jmple reg1 reg2 a

  pub jmpleri : ℤ → ℤ → ℤ → Exec (Machine B) ⊤
  jmpleri reg1 val reg2 = do a ← get_item reg2; jmplei reg1 val a
