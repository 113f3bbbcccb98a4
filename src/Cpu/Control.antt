-- ===== src/Cpu/Control.antt =====
-- The instructions of compyter/cpu.py that move registers and return from traps.
pub mod Rfe
pub mod Pending
pub mod Swap
pub mod Keeps
use compyter.Prelude.{true, if◌then◌else◌}
use compyter.Prelude.Int.{ℤ, pos, ◌-ℤ◌, ltb_ℤ}
use compyter.Exec.{⊤, Exec, pure, gets, modify, ◌>>=◌, ◌>>◌, when}
use compyter.Memory.{Bus}
use compyter.Machine.{Machine}
use compyter.Register.{
  reg_pc, reg_ret, reg_res, reg_fc, intr, intr_prev, intr_old, user, user_prev, user_old,
  status_bit, set_status_bit, has_enabled_intr, get_item,
}
use compyter.Cpu.{cpu_intr, set}

module _ {B : Bus} where
  unfoldable pub nop : Exec (Machine B) ⊤
  nop = pure tt

  -- The mode bits move one place down.
  pub restore_mode : Exec (Machine B) ⊤
  restore_mode = do
    b ← status_bit intr_prev
    set_status_bit intr b
    b ← status_bit intr_old
    set_status_bit intr_prev b
    b ← status_bit user_prev
    set_status_bit user b
    b ← status_bit user_old
    set_status_bit user_prev b

  pub rfe : Exec (Machine B) ⊤
  unfolding restore_mode
  rfe = do
    restore_mode
    n ← get_item (pos reg_fc)
    when (ltb_ℤ (pos 0) n) (do n ← get_item (pos reg_fc); set (pos reg_fc) (n -ℤ pos 1))
    fire ← gets has_enabled_intr
    when fire cpu_intr
    ret ← get_item (pos reg_ret)
    set (pos reg_pc) ret

  -- The processor sleeps until a trap sets the event.
  pub wait : Exec (Machine B) ⊤
  wait = do
    set_already ← gets (λ s. s.trap_event)
    if set_already then pure tt else modify (λ s. record s { waiting = true })

  -- The first register is given the number of the second one.
  pub swap : ℤ → ℤ → Exec (Machine B) ⊤
  swap reg1 reg2 = do temp ← get_item reg1; set reg1 reg2; set reg2 temp

  pub copy : ℤ → ℤ → Exec (Machine B) ⊤
  copy reg1 reg2 = do a ← get_item reg2; set reg1 a

  pub cpuid : Exec (Machine B) ⊤
  cpuid = set (pos reg_res) (pos 6)
