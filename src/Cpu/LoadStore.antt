-- ===== src/Cpu/LoadStore.antt =====
-- The loads and stores of compyter/cpu.py. A word is four bytes, the high one first.
pub mod Words
pub mod RoundTrip
pub mod Stores
pub mod Keeps
use compyter.Prelude.{ℕ, Option, none, some, if◌then◌else◌}
use compyter.Prelude.Int.{ℤ, pos, ◌+ℤ◌, ◌*ℤ◌, ◌&ℤ◌, ◌|ℤ◌, ◌<<ℤ◌, ◌>>ℤ◌, ltb_ℤ, mask}
use compyter.Exec.{⊤, Exec, ◌>>=◌, ◌>>◌}
use compyter.Memory.{Bus}
use compyter.Machine.{Machine}
use compyter.Register.{reg_rsvd, get_item, set_rsvd}
use compyter.Mmu.{pte_read, get_address, write_address, clear_cache}
use compyter.Cpu.{max_val, trap_ill, trap, set}

module _ {B : Bus} where
  -- `self.registers[reg1] |= self.mmu.get_address(addr, mask) << k`
  pub merge_byte : ℤ → ℤ → ℤ → ℕ → Exec (Machine B) ⊤
  merge_byte reg1 addr m k = do
    w ← get_item reg1
    b ← get_address addr (some m)
    set reg1 (w |ℤ (pos b <<ℤ k))

  pub loadw : ℤ → ℤ → ℤ → Exec (Machine B) ⊤
  unfolding merge_byte
  loadw reg1 addr m = if ltb_ℤ max_val (addr +ℤ pos 3) then trap trap_ill else do
    b ← get_address addr (some m)
    set reg1 (pos b <<ℤ 24)
    merge_byte reg1 (addr +ℤ pos 1) m 16
    merge_byte reg1 (addr +ℤ pos 2) m 8
    merge_byte reg1 (addr +ℤ pos 3) m 0

  pub loadwr : ℤ → ℤ → Exec (Machine B) ⊤
  loadwr reg1 reg2 = do a ← get_item reg2; loadw reg1 a pte_read

  pub loadwi : ℤ → ℤ → Exec (Machine B) ⊤
  loadwi reg1 val = set reg1 val

  -- `self.mmu.write_address(addr, (self.registers[reg1] >> k) & 0xff)`
  pub save_byte : ℤ → ℤ → ℕ → Exec (Machine B) ⊤
  save_byte reg1 addr k = do w ← get_item reg1; write_address addr (mask 0xff (w >>ℤ k))

  pub savew : ℤ → ℤ → Exec (Machine B) ⊤
  unfolding save_byte
  savew reg1 addr = if ltb_ℤ max_val (addr +ℤ pos 3) then trap trap_ill else do
    save_byte reg1 addr 24
    save_byte reg1 (addr +ℤ pos 1) 16
    save_byte reg1 (addr +ℤ pos 2) 8
    save_byte reg1 (addr +ℤ pos 3) 0
    clear_cache

  pub savewr : ℤ → ℤ → Exec (Machine B) ⊤
  savewr reg1 reg2 = do a ← get_item reg2; savew reg1 a

  pub savewi : ℤ → ℤ → Exec (Machine B) ⊤
  savewi val addr = do set_rsvd val; savew (pos reg_rsvd) addr

  pub savewri : ℤ → ℤ → Exec (Machine B) ⊤
  savewri val reg1 = do a ← get_item reg1; savewi val a

  pub loadb : ℤ → ℤ → Exec (Machine B) ⊤
  loadb reg1 addr = do b ← get_address addr none; set reg1 (pos b)

  pub loadbr : ℤ → ℤ → Exec (Machine B) ⊤
  loadbr reg1 reg2 = do a ← get_item reg2; loadb reg1 a

  pub loadbi : ℤ → ℤ → Exec (Machine B) ⊤
  loadbi reg1 val = set reg1 (val &ℤ pos 0xff)

  pub saveb : ℤ → ℤ → Exec (Machine B) ⊤
  unfolding save_byte
  saveb reg1 addr = do save_byte reg1 addr 0; clear_cache

  pub savebr : ℤ → ℤ → Exec (Machine B) ⊤
  savebr reg1 reg2 = do a ← get_item reg2; saveb reg1 a

  pub savebi : ℤ → ℤ → Exec (Machine B) ⊤
  savebi val addr = do set_rsvd val; saveb (pos reg_rsvd) addr

  pub savebri : ℤ → ℤ → Exec (Machine B) ⊤
  savebri val reg1 = do a ← get_item reg1; savebi val a

  -- The jump that a trap vector is made of.
  pub strapr : ℤ → ℤ → Exec (Machine B) ⊤
  strapr reg1 addr = do
    t ← get_item reg1
    let write_addr = pos 0xfffff000 +ℤ t *ℤ pos 16
    savewi (pos 0x19) write_addr
    savewi addr (write_addr +ℤ pos 4)
    savewi (pos 0) (write_addr +ℤ pos 8)
    savewi (pos 0) (write_addr +ℤ pos 12)

  pub strapi : ℤ → ℤ → Exec (Machine B) ⊤
  strapi val addr = do set_rsvd val; strapr (pos reg_rsvd) addr
