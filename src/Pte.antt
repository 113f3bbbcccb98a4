-- ===== src/Pte.antt =====
-- `class PTE` of compyter/mmu.py: the entries of the page tables and their four bytes.
pub mod Bytes
pub mod Access
use compyter.Prelude.{ℕ, ◌*◌, ◌/◌, ◌^◌, List, [], ◌∷◌, leb, bit_and, bit_or, if◌then◌else◌}
use compyter.Prelude.Int.{pos}
use compyter.Result.{Result, ok, err, assertion_error, ◌>>=◌, index}

pub record Pte : Type 0 where
  pub addr : ℕ
  pub rwx : ℕ
  pub dirty : ℕ
  pub acc : ℕ
  pub usable : ℕ
  pub user : ℕ
  pub phys : ℕ
  pub present : ℕ
  pub resvd : ℕ

-- The assertion of `PTE.__init__`.
abbrev pub checked : Pte → Result Pte
checked p = if leb p.addr 0xfffff then ok p else err assertion_error

pub from_bytes : List ℕ → Result Pte
from_bytes pte = do
  b0 ← index pte (pos 0)
  b1 ← index pte (pos 1)
  b2 ← index pte (pos 2)
  b3 ← index pte (pos 3)
  checked (record {
    addr = bit_or (bit_or (b0 * 2 ^ 12) (b1 * 2 ^ 4)) (bit_and b2 0xf0 / 2 ^ 4);
    rwx = bit_and b2 0xe / 2 ^ 1;
    dirty = bit_and b2 0x1;
    acc = bit_and b3 0x80 / 2 ^ 7;
    usable = bit_and b3 0x40 / 2 ^ 6;
    user = bit_and b3 0x20 / 2 ^ 5;
    phys = bit_and b3 0x10 / 2 ^ 4;
    present = bit_and b3 0x8 / 2 ^ 3;
    resvd = bit_and b3 0x7;
  })

pub to_bytes : Pte → List ℕ
to_bytes p =
    bit_and p.addr 0xff000 / 2 ^ 12
    ∷ bit_and p.addr 0x00ff0 / 2 ^ 4
    ∷ bit_or (bit_or (bit_and p.addr 0x0000f * 2 ^ 4) (bit_and p.rwx 0x7 * 2 ^ 1))
        (bit_and p.dirty 0x1)
    ∷ bit_or
        (bit_or
          (bit_or (bit_or (bit_and p.acc 0x1 * 2 ^ 7) (bit_and p.usable 0x1 * 2 ^ 6))
            (bit_and p.user 0x1 * 2 ^ 5))
          (bit_and p.phys 0x1 * 2 ^ 4))
        (bit_and p.present 0x1 * 2 ^ 3)
    ∷ []
