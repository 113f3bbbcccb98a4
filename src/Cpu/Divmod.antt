-- ===== src/Cpu/Divmod.antt =====
-- `CPU._divmod`: the restoring division of compyter/cpu.py, one bit of the quotient a round.
pub mod Correct
use compyter.Prelude.{ℕ, zero, suc, if◌then◌else◌}
use compyter.Prelude.Int.{ℤ, pos, ◌+ℤ◌, ◌&ℤ◌, ◌|ℤ◌, ◌^ℤ◌, ◌<<ℤ◌, ◌>>ℤ◌, eqb_ℤ}

-- One round of the loop, on the quotient and the remainder.
pub round : ℤ → ℤ × ℤ → ℤ × ℤ
round divisor_compl (quotient, remainder) =
    let carry = quotient >>ℤ 31 in
    let q = (quotient <<ℤ 1) &ℤ pos 0xffffffff in
    let r = ((remainder <<ℤ 1) &ℤ pos 0xffffffff) |ℤ carry in
    let test = (r +ℤ divisor_compl) &ℤ pos 0xffffffff in
    if eqb_ℤ (test &ℤ pos 0x80000000) (pos 0) then (q |ℤ pos 1, test) else (q, r)

pub rounds : ℕ → ℤ → ℤ × ℤ → ℤ × ℤ
rounds zero divisor_compl s = s
rounds (suc n) divisor_compl s = rounds n divisor_compl (round divisor_compl s)

pub divmod : ℤ → ℤ → ℤ × ℤ
divmod dividend divisor = rounds 32 ((divisor ^ℤ pos 0xffffffff) +ℤ pos 1) (dividend, pos 0)
