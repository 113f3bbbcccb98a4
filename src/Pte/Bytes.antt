-- ===== src/Pte/Bytes.antt =====
-- The four bytes of a page table entry (`PTE.to_bytes` and `PTE.from_bytes` of compyter/mmu.py).
use compyter.Prelude.{
  ℕ, ◌+◌, ◌*◌, ◌/◌, ◌%◌, ◌^◌, ◌<◌, ◌≡◌, ◌∙◌, sym, ap, arith, [], ◌∷◌, bit_and, bit_or,
}
use compyter.Prelude.Bits.{bit_and_field, bit_and_mask, bit_and_bit, bit_or_fields}
use compyter.Result.{ok}
use compyter.Pte.{Pte, checked, from_bytes, to_bytes}

-- The bytes as numbers.
abbrev third : ℕ → ℕ → ℕ → ℕ
third low rwx dirty = (low * 2 ^ 3 + rwx) * 2 + dirty

abbrev fourth : ℕ → ℕ → ℕ → ℕ → ℕ → ℕ
fourth acc usable user phys present =
    ((((acc * 2 + usable) * 2 + user) * 2 + phys) * 2 + present) * 2 ^ 3

low_bit : (x : ℕ) → x < 2 → bit_and x 1 ≡ x
low_bit x lt = omega (arith, bit_and_mask 1 x)

third_byte :
    (addr rwx dirty : ℕ)
    → rwx < 8
    → dirty < 2
    → bit_or (bit_or (bit_and addr 0x0000f * 2 ^ 4) (bit_and rwx 0x7 * 2 ^ 1)) (bit_and dirty 0x1)
      ≡ third (addr % 16) rwx dirty
third_byte addr rwx dirty hr hd =
    let low : bit_and addr 0xf ≡ addr % 16 = bit_and_mask 4 addr in
    let three : bit_and rwx 7 ≡ rwx = omega (arith, bit_and_mask 3 rwx) in
    let one = bit_or_fields 4 (addr % 16) (rwx * 2) (omega arith) in
    let two = bit_or_fields 1 (addr % 16 * 2 ^ 3 + rwx) dirty (omega arith) in
    let shift : addr % 16 * 2 ^ 4 + rwx * 2 ≡ (addr % 16 * 2 ^ 3 + rwx) * 2 ^ 1 = omega arith in
    rw (low, three, low_bit dirty hd) (ap (λ n. bit_or n dirty) (one ∙ shift) ∙ two)

fourth_byte :
    (acc usable user phys present : ℕ)
    → acc < 2
    → usable < 2
    → user < 2
    → phys < 2
    → present < 2
    → bit_or
        (bit_or
          (bit_or
            (bit_or (bit_and acc 0x1 * 2 ^ 7) (bit_and usable 0x1 * 2 ^ 6))
            (bit_and user 0x1 * 2 ^ 5))
          (bit_and phys 0x1 * 2 ^ 4))
        (bit_and present 0x1 * 2 ^ 3)
      ≡ fourth acc usable user phys present
fourth_byte a b c d e ha hb hc hd he =
    let one = bit_or_fields 7 a (b * 2 ^ 6) (omega arith) in
    let s1 : a * 2 ^ 7 + b * 2 ^ 6 ≡ (a * 2 + b) * 2 ^ 6 = omega arith in
    let two = bit_or_fields 6 (a * 2 + b) (c * 2 ^ 5) (omega arith) in
    let s2 : (a * 2 + b) * 2 ^ 6 + c * 2 ^ 5 ≡ ((a * 2 + b) * 2 + c) * 2 ^ 5 = omega arith in
    let three = bit_or_fields 5 ((a * 2 + b) * 2 + c) (d * 2 ^ 4) (omega arith) in
    let s3 : ((a * 2 + b) * 2 + c) * 2 ^ 5 + d * 2 ^ 4 ≡ (((a * 2 + b) * 2 + c) * 2 + d) * 2 ^ 4 =
      omega arith in
    let four = bit_or_fields 4 (((a * 2 + b) * 2 + c) * 2 + d) (e * 2 ^ 3) (omega arith) in
    rw (low_bit a ha, low_bit b hb, low_bit c hc, low_bit d hd, low_bit e he)
      (ap (λ n. bit_or (bit_or (bit_or n (c * 2 ^ 5)) (d * 2 ^ 4)) (e * 2 ^ 3)) (one ∙ s1)
        ∙ ap (λ n. bit_or (bit_or n (d * 2 ^ 4)) (e * 2 ^ 3)) (two ∙ s2)
        ∙ ap (λ n. bit_or n (e * 2 ^ 3)) (three ∙ s3)
        ∙ four
        ∙ omega arith)

first_byte : (addr : ℕ) → addr < 2 ^ 20 → bit_and addr 0xff000 / 2 ^ 12 ≡ addr / 2 ^ 12
first_byte addr lt = omega (arith, bit_and_field 12 8 addr)

second_byte : (addr : ℕ) → bit_and addr 0x00ff0 / 2 ^ 4 ≡ addr / 2 ^ 4 % 2 ^ 8
second_byte addr = omega (arith, bit_and_field 4 8 addr)

-- The fields of the third and the fourth byte.
module _ (low rwx dirty : ℕ) (hl : low < 16) (hr : rwx < 8) (hd : dirty < 2) where
  low_field : bit_and (third low rwx dirty) 0xf0 / 2 ^ 4 ≡ low
  low_field = omega (arith, bit_and_field 4 4 (third low rwx dirty))

  rwx_field : bit_and (third low rwx dirty) 0xe / 2 ^ 1 ≡ rwx
  rwx_field = omega (arith, bit_and_field 1 3 (third low rwx dirty))

  dirty_field : bit_and (third low rwx dirty) 0x1 ≡ dirty
  dirty_field = omega (arith, bit_and_mask 1 (third low rwx dirty))

module _ (acc usable user phys present : ℕ) (ha : acc < 2) (hu : usable < 2) (hs : user < 2)
    (hp : phys < 2) (he : present < 2) where
  abbrev byte : ℕ
  byte = fourth acc usable user phys present

  acc_field : bit_and byte 0x80 / 2 ^ 7 ≡ acc
  acc_field = omega (arith, bit_and_bit 7 byte)

  usable_field : bit_and byte 0x40 / 2 ^ 6 ≡ usable
  usable_field = omega (arith, bit_and_bit 6 byte)

  user_field : bit_and byte 0x20 / 2 ^ 5 ≡ user
  user_field = omega (arith, bit_and_bit 5 byte)

  phys_field : bit_and byte 0x10 / 2 ^ 4 ≡ phys
  phys_field = omega (arith, bit_and_bit 4 byte)

  present_field : bit_and byte 0x8 / 2 ^ 3 ≡ present
  present_field = omega (arith, bit_and_bit 3 byte)

  resvd_field : bit_and byte 0x7 ≡ 0
  resvd_field = omega (arith, bit_and_mask 3 byte)

addr_field :
    (addr : ℕ)
    → addr < 2 ^ 20
    → bit_or (bit_or (addr / 2 ^ 12 * 2 ^ 12) (addr / 2 ^ 4 % 2 ^ 8 * 2 ^ 4)) (addr % 16) ≡ addr
addr_field addr lt =
    let one = bit_or_fields 12 (addr / 2 ^ 12) (addr / 2 ^ 4 % 2 ^ 8 * 2 ^ 4) (omega arith) in
    let shift : addr / 2 ^ 12 * 2 ^ 12 + addr / 2 ^ 4 % 2 ^ 8 * 2 ^ 4 ≡ addr / 2 ^ 4 * 2 ^ 4 =
      omega arith in
    let two = bit_or_fields 4 (addr / 2 ^ 4) (addr % 16) (omega arith) in
    ap (λ n. bit_or n (addr % 16)) (one ∙ shift) ∙ two ∙ omega arith

-- The fields of an entry fit their bits, and the reserved ones are 0.
pub record IsEntry (p : Pte) : Type 0 where
  pub addr : p.addr < 2 ^ 20
  pub rwx : p.rwx < 8
  pub dirty : p.dirty < 2
  pub acc : p.acc < 2
  pub usable : p.usable < 2
  pub user : p.user < 2
  pub phys : p.phys < 2
  pub present : p.present < 2
  pub resvd : p.resvd ≡ 0

bytes_lem :
    (p : Pte)
    → IsEntry p
    → to_bytes p
      ≡ p.addr / 2 ^ 12
        ∷ p.addr / 2 ^ 4 % 2 ^ 8
        ∷ third (p.addr % 16) p.rwx p.dirty
        ∷ fourth p.acc p.usable p.user p.phys p.present
        ∷ []
unfolding to_bytes
bytes_lem p h i =
    first_byte p.addr h.addr i
    ∷ second_byte p.addr i
    ∷ third_byte p.addr p.rwx p.dirty h.rwx h.dirty i
    ∷ fourth_byte p.acc p.usable p.user p.phys p.present h.acc h.usable h.user h.phys h.present i
    ∷ []

checked-IsEntry : (p : Pte) → p.addr < 2 ^ 20 → checked p ≡ ok p
checked-IsEntry p lt = ground arith

-- An entry whose fields fit their bits, with none of the reserved bits set, comes back from its four
-- bytes: `from_bytes` accepts what `to_bytes` returns, and every field is as it was.
pub from_bytes-to_bytes : (p : Pte) → IsEntry p → from_bytes (to_bytes p) ≡ ok p
unfolding from_bytes
from_bytes-to_bytes p h =
    let low = p.addr % 16 in
    let hl : low < 16 = omega arith in
    let addr =
      ap (λ n. bit_or (bit_or (p.addr / 2 ^ 12 * 2 ^ 12) (p.addr / 2 ^ 4 % 2 ^ 8 * 2 ^ 4)) n)
        (low_field low p.rwx p.dirty hl h.rwx h.dirty)
      ∙ addr_field p.addr h.addr in
    let rwx = rwx_field low p.rwx p.dirty hl h.rwx h.dirty in
    let dirty = dirty_field low p.rwx p.dirty hl h.rwx h.dirty in
    ap from_bytes (bytes_lem p h)
    ∙ (λ i. checked (record {
      addr = addr i;
      rwx = rwx i;
      dirty = dirty i;
      acc =
          acc_field p.acc p.usable p.user p.phys p.present h.acc h.usable h.user h.phys h.present i;
      usable =
          usable_field p.acc p.usable p.user p.phys p.present h.acc h.usable h.user h.phys h.present
            i;
      user =
          user_field p.acc p.usable p.user p.phys p.present h.acc h.usable h.user h.phys h.present
            i;
      phys =
          phys_field p.acc p.usable p.user p.phys p.present h.acc h.usable h.user h.phys h.present
            i;
      present =
          present_field p.acc p.usable p.user p.phys p.present h.acc h.usable h.user h.phys
            h.present i;
      resvd =
          (resvd_field p.acc p.usable p.user p.phys p.present h.acc h.usable h.user h.phys h.present
              ∙ sym h.resvd)
            i;
    }))
    ∙ checked-IsEntry p h.addr
