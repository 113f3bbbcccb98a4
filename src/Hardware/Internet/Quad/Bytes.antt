-- ===== src/Hardware/Internet/Quad/Bytes.antt =====
-- What `_set_quad_byte` and `_get_quad_byte` of compyter/hardware/internet.py do to the sixteen bytes of
-- an address.
use native.Mathlib.Nat.{one-le-pow, mul-add-div_right, div-eq_of_lt}
use compyter.Prelude.{
  ℕ, zero, suc, ◌+◌, ◌-◌, ◌*◌, ◌/◌, ◌%◌, ◌^◌, ◌<◌, ◌≡◌, ◌∙◌, refl, ap, arith, bit_and, bit_or,
}
use compyter.Prelude.Int.{pos}
use compyter.Prelude.Bits.{
  bit_and_split, bit_or_split, bit_or_fields, bit_and_mask, bit_and_comm, bit_or-zero, zero-bit_and,
}
use compyter.Result.{ok}
use compyter.Hardware.Internet.Quad.{set_quad_byte, get_quad_byte}

-- A number with the byte `d` above `k` bits.
abbrev pub with_byte : ℕ → ℕ → ℕ → ℕ → ℕ
with_byte k q d r = (q * 2 ^ 8 + d) * 2 ^ k + r

-- The mask clears the byte.
cleared :
    (k j m q d r : ℕ)
    → m ≡ with_byte k (2 ^ j - 1) 0 (2 ^ k - 1)
    → q < 2 ^ j
    → d < 2 ^ 8
    → r < 2 ^ k
    → bit_and m (with_byte k q d r) ≡ with_byte k q 0 r
cleared k j m q d r e hq hd hr =
    let ones : 2 ^ k - 1 < 2 ^ k = ground (arith, one-le-pow k 2) in
    let low : bit_and (2 ^ k - 1) r ≡ r =
      bit_and_comm (2 ^ k - 1) r ∙ bit_and_mask k r ∙ grind arith in
    let high : bit_and (2 ^ j - 1) q ≡ q =
      bit_and_comm (2 ^ j - 1) q ∙ bit_and_mask j q ∙ grind arith in
    ap (λ n. bit_and n (with_byte k q d r)) e
    ∙ bit_and_split k ((2 ^ j - 1) * 2 ^ 8 + 0) (2 ^ k - 1) (q * 2 ^ 8 + d) r ones hr
    ∙ ap (λ n. n * 2 ^ k + bit_and (2 ^ k - 1) r)
        (bit_and_split 8 (2 ^ j - 1) 0 q d (omega arith) hd
          ∙ ap (λ n. n * 2 ^ 8 + bit_and 0 d) high
          ∙ ap (λ n. q * 2 ^ 8 + n) (zero-bit_and d))
    ∙ ap (λ n. (q * 2 ^ 8 + 0) * 2 ^ k + n) low

-- A byte in the place that is cleared.
merged :
    (k q v r : ℕ)
    → v < 2 ^ 8
    → r < 2 ^ k
    → bit_or (with_byte k q 0 r) (v * 2 ^ k) ≡ with_byte k q v r
merged k q v r hv hr =
    let none : 0 < 2 ^ k = ground (arith, one-le-pow k 2) in
    let shifted : v * 2 ^ k ≡ v * 2 ^ k + 0 = omega arith in
    let plain : q * 2 ^ 8 + 0 ≡ q * 2 ^ 8 = omega arith in
    ap (bit_or (with_byte k q 0 r)) shifted
    ∙ bit_or_split k (q * 2 ^ 8 + 0) r v 0 hr none
    ∙ ap (λ n. n * 2 ^ k + bit_or r 0) (ap (λ n. bit_or n v) plain ∙ bit_or_fields 8 q v hv)
    ∙ ap (λ n. (q * 2 ^ 8 + v) * 2 ^ k + n) (bit_or-zero r)

-- The bytes above and below stay.
replaced :
    (k j m q d r v : ℕ)
    → m ≡ with_byte k (2 ^ j - 1) 0 (2 ^ k - 1)
    → q < 2 ^ j
    → d < 2 ^ 8
    → r < 2 ^ k
    → bit_or (bit_and m (with_byte k q d r)) (bit_and v 0xff * 2 ^ k) ≡ with_byte k q (v % 2 ^ 8) r
replaced k j m q d r v e hq hd hr =
    ap (λ n. bit_or n (bit_and v 0xff * 2 ^ k)) (cleared k j m q d r e hq hd hr)
    ∙ ap (λ n. bit_or (with_byte k q 0 r) (n * 2 ^ k)) (bit_and_mask 8 v)
    ∙ merged k q (v % 2 ^ 8) r (omega arith) hr

shown : (k q d r : ℕ) → d < 2 ^ 8 → r < 2 ^ k → bit_and (with_byte k q d r / 2 ^ k) 0xff ≡ d
shown k q d r hd hr =
    let top : with_byte k q d r / 2 ^ k ≡ q * 2 ^ 8 + d =
      mul-add-div_right {m = 2 ^ k} (one-le-pow k 2 (omega arith)) (q * 2 ^ 8 + d) r
      ∙ omega (arith, div-eq_of_lt hr) in
    ap (λ n. bit_and n 0xff) top ∙ bit_and_mask 8 (q * 2 ^ 8 + d) ∙ omega arith

-- A byte that is written to the address register replaces the byte at its place, the high one first,
-- by the low eight bits that are written; the bytes above and below stay; and a read of the place
-- shows the byte that stands there.
pub set_quad_byte-get_quad_byte :
    (i q d r v : ℕ)
    → i < 16
    → q < 2 ^ (8 * i)
    → d < 2 ^ 8
    → r < 2 ^ (8 * (15 - i))
    → (set_quad_byte (pos (with_byte (8 * (15 - i)) q d r)) (pos i) v
        ≡ ok (pos (with_byte (8 * (15 - i)) q (v % 2 ^ 8) r)))
      × (get_quad_byte (pos (with_byte (8 * (15 - i)) q d r)) (pos i) ≡ ok d)
unfolding set_quad_byte get_quad_byte
set_quad_byte-get_quad_byte zero q d r v h hq hd hr = (
  ap (λ n. ok (pos n)) (replaced 120 0 0x00ffffffffffffffffffffffffffffff q d r v refl hq hd hr),
  ap ok (shown 120 q d r hd hr),
)
set_quad_byte-get_quad_byte (suc zero) q d r v h hq hd hr = (
  ap (λ n. ok (pos n)) (replaced 112 8 0xff00ffffffffffffffffffffffffffff q d r v refl hq hd hr),
  ap ok (shown 112 q d r hd hr),
)
set_quad_byte-get_quad_byte (suc (suc zero)) q d r v h hq hd hr = (
  ap (λ n. ok (pos n)) (replaced 104 16 0xffff00ffffffffffffffffffffffffff q d r v refl hq hd hr),
  ap ok (shown 104 q d r hd hr),
)
set_quad_byte-get_quad_byte (suc (suc (suc zero))) q d r v h hq hd hr = (
  ap (λ n. ok (pos n)) (replaced 96 24 0xffffff00ffffffffffffffffffffffff q d r v refl hq hd hr),
  ap ok (shown 96 q d r hd hr),
)
set_quad_byte-get_quad_byte (suc (suc (suc (suc zero)))) q d r v h hq hd hr = (
  ap (λ n. ok (pos n)) (replaced 88 32 0xffffffff00ffffffffffffffffffffff q d r v refl hq hd hr),
  ap ok (shown 88 q d r hd hr),
)
set_quad_byte-get_quad_byte (suc (suc (suc (suc (suc zero))))) q d r v h hq hd hr = (
  ap (λ n. ok (pos n)) (replaced 80 40 0xffffffffff00ffffffffffffffffffff q d r v refl hq hd hr),
  ap ok (shown 80 q d r hd hr),
)
set_quad_byte-get_quad_byte (suc (suc (suc (suc (suc (suc zero)))))) q d r v h hq hd hr = (
  ap (λ n. ok (pos n)) (replaced 72 48 0xffffffffffff00ffffffffffffffffff q d r v refl hq hd hr),
  ap ok (shown 72 q d r hd hr),
)
set_quad_byte-get_quad_byte (suc (suc (suc (suc (suc (suc (suc zero))))))) q d r v h hq hd hr = (
  ap (λ n. ok (pos n)) (replaced 64 56 0xffffffffffffff00ffffffffffffffff q d r v refl hq hd hr),
  ap ok (shown 64 q d r hd hr),
)
set_quad_byte-get_quad_byte (suc (suc (suc (suc (suc (suc (suc (suc zero)))))))) q d r v h hq hd
      hr =
    (
      ap (λ n. ok (pos n))
          (replaced 56 64 0xffffffffffffffff00ffffffffffffff q d r v refl hq hd hr),
      ap ok (shown 56 q d r hd hr),
    )
set_quad_byte-get_quad_byte (suc (suc (suc (suc (suc (suc (suc (suc (suc zero))))))))) q d r v h hq
      hd hr =
    (
      ap (λ n. ok (pos n))
          (replaced 48 72 0xffffffffffffffffff00ffffffffffff q d r v refl hq hd hr),
      ap ok (shown 48 q d r hd hr),
    )
set_quad_byte-get_quad_byte (suc (suc (suc (suc (suc (suc (suc (suc (suc (suc zero)))))))))) q d r v
      h hq hd hr =
    (
      ap (λ n. ok (pos n))
          (replaced 40 80 0xffffffffffffffffffff00ffffffffff q d r v refl hq hd hr),
      ap ok (shown 40 q d r hd hr),
    )
set_quad_byte-get_quad_byte (suc (suc (suc (suc (suc (suc (suc (suc (suc (suc (suc zero))))))))))) q
      d r v h hq hd hr =
    (
      ap (λ n. ok (pos n))
          (replaced 32 88 0xffffffffffffffffffffff00ffffffff q d r v refl hq hd hr),
      ap ok (shown 32 q d r hd hr),
    )
set_quad_byte-get_quad_byte
      (suc (suc (suc (suc (suc (suc (suc (suc (suc (suc (suc (suc zero)))))))))))) q d r v h hq hd
      hr =
    (
      ap (λ n. ok (pos n))
          (replaced 24 96 0xffffffffffffffffffffffff00ffffff q d r v refl hq hd hr),
      ap ok (shown 24 q d r hd hr),
    )
set_quad_byte-get_quad_byte
      (suc (suc (suc (suc (suc (suc (suc (suc (suc (suc (suc (suc (suc zero))))))))))))) q d r v h
      hq hd hr =
    (
      ap (λ n. ok (pos n))
          (replaced 16 104 0xffffffffffffffffffffffffff00ffff q d r v refl hq hd hr),
      ap ok (shown 16 q d r hd hr),
    )
set_quad_byte-get_quad_byte
      (suc (suc (suc (suc (suc (suc (suc (suc (suc (suc (suc (suc (suc (suc zero)))))))))))))) q d r
      v h hq hd hr =
    (
      ap (λ n. ok (pos n))
          (replaced 8 112 0xffffffffffffffffffffffffffff00ff q d r v refl hq hd hr),
      ap ok (shown 8 q d r hd hr),
    )
set_quad_byte-get_quad_byte
      (suc (suc (suc (suc (suc (suc (suc (suc (suc (suc (suc (suc (suc (suc (suc zero)))))))))))))))
      q d r v h hq hd hr =
    (
      ap (λ n. ok (pos n))
          (replaced 0 120 0xffffffffffffffffffffffffffffff00 q d r v refl hq hd hr),
      ap ok (shown 0 q d r hd hr),
    )
set_quad_byte-get_quad_byte
      (suc
        (suc (suc (suc (suc (suc (suc (suc (suc (suc (suc (suc (suc (suc (suc (suc i))))))))))))))))
      q d r v h hq hd hr =
    absurd (omega arith)
