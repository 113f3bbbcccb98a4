-- ===== src/Util/WordByte.antt =====
-- What `set_word_byte` and `get_word_byte` do to the four bytes of a word.
use mathlib.Core.Path.{subst}
use compyter.Prelude.{ℕ, ◌+◌, ◌*◌, ◌/◌, ◌%◌, ◌^◌, ◌<◌, ◌≡◌, ◌∙◌, ap, sym, arith, bit_and, bit_or}
use compyter.Prelude.Int.{ℤ, pos}
use compyter.Prelude.Bits.{
  bit_and_split, bit_or_split, bit_or-lt, zero-bit_or, bit_or-zero, zero-bit_and, bit_and_mask,
  bit_and-le, ones-bit_and,
}
use compyter.Result.{Result, ok, ◌>>=◌}
use compyter.Util.{set_word_byte, get_word_byte}

-- The word of four bytes, the high one first.
abbrev pub word : ℕ → ℕ → ℕ → ℕ → ℕ
word a b c d = ((a * 2 ^ 8 + b) * 2 ^ 8 + c) * 2 ^ 8 + d

-- The eight bits of a byte `v`.
abbrev IsByte : ℕ → Type 0
IsByte v = v < 2 ^ 8

bit_and-word :
    (a b c d e f g h : ℕ)
    → IsByte b
    → IsByte c
    → IsByte d
    → IsByte f
    → IsByte g
    → IsByte h
    → bit_and (word a b c d) (word e f g h)
      ≡ word (bit_and a e) (bit_and b f) (bit_and c g) (bit_and d h)
bit_and-word a b c d e f g h hb hc hd hf hg hh =
    bit_and_split 8 _ d _ h hd hh
    ∙ ap (λ n. n * 2 ^ 8 + bit_and d h)
        (bit_and_split 8 _ c _ g hc hg
          ∙ ap (λ n. n * 2 ^ 8 + bit_and c g) (bit_and_split 8 a b e f hb hf))

bit_or-word :
    (a b c d e f g h : ℕ)
    → IsByte b
    → IsByte c
    → IsByte d
    → IsByte f
    → IsByte g
    → IsByte h
    → bit_or (word a b c d) (word e f g h)
      ≡ word (bit_or a e) (bit_or b f) (bit_or c g) (bit_or d h)
bit_or-word a b c d e f g h hb hc hd hf hg hh =
    bit_or_split 8 _ d _ h hd hh
    ∙ ap (λ n. n * 2 ^ 8 + bit_or d h)
        (bit_or_split 8 _ c _ g hc hg
          ∙ ap (λ n. n * 2 ^ 8 + bit_or c g) (bit_or_split 8 a b e f hb hf))

merge-word :
    (e f g h a b c d p q r s : ℕ)
    → IsByte f
    → IsByte g
    → IsByte h
    → IsByte b
    → IsByte c
    → IsByte d
    → IsByte q
    → IsByte r
    → IsByte s
    → bit_or (bit_and (word e f g h) (word a b c d)) (word p q r s)
      ≡ word
          (bit_or (bit_and e a) p)
          (bit_or (bit_and f b) q)
          (bit_or (bit_and g c) r)
          (bit_or (bit_and h d) s)
merge-word e f g h a b c d p q r s hf hg hh hb hc hd hq hr hs =
    ap (λ n. bit_or n (word p q r s)) (bit_and-word e f g h a b c d hf hg hh hb hc hd)
    ∙ bit_or-word _ _ _ _ p q r s (omega (arith, bit_and-le f b)) (omega (arith, bit_and-le g c))
        (omega (arith, bit_and-le h d)) hq hr hs

ruleset masks = (ones-bit_and, zero-bit_and, bit_or-zero, zero-bit_or)

module _ (a b c d v : ℕ) (ha : a < 256) (hb : b < 256) (hc : c < 256) (hd : d < 256)
    (hv : v < 256) where
  merged :
      (k m w x : ℕ)
      → v * k ≡ w
      → bit_or (bit_and m (word a b c d)) w ≡ x
      → ◌≡◌ {A = Result ℤ}
          (ok (pos (bit_or (bit_and m (word a b c d)) (bit_and v 255 * k))))
          (ok (pos x))
  merged k m w x placed e =
      let low : bit_and v 255 ≡ v = omega (arith, bit_and_mask 8 v) in
      rw low (rw placed (ap (λ n. ok (pos n)) e))

  -- The byte lands in its place, but what is cleared is the byte at the mirrored place.
  pub set_word_byte_zero :
      set_word_byte (pos (word a b c d)) (pos 0) v ≡ ok (pos (word (bit_or a v) b c 0))
  unfolding set_word_byte
  set_word_byte_zero = merged (2 ^ 24) (word 255 255 255 0) (word v 0 0 0) _ (omega arith) (
      merge-word 255 255 255 0 a b c d v 0 0 0 (omega arith) (omega arith) (omega arith) hb hc hd
        (omega arith) (omega arith) (omega arith)
      ∙ simp masks)

  pub set_word_byte_one :
      set_word_byte (pos (word a b c d)) (pos 1) v ≡ ok (pos (word a (bit_or b v) 0 d))
  unfolding set_word_byte
  set_word_byte_one = merged (2 ^ 16) (word 255 255 0 255) (word 0 v 0 0) _ (omega arith) (
      merge-word 255 255 0 255 a b c d 0 v 0 0 (omega arith) (omega arith) (omega arith) hb hc hd hv
        (omega arith) (omega arith)
      ∙ simp masks)

  pub set_word_byte_two :
      set_word_byte (pos (word a b c d)) (pos 2) v ≡ ok (pos (word a 0 (bit_or c v) d))
  unfolding set_word_byte
  set_word_byte_two = merged (2 ^ 8) (word 255 0 255 255) (word 0 0 v 0) _ (omega arith) (
      merge-word 255 0 255 255 a b c d 0 0 v 0 (omega arith) (omega arith) (omega arith) hb hc hd
        (omega arith) hv (omega arith)
      ∙ simp masks)

  pub set_word_byte_three :
      set_word_byte (pos (word a b c d)) (pos 3) v ≡ ok (pos (word 0 b c (bit_or d v)))
  unfolding set_word_byte
  set_word_byte_three = merged 1 (word 0 255 255 255) (word 0 0 0 v) _ (omega arith) (
      merge-word 0 255 255 255 a b c d 0 0 0 v (omega arith) (omega arith) (omega arith) hb hc hd
        (omega arith) (omega arith) hv
      ∙ simp masks)

  pub get_word_byte_lem :
      (get_word_byte (pos (word a b c d)) (pos 0) ≡ ok a)
      × (get_word_byte (pos (word a b c d)) (pos 1) ≡ ok b)
      × (get_word_byte (pos (word a b c d)) (pos 2) ≡ ok c)
      × (get_word_byte (pos (word a b c d)) (pos 3) ≡ ok d)
  unfolding get_word_byte
  get_word_byte_lem = (
    ap ok (omega (arith, bit_and_mask 8 (word a b c d / 2 ^ 24))),
    ap ok (omega (arith, bit_and_mask 8 (word a b c d / 2 ^ 16))),
    ap ok (omega (arith, bit_and_mask 8 (word a b c d / 2 ^ 8))),
    ap ok (omega (arith, bit_and_mask 8 (word a b c d / 2 ^ 0))),
  )

-- The four writes that `savew` makes to a register of a device, the high byte first.
abbrev pub set_word : ℤ → ℕ → ℕ → ℕ → ℕ → Result ℤ
set_word num p q r s = do
  n ← set_word_byte num (pos 0) p
  n ← set_word_byte n (pos 1) q
  n ← set_word_byte n (pos 2) r
  set_word_byte n (pos 3) s

pub set_word_lem :
    (a b c d p q r s : ℕ)
    → a < 256
    → b < 256
    → c < 256
    → d < 256
    → p < 256
    → q < 256
    → r < 256
    → s < 256
    → set_word (pos (word a b c d)) p q r s ≡ ok (pos (word 0 0 r s))
set_word_lem a b c d p q r s ha hb hc hd hp hq hr hs =
    let hap = bit_or-lt 8 a p ha hp in
    let hbq = bit_or-lt 8 b q hb hq in
    rw (set_word_byte_zero a b c d p ha hb hc hd hp) (
      rw (set_word_byte_one (bit_or a p) b c 0 q hap hb hc (omega arith) hq) (
        rw
          (set_word_byte_two (bit_or a p) (bit_or b q) 0 0 r hap hbq (omega arith) (omega arith) hr)
          (rw (zero-bit_or r) (
            rw (set_word_byte_three (bit_or a p) 0 r 0 s hap (omega arith) hr (omega arith) hs)
              (rw (zero-bit_or s))))))

-- A word register of a device that a guest writes byte by byte, the high byte first, as `savew`
-- does, ends up with the low half of the word alone: for a register that holds a word `n` and a word
-- `w`, the four writes return `w % 65536`, whatever `n` was.
pub set_word-eq-low_half :
    (n w : ℕ)
    → n < 2 ^ 32
    → w < 2 ^ 32
    → set_word (pos n) (w / 2 ^ 24 % 256) (w / 2 ^ 16 % 256) (w / 2 ^ 8 % 256) (w % 256)
      ≡ ok (pos (w % 65536))
set_word-eq-low_half n w hn hw =
    let split : n ≡ word (n / 2 ^ 24) (n / 2 ^ 16 % 256) (n / 2 ^ 8 % 256) (n % 256) =
      omega arith in
    let low : word 0 0 (w / 2 ^ 8 % 256) (w % 256) ≡ w % 65536 = omega arith in
    subst
      (λ k.
        set_word (pos k) (w / 2 ^ 24 % 256) (w / 2 ^ 16 % 256) (w / 2 ^ 8 % 256) (w % 256)
        ≡ ok (pos (w % 65536)))
      (sym split)
      (set_word_lem (n / 2 ^ 24) (n / 2 ^ 16 % 256) (n / 2 ^ 8 % 256) (n % 256) (w / 2 ^ 24 % 256)
          (w / 2 ^ 16 % 256) (w / 2 ^ 8 % 256) (w % 256) (omega arith) (omega arith) (omega arith)
          (omega arith) (omega arith) (omega arith) (omega arith) (omega arith)
        ∙ ap (λ k. ok (pos k)) low)
