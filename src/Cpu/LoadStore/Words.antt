-- ===== src/Cpu/LoadStore/Words.antt =====
-- Loads and stores of whole words, through the cache (compyter/cpu.py and compyter/mmu.py).
use mathlib.Core.Path.{subst}
use compyter.Prelude.{ℕ, ◌+◌, ◌*◌, ◌^◌, ◌<◌, ◌≡◌, ◌∙◌, ap, arith, Option, some, List, false, bit_or}
use compyter.Prelude.Int.{ℤ, pos, ◌+ℤ◌, ltb_ℤ}
use compyter.Result.{ok}
use compyter.Exec.{Exec, ◌>>=◌}
use compyter.Memory.{Bus, Memory}
use compyter.Memory.Cells.{IsCell, cell, get_item-cell}
use compyter.Machine.{Machine, put, update-update}
use compyter.Register.{mmu_enable, has_bit, has_enabled_intr}
use compyter.Mmu.{get_address}
use compyter.Mmu.Coherence.{Coherent, with_cache, get_address-ReadsCell}
use compyter.Cpu.{max_val}
use compyter.Cpu.Access.{IsOpen, get_item-IsOpen, set-IsOpen, bit-put, quiet-IsOpen}
use compyter.Cpu.LoadStore.{merge_byte, loadw}

abbrev pub joined : ℕ → ℕ → ℕ → ℕ → ℕ
joined b0 b1 b2 b3 = bit_or (bit_or (bit_or (b0 * 2 ^ 24) (b1 * 2 ^ 16)) (b2 * 2 ^ 8)) (b3 * 2 ^ 0)

module _ {B : Bus} where
  -- An action on the machine that leaves the cache `c` behind, and the state `f c` else.
  abbrev pub Leaves :
      {A : Type 0} → Exec (Machine B) A → A → Machine B → (Machine B → Machine B) → Type 0
  Leaves m a s f = (c : List _) × (m s ≡ (ok a, f (with_cache c s))) × (Coherent (with_cache c s))

  reads_cell :
      (a : ℕ) (m : Option ℤ) (s : Machine B)
      → has_bit mmu_enable s ≡ false
      → IsCell s.memory a
      → Coherent s
      → Leaves (get_address (pos a) m) (cell s.memory a) s (λ s'. s')
  reads_cell a m s off is_cell coherent =
      let (e, h, same) = get_address-ReadsCell a m s off is_cell coherent in
      let s' = (get_address (pos a) m s).1 in
      let value = e ∙ get_item-cell s.memory a is_cell in
      (s'.address_cache, (λ i. (value i, same i)), subst Coherent same h)

  merge_lem :
      (q a k w : ℕ) (m : ℤ) (s : Machine B)
      → IsOpen q
      → s.registers q ≡ pos w
      → has_bit mmu_enable s ≡ false
      → has_enabled_intr s ≡ false
      → IsCell s.memory a
      → Coherent s
      → Leaves
          (merge_byte (pos q) (pos a) m k)
          tt
          s
          (put q (pos (bit_or w (cell s.memory a * 2 ^ k))))
  unfolding merge_byte ◌>>=◌
  merge_lem q a k w m s is_open holds off quiet is_cell coherent =
      let (c, e, h) = reads_cell a (some m) s off is_cell coherent in
      (
        c,
        rw (get_item-IsOpen q s is_open, e, holds) (set-IsOpen q _ (with_cache c s) is_open quiet),
        h,
      )

  put-put : (q : ℕ) (v w : ℤ) (s : Machine B) → put q w (put q v s) ≡ put q w s
  put-put q v w s = ap (λ f. record s { registers = f }) (update-update s.registers q v w)

  pub put-holds : (q : ℕ) (v : ℤ) (s : Machine B) → (put q v s).registers q ≡ v
  put-holds q v s = ground arith

  -- The four cells of a word.
  pub record IsWord (m : Memory B) (a : ℕ) : Type 0 where
    pub fits : a + 3 < 2 ^ 32
    pub cell0 : IsCell m a
    pub cell1 : IsCell m (a + 1)
    pub cell2 : IsCell m (a + 2)
    pub cell3 : IsCell m (a + 3)

  abbrev pub joined_at : Memory B → ℕ → ℕ
  joined_at m a = joined (cell m a) (cell m (a + 1)) (cell m (a + 2)) (cell m (a + 3))

  module _ (q a : ℕ) (m : ℤ) (s : Machine B) (is_open : IsOpen q)
      (off : has_bit mmu_enable s ≡ false) (quiet : has_enabled_intr s ≡ false)
      (is_word : IsWord s.memory a) (coherent : Coherent s) where
    fits : ltb_ℤ max_val (pos a +ℤ pos 3) ≡ false
    fits = ground (arith, is_word.fits)

    -- One more byte, after some that left the word `w` in the register.
    next :
        (c : List _) (w b k : ℕ)
        → Coherent (with_cache c s)
        → IsCell s.memory b
        → (c' : List _) × (merge_byte (pos q) (pos b) m k (put q (pos w) (with_cache c s))
            ≡ (ok tt, put q (pos (bit_or w (cell s.memory b * 2 ^ k))) (with_cache c' s)))
          × (Coherent (with_cache c' s))
    next c w b k h is_cell =
        let (c', e, h') =
          merge_lem q b k w m (put q (pos w) (with_cache c s)) is_open
            (put-holds q (pos w) (with_cache c s)) (bit-put mmu_enable q (pos w) s is_open ∙ off)
            (quiet-IsOpen q (pos w) s is_open quiet) is_cell h in
        (c', e ∙ ap (λ z. (ok tt, z)) (put-put q (pos w) _ (with_cache c' s)), h')

    pub loadw_lem : Leaves (loadw (pos q) (pos a) m) tt s (put q (pos (joined_at s.memory a)))
    unfolding loadw ◌>>=◌
    loadw_lem =
        let (c0, e0, h0) = reads_cell a (some m) s off is_word.cell0 coherent in
        let w0 = cell s.memory a * 2 ^ 24 in
        let (c1, e1, h1) = next c0 w0 (a + 1) 16 h0 is_word.cell1 in
        let w1 = bit_or w0 (cell s.memory (a + 1) * 2 ^ 16) in
        let (c2, e2, h2) = next c1 w1 (a + 2) 8 h1 is_word.cell2 in
        let w2 = bit_or w1 (cell s.memory (a + 2) * 2 ^ 8) in
        let (c3, e3, h3) = next c2 w2 (a + 3) 0 h2 is_word.cell3 in
        let e0' = set-IsOpen q (pos w0) (with_cache c0 s) is_open quiet in
        (c3, rw (fits, e0, e0', e1, e2) e3, h3)
