-- ===== src/Cpu/LoadStore/RoundTrip.antt =====
-- A word that is stored and loaded again (`savew` and `loadw` of compyter/cpu.py).
use mathlib.Core.Path.{subst}
use compyter.Prelude.{
  ℕ, ◌+◌, ◌*◌, ◌/◌, ◌%◌, ◌^◌, ◌<◌, ◌≡◌, ◌≢◌, ◌∙◌, sym, ap, refl, arith, [], false, bit_or,
}
use compyter.Prelude.Int.{ℤ, pos, ◌+ℤ◌, ltb_ℤ}
use compyter.Prelude.Bits.{bit_or_fields, bit_and_mask}
use compyter.Result.{Result, ok, map_ok}
use compyter.Exec.{⊤, changes, ◌>>=◌}
use compyter.Memory.{Bus, Memory}
use compyter.Memory
use compyter.Memory.Cells.{
  IsCell, cell, written, set_item-written, written-IsCell, get_item-cell, get_item-written,
  get_item-written_ne,
}
use compyter.Util.WordByte.{word}
use compyter.Machine.{Machine, put}
use compyter.Register.{mmu_enable, has_bit, has_enabled_intr, status_bit}
use compyter.Mmu.{write_address, translate, clear_cache}
use compyter.Mmu.Coherence.{Coherent, with_cache}
use compyter.Cpu.{max_val}
use compyter.Cpu.Access.{general, general-IsOpen, get_item-general}
use compyter.Cpu.LoadStore.{loadw, save_byte, savew}
use compyter.Cpu.LoadStore.Words.{IsWord, joined, joined_at, loadw_lem, put-holds}

joined-word : (a b c d : ℕ) → b < 2 ^ 8 → c < 2 ^ 8 → d < 2 ^ 8 → joined a b c d ≡ word a b c d
joined-word a b c d hb hc hd =
    let one = bit_or_fields 24 a (b * 2 ^ 16) (omega arith) in
    let two = bit_or_fields 16 (a * 2 ^ 8 + b) (c * 2 ^ 8) (omega arith) in
    let three = bit_or_fields 8 ((a * 2 ^ 8 + b) * 2 ^ 8 + c) (d * 2 ^ 0) (omega arith) in
    let first : a * 2 ^ 24 + b * 2 ^ 16 ≡ (a * 2 ^ 8 + b) * 2 ^ 16 = omega arith in
    let second : (a * 2 ^ 8 + b) * 2 ^ 16 + c * 2 ^ 8 ≡ ((a * 2 ^ 8 + b) * 2 ^ 8 + c) * 2 ^ 8 =
      omega arith in
    ap (λ n. bit_or (bit_or n (c * 2 ^ 8)) (d * 2 ^ 0)) (one ∙ first)
    ∙ ap (λ n. bit_or n (d * 2 ^ 0)) (two ∙ second)
    ∙ three
    ∙ omega arith

module _ {B : Bus} where
  abbrev pub with_memory : Memory B → Machine B → Machine B
  with_memory m s = record s { memory = m }

  changes-ok :
      (f : Machine B → Result (Machine B)) (s s' : Machine B)
      → f s ≡ ok s'
      → changes f s ≡ (ok tt, s')
  unfolding changes
  changes-ok f s s' e = rw (changes, e) refl

  translate-off :
      (addr : ℤ) (s : Machine B) → has_bit mmu_enable s ≡ false → translate addr s ≡ (ok tt, s)
  unfolding translate status_bit ◌>>=◌
  translate-off addr s off = rw off refl

  write_cell :
      (a v : ℕ) (s : Machine B)
      → has_bit mmu_enable s ≡ false
      → IsCell s.memory a
      → write_address (pos a) v s ≡ (ok tt, with_memory (written s.memory a v) s)
  unfolding write_address ◌>>=◌
  write_cell a v s off is_cell = rw (translate-off (pos a) s off) (
      changes-ok
        (λ s'. map_ok (λ m. record s' { memory = m }) (Memory.set_item s'.memory (pos a) v)) s _
        (rw (set_item-written s.memory a v is_cell) refl))

  save_byte_lem :
      (r a k w : ℕ) (s : Machine B)
      → r < general
      → s.registers r ≡ pos w
      → has_bit mmu_enable s ≡ false
      → IsCell s.memory a
      → save_byte (pos r) (pos a) k s
        ≡ (ok tt, with_memory (written s.memory a (w / 2 ^ k % 2 ^ 8)) s)
  unfolding save_byte ◌>>=◌
  save_byte_lem r a k w s lt holds off is_cell =
      rw (get_item-general r s lt, holds, bit_and_mask 8 (w / 2 ^ k))
        (write_cell a (w / 2 ^ k % 2 ^ 8) s off is_cell)

  -- The memory after the four writes of a word.
  abbrev write0 : Memory B → ℕ → ℕ → Memory B
  write0 m a w = written m a (w / 2 ^ 24 % 2 ^ 8)

  abbrev write1 : Memory B → ℕ → ℕ → Memory B
  write1 m a w = written (write0 m a w) (a + 1) (w / 2 ^ 16 % 2 ^ 8)

  abbrev write2 : Memory B → ℕ → ℕ → Memory B
  write2 m a w = written (write1 m a w) (a + 2) (w / 2 ^ 8 % 2 ^ 8)

  abbrev pub write_word : Memory B → ℕ → ℕ → Memory B
  write_word m a w = written (write2 m a w) (a + 3) (w / 2 ^ 0 % 2 ^ 8)

  abbrev pub saved : ℕ → ℕ → Machine B → Machine B
  saved a w s = record s {
    memory = write_word s.memory a w;
    page_cache = [];
    address_cache = [];
    pte_cache = [];
  }

  keeps : (m : Memory B) (a w b : ℕ) → IsCell m b → IsCell (write_word m a w) b
  keeps m a w b c = written-IsCell (write2 m a w) (a + 3) b _ (
      written-IsCell (write1 m a w) (a + 2) b _
        (written-IsCell (write0 m a w) (a + 1) b _ (written-IsCell m a b _ c)))

  module _ (r a w : ℕ) (s : Machine B) (lt : r < general) (holds : s.registers r ≡ pos w)
      (off : has_bit mmu_enable s ≡ false) (is_word : IsWord s.memory a) where
    fits : ltb_ℤ max_val (pos a +ℤ pos 3) ≡ false
    fits = ground (arith, is_word.fits)

    savew_lem : savew (pos r) (pos a) s ≡ (ok tt, saved a w s)
    unfolding savew clear_cache ◌>>=◌
    savew_lem =
        let m0 = write0 s.memory a w in
        let m1 = write1 s.memory a w in
        let m2 = write2 s.memory a w in
        let c1 = written-IsCell s.memory a (a + 1) _ is_word.cell1 in
        let c2 =
          written-IsCell m0 (a + 1) (a + 2) _ (written-IsCell s.memory a (a + 2) _ is_word.cell2) in
        let c3 = written-IsCell m1 (a + 2) (a + 3) _ (
          written-IsCell m0 (a + 1) (a + 3) _
            (written-IsCell s.memory a (a + 3) _ is_word.cell3)) in
        rw
          (
            fits,
            save_byte_lem r a 24 w s lt holds off is_word.cell0,
            save_byte_lem r (a + 1) 16 w (with_memory m0 s) lt holds off c1,
            save_byte_lem r (a + 2) 8 w (with_memory m1 s) lt holds off c2,
            save_byte_lem r (a + 3) 0 w (with_memory m2 s) lt holds off c3,
          )
          refl

  cell-eq : (m : Memory B) (a v : ℕ) → IsCell m a → Memory.get_item m (pos a) ≡ ok v → cell m a ≡ v
  cell-eq m a v c e = let same = sym (get_item-cell m a c) ∙ e in ground (arith, same)

  module _ (m : Memory B) (a w : ℕ) (is_word : IsWord m a) where
    write_word-IsWord : IsWord (write_word m a w) a
    write_word-IsWord = record {
      fits = is_word.fits;
      cell0 = keeps m a w a is_word.cell0;
      cell1 = keeps m a w (a + 1) is_word.cell1;
      cell2 = keeps m a w (a + 2) is_word.cell2;
      cell3 = keeps m a w (a + 3) is_word.cell3;
    }

    pub write_word_ne :
        (b : ℕ)
        → a ≢ b
        → a + 1 ≢ b
        → a + 2 ≢ b
        → a + 3 ≢ b
        → Memory.get_item (write_word m a w) (pos b) ≡ Memory.get_item m (pos b)
    write_word_ne b n0 n1 n2 n3 =
        get_item-written_ne (write2 m a w) (a + 3) b _ n3
        ∙ get_item-written_ne (write1 m a w) (a + 2) b _ n2
        ∙ get_item-written_ne (write0 m a w) (a + 1) b _ n1
        ∙ get_item-written_ne m a b _ n0

    byte0 : cell (write_word m a w) a ≡ w / 2 ^ 24 % 2 ^ 8
    byte0 =
        cell-eq (write_word m a w) a _ (keeps m a w a is_word.cell0) (
          get_item-written_ne (write2 m a w) (a + 3) a _ (λ e. omega (arith, e))
          ∙ get_item-written_ne (write1 m a w) (a + 2) a _ (λ e. omega (arith, e))
          ∙ get_item-written_ne (write0 m a w) (a + 1) a _ (λ e. omega (arith, e))
          ∙ get_item-written m a _ is_word.cell0)
        ∙ omega arith

    byte1 : cell (write_word m a w) (a + 1) ≡ w / 2 ^ 16 % 2 ^ 8
    byte1 =
        let c = written-IsCell m a (a + 1) _ is_word.cell1 in
        cell-eq (write_word m a w) (a + 1) _ (keeps m a w (a + 1) is_word.cell1) (
          get_item-written_ne (write2 m a w) (a + 3) (a + 1) _ (λ e. omega (arith, e))
          ∙ get_item-written_ne (write1 m a w) (a + 2) (a + 1) _ (λ e. omega (arith, e))
          ∙ get_item-written (write0 m a w) (a + 1) _ c)
        ∙ omega arith

    byte2 : cell (write_word m a w) (a + 2) ≡ w / 2 ^ 8 % 2 ^ 8
    byte2 =
        let c =
          written-IsCell (write0 m a w) (a + 1) (a + 2) _
            (written-IsCell m a (a + 2) _ is_word.cell2) in
        cell-eq (write_word m a w) (a + 2) _ (keeps m a w (a + 2) is_word.cell2) (
          get_item-written_ne (write2 m a w) (a + 3) (a + 2) _ (λ e. omega (arith, e))
          ∙ get_item-written (write1 m a w) (a + 2) _ c)
        ∙ omega arith

    byte3 : cell (write_word m a w) (a + 3) ≡ w / 2 ^ 0 % 2 ^ 8
    byte3 =
        let c = written-IsCell (write1 m a w) (a + 2) (a + 3) _ (
          written-IsCell (write0 m a w) (a + 1) (a + 3) _
            (written-IsCell m a (a + 3) _ is_word.cell3)) in
        cell-eq (write_word m a w) (a + 3) _ (keeps m a w (a + 3) is_word.cell3)
          (get_item-written (write2 m a w) (a + 3) _ c)
        ∙ omega arith

    pub joined-write_word : w < 2 ^ 32 → joined_at (write_word m a w) a ≡ w
    joined-write_word fits =
        (λ i. joined (byte0 i) (byte1 i) (byte2 i) (byte3 i))
        ∙ joined-word (w / 2 ^ 24 % 2 ^ 8) (w / 2 ^ 16 % 2 ^ 8) (w / 2 ^ 8 % 2 ^ 8)
            (w / 2 ^ 0 % 2 ^ 8) (omega arith) (omega arith) (omega arith)
        ∙ omega arith

  -- What a store and a load of a word leave behind.
  abbrev pub Restored : ℕ → ℕ → ℕ → Machine B → Result ⊤ × Machine B → Type 0
  Restored q w b s (result, s') =
      (result ≡ ok tt)
      × (s'.registers q ≡ pos w)
      × (Memory.get_item s'.memory (pos b) ≡ Memory.get_item s.memory (pos b))
      × (Coherent s')

  -- A word that `savew` writes to four cells of memory and `loadw` reads again comes back: with the
  -- MMU off, no interrupt both pending and enabled and general purpose registers, both return, the
  -- second register holds the word of the first one, every address beside the four reads as before,
  -- and the cache, whatever was in it, agrees with memory.
  pub savew-loadw :
      (r q a w b : ℕ) (m : ℤ) (s : Machine B)
      → r < general
      → q < general
      → w < 2 ^ 32
      → s.registers r ≡ pos w
      → has_bit mmu_enable s ≡ false
      → has_enabled_intr s ≡ false
      → IsWord s.memory a
      → a ≢ b
      → a + 1 ≢ b
      → a + 2 ≢ b
      → a + 3 ≢ b
      → Restored q w b s ((savew (pos r) (pos a) >>= λ _. loadw (pos q) (pos a) m) s)
  unfolding ◌>>=◌
  savew-loadw r q a w b m s ltr ltq w_lt holds off quiet is_word n0 n1 n2 n3 =
      let s1 = saved a w s in
      let (c, e, h) =
        loadw_lem q a m s1 (general-IsOpen q ltq) off quiet (write_word-IsWord s.memory a w is_word)
          (tt, omega arith) in
      let both : (savew (pos r) (pos a) >>= λ _. loadw (pos q) (pos a) m) s
          ≡ (ok tt, put q (pos (joined_at s1.memory a)) (with_cache c s1)) =
        rw (savew_lem r a w s ltr holds off is_word) e in
      subst (Restored q w b s) (sym both) (
        refl,
        put-holds q _ (with_cache c s1) ∙ ap pos (joined-write_word s.memory a w is_word w_lt),
        write_word_ne s.memory a w is_word b n0 n1 n2 n3,
        h,
      )
