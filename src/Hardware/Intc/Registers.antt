-- ===== src/Hardware/Intc/Registers.antt =====
-- The registers of the interrupt controller (compyter/hardware/intc.py): the handlers that a program
-- adds, asks for and deletes, and the jump that it reads at the trap.
use compyter.Prelude.{
  ℕ, ◌+◌, ◌<◌, ◌≡◌, ◌∙◌, sym, ap, inl, inr, Bool-cases, refl, arith, Bool, true, false, Option,
  List, [], ◌∷◌, map, if◌then◌else◌,
}
use compyter.Prelude.Int.{ℤ, pos, eqb_ℤ}
use compyter.Result.{Result, ok, map_ok, ◌>>=◌}
use compyter.Util.WordByte.{word, get_word_byte_lem}
use compyter.Hardware.Intc.{
  Intc, set_item, get_item, insert, pop, get_vector, intc_add_int, intc_del_int, intc_get_int,
  intc_jmp_instr,
}

eqb_ℤ_refl : (n : ℤ) → eqb_ℤ n n ≡ true
eqb_ℤ_refl n = ground arith

-- A write to one of the four bytes of a command register.
add_lem :
    (i val : ℕ) (s : Intc)
    → i < 4
    → 0 < val
    → set_item (intc_add_int + i) val s
      ≡ ok (record s { interrupts = insert s.reg_intnum s.reg_intvec s.interrupts })
unfolding set_item
add_lem i val s lt some_val = ground arith

del_lem :
    (i val : ℕ) (s : Intc)
    → i < 4
    → 0 < val
    → set_item (intc_del_int + i) val s
      ≡ ok (record s { interrupts = pop s.reg_intnum s.interrupts })
unfolding set_item
del_lem i val s lt some_val = ground arith

get_lem :
    (i val : ℕ) (s : Intc)
    → i < 4
    → 0 < val
    → set_item (intc_get_int + i) val s
      ≡ ok (record s { reg_intvec = get_vector s.reg_intnum s.interrupts })
unfolding set_item
get_lem i val s lt some_val = ground arith

vector-insert :
    (n v m : ℤ) (d : ℤ → Option ℤ)
    → get_vector m (insert n v d) ≡ (if eqb_ℤ m n then v else get_vector m d)
vector-insert n v m d = elim (Bool-cases (eqb_ℤ m n)) [
  | inl h ↦ rw (get_vector, h) refl
  | inr h ↦ rw (get_vector, h) refl
]

vector-pop :
    (n m : ℤ) (d : ℤ → Option ℤ)
    → get_vector m (pop n d) ≡ (if eqb_ℤ m n then pos 0xffffffff else get_vector m d)
vector-pop n m d = elim (Bool-cases (eqb_ℤ m n)) [
  | inl h ↦ rw (get_vector, h) refl
  | inr h ↦ rw (get_vector, h) refl
]

ok-if :
    (b : Bool) (x y : ℤ) (r : Result ℤ)
    → r ≡ ok y
    → ok (if b then x else y) ≡ (if b then ok x else r)
ok-if true x y r e = refl
ok-if false x y r e = sym e

-- The vector register behind a write to the register GET_INT, with the number `m` in the number
-- register.
abbrev pub asked : ℕ → ℕ → ℤ → Intc → Result ℤ
asked i val m s =
    map_ok (λ s'. s'.reg_intvec) (set_item (intc_get_int + i) val (record s { reg_intnum = m }))

asked_lem :
    (i val : ℕ) (m : ℤ) (s : Intc)
    → i < 4
    → 0 < val
    → asked i val m s ≡ ok (get_vector m s.interrupts)
asked_lem i val m s lt some_val = rw (get_lem i val (record s { reg_intnum = m }) lt some_val) refl

-- The handlers of interrupts. After a write of a value that is not 0 to any byte of the register
-- ADD_INT, asking for the number that is in the number register gives the vector that is in the
-- vector register; after one to DEL_INT it gives 0xffffffff; asking for any other number gives what
-- it gave before.
pub set_item-asked :
    (i j val w : ℕ) (m : ℤ) (s : Intc)
    → i < 4
    → j < 4
    → 0 < val
    → 0 < w
    → ((set_item (intc_add_int + i) val s >>= asked j w m)
        ≡ (if eqb_ℤ m s.reg_intnum then ok s.reg_intvec else asked j w m s))
      × ((set_item (intc_del_int + i) val s >>= asked j w m)
          ≡ (if eqb_ℤ m s.reg_intnum then ok (pos 0xffffffff) else asked j w m s))
set_item-asked i j val w m s lt_i lt_j some_val some_w =
    let added = record s { interrupts = insert s.reg_intnum s.reg_intvec s.interrupts } in
    let deleted = record s { interrupts = pop s.reg_intnum s.interrupts } in
    let before = asked_lem j w m s lt_j some_w in
    (
      rw (add_lem i val s lt_i some_val) (
          asked_lem j w m added lt_j some_w
          ∙ ap ok (vector-insert s.reg_intnum s.reg_intvec m s.interrupts)
          ∙ ok-if (eqb_ℤ m s.reg_intnum) _ _ (asked j w m s) before),
      rw (del_lem i val s lt_i some_val) (
          asked_lem j w m deleted lt_j some_w
          ∙ ap ok (vector-pop s.reg_intnum m s.interrupts)
          ∙ ok-if (eqb_ℤ m s.reg_intnum) _ _ (asked j w m s) before),
    )

read_all : List ℕ → Intc → Result (List ℕ)
read_all [] s = ok []
read_all (item ∷ items) s = do b ← get_item item s; bytes ← read_all items s; ok (b ∷ bytes)

-- The two words that a processor reads at JMP_INSTR are the opcode of `jmp` and the vector of the
-- interrupt that was delivered last, for a vector that is a word.
read_all-jmp :
    (a b c d : ℕ) (s : Intc)
    → a < 256
    → b < 256
    → c < 256
    → d < 256
    → s.current ≡ pos (word a b c d)
    → read_all (map (λ i. intc_jmp_instr + i) (0 ∷ 1 ∷ 2 ∷ 3 ∷ 4 ∷ 5 ∷ 6 ∷ 7 ∷ [])) s
      ≡ ok (0 ∷ 0 ∷ 0 ∷ 0x19 ∷ a ∷ b ∷ c ∷ d ∷ [])
unfolding get_item read_all
read_all-jmp a b c d s ha hb hc hd current =
    let (e0, e1, e2, e3) = get_word_byte_lem a b c d 0 ha hb hc hd (omega arith) in
    rw current (rw (e0, e1, e2, e3) refl)
