-- ===== src/Cpu/Decode/Turn.antt =====
-- One turn of the processor (`decode_next_instr` of compyter/cpu.py): the four fetches, and what is
-- done with the words.
use mathlib.Core.Path.{fun_ext}
use compyter.Prelude.{
  ℕ, ◌+◌, ◌<◌, ◌≡◌, ◌∙◌, ap, refl, arith, false, Option, none, some, List, leb, length, get_elem?,
  get_elem?-past, get_elem?-inside, lt→ltb, leb→le, inl, inr, Bool-cases, if◌then◌else◌,
}
use compyter.Prelude.Int.{ℤ, pos, ◌|ℤ◌, leb_ℤ}
use compyter.Result.{ok, index}
use compyter.Exec.{⊤, Exec, lift, ◌>>=◌, rescue, pure}
use compyter.Memory.{Bus, Memory}
use compyter.Machine.{Machine, AddressKey, put, update}
use compyter.Register.{reg_pc, reg_rsvd, mmu_enable, has_bit, has_enabled_intr, rsvd}
use compyter.Mmu.{pte_read, pte_execute}
use compyter.Mmu.Coherence.{Coherent, with_cache}
use compyter.Cpu.{trap, trap_ill}
use compyter.Cpu.Access.{IsOpen, get_item-IsOpen, set-IsOpen, quiet-IsOpen}
use compyter.Cpu.LoadStore.Words.{IsWord, joined_at, loadw_lem}
use compyter.Cpu.Control.{nop}
use compyter.Cpu.Decode.{Instr, instrs, fetch, execute, check_args, decode_next_instr}

pc-IsOpen : IsOpen reg_pc
pc-IsOpen = record { below = omega arith; open_ = refl }

rsvd-IsOpen : IsOpen reg_rsvd
rsvd-IsOpen = record { below = omega arith; open_ = refl }

update-fetched :
    (f : ℕ → ℤ) (v v' w w' : ℤ)
    → update (update (update (update f reg_rsvd w) reg_pc v) reg_rsvd w') reg_pc v'
      ≡ update (update f reg_rsvd w') reg_pc v'
update-fetched f v v' w w' = fun_ext λ q. ground arith

known : (B : Bus) → length (instrs {B = B}) ≡ 71
unfolding instrs
known B = refl

module _ {B : Bus} where
  -- The state behind a fetch: the program counter, the word that was fetched, and the cache.
  abbrev pub fetched : ℕ → ℕ → List (AddressKey × ℕ) → Machine B → Machine B
  fetched a w c s = put reg_pc (pos a) (put reg_rsvd (pos w) (with_cache c s))

  fetch_lem :
      (a : ℕ) (s : Machine B)
      → s.registers reg_pc ≡ pos a
      → has_bit mmu_enable s ≡ false
      → has_enabled_intr s ≡ false
      → IsWord s.memory a
      → Coherent s
      → (c : List _) × (fetch s
          ≡ (ok (pos (joined_at s.memory a)), fetched (a + 4) (joined_at s.memory a) c s))
        × (Coherent (with_cache c s))
  unfolding fetch rsvd ◌>>=◌
  fetch_lem a s at off quiet is_word coherent =
      let w = joined_at s.memory a in
      let (c, e, h) =
        loadw_lem reg_rsvd a (pte_read |ℤ pte_execute) s rsvd-IsOpen off quiet is_word coherent in
      let s1 = put reg_rsvd (pos w) (with_cache c s) in
      (
        c,
        rw (get_item-IsOpen reg_pc s pc-IsOpen, at, e, get_item-IsOpen reg_pc s1 pc-IsOpen, at)
            (rw
              (set-IsOpen reg_pc (pos (a + 4)) s1 pc-IsOpen
                (quiet-IsOpen reg_rsvd (pos w) (with_cache c s) rsvd-IsOpen quiet))
              refl),
        h,
      )

  -- One more fetch, after some that left the word `w` behind.
  next :
      (a b w : ℕ) (c : List (AddressKey × ℕ)) (s : Machine B)
      → a + 4 ≡ b
      → has_bit mmu_enable s ≡ false
      → has_enabled_intr s ≡ false
      → IsWord s.memory a
      → Coherent (with_cache c s)
      → (c' : List _) × (fetch (fetched a w c s)
          ≡ (ok (pos (joined_at s.memory a)), fetched b (joined_at s.memory a) c' s))
        × (Coherent (with_cache c' s))
  next a b w c s behind off quiet is_word coherent =
      let (c', e, h) = fetch_lem a (fetched a w c s) refl off quiet is_word coherent in
      (
        c',
        e
            ∙ ap
                (λ f. (ok (pos (joined_at s.memory a)), record (with_cache c' s) { registers = f }))
                (update-fetched s.registers (pos a) (pos (a + 4)) (pos w)
                  (pos (joined_at s.memory a)))
            ∙ ap (λ n. (ok (pos (joined_at s.memory a)), fetched n (joined_at s.memory a) c' s))
                behind,
        h,
      )

  -- What the four words are turned into: an opcode past the table is the trap TRAP_ILL.
  abbrev pub run : Option (Instr B) → ℕ → ℕ → ℕ → Exec (Machine B) ⊤
  run none op1 op2 op3 = trap trap_ill
  run (some instr) op1 op2 op3 = execute instr (pos op1) (pos op2) (pos op3)

  -- The end of `decode_next_instr`.
  abbrev decoded : ℕ → ℕ → ℕ → ℕ → Exec (Machine B) ⊤
  decoded opcode op1 op2 op3 =
      if leb_ℤ (pos 71) (pos opcode)
      then trap trap_ill
      else do instr ← lift (index instrs (pos opcode)); execute instr (pos op1) (pos op2) (pos op3)

  decoded-run :
      (opcode op1 op2 op3 : ℕ) (s : Machine B)
      → decoded opcode op1 op2 op3 s ≡ run (get_elem? instrs opcode) op1 op2 op3 s
  unfolding ◌>>=◌
  decoded-run opcode op1 op2 op3 s = elim (Bool-cases (leb 71 opcode)) [
    | inl h ↦
        rw (h, get_elem?-past (instrs {B = B}) opcode (rw (known B) (leb→le 71 opcode h))) refl
    | inr h ↦
        let inside : opcode < length (instrs {B = B}) = rw (known B) (ground (arith, h)) in
        let (instr, e) = get_elem?-inside (instrs {B = B}) opcode inside in
        rw (h, lt→ltb opcode (length (instrs {B = B})) inside, e) refl
  ]

  -- The four words of an instruction.
  pub record IsInstr (m : Memory B) (a : ℕ) : Type 0 where
    pub word0 : IsWord m a
    pub word1 : IsWord m (a + 4)
    pub word2 : IsWord m (a + 8)
    pub word3 : IsWord m (a + 12)

  -- A turn that starts at the address `a`.
  abbrev pub Turned : ℕ → Machine B → Type 0
  Turned a s =
      (c : List _) × (decode_next_instr s
        ≡ run (get_elem? instrs (joined_at s.memory a)) (joined_at s.memory (a + 4))
            (joined_at s.memory (a + 8)) (joined_at s.memory (a + 12))
            (fetched (a + 16) (joined_at s.memory (a + 12)) c s))
      × (Coherent (with_cache c s))

  -- One turn of the processor, with the MMU off, no interrupt both pending and enabled, the program
  -- counter at four words of memory cells, and a cache that agrees with memory: it is the instruction
  -- that the first word numbers in the table, on the three other words, or the trap TRAP_ILL when the
  -- table ends before it; it starts with the program counter 16 bytes on, the last word in the
  -- register RSVD, a cache that still agrees with memory, and all else as before.
  pub decode_next_instr-run :
      (a : ℕ) (s : Machine B)
      → s.registers reg_pc ≡ pos a
      → has_bit mmu_enable s ≡ false
      → has_enabled_intr s ≡ false
      → IsInstr s.memory a
      → Coherent s
      → Turned a s
  unfolding decode_next_instr ◌>>=◌
  decode_next_instr-run a s at off quiet is_instr coherent =
      let m = s.memory in
      let (c0, e0, h0) = fetch_lem a s at off quiet is_instr.word0 coherent in
      let (c1, e1, h1) =
        next (a + 4) (a + 8) (joined_at m a) c0 s (omega arith) off quiet is_instr.word1 h0 in
      let (c2, e2, h2) =
        next (a + 8) (a + 12) (joined_at m (a + 4)) c1 s (omega arith) off quiet is_instr.word2
          h1 in
      let (c3, e3, h3) =
        next (a + 12) (a + 16) (joined_at m (a + 8)) c2 s (omega arith) off quiet is_instr.word3
          h2 in
      (
        c3,
        rw (e0, e1, e2, e3)
            (decoded-run (joined_at m a) (joined_at m (a + 4)) (joined_at m (a + 8))
              (joined_at m (a + 12)) (fetched (a + 16) (joined_at m (a + 12)) c3 s)),
        h3,
      )

  -- A turn on the opcode 0.
  pub decode_next_instr-nop :
      (a : ℕ) (s : Machine B)
      → s.registers reg_pc ≡ pos a
      → has_bit mmu_enable s ≡ false
      → has_enabled_intr s ≡ false
      → IsInstr s.memory a
      → Coherent s
      → joined_at s.memory a ≡ 0
      → (c : List _) × (decode_next_instr s
          ≡ (ok tt, fetched (a + 16) (joined_at s.memory (a + 12)) c s))
  unfolding instrs execute check_args rescue nop pure
  decode_next_instr-nop a s pc off quiet words coherent zeros =
      let (c, e, h) = decode_next_instr-run a s pc off quiet words coherent in
      (c, e ∙ rw zeros refl)
