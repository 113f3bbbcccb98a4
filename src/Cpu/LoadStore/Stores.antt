-- ===== src/Cpu/LoadStore/Stores.antt =====
-- Stores of compyter/cpu.py that fail half-way end the program, so no turn goes on from them.
use mathlib.Core.Path.{subst}
use compyter.Prelude.{
  ℕ, ◌≡◌, ◌∙◌, refl, sym, ap, arith, true, false, List, length, set, Bool-cases, Option-cases, inl,
  inr,
}
use compyter.Prelude.Int.{ℤ, pos, ◌+ℤ◌, ◌>>ℤ◌, mask}
use compyter.Result.{Exception, Result, ok, err, map_ok, place, index_error}
use compyter.Exec.{⊤, Exec, modify, changes, continue, changes-eq-ok, changes-eq-err, ◌>>=◌, ◌>>◌}
use compyter.Memory.{Bus, Memory, set_index, is_trap_vector, device_at}
use compyter.Memory
use compyter.Machine.{Machine}
use compyter.Register.{has_bit, status_bit, mmu_enable, read, get_item}
use compyter.Mmu.{translate, write_address, clear_cache}
use compyter.Mmu.Coherence.{Coherent}
use compyter.Mmu.Enabled.{Raises, translate-Raises, after_raise}
use compyter.Cpu.{trap_ill}
use compyter.Cpu.LoadStore.{save_byte, savew, saveb}
use compyter.Cpu.Keeps.{is_caught, Kept, Keeps, if-Keeps, trap-Keeps}
use compyter.Cpu.Keeps.Accesses.{raised-Kept, translate-Keeps}

-- The devices raise none of the exceptions that the processor catches.
abbrev pub IsUncaught : Bus → Type 0
IsUncaught B =
    (d : B.Device) (i v : ℕ) (h : B.State) (e : Exception)
    → B.set_item d i v h ≡ err e
    → is_caught e ≡ false

map_ok-eq-err :
    {A C : Type 0} (f : A → C) (r : Result A) (e : Exception) → map_ok f r ≡ err e → r ≡ err e
map_ok-eq-err f (ok a) e h = cc
map_ok-eq-err f (err x) e h = cc

uncaught_index :
    (xs : List ℕ) (i : ℤ) (v : ℕ) (e : Exception) → set_index xs i v ≡ err e → is_caught e ≡ false
uncaught_index xs i v e h = elim (Option-cases (place i (length xs))) [
  | inl outside ↦
      let same : err index_error ≡ err e = rw outside at h in
      let e' : index_error ≡ e = cc in subst (λ x. is_caught x ≡ false) e' refl
  | inr (p, inside) ↦ let no_error : ok (set xs p v) ≡ err e = rw inside at h in cc
]

module _ {B : Bus} where
  -- A register that can be read, with the MMU off: a store of it fails, if at all, for good.
  pub record IsSettled (reg1 : ℤ) (s : Machine B) : Type 0 where
    pub word : ℤ
    pub held : read reg1 s ≡ ok word
    pub off : has_bit mmu_enable s ≡ false

  set_item-uncaught :
      IsUncaught B
      → (m : Memory B) (a : ℤ) (v : ℕ) (e : Exception) → Memory.set_item m a v ≡ err e
      → is_caught e ≡ false
  unfolding Memory.set_item
  set_item-uncaught un m a v e h = elim (Bool-cases (is_trap_vector a)) [
    | inl vector ↦ uncaught_index m.trap_vectors _ _ e (map_ok-eq-err _ _ e (rw vector at h))
    | inr other ↦ elim (Option-cases (device_at m a)) [
      | inl nothing ↦ uncaught_index m.memory _ _ e (map_ok-eq-err _ _ e (rw (other, nothing) at h))
      | inr (d, found) ↦ un d _ v m.hardware e (map_ok-eq-err _ _ e (rw (other, found) at h))
    ]
  ]

  -- `self.memory[addr] = value`
  abbrev stored : ℤ → ℕ → Machine B → Result (Machine B)
  stored a v s = map_ok (λ m. record s { memory = m }) (Memory.set_item s.memory a v)

  write_address-off :
      (a : ℤ) (v : ℕ) (s : Machine B)
      → has_bit mmu_enable s ≡ false
      → write_address a v s ≡ changes (stored a v) s
  unfolding write_address translate ◌>>=◌ status_bit
  write_address-off a v s off = rw off refl

  write_address-on :
      (a : ℤ) (v : ℕ) (s : Machine B)
      → has_bit mmu_enable s ≡ true
      → Coherent s
      → Raises s (write_address a v s) × Kept (write_address a v s)
  unfolding write_address ◌>>=◌
  write_address-on a v s on c =
      let raises = translate-Raises a s on in
      (
        after_raise s (translate a s) _ raises,
        raised-Kept s (translate a s) _ raises ((translate-Keeps a).kept s c),
      )

  save_byte-held :
      (reg1 a w : ℤ) (k : ℕ) (s : Machine B)
      → read reg1 s ≡ ok w
      → save_byte reg1 a k s ≡ write_address a (mask 0xff (w >>ℤ k)) s
  unfolding save_byte ◌>>=◌ get_item
  save_byte-held reg1 a w k s held = rw held refl

  save_byte-refused :
      (reg1 a : ℤ) (k : ℕ) (e : Exception) (s : Machine B)
      → read reg1 s ≡ err e
      → save_byte reg1 a k s ≡ (err e, s)
  unfolding save_byte ◌>>=◌ get_item
  save_byte-refused reg1 a k e s refused = rw refused refl

  -- What comes behind a first byte that is not stored.
  abbrev KeptBehind : Exec (Machine B) ⊤ → Result ⊤ × Machine B → Type 0
  KeptBehind next r = Kept (continue {B = ⊤} (r.0) (λ _. next) (r.1))

  settled_store :
      IsUncaught B
      → (reg1 a : ℤ) (k : ℕ) (next : Exec (Machine B) ⊤) (s : Machine B) → IsSettled reg1 s
      → ((t : Machine B) → IsSettled reg1 t → Kept (next t))
      → KeptBehind next (save_byte reg1 a k s)
  settled_store un reg1 a k next s settled after =
      let v = mask 0xff (settled.word >>ℤ k) in
      subst (KeptBehind next)
        (sym (
          save_byte-held reg1 a settled.word k s settled.held
          ∙ write_address-off a v s settled.off))
        (finish v (Memory.set_item s.memory a v) refl)
    where
      finish :
          (v : ℕ) (r : Result (Memory B))
          → Memory.set_item s.memory a v ≡ r
          → KeptBehind next (changes (stored a v) s)
      finish v (ok m) e =
          subst (KeptBehind next)
            (sym (changes-eq-ok (stored a v) s (record s { memory = m }) (ap (map_ok _) e)))
            (after (record s { memory = m })
              (record { word = settled.word; held = settled.held; off = settled.off }))
      finish v (err x) e =
          subst (KeptBehind next) (sym (changes-eq-err (stored a v) s x (ap (map_ok _) e)))
            (λ caught. let never = set_item-uncaught un s.memory a v x e in cc)

  pub store-Keeps :
      IsUncaught B
      → (reg1 a : ℤ) (k : ℕ) (next : Exec (Machine B) ⊤)
      → ((t : Machine B) → IsSettled reg1 t → Kept (next t))
      → Keeps (save_byte reg1 a k >> next)
  unfolding ◌>>=◌
  store-Keeps un reg1 a k next after = record { kept = λ s c. started s c (read reg1 s) refl }
    where
      started :
          (s : Machine B)
          → Coherent s
          → (r : Result ℤ) → read reg1 s ≡ r
          → KeptBehind next (save_byte reg1 a k s)
      started s c (err e) refused =
          subst (KeptBehind next) (sym (save_byte-refused reg1 a k e s refused)) (λ caught. c)
      started s c (ok w) held = elim (Bool-cases (has_bit mmu_enable s)) [
        | inl on ↦
            let v = mask 0xff (w >>ℤ k) in
            let (raises, kept) = write_address-on a v s on c in
            subst (KeptBehind next) (sym (save_byte-held reg1 a w k s held))
              (raised-Kept s (write_address a v s) _ raises kept)
        | inr off ↦
            settled_store un reg1 a k next s (record { word = w; held = held; off = off }) after
      ]

  settled-Kept :
      IsUncaught B
      → (reg1 a : ℤ) (k : ℕ) (next : Exec (Machine B) ⊤)
      → ((t : Machine B) → IsSettled reg1 t → Kept (next t))
      → (s : Machine B) → IsSettled reg1 s
      → Kept ((save_byte reg1 a k >> next) s)
  unfolding ◌>>=◌
  settled-Kept un reg1 a k next after s settled = settled_store un reg1 a k next s settled after

  clear_cache-Kept : (s : Machine B) → Kept (clear_cache s)
  unfolding clear_cache modify
  clear_cache-Kept s = (tt, omega arith)

  pub saveb-Keeps : IsUncaught B → (reg1 a : ℤ) → Keeps {B = B} (saveb reg1 a)
  unfolding saveb
  saveb-Keeps un reg1 a = store-Keeps un reg1 a 0 clear_cache (λ t settled. clear_cache-Kept t)

  pub savew-Keeps : IsUncaught B → (reg1 a : ℤ) → Keeps {B = B} (savew reg1 a)
  unfolding savew
  savew-Keeps un reg1 a = if-Keeps _ _ _ (trap-Keeps trap_ill) (
      store-Keeps un reg1 a 24 _ (
        settled-Kept un reg1 (a +ℤ pos 1) 16 _ (
          settled-Kept un reg1 (a +ℤ pos 2) 8 _
            (settled-Kept un reg1 (a +ℤ pos 3) 0 _ (λ t settled. clear_cache-Kept t)))))
