-- ===== src/Hardware/Intc/Pending.antt =====
-- The queue of the interrupt controller: what its thread does with the interrupts that are posted
-- (`process_pending` and `__setitem__` of compyter/hardware/intc.py).
use mathlib.Core.List.{append_assoc}
use mathlib.Core.Path.{subst}
use compyter.Prelude.{
  ℕ, ◌+◌, ◌≤◌, ◌≡◌, ◌∙◌, sym, ap, refl, arith, Bool, true, false, some, List, [], ◌∷◌, ◌++◌, ◌&&◌,
  ◌==◌, map, if◌then◌else◌,
}
use compyter.Prelude.Int.{ℤ}
use compyter.Result.{ok}
use compyter.Util.{in_range}
use compyter.Hardware.Intc.{
  Intc, Stage, getting, waiting, woken, clearing, calling, init, interrupt, set_item,
  process_pending, interrupt_nowait, intc_mask, intc_trigger,
}

-- Whether a write unmasks the controller, and whether it posts an interrupt.
abbrev pub unmasks : ℕ → ℕ → Bool
unmasks item val = in_range item intc_mask (intc_mask + 3) && (val == 0)

abbrev pub triggers : ℕ → Bool
triggers item = in_range item intc_trigger (intc_trigger + 3)

abbrev count : Bool → ℕ
count true = 1
count false = 0

-- What becomes of an interrupt that the thread has taken from the queue: `CPU.intr` is called for it, it
-- has no handler and is ignored, or the controller was masked again before the thread, awake, looked.
pub data Outcome : Type 0 where
  called ignored lost : ℤ → Outcome

abbrev pub number : Outcome → ℤ
number (called n) = n
number (ignored n) = n
number (lost n) = n

-- The outcome that a step of the thread in this stage has, if it has one.
abbrev pub outcome : Stage → Bool → Bool → List Outcome
outcome (woken n) unmasked fires = if unmasked then [] else lost n ∷ []
outcome (calling n) unmasked fires = (if fires then called n else ignored n) ∷ []
outcome _ unmasked fires = []

-- The histories of a controller: the interrupts that were posted, by a device or by the trigger
-- register, and the outcomes, both in order, and the number of writes that unmasked.
pub data Run : List ℤ → List Outcome → ℕ → Intc → Type 0 where
  start : Run [] [] 0 init
  post :
      {ps : List ℤ} {os : List Outcome} {k : ℕ} {s : Intc}
      → Run ps os k s
      → (n : ℤ) → Run (ps ++ n ∷ []) os k (interrupt n s)
  write :
      {ps : List ℤ} {os : List Outcome} {k : ℕ} {s s' : Intc}
      → Run ps os k s
      → (item val : ℕ) → triggers item ≡ false
      → set_item item val s ≡ ok s'
      → Run ps os (k + count (unmasks item val)) s'
  thread :
      {ps : List ℤ} {os : List Outcome} {k : ℕ} {s s' : Intc}
      → Run ps os k s
      → (fires : Bool) → process_pending s ≡ some (s', fires)
      → Run ps (os ++ outcome s.stage s.unmasked fires) k s'

-- The interrupt that the thread has in its hands.
abbrev pub holds : Stage → List ℤ
holds getting = []
holds (waiting n) = n ∷ []
holds (woken n) = n ∷ []
holds (clearing n) = n ∷ []
holds (calling n) = n ∷ []

-- The interrupts that are posted and have no outcome yet.
abbrev pub remaining : Intc → List ℤ
remaining s = holds s.stage ++ s.pending

write-stage :
    (item val : ℕ) (s s' : Intc)
    → triggers item ≡ false
    → set_item item val s ≡ ok s'
    → s'.stage ≡ s.stage
unfolding set_item interrupt
write-stage item val s s' no_post e = ground (arith, e)

write-remaining :
    (item val : ℕ) (s s' : Intc)
    → triggers item ≡ false
    → set_item item val s ≡ ok s'
    → remaining s' ≡ remaining s
unfolding set_item interrupt
write-remaining item val s s' no_post e =
    let stage = write-stage item val s s' no_post e in
    let pending : s'.pending ≡ s.pending = ground (arith, e) in λ i. holds (stage i) ++ pending i

numbers : List Outcome → List ℤ
numbers os = map number os

passes : Outcome → ℕ
passes (called n) = 1
passes (ignored n) = 1
passes (lost n) = 0

-- The interrupts that got through the mask.
pub passed : List Outcome → ℕ
passed [] = 0
passed (o ∷ os) = passes o + passed os

numbers-append : (os qs : List Outcome) → numbers (os ++ qs) ≡ numbers os ++ numbers qs
unfolding numbers
numbers-append [] qs = refl
numbers-append (o ∷ os) qs = ap (λ ns. number o ∷ ns) (numbers-append os qs)

passed-append : (os qs : List Outcome) → passed (os ++ qs) ≡ passed os + passed qs
unfolding passed
passed-append [] qs = omega arith
passed-append (o ∷ os) qs = omega (arith, passed-append os qs)

thread-remaining :
    (s s' : Intc) (fires : Bool)
    → process_pending s ≡ some (s', fires)
    → numbers (outcome s.stage s.unmasked fires) ++ remaining s' ≡ remaining s
unfolding process_pending interrupt_nowait numbers
thread-remaining s s' fires e = ground (arith, e)

-- The writes that unmask which are not used up: the thread that has seen the controller unmasked uses
-- one up.
abbrev unused : Stage → Bool → ℕ
unused (clearing n) unmasked = 1
unused (calling n) unmasked = 1 + count unmasked
unused _ unmasked = count unmasked

write-unmasked :
    (item val : ℕ) (s s' : Intc)
    → set_item item val s ≡ ok s'
    → count s'.unmasked ≤ count (unmasks item val) + count s.unmasked
unfolding set_item interrupt
write-unmasked item val s s' e = ground (arith, e)

unused_le :
    (st : Stage) (u v : Bool) (c : ℕ) → count v ≤ c + count u → unused st v ≤ c + unused st u
unused_le getting u v c h = h
unused_le (waiting n) u v c h = h
unused_le (woken n) u v c h = h
unused_le (clearing n) u v c h = omega arith
unused_le (calling n) u v c h = omega (arith, h)

write-unused :
    (item val : ℕ) (s s' : Intc)
    → triggers item ≡ false
    → set_item item val s ≡ ok s'
    → unused s'.stage s'.unmasked ≤ count (unmasks item val) + unused s.stage s.unmasked
write-unused item val s s' no_post e =
    subst (λ st. unused st s'.unmasked ≤ count (unmasks item val) + unused s.stage s.unmasked)
      (sym (write-stage item val s s' no_post e))
      (unused_le s.stage s.unmasked s'.unmasked (count (unmasks item val))
        (write-unmasked item val s s' e))

thread-unused :
    (s s' : Intc) (fires : Bool)
    → process_pending s ≡ some (s', fires)
    → passed (outcome s.stage s.unmasked fires) + unused s'.stage s'.unmasked
      ≤ unused s.stage s.unmasked
unfolding process_pending interrupt_nowait passed passes
thread-unused s s' fires e = ground (arith, e)

-- The controller keeps the order in which the interrupts were posted, and loses count of none: in
-- every history of posts, of writes to its registers and of steps of its thread, the interrupts with an
-- outcome, then the one that the thread has in its hands, then the queue, are those posted. An outcome is
-- a call of `CPU.intr`, being ignored for the lack of a handler, or being lost when the controller is
-- masked between the end of the thread's wait and its test of `is_set`.
pub Run-in_order :
    (ps : List ℤ) (os : List Outcome) (k : ℕ) (s : Intc)
    → Run ps os k s
    → map number os ++ remaining s ≡ ps
unfolding interrupt init numbers
Run-in_order _ _ _ _ start = refl
Run-in_order _ _ _ _ (post {ps} {os} {k} {s} r n) =
    ap (λ xs. numbers os ++ xs) (sym (append_assoc (holds s.stage) s.pending (n ∷ [])))
    ∙ sym (append_assoc (numbers os) (remaining s) (n ∷ []))
    ∙ ap (λ xs. xs ++ n ∷ []) (Run-in_order ps os k s r)
Run-in_order _ _ _ _ (write {ps} {os} {k} {s} {s'} r item val no_post e) =
    ap (λ xs. numbers os ++ xs) (write-remaining item val s s' no_post e) ∙ Run-in_order ps os k s r
Run-in_order _ _ _ _ (thread {ps} {os} {k} {s} {s'} r fires e) =
    let last = outcome s.stage s.unmasked fires in
    ap (λ xs. xs ++ remaining s') (numbers-append os last)
    ∙ append_assoc (numbers os) (numbers last) (remaining s')
    ∙ ap (λ xs. numbers os ++ xs) (thread-remaining s s' fires e)
    ∙ Run-in_order ps os k s r

Run-unused :
    (ps : List ℤ) (os : List Outcome) (k : ℕ) (s : Intc)
    → Run ps os k s
    → passed os + unused s.stage s.unmasked ≤ k
unfolding interrupt init passed
Run-unused _ _ _ _ start = omega arith
Run-unused _ _ _ _ (post {ps} {os} {k} {s} r n) = Run-unused ps os k s r
Run-unused _ _ _ _ (write {ps} {os} {k} {s} {s'} r item val no_post e) =
    omega (arith, Run-unused ps os k s r, write-unused item val s s' no_post e)
Run-unused _ _ _ _ (thread {ps} {os} {k} {s} {s'} r fires e) = omega (
  arith,
  Run-unused ps os k s r,
  thread-unused s s' fires e,
  passed-append os (outcome s.stage s.unmasked fires),
)

unmasked-unused : (st : Stage) (u : Bool) → count u ≤ unused st u
unmasked-unused getting u = omega arith
unmasked-unused (waiting n) u = omega arith
unmasked-unused (woken n) u = omega arith
unmasked-unused (clearing n) true = omega arith
unmasked-unused (clearing n) false = omega arith
unmasked-unused (calling n) u = omega arith

-- An interrupt gets to its handler, or is ignored for the lack of one, only after a write that
-- unmasks, and each such write lets one through: in every history there are at most as many as writes
-- of 0 to the mask register, and fewer while the controller is unmasked. The README has the values of
-- the register the other way round.
pub Run-masked :
    (ps : List ℤ) (os : List Outcome) (k : ℕ) (s : Intc)
    → Run ps os k s
    → passed os + count s.unmasked ≤ k
Run-masked ps os k s r = omega (arith, Run-unused ps os k s r, unmasked-unused s.stage s.unmasked)
