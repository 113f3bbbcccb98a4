-- ===== src/Exec.antt =====
-- Methods that change the state of the machine and may raise. What was written before an exception
-- stays written, so the state comes back beside it.
use compyter.Prelude.{◌≡◌, refl, Bool, if◌then◌else◌}
use compyter.Result.{Exception, Result, ok, err}

abbrev pub ⊤ : Type 0
⊤ = Unit

abbrev pub Exec : Type 0 → Type 0 → Type 0
Exec S A = S → Result A × S

module _ {S A : Type 0} where
  unfoldable pub pure : A → Exec S A
  pure a s = (ok a, s)

  unfoldable pub raise : Exception → Exec S A
  raise e s = (err e, s)

  unfoldable pub lift : Result A → Exec S A
  lift r s = (r, s)

  unfoldable pub gets : (S → A) → Exec S A
  gets f s = (ok (f s), s)

  -- A read that may raise.
  unfoldable pub reads : (S → Result A) → Exec S A
  reads f s = (f s, s)

module _ {S : Type 0} where
  unfoldable pub modify : (S → S) → Exec S ⊤
  modify f s = (ok tt, f s)

  -- A change that may raise, and then changes nothing.
  unfoldable pub changes : (S → Result S) → Exec S ⊤
  changes f s = elim (f s) [ ok s' ↦ (ok tt, s') | err e ↦ (err e, s) ]

  pub changes-eq-ok : (f : S → Result S) (s t : S) → f s ≡ ok t → changes f s ≡ (ok tt, t)
  unfolding changes
  changes-eq-ok f s t h = rw (h, changes) refl

  pub changes-eq-err :
      (f : S → Result S) (s : S) (e : Exception) → f s ≡ err e → changes f s ≡ (err e, s)
  unfolding changes
  changes-eq-err f s e h = rw (h, changes) refl

module _ {S A B : Type 0} where
  -- What follows a result: nothing, behind an exception.
  abbrev pub continue : Result A → (A → Exec S B) → Exec S B
  continue (err e) next state = (err e, state)
  continue (ok value) next state = next value state

  infixl 5 ◌>>=◌ ◌>>◌
  -- Opening this opens the other ways to build an action too.
  unfoldable pub ◌>>=◌ : Exec S A → (A → Exec S B) → Exec S B
  unfolding pure raise lift gets reads modify changes
  ◌>>=◌ action next state = let (outcome, state') = action state in continue outcome next state'

  abbrev pub ◌>>◌ : Exec S A → Exec S B → Exec S B
  action >> after = action >>= λ _. after

module _ {S : Type 0} where
  -- An `if` with no `else`.
  abbrev pub when : Bool → Exec S ⊤ → Exec S ⊤
  when b m = if b then m else pure tt

module _ {S A : Type 0} where
  -- `try` with handlers.
  unfoldable pub rescue : (Exception → Exec S A) → Exec S A → Exec S A
  rescue handler m s = let (r, s') = m s in elim r [ ok a ↦ (ok a, s') | err e ↦ handler e s' ]
