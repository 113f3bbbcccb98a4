-- ===== src/Cache.antt =====
-- `functools.lru_cache` at its default size, which compyter/mmu.py puts on three methods: the
-- results of the 128 keys that were used last, the last used one first.
use compyter.Prelude.{ℕ, ◌≡◌, refl, Bool, Option, none, some, List, [], ◌∷◌, take, if◌then◌else◌}
use compyter.Result.{ok}
use compyter.Exec.{Exec, pure, modify, ◌>>=◌, ◌>>◌}

abbrev pub max_size : ℕ
max_size = 128

module _ {K V : Type 0} (same : K → K → Bool) where
  abbrev pub lookup : K → List (K × V) → Option V
  lookup k [] = none
  lookup k ((j, v) ∷ c) = if same j k then some v else lookup k c

  abbrev pub without : K → List (K × V) → List (K × V)
  without k [] = []
  without k ((j, v) ∷ c) = if same j k then c else (j, v) ∷ without k c

  -- A hit moves to the front; a miss stores the result there, and drops the oldest one.
  unfoldable pub hit : K → V → List (K × V) → List (K × V)
  hit k v c = (k, v) ∷ without k c

  unfoldable pub store : K → V → List (K × V) → List (K × V)
  store k v c = take max_size ((k, v) ∷ c)

  -- A call of the decorated method, which keeps its cache in a part of the state. An exception is
  -- not stored.
  unfoldable pub cached :
      {S : Type 0} → (S → List (K × V)) → (List (K × V) → S → S) → K → Exec S V → Exec S V
  unfolding hit store
  cached view write k body s = elim (lookup k (view s)) [
    | some v ↦ (ok v, write (hit k v (view s)) s)
    | none ↦ (do v ← body; modify (λ s. write (store k v (view s)) s); pure v) s
  ]

  module _ {S : Type 0} (view : S → List (K × V)) (write : List (K × V) → S → S) (k : K)
      (body : Exec S V) (s : S) where
    pub cached-hit :
        (v : V)
        → lookup k (view s) ≡ some v
        → cached view write k body s ≡ (ok v, write (hit k v (view s)) s)
    unfolding cached
    cached-hit v found = rw (cached, found) refl

    pub cached-miss :
        lookup k (view s) ≡ none
        → cached view write k body s
          ≡ (do v ← body; modify (λ s'. write (store k v (view s')) s'); pure v) s
    unfolding cached
    cached-miss missing = rw (cached, missing) refl
