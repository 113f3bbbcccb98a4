-- ===== src/Computer/Uncaught/Registers.antt =====
-- A write to a register of the network device (compyter/hardware/internet.py) raises nothing that the
-- processor catches, through the command that it runs too.
use compyter.Prelude.{ℕ, ◌+◌, ◌==◌, List, refl, Bool-cases, Option-cases, inl, inr}
use compyter.Prelude.Int.{ℤ}
use compyter.Result.{Result, map_ok, value_error}
use compyter.Exec.{changes}
use compyter.Hardware.Internet.Sockets.{Host}
use compyter.Hardware.Internet.State.{Internet}
use compyter.Hardware.Internet.{command_of, reg_command, store, act, set_item}
use compyter.Computer.Safe.{
  Safe, err-Safe, if-Safe, map_ok-Safe, set_index-Safe, set_word_byte-Safe, set_quad_byte-Safe,
}
use compyter.Computer.Uncaught.{IsCalm, Uncaught, uncaught, changes-Uncaught}
use compyter.Computer.Uncaught.Commands.{run_command-Uncaught}

store-Safe : (xs : List ℕ) (i : ℤ) (v : ℕ) → Safe (store xs i v)
store-Safe xs i v = if-Safe _ _ _ (err-Safe _ value_error refl) (set_index-Safe xs i v)

module _ {H : Host} where
  writes-Uncaught :
      {A : Type 0} (r : Internet H → Result A) (f : Internet H → A → Internet H)
      → ((s : Internet H) → Safe (r s))
      → Uncaught (changes (λ s. map_ok (f s) (r s)))
  writes-Uncaught r f h = changes-Uncaught _ (λ s. (map_ok-Safe (f s) (r s) (h s)).spared)

  act-Uncaught : IsCalm H → (item : ℕ) → Uncaught (act {H = H} item)
  unfolding act
  act-Uncaught calm item = record {
    safe = λ s. elim (Bool-cases (item == reg_command + 3)) [
      | inl last ↦ elim (Option-cases (command_of s.command)) [
        | inl unknown ↦ rw (last, unknown, act) tt
        | inr (c, known) ↦ rw (last, known, act) ((run_command-Uncaught calm c).safe s)
      ]
      | inr other ↦ rw (other, act) tt
    ];
  }

  pub set_item-Uncaught : IsCalm H → (item val : ℕ) → Uncaught {H = H} (set_item item val)
  unfolding set_item
  set_item-Uncaught calm item val =
      search
        (
          uncaught, writes-Uncaught, act-Uncaught, set_word_byte-Safe, set_quad_byte-Safe,
          store-Safe,
        )
        depth 30
