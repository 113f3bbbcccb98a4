-- ===== src/Computer/Uncaught.antt =====
-- What the network device raises (compyter/hardware/internet.py) is not what the processor catches
-- (compyter/cpu.py): the parts that its commands are made of.
pub mod Commands
pub mod Registers
use compyter.Prelude.{
  ℕ, ◌≡◌, refl, true, false, Bool, Option, none, some, List, Bool-cases, inl, inr, if◌then◌else◌,
}
use compyter.Prelude.Int.{ℤ, pos, eqb_ℤ}
use compyter.Result.{Exception, Result, ok, err}
use compyter.Exec.{⊤, Exec, pure, raise, lift, gets, modify, changes, continue, ◌>>=◌}
use compyter.Hardware.Internet.Sockets.{Host, Outcome, value, os_error, Invalid}
use compyter.Hardware.Internet.State.{
  Internet, strerror_of, set_error, succeed, call, attempt, or_report, on_socket, with_socket,
  einval,
}
use compyter.Hardware.Internet.Commands.{or_invalid, received, sent}
use compyter.Cpu.Keeps.{is_caught}
use compyter.Computer.Safe.{Spared}

-- What is relied on: the IDNA codec and the selector raise none of the exceptions of `mmu.py` and
-- `register.py`.
pub record IsCalm (H : Host) : Type 0 where
  pub calm_idna : (name : List ℕ) → Spared (H.encode_idna name)
  pub calm_register :
      (sock : H.Socket) (events : ℕ) (w : H.World) → Spared (H.register sock events w).0
  pub calm_unregister : (sock : H.Socket) (w : H.World) → Spared (H.unregister sock w).0

module _ {H : Host} where
  pub record Uncaught {A : Type 0} (m : Exec (Internet H) A) : Type 0 where
    pub safe : (s : Internet H) → Spared (m s).0

  continue-Spared :
      {A C : Type 0} (r : Result A × Internet H) (f : A → Exec (Internet H) C)
      → Spared (r.0)
      → ((a : A) → Uncaught (f a))
      → Spared (continue (r.0) f (r.1)).0
  continue-Spared (ok a, t) f h next = (next a).safe t
  continue-Spared (err e, t) f h next = h

  pub bind-Uncaught :
      {A C : Type 0} (m : Exec (Internet H) A) (f : A → Exec (Internet H) C)
      → Uncaught m
      → ((a : A) → Uncaught (f a))
      → Uncaught (m >>= f)
  unfolding ◌>>=◌
  bind-Uncaught m f h next = record { safe = λ s. continue-Spared (m s) f (h.safe s) next }

  pub pure-Uncaught : {A : Type 0} (a : A) → Uncaught (pure a)
  unfolding pure
  pure-Uncaught a = record { safe = λ s. tt }

  pub raise-Uncaught :
      (A : Type 0) (e : Exception) → is_caught e ≡ false → Uncaught (raise {A = A} e)
  unfolding raise
  raise-Uncaught A e h = record { safe = λ s. h }

  pub lift-Uncaught : {A : Type 0} (r : Result A) → Spared r → Uncaught (lift r)
  unfolding lift
  lift-Uncaught r h = record { safe = λ s. h }

  pub gets-Uncaught : {A : Type 0} (f : Internet H → A) → Uncaught (gets f)
  unfolding gets
  gets-Uncaught f = record { safe = λ s. tt }

  pub modify-Uncaught : (f : Internet H → Internet H) → Uncaught (modify f)
  unfolding modify
  modify-Uncaught f = record { safe = λ s. tt }

  pub if-Uncaught :
      {A : Type 0} (b : Bool) (m n : Exec (Internet H) A)
      → Uncaught m
      → Uncaught n
      → Uncaught (if b then m else n)
  if-Uncaught true m n hm hn = hm
  if-Uncaught false m n hm hn = hn

  changed-Spared :
      (r : Result (Internet H)) (s : Internet H) → Spared r → Spared (changes (λ _. r) s).0
  unfolding changes
  changed-Spared (ok t) s h = tt
  changed-Spared (err e) s h = h

  pub changes-Uncaught :
      (f : Internet H → Result (Internet H))
      → ((s : Internet H) → Spared (f s))
      → Uncaught (changes f)
  unfolding changes
  changes-Uncaught f h = record { safe = λ s. changed-Spared (f s) s (h s) }

  pub set_error-Uncaught : (e : ℤ) (text : Option (List ℕ)) → Uncaught {A = ⊤} (set_error e text)
  unfolding set_error strerror_of
  set_error-Uncaught e (some text) = record { safe = λ s. tt }
  set_error-Uncaught e none = record {
    safe = λ s. elim (Bool-cases (eqb_ℤ e (pos 0))) [
      | inl zero ↦ rw (zero, set_error) tt
      | inr other ↦ rw (other, set_error) refl
    ];
  }

  pub succeed-Uncaught : Uncaught succeed
  unfolding succeed
  succeed-Uncaught = set_error-Uncaught (pos 0) none

  or_report-Uncaught :
      {A : Type 0} (r : Outcome A) (next : A → Exec (Internet H) ⊤)
      → ((a : A) → Uncaught (next a))
      → Uncaught (or_report next r)
  or_report-Uncaught (value a) next h = h a
  or_report-Uncaught (os_error e text) next h = set_error-Uncaught e text

  pub attempt-Uncaught :
      {A : Type 0} (f : H.World → Outcome A × H.World) (next : A → Exec (Internet H) ⊤)
      → ((a : A) → Uncaught (next a))
      → Uncaught (attempt f next)
  unfolding attempt call
  attempt-Uncaught f next h = record {
    safe = λ s.
        (let r = f s.world in (or_report-Uncaught (r.0) next h).safe (record s { world = r.1 }));
  }

  on_socket-Uncaught :
      (sock : Option H.Socket) (next : H.Socket → Exec (Internet H) ⊤)
      → ((a : H.Socket) → Uncaught (next a))
      → Uncaught (on_socket sock next)
  on_socket-Uncaught none next h = pure-Uncaught tt
  on_socket-Uncaught (some a) next h = h a

  pub with_socket-Uncaught :
      (next : H.Socket → Exec (Internet H) ⊤)
      → ((a : H.Socket) → Uncaught (next a))
      → Uncaught (with_socket next)
  unfolding with_socket
  with_socket-Uncaught next h = record {
    safe = λ s. (on_socket-Uncaught (s.sockets s.current_handle) next h).safe s;
  }

  pub or_invalid-Uncaught :
      {A : Type 0} (why : Invalid) (next : A → Exec (Internet H) ⊤) (a : Option A)
      → ((x : A) → Uncaught (next x))
      → Uncaught (or_invalid why next a)
  or_invalid-Uncaught why next none h = set_error-Uncaught einval (some (H.message why))
  or_invalid-Uncaught why next (some x) h = h x

  -- A call whose result is not caught either.
  pub call-Uncaught :
      {A : Type 0} (f : H.World → Result A × H.World)
      → ((w : H.World) → Spared (f w).0)
      → Uncaught (call f)
  unfolding call
  call-Uncaught f h = record { safe = λ s. h s.world }

  pub ruleset uncaught = (
    bind-Uncaught, pure-Uncaught, gets-Uncaught, modify-Uncaught, if-Uncaught, succeed-Uncaught,
    set_error-Uncaught, with_socket-Uncaught, attempt-Uncaught, or_invalid-Uncaught,
  )

  pub received-Uncaught : (bytes : List ℕ) → Uncaught (received bytes)
  unfolding received
  received-Uncaught bytes = modify-Uncaught _

  pub sent-Uncaught : (n : ℕ) → Uncaught (sent n)
  unfolding sent
  sent-Uncaught n = search uncaught
