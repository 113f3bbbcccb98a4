-- ===== src/Hardware/Internet/Async.antt =====
-- The thread of the network device (compyter/hardware/internet.py) and the program that answers it.
use compyter.Prelude.{
  ℕ, zero, suc, ◌≡◌, ◌∙◌, refl, sym, arith, true, false, Option, none, some, List, [], ◌∷◌, ◌++◌,
  length, replicate,
}
use mathlib.Core.List.{append-nil, append_assoc}
use compyter.Prelude.Int.{ℤ, pos}
use compyter.Exec.{◌>>=◌}
use compyter.Hardware.Intc.{Intc, interrupt}
use compyter.Hardware.Internet.Sockets.{Host}
use compyter.Hardware.Internet.State.{Internet, set_error, succeed}
use compyter.Hardware.Internet.Commands.{cmd_async_done}
use compyter.Hardware.Internet.{int_num, op_of, async_done, run_command, select, fire, resume}

abbrev pub handles : List (ℤ × ℕ) → List ℤ
handles [] = []
handles ((fd, mask) ∷ rest) = fd ∷ handles rest

abbrev posted : ℕ → Intc → Intc
posted zero intc = intc
posted (suc n) intc = posted n (interrupt int_num intc)

pending-posted :
    (n : ℕ) (intc : Intc) → (posted n intc).pending ≡ intc.pending ++ replicate n int_num
unfolding interrupt
pending-posted zero intc = sym (append-nil intc.pending)
pending-posted (suc n) intc =
    pending-posted n (interrupt int_num intc)
    ∙ append_assoc intc.pending (int_num ∷ []) (replicate n int_num)

module _ {H : Host} where
  -- One event and its answer: the thread fires, the handler reads the handle and sends ASYNC_DONE, and
  -- the thread wakes up.
  abbrev pub answer : Internet H → Option (Internet H)
  answer s = resume (run_command async_done s).1

  unfoldable pub handled : Internet H × Intc → Option (ℤ × Internet H × Intc)
  handled (s, intc) = elim (fire (s, intc)) [
    | none ↦ none
    | some (t, intc') ↦ elim (answer t) [ none ↦ none | some u ↦ some (t.async_handle, u, intc') ]
  ]

  -- So many events: the handles that the handler reads, and what is left.
  unfoldable pub handle_all : ℕ → Internet H × Intc → Option (List ℤ × Internet H × Intc)
  handle_all zero (s, intc) = some ([], s, intc)
  handle_all (suc n) (s, intc) = elim (handled (s, intc)) [
    | none ↦ none
    | some (fd, t, intc') ↦ elim (handle_all n (t, intc')) [
      | none ↦ none
      | some (fds, u, intc'') ↦ some (fd ∷ fds, u, intc'')
    ]
  ]

  abbrev after : ℤ → ℕ → List (ℤ × ℕ) → Internet H → Internet H
  after fd mask rest s = record s {
    async_op = op_of mask;
    async_handle = fd;
    async_done = true;
    events = rest;
    waiting = false;
    status = pos 0;
  }

  handled_lem :
      (fd : ℤ) (mask : ℕ) (rest : List (ℤ × ℕ)) (s : Internet H) (intc : Intc)
      → s.events ≡ (fd, mask) ∷ rest
      → s.waiting ≡ false
      → handled (s, intc) ≡ some (fd, after fd mask rest s, interrupt int_num intc)
  unfolding handled fire resume run_command cmd_async_done ◌>>=◌ set_error succeed
  handled_lem fd mask rest s intc e w = rw (e, w) refl

  all_handled :
      (es : List (ℤ × ℕ)) (s : Internet H) (intc : Intc)
      → s.events ≡ es
      → s.waiting ≡ false
      → (t : Internet H) × (handle_all (length es) (s, intc)
          ≡ some (handles es, t, posted (length es) intc))
        × (t.events ≡ [])
        × (t.waiting ≡ false)
  unfolding handle_all
  all_handled [] s intc e w = (s, refl, e, w)
  all_handled ((fd, mask) ∷ rest) s intc e w =
      let (t, h, none_left, awake) =
        all_handled rest (after fd mask rest s) (interrupt int_num intc) refl refl in
      (t, rw (handled_lem fd mask rest s intc e w, h, handle_all) refl, none_left, awake)

  select_free :
      (ready : List (ℤ × ℕ)) (s : Internet H)
      → s.events ≡ []
      → s.waiting ≡ false
      → select ready s ≡ some (record s { events = ready })
  unfolding select
  select_free ready s e w = ground arith

  -- The events that the selector brings are all delivered, in order: when every interrupt is answered
  -- by the command ASYNC_DONE, the thread that holds `n` events and does not wait raises `n`
  -- interrupts, the handler reads the handles of the events one after the other, and the thread is
  -- left with no event and free to ask the selector again.
  pub handle_all-events :
      (s : Internet H) (intc : Intc) (ready : List (ℤ × ℕ))
      → s.waiting ≡ false
      → (t : Internet H) × (intc' : Intc) × (handle_all (length s.events) (s, intc)
          ≡ some (handles s.events, t, intc'))
        × (intc'.pending ≡ intc.pending ++ replicate (length s.events) int_num)
        × (select ready t ≡ some (record t { events = ready }))
  handle_all-events s intc ready w =
      let (t, h, none_left, awake) = all_handled s.events s intc refl w in
      (
        t,
        posted (length s.events) intc,
        h,
        pending-posted (length s.events) intc,
        select_free ready t none_left awake,
      )
