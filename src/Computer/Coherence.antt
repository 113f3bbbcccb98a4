-- ===== src/Computer/Coherence.antt =====
-- The cache before `MMU.get_address` (compyter/mmu.py) in the whole computer (compyter/machine.py), over
-- any schedule of the processor and the threads of the devices.
use mathlib.Core.Path.{subst}
use compyter.Prelude.{
  ℕ, ◌≡◌, ◌∙◌, refl, sym, arith, Bool, true, false, if◌then◌else◌, Option, none, some, List, [],
  ◌∷◌, inl, inr, Option-cases, Bool-cases,
}
use compyter.Prelude.Int.{ℤ, pos}
use compyter.Result.{Result, ok, err}
use compyter.Exec.{⊤, Exec, modify, when, ◌>>◌}
use compyter.Memory.{Memory}
use compyter.Memory.Cells.{IsCell, get_item-cell}
use compyter.Machine
use compyter.Machine.{Machine, AddressKey}
use compyter.Register.{has_bit, mmu_enable, intr as intr_bit}
use compyter.Mmu.{get_address}
use compyter.Mmu.Coherence.{Entries, Coherent, ReadsCell, get_address-ReadsCell}
use compyter.Hardware.Intc
use compyter.Hardware.Internet
use compyter.Hardware.Internet.Sockets.{Host}
use compyter.Cpu.{cpu_intr}
use compyter.Cpu.Keeps.{
  KeptOn, Kept, KeepsOn, Keeps, pure-Keeps, bind-Keeps, modify-Keeps, when-Keeps, cpu_intr-Keeps,
}
use compyter.Cpu.LoadStore.Stores.{IsUncaught}
use compyter.Cpu.Decode.Keeps.{decode-Keeps}
use compyter.Computer.{
  Device, Devices, Computer, hardware, left, intc, timer, keyboard, printer, storage, internet, rtc,
  set_item, init, hw, wake, survived, advance, unless_ended, Turn, turn, turns, step,
  step_controller, tick, fire_timer, press, select_events, fire_event, resume_events,
}
use compyter.Computer.Safe.{Spared, Safe, Spared-err, ok-Safe, map_ok-Safe}
use compyter.Computer.Safe.Devices.{
  intc-Safe, timer-Safe, keyboard-Safe, printer-Safe, storage-Safe, rtc-Safe,
}
use compyter.Computer.Uncaught.{IsCalm}
use compyter.Computer.Uncaught.Registers.{set_item-Uncaught}

left-Safe : {S : Type 0} (r : Result ⊤ × S) → Spared (r.0) → Safe (left r)
left-Safe (ok u, s) h = ok-Safe s
left-Safe (err e, s) h = record { spared = h }

module _ {H : Host} where
  device-Safe :
      IsCalm H → (d : Device) (item val : ℕ) (s : Devices H) → Safe (set_item d item val s)
  unfolding set_item
  device-Safe calm intc item val s = map_ok-Safe _ _ (intc-Safe item val s.intc)
  device-Safe calm timer item val s = map_ok-Safe _ _ (timer-Safe item val s.timer)
  device-Safe calm keyboard item val s = map_ok-Safe _ _ (keyboard-Safe item val s.keyboard)
  device-Safe calm printer item val s = map_ok-Safe _ _ (printer-Safe item val s.printer)
  device-Safe calm storage item val s = map_ok-Safe _ _ (storage-Safe item val s.storage)
  device-Safe calm internet item val s =
      map_ok-Safe _ _ (left-Safe _ ((set_item-Uncaught calm item val).safe s.internet))
  device-Safe calm rtc item val s = map_ok-Safe _ _ (rtc-Safe s.current item val s.rtc)

  hardware-IsUncaught : IsCalm H → IsUncaught (hardware H)
  hardware-IsUncaught calm d item val s e raised =
      Spared-err (set_item d item val s) e (device-Safe calm d item val s).spared raised

  -- Cells are not registers of the devices.
  same-IsCell :
      (m : Memory (hardware H)) (h : Devices H) (a : ℕ)
      → IsCell (record m { hardware = h }) a
      → IsCell m a
  same-IsCell m h a (inl c) = inl (record { below = c.below; free = c.free; inside = c.inside })
  same-IsCell m h a (inr c) = inr (record { above = c.above; inside = c.inside })

  devices-Entries :
      (m : Memory (hardware H)) (h : Devices H) (c : List (AddressKey × ℕ))
      → Entries m c
      → Entries (record m { hardware = h }) c
  devices-Entries m h [] entries = tt
  devices-Entries m h ((k, v) ∷ c) (entry, entries) = (
    λ a at_a is_cell.
        let was = same-IsCell m h a is_cell in
        get_item-cell (record m { hardware = h }) a is_cell
        ∙ sym (get_item-cell m a was)
        ∙ entry a at_a was,
    devices-Entries m h c entries,
  )

  abbrev moved : Devices H → Computer H → Computer H
  moved h s = record s { memory = record s.memory { hardware = h } }

  moved-Coherent : (h : Devices H) (s : Computer H) → Coherent s → Coherent (moved h s)
  moved-Coherent h s (entries, few) = (devices-Entries s.memory h s.address_cache entries, few)

  wake-Coherent : (s : Computer H) → Coherent s → Coherent (wake s)
  unfolding wake
  wake-Coherent s c = elim (Bool-cases (has_bit intr_bit s)) [
    | inl enabled ↦ rw (enabled, wake) c
    | inr disabled ↦ rw (disabled, wake) c
  ]

  survived-Kept :
      (r : Result ⊤ × Computer H)
      → KeptOn {B = hardware H} (λ e. true) r
      → Kept {B = hardware H} (survived r)
  survived-Kept (ok a, t) c = c
  survived-Kept (err e, t) c = c refl

  -- The thread of the controller leaves the cache in agreement whatever it raises.
  deliver-Keeps :
      (fires : Bool) → KeepsOn {B = hardware H} (λ e. true) (when fires (do modify wake; cpu_intr))
  deliver-Keeps fires =
      when-Keeps fires _ (bind-Keeps _ _ (modify-Keeps wake wake-Coherent) (λ u. cpu_intr-Keeps))

  -- A turn that changes the devices alone, if anything.
  moved-Kept :
      {A : Type 0} (o : Option A) (f : A → Devices H) (s : Computer H)
      → Coherent s
      → Kept {B = hardware H} {A = ⊤}
          (elim o [ none ↦ (ok tt, s) | some a ↦ (ok tt, moved (f a) s) ])
  moved-Kept none f s c = c
  moved-Kept (some a) f s c = moved-Coherent (f a) s c

  -- A processor that waits does nothing.
  step-Kept :
      (waits : Bool) (m : Exec (Computer H) ⊤)
      → Keeps {B = hardware H} m
      → (s : Computer H) → Coherent s
      → Kept (if waits then (ok tt, s) else m s)
  step-Kept true m h s c = c
  step-Kept false m h s c = h.kept s c

  advance-Keeps : Keeps {B = hardware H} advance
  unfolding advance
  advance-Keeps = record {
    kept = λ s c. elim (Option-cases (Intc.process_pending (hw s).intc)) [
      | inl nothing ↦ rw (nothing, advance) c
      | inr ((i, fires), moved_on) ↦
          rw (moved_on, advance)
            (survived-Kept _ ((deliver-Keeps fires).kept _ (moved-Coherent _ s c)))
    ];
  }

  unless_ended-Kept :
      (ended : Bool) (m : Exec (Computer H) ⊤)
      → Keeps {B = hardware H} m
      → (s : Computer H) → Coherent s
      → Kept {B = hardware H} (unless_ended ended m s)
  unless_ended-Kept true m h s c = c
  unless_ended-Kept false m h s c = h.kept s c

  turn-Kept : IsCalm H → (t : Turn) (s : Computer H) → Coherent s → Kept (turn t s)
  unfolding turn
  turn-Kept calm step s c =
      step-Kept s.waiting _ (decode-Keeps (hardware H) (hardware-IsUncaught calm)) s c
  turn-Kept calm step_controller s c = unless_ended-Kept s.exit_event advance advance-Keeps s c
  turn-Kept calm (tick now) s c = moved-Coherent _ s c
  turn-Kept calm fire_timer s c = moved-Coherent _ s c
  turn-Kept calm (press key) s c = moved-Coherent _ s c
  turn-Kept calm (select_events ready) s c = moved-Kept _ _ s c
  turn-Kept calm fire_event s c = moved-Kept (Internet.fire ((hw s).internet, (hw s).intc)) _ s c
  turn-Kept calm resume_events s c = moved-Kept _ _ s c

  turns-Keeps : IsCalm H → (ts : List Turn) → Keeps {B = hardware H} (turns ts)
  unfolding turns
  turns-Keeps calm [] = pure-Keeps tt
  turns-Keeps calm (t ∷ ts) =
      bind-Keeps (turn t) (λ u. turns ts) (record { kept = turn-Kept calm t })
        (λ u. turns-Keeps calm ts)

  -- The caches are empty in a computer that has just been built.
  pub init-Coherent : (image : List ℕ) (d : Devices H) → Coherent (init image d)
  unfolding init Machine.init
  init-Coherent image d = (tt, omega arith)

  -- From a computer whose cache of reads agrees with memory, under every schedule of the processor and
  -- the threads of the devices that does not end the program, whatever the instructions are, the cache
  -- agrees with memory again: with the MMU off a read of a cell of memory through it is the read
  -- without it. The IDNA codec and the selector of the host must not raise the exceptions that the
  -- processor catches.
  pub turns-ReadsCell :
      (ts : List Turn) (a : ℕ) (mask : Option ℤ) (s t : Computer H)
      → IsCalm H
      → Coherent s
      → turns ts s ≡ (ok tt, t)
      → has_bit mmu_enable t ≡ false
      → IsCell t.memory a
      → Coherent t × ReadsCell a t (get_address (pos a) mask t)
  turns-ReadsCell ts a mask s t calm coherent reached off is_cell =
      let kept : Coherent t = subst Kept reached ((turns-Keeps calm ts).kept s coherent) in
      (kept, get_address-ReadsCell a mask t off is_cell kept)
