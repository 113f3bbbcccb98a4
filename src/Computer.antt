-- ===== src/Computer.antt =====
-- compyter/machine.py: the processor, the memory and the seven devices together, and the turns that the
-- processor and the threads of the devices take. compyter/run.py runs it on the file `image`.
pub mod Windows
pub mod Image
pub mod Delivery
pub mod Safe
pub mod Coherence
pub mod Uncaught
use compyter.Prelude.{
  ℕ, zero, suc, Bool, true, false, Option, none, some, List, [], ◌∷◌, if◌then◌else◌,
}
use compyter.Prelude.Int.{ℤ}
use compyter.Result.{Result, ok, err, map_ok}
use compyter.Exec.{⊤, Exec, pure, modify, ◌>>=◌, ◌>>◌, when}
use compyter.Memory
use compyter.Memory.{Bus, Memory, load_file, attach_hardware}
use compyter.Machine
use compyter.Machine.{Machine}
use compyter.Register.{has_bit, intr as intr_bit}
use compyter.Cpu.{cpu_intr}
use compyter.Cpu.Decode.{decode_next_instr}
use compyter.Hardware.Intc
use compyter.Hardware.Timer
use compyter.Hardware.Keyboard
use compyter.Hardware.Printer
use compyter.Hardware.Storage
use compyter.Hardware.Rtc
use compyter.Hardware.Internet
use compyter.Hardware.Intc.{Intc}
use compyter.Hardware.Timer.{Timer}
use compyter.Hardware.Keyboard.{Keyboard}
use compyter.Hardware.Printer.{Printer}
use compyter.Hardware.Storage.{Storage}
use compyter.Hardware.Rtc.{Datetime}
use compyter.Hardware.Internet.Sockets.{Host}
use compyter.Hardware.Internet.State
use compyter.Hardware.Internet.State.{Internet}

pub data Device : Type 0 where
  intc timer keyboard printer storage internet rtc : Device

-- `current` is what `datetime.now()` gives at the moment.
pub record Devices (H : Host) : Type 0 where
  pub intc : Intc
  pub timer : Timer
  pub keyboard : Keyboard
  pub printer : Printer
  pub storage : Storage
  pub internet : Internet H
  pub rtc : Datetime
  pub current : Datetime

abbrev pub addr_begin : Device → ℕ
addr_begin intc = Intc.addr_begin
addr_begin timer = Timer.addr_begin
addr_begin keyboard = Keyboard.addr_begin
addr_begin printer = Printer.addr_begin
addr_begin storage = Storage.addr_begin
addr_begin internet = Internet.addr_begin
addr_begin rtc = Rtc.addr_begin

abbrev pub addr_end : Device → ℕ
addr_end intc = Intc.addr_end
addr_end timer = Timer.addr_end
addr_end keyboard = Keyboard.addr_end
addr_end printer = Printer.addr_end
addr_end storage = Storage.addr_end
addr_end internet = Internet.addr_end
addr_end rtc = Rtc.addr_end

-- What a method leaves, unless it raises: no code catches what the devices raise, so the program ends.
abbrev pub left : {S : Type 0} → Result ⊤ × S → Result S
left (ok _, s) = ok s
left (err e, s) = err e

module _ {H : Host} where
  unfoldable pub get_item : Device → ℕ → Devices H → Result ℕ
  get_item intc item s = Intc.get_item item s.intc
  get_item timer item s = Timer.get_item item s.timer
  get_item keyboard item s = Keyboard.get_item item s.keyboard
  get_item printer item s = Printer.get_item item s.printer
  get_item storage item s = Storage.get_item item s.storage
  get_item internet item s = Internet.get_item item s.internet
  get_item rtc item s = Rtc.get_item item s.rtc

  unfoldable pub set_item : Device → ℕ → ℕ → Devices H → Result (Devices H)
  set_item intc item val s = map_ok (λ d. record s { intc = d }) (Intc.set_item item val s.intc)
  set_item timer item val s = map_ok (λ d. record s { timer = d }) (Timer.set_item item val s.timer)
  set_item keyboard item val s =
      map_ok (λ d. record s { keyboard = d }) (Keyboard.set_item item val s.keyboard)
  set_item printer item val s =
      map_ok (λ d. record s { printer = d }) (Printer.set_item item val s.printer)
  set_item storage item val s =
      map_ok (λ d. record s { storage = d }) (Storage.set_item item val s.storage)
  set_item internet item val s =
      map_ok (λ d. record s { internet = d }) (left (Internet.set_item item val s.internet))
  set_item rtc item val s =
      map_ok (λ d. record s { rtc = d }) (Rtc.set_item s.current item val s.rtc)

abbrev pub hardware : Host → Bus
hardware H = record {
  Device = Device;
  State = Devices H;
  addr_begin = addr_begin;
  addr_end = addr_end;
  get_item = get_item;
  set_item = set_item;
}

abbrev pub Computer : Host → Type 0
Computer H = Machine (hardware H)

-- One turn of the processor, one step of the thread of the controller, one turn of the thread of another
-- device, or the clock of the host going on.
pub data Turn : Type 0 where
  step step_controller fire_timer fire_event resume_events : Turn
  press : ℕ → Turn
  tick : Datetime → Turn
  select_events : List (ℤ × ℕ) → Turn

module _ {H : Host} where
  -- The devices, with the bytes of the disk, the host and the time.
  unfoldable pub devices : List ℕ → H.World → Datetime → Devices H
  devices disk world now = record {
    intc = Intc.init;
    timer = Timer.init;
    keyboard = Keyboard.init;
    printer = Printer.init;
    storage = Storage.init disk;
    internet = State.init world;
    rtc = now;
    current = now;
  }

  unfoldable pub attach_all : Memory (hardware H) → Memory (hardware H)
  unfolding attach_hardware
  attach_all m =
      let m = attach_hardware {B = hardware H} intc m in
      let m = attach_hardware {B = hardware H} timer m in
      let m = attach_hardware {B = hardware H} keyboard m in
      let m = attach_hardware {B = hardware H} printer m in
      let m = attach_hardware {B = hardware H} storage m in
      let m = attach_hardware {B = hardware H} internet m in attach_hardware {B = hardware H} rtc m

  -- `Machine.__init__`, with the bytes of the image.
  unfoldable pub init : List ℕ → Devices H → Computer H
  unfolding attach_all devices
  init image hw = Machine.init (attach_all (Memory.init (load_file image) hw))

  -- A change of the devices that is not made through memory.
  abbrev pub with_devices : (Devices H → Devices H) → Computer H → Computer H
  with_devices f s = record s { memory = record s.memory { hardware = f s.memory.hardware } }

  abbrev pub hw : Computer H → Devices H
  hw s = s.memory.hardware

  -- A trap sets `trap_event` before it waits for the lock, so it wakes a processor that sleeps in `wait`.
  unfoldable pub wake : Computer H → Computer H
  wake s = if has_bit intr_bit s then record s { waiting = false } else s

  -- An exception in a thread ends that thread alone.
  abbrev pub survived : Result ⊤ × Computer H → Result ⊤ × Computer H
  survived (r, s) = (ok tt, s)

  -- A step of the thread of the controller.
  unfoldable pub advance : Exec (Computer H) ⊤
  unfolding wake
  advance s = elim (Intc.process_pending (hw s).intc) [
    | none ↦ (ok tt, s)
    | some (c, fires) ↦
        survived
          (when fires (do modify wake; cpu_intr) (with_devices (λ d. record d { intc = c }) s))
  ]

  -- What the thread of the controller raises comes from `halt`, which sets `exit_event` first, so the
  -- event says that the thread has ended.
  abbrev pub unless_ended : Bool → Exec (Computer H) ⊤ → Exec (Computer H) ⊤
  unless_ended true m s = (ok tt, s)
  unless_ended false m s = m s

  unfoldable pub turn : Turn → Exec (Computer H) ⊤
  unfolding advance
  turn step s = if s.waiting then (ok tt, s) else decode_next_instr s
  turn step_controller s = unless_ended s.exit_event advance s
  turn (tick now) s = (ok tt, with_devices (λ d. record d { current = now }) s)
  turn fire_timer s = (ok tt, with_devices (λ d. record d { intc = Timer.timer d.timer d.intc }) s)
  turn (press c) s =
      let (k, i) = Keyboard.input c ((hw s).keyboard, (hw s).intc) in
      (ok tt, with_devices (λ d. record d { keyboard = k; intc = i }) s)
  turn (select_events ready) s = elim (Internet.select ready (hw s).internet) [
    | none ↦ (ok tt, s)
    | some n ↦ (ok tt, with_devices (λ d. record d { internet = n }) s)
  ]
  turn fire_event s = elim (Internet.fire ((hw s).internet, (hw s).intc)) [
    | none ↦ (ok tt, s)
    | some (n, i) ↦ (ok tt, with_devices (λ d. record d { internet = n; intc = i }) s)
  ]
  turn resume_events s = elim (Internet.resume (hw s).internet) [
    | none ↦ (ok tt, s)
    | some n ↦ (ok tt, with_devices (λ d. record d { internet = n }) s)
  ]

  -- The turns of a schedule; `run` is the schedule of the processor alone.
  unfoldable pub turns : List Turn → Exec (Computer H) ⊤
  turns [] = pure tt
  turns (t ∷ ts) = do turn t; turns ts
