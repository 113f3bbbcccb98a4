-- ===== src/Computer/Safe/Devices.antt =====
-- The devices of compyter/hardware/ other than the network device raise nothing that the processor
-- catches when a register is written.
use compyter.Prelude.{ℕ}
use compyter.Hardware.Intc
use compyter.Hardware.Timer
use compyter.Hardware.Keyboard
use compyter.Hardware.Printer
use compyter.Hardware.Storage
use compyter.Hardware.Rtc
use compyter.Hardware.Intc.{Intc}
use compyter.Hardware.Timer.{Timer}
use compyter.Hardware.Keyboard.{Keyboard}
use compyter.Hardware.Printer.{Printer}
use compyter.Hardware.Storage.{Storage}
use compyter.Hardware.Rtc.{Datetime}
use compyter.Computer.Safe.{Safe, safe, set_index-Safe, set_word_byte-Safe}

pub intc-Safe : (item val : ℕ) (s : Intc) → Safe (Intc.set_item item val s)
unfolding Intc.set_item
intc-Safe item val s = search (safe, set_word_byte-Safe) depth 20

pub timer-Safe : (item val : ℕ) (s : Timer) → Safe (Timer.set_item item val s)
unfolding Timer.set_item
timer-Safe item val s = search (safe, set_word_byte-Safe) depth 20

pub keyboard-Safe : (item val : ℕ) (s : Keyboard) → Safe (Keyboard.set_item item val s)
unfolding Keyboard.set_item
keyboard-Safe item val s = search (safe, set_word_byte-Safe) depth 20

pub printer-Safe : (item val : ℕ) (s : Printer) → Safe (Printer.set_item item val s)
unfolding Printer.set_item
printer-Safe item val s = search safe

pub storage-Safe : (item val : ℕ) (s : Storage) → Safe (Storage.set_item item val s)
unfolding Storage.set_item
storage-Safe item val s = search (safe, set_word_byte-Safe, set_index-Safe) depth 20

pub rtc-Safe :
    (current : Datetime) (item val : ℕ) (s : Datetime) → Safe (Rtc.set_item current item val s)
unfolding Rtc.set_item
rtc-Safe current item val s = search safe
