-- ===== src/Examples/Whole.antt =====
-- The theorems on the whole computer, applied.
use compyter.Prelude.{true, if◌then◌else◌, ◌≡◌, refl, arith, some, none, [], ◌∷◌, replicate}
use compyter.Prelude.Int.{pos, eqb_ℤ}
use compyter.Result.{ok, map_ok}
use compyter.Memory
use compyter.Machine
use compyter.Machine.{put}
use compyter.Register.{reg_status}
use compyter.Cpu.Interrupts.{interrupted}
use compyter.Hardware.Intc
use compyter.Hardware.Timer
use compyter.Hardware.Rtc.{Datetime}
use compyter.Examples.Network.{counting}
use compyter.Computer.{
  Devices, devices, Computer, init, timer, get_item, set_item, with_devices, wake, turns,
  fire_timer,
}
use compyter.Computer.Windows.{init-access}
use compyter.Computer.Image.{init-read}
use compyter.Computer.Delivery.{handed, thread_steps, timer-interrupted}

abbrev noon : Datetime
noon = record {
  year = 2024;
  month = 2;
  day = 29;
  hour = 12;
  minute = 0;
  second = 0;
  microsecond = 0;
}

abbrev pub fresh : Devices counting
fresh = devices (replicate 16 0) 4 noon

-- The low byte of the timer's register.
init-access_example :
    (Memory.get_item ((init (25 ∷ []) fresh).memory) (pos 0xffffefcc) ≡ get_item timer 3 fresh)
    × (Memory.set_item ((init (25 ∷ []) fresh).memory) (pos 0xffffefcc) 10
        ≡ map_ok
            (λ h. record ((init (25 ∷ []) fresh).memory) { hardware = h })
            (set_item timer 3 10 fresh))
init-access_example = init-access (25 ∷ []) fresh timer 3 10 (omega arith)

-- The second byte of an image of one byte.
init-read_example : Memory.get_item ((init (25 ∷ []) fresh).memory) (pos 1) ≡ ok 0
init-read_example = init-read (25 ∷ []) fresh 1 (omega arith) refl

-- A computer with a timer of ten milliseconds, whose handler is at 0x100.
abbrev timed : Computer counting
timed = put reg_status (pos 1) (
    with_devices
      (λ d. record d {
        timer = record { duration = pos 10 };
        intc = record (Intc.init) {
          unmasked = true;
          interrupts = λ n. if eqb_ℤ n Timer.int_num then some (pos 0x100) else none;
        };
      })
      (init (25 ∷ []) fresh))

timer-interrupted_example :
    turns (fire_timer ∷ thread_steps 5) timed
    ≡ (ok tt, interrupted (wake (handed (pos 0x100) timed)))
unfolding Intc.init init Machine.init
timer-interrupted_example =
    timer-interrupted (pos 0x100) 1 timed refl refl refl refl refl refl refl refl
