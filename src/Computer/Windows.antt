-- ===== src/Computer/Windows.antt =====
-- The windows of the devices of compyter/machine.py in the memory of the processor.
use mathlib.Core.Path.{subst}
use compyter.Prelude.{
  ℕ, ◌+◌, ◌≤◌, ◌<◌, ◌≡◌, ◌∙◌, refl, arith, Bool, true, false, none, some, List, [], ◌∷◌, ◌&&◌, leb,
  if◌then◌else◌,
}
use compyter.Memory
use compyter.Prelude.Int.{pos}
use compyter.Result.{map_ok}
use compyter.Memory.{Memory, load_file, attach_hardware, trap_base}
use compyter.Memory.Attach.{attach_hardware-window, access}
use compyter.Machine
use compyter.Hardware.Internet.Sockets.{Host}
use compyter.Computer.{
  Device, intc, timer, keyboard, printer, storage, internet, rtc, Devices, addr_begin, addr_end,
  hardware, attach_all, init, get_item, set_item,
}

-- An address is in the window of a device, or in none of the windows of several.
abbrev pub is_in : Device → ℕ → Bool
is_in d a = leb (addr_begin d) a && leb a (addr_end d)

abbrev pub not_in : List Device → ℕ → Bool
not_in [] a = true
not_in (d ∷ ds) a = if is_in d a then false else not_in ds a

-- The windows end below the trap vectors.
below_traps : (d : Device) → addr_end d < trap_base
below_traps intc = omega arith
below_traps timer = omega arith
below_traps keyboard = omega arith
below_traps printer = omega arith
below_traps storage = omega arith
below_traps internet = omega arith
below_traps rtc = omega arith

module _ {H : Host} where
  attached : List Device → Memory (hardware H) → Memory (hardware H)
  attached [] m = m
  attached (d ∷ ds) m = attached ds (attach_hardware {B = hardware H} d m)

  -- Devices leave the addresses that are not in their windows alone.
  attached-elsewhere :
      (ds : List Device) (m : Memory (hardware H)) (a : ℕ)
      → not_in ds a ≡ true
      → (attached ds m).hardware_mmio a ≡ m.hardware_mmio a
  unfolding attached
  attached-elsewhere [] m a h = refl
  attached-elsewhere (d ∷ ds) m a h =
      attached-elsewhere ds (attach_hardware {B = hardware H} d m) a (ground arith)
      ∙ attach_hardware-window {B = hardware H} d m a
      ∙ ground arith

  -- An attached device has its window, when the devices that are attached after it are elsewhere.
  attached-window :
      (ds : List Device) (d : Device) (m : Memory (hardware H)) (a : ℕ)
      → is_in d a ≡ true
      → not_in ds a ≡ true
      → (attached ds (attach_hardware {B = hardware H} d m)).hardware_mmio a ≡ some d
  attached-window ds d m a h later =
      attached-elsewhere ds (attach_hardware {B = hardware H} d m) a later
      ∙ attach_hardware-window {B = hardware H} d m a
      ∙ rw h refl

  -- The window of a device is that device's, in the computer that is built from an image.
  init-window :
      (image : List ℕ) (hw : Devices H) (d : Device) (a : ℕ)
      → is_in d a ≡ true
      → (init image hw).memory.hardware_mmio a ≡ some d
  unfolding init attach_all Machine.init attached
  init-window image hw intc a h =
      attached-window (timer ∷ keyboard ∷ printer ∷ storage ∷ internet ∷ rtc ∷ []) intc
        (Memory.init (load_file image) hw) a h (ground arith)
  init-window image hw timer a h =
      attached-window (keyboard ∷ printer ∷ storage ∷ internet ∷ rtc ∷ []) timer
        (attached (intc ∷ []) (Memory.init (load_file image) hw)) a h (ground arith)
  init-window image hw keyboard a h =
      attached-window (printer ∷ storage ∷ internet ∷ rtc ∷ []) keyboard
        (attached (intc ∷ timer ∷ []) (Memory.init (load_file image) hw)) a h (ground arith)
  init-window image hw printer a h =
      attached-window (storage ∷ internet ∷ rtc ∷ []) printer
        (attached (intc ∷ timer ∷ keyboard ∷ []) (Memory.init (load_file image) hw)) a h
        (ground arith)
  init-window image hw storage a h =
      attached-window (internet ∷ rtc ∷ []) storage
        (attached (intc ∷ timer ∷ keyboard ∷ printer ∷ []) (Memory.init (load_file image) hw)) a h
        (ground arith)
  init-window image hw internet a h =
      attached-window (rtc ∷ []) internet
        (attached (intc ∷ timer ∷ keyboard ∷ printer ∷ storage ∷ [])
          (Memory.init (load_file image) hw))
        a h (ground arith)
  init-window image hw rtc a h =
      attached-window [] rtc
        (attached (intc ∷ timer ∷ keyboard ∷ printer ∷ storage ∷ internet ∷ [])
          (Memory.init (load_file image) hw))
        a h refl

  -- An address outside the windows belongs to no device.
  pub init-elsewhere :
      (image : List ℕ) (hw : Devices H) (a : ℕ)
      → not_in (intc ∷ timer ∷ keyboard ∷ printer ∷ storage ∷ internet ∷ rtc ∷ []) a ≡ true
      → (init image hw).memory.hardware_mmio a ≡ none
  unfolding init attach_all Machine.init attached Memory.init
  init-elsewhere image hw a h =
      attached-elsewhere (intc ∷ timer ∷ keyboard ∷ printer ∷ storage ∷ internet ∷ rtc ∷ [])
        (Memory.init (load_file image) hw) a h

  init-hardware : (image : List ℕ) (hw : Devices H) → (init image hw).memory.hardware ≡ hw
  unfolding init attach_all Machine.init attach_hardware Memory.init
  init-hardware image hw = refl

  -- In the computer that is built from an image, a read of the byte `k` of the window of a device, and a
  -- write to it, reach that device, at its own place `k`: no window hides a part of another, although a
  -- device that is attached later would win, and none lies among the trap vectors. A write changes
  -- nothing of the memory but the devices.
  pub init-access :
      (image : List ℕ) (hw : Devices H) (d : Device) (k v : ℕ)
      → addr_begin d + k ≤ addr_end d
      → (Memory.get_item ((init image hw).memory) (pos (addr_begin d + k)) ≡ get_item d k hw)
        × (Memory.set_item ((init image hw).memory) (pos (addr_begin d + k)) v
            ≡ map_ok (λ h. record ((init image hw).memory) { hardware = h }) (set_item d k v hw))
  init-access image hw d k v inside =
      let a = addr_begin d + k in
      let low : leb trap_base a ≡ false = ground (arith, below_traps d) in
      subst
        (λ devices.
          (Memory.get_item ((init image hw).memory) (pos a) ≡ get_item d k devices)
          × (Memory.set_item ((init image hw).memory) (pos a) v
              ≡ map_ok (λ h. record ((init image hw).memory) { hardware = h })
                  (set_item d k v devices)))
        (init-hardware image hw)
        (access {B = hardware H} ((init image hw).memory) d a k v
          (init-window image hw d a (ground arith)) low (omega arith))
