-- ===== src/Computer/Image.antt =====
-- The image of a program in the memory of the computer that is built from it (`load_file` of
-- compyter/memory.py and `__init__` of compyter/machine.py).
use compyter.Prelude.{
  ℕ, ◌<◌, ◌≡◌, ◌∙◌, ap, refl, arith, true, false, List, [], ◌∷◌, leb, get_elem?, none,
}
use compyter.Prelude.Int.{pos}
use compyter.Result.{or_raise, index_error}
use compyter.Memory
use compyter.Memory.{trap_base, load_file, attach_hardware}
use compyter.Memory.Attach.{image_byte, get_elem?-load_file, index-get_elem?}
use compyter.Machine
use compyter.Hardware.Internet.Sockets.{Host}
use compyter.Computer.{
  Devices, attach_all, init, intc, timer, keyboard, printer, storage, internet, rtc,
}
use compyter.Computer.Windows.{not_in, init-elsewhere}

module _ {H : Host} where
  init-memory :
      (image : List ℕ) (hw : Devices H) → ((init image hw).memory).memory ≡ load_file image
  unfolding init attach_all Machine.init attach_hardware Memory.init
  init-memory image hw = refl

  -- In the computer that is built from a file, a read of an address below the trap vectors and outside
  -- the windows of the devices is the byte of the file at that address, behind the end of the file 0 up
  -- to 4096 bytes, and an IndexError at every later address: a longer file gets no bytes more.
  pub init-read :
      (image : List ℕ) (hw : Devices H) (a : ℕ)
      → a < trap_base
      → not_in (intc ∷ timer ∷ keyboard ∷ printer ∷ storage ∷ internet ∷ rtc ∷ []) a ≡ true
      → Memory.get_item ((init image hw).memory) (pos a) ≡ or_raise (image_byte image a) index_error
  unfolding Memory.get_item
  init-read image hw a below outside =
      let low : leb trap_base a ≡ false = ground (arith, below) in
      let free : (init image hw).memory.hardware_mmio a ≡ none =
        init-elsewhere image hw a outside in
      rw (low, free) (index-get_elem? ((init image hw).memory).memory a)
      ∙ ap (λ xs. or_raise (get_elem? xs a) index_error) (init-memory image hw)
      ∙ ap (λ o. or_raise o index_error) (get_elem?-load_file image a)
