-- ===== src/Hardware/Storage/Blocks.antt =====
-- The window on the image of the disk (compyter/hardware/storage.py).
use compyter.Prelude.{
  ℕ, ◌+◌, ◌%◌, ◌^◌, ◌<◌, ◌≡◌, ◌≢◌, ◌∙◌, sym, refl, arith, true, false, length, set, bit_and,
  if◌then◌else◌,
}
use compyter.Prelude.Int.{pos, ◌+ℤ◌, ◌-ℤ◌}
use compyter.Prelude.Bits.{bit_and_mask}
use compyter.Result.{ok, map_ok, index, ◌>>=◌}
use compyter.Memory.{set_index}
use compyter.Memory.Cells.{index-set_self, index-set_ne, set_index-set}
use compyter.Hardware.Storage.{Storage, get_item, set_item, reg_storage}

-- The place of a byte of the window.
window : (k : ℕ) → pos (reg_storage + k) -ℤ pos reg_storage ≡ pos k
window k = ground arith

get_window :
    (k : ℕ) (s : Storage)
    → k < 512
    → get_item (reg_storage + k) s
      ≡ index s.storage_map (s.offset +ℤ (pos (reg_storage + k) -ℤ pos reg_storage))
unfolding get_item
get_window k s lt = ground arith

set_window :
    (k v : ℕ) (s : Storage)
    → k < 512
    → set_item (reg_storage + k) v s ≡ (
        if s.wrenable
        then map_ok
            (λ m. record s { storage_map = m })
            (set_index s.storage_map
              (s.offset +ℤ (pos (reg_storage + k) -ℤ pos reg_storage))
              (bit_and v 0xff))
        else ok s)
unfolding set_item
set_window k v s lt = ground arith

module _ (o : ℕ) (s : Storage) (offset : s.offset ≡ pos o) where
  get_byte : (k : ℕ) → k < 512 → get_item (reg_storage + k) s ≡ index s.storage_map (pos (o + k))
  get_byte k lt = get_window k s lt ∙ rw (offset, window k) refl

  set_byte :
      (k v : ℕ)
      → k < 512
      → o + k < length s.storage_map
      → s.wrenable ≡ true
      → set_item (reg_storage + k) v s
        ≡ ok (record s { storage_map = set s.storage_map (o + k) (v % 2 ^ 8) })
  set_byte k v lt inside on =
      set_window k v s lt
      ∙ rw
          (
            on,
            offset,
            window k,
            bit_and_mask 8 v,
            set_index-set s.storage_map (o + k) (v % 2 ^ 8) inside,
          )
          refl

-- The window on the disk. A write inside the image while writing is enabled is read back as its low
-- byte, and leaves every other byte of the window as it was; while writing is disabled it succeeds
-- and changes nothing.
pub set_item-get_item_window :
    (o j k v : ℕ) (s : Storage)
    → s.offset ≡ pos o
    → j < 512
    → k < 512
    → j ≢ k
    → o + k < length s.storage_map
    → ((set_item (reg_storage + k) v (record s { wrenable = true }) >>= λ s'.
          get_item (reg_storage + k) s')
        ≡ ok (v % 2 ^ 8))
      × ((set_item (reg_storage + k) v (record s { wrenable = true }) >>= λ s'.
            get_item (reg_storage + j) s')
          ≡ get_item (reg_storage + j) s)
      × (set_item (reg_storage + k) v (record s { wrenable = false })
          ≡ ok (record s { wrenable = false }))
set_item-get_item_window o j k v s offset lt_j lt_k ne inside =
    let on = record s { wrenable = true } in
    let s' = record on { storage_map = set s.storage_map (o + k) (v % 2 ^ 8) } in
    (
      rw (set_byte o on offset k v lt_k inside refl)
          (get_byte o s' offset k lt_k ∙ index-set_self s.storage_map (o + k) (v % 2 ^ 8) inside),
      rw (set_byte o on offset k v lt_k inside refl) (
          get_byte o s' offset j lt_j
          ∙ index-set_ne s.storage_map (o + k) (o + j) (v % 2 ^ 8) (λ e. ne (omega (arith, e)))
          ∙ sym (get_byte o s offset j lt_j)),
      set_window k v (record s { wrenable = false }) lt_k,
    )
