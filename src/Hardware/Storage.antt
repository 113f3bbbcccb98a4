-- ===== src/Hardware/Storage.antt =====
-- compyter/hardware/storage.py: a window of 512 bytes on the image of a disk.
pub mod Blocks
use compyter.Prelude.{ℕ, ◌+◌, Bool, true, false, List, ◌==◌, length, bit_and, if◌then◌else◌}
use compyter.Prelude.Int.{ℤ, pos, ◌+ℤ◌, ◌-ℤ◌}
use compyter.Result.{Result, ok, map_ok, index}
use compyter.Util.{in_range, set_word_byte, get_word_byte}
use compyter.Memory.{set_index}

abbrev pub addr_begin : ℕ
addr_begin = 0xffffedb0

abbrev pub addr_end : ℕ
addr_end = 0xffffefbf

abbrev pub reg_offset : ℕ
reg_offset = 0x0

abbrev pub reg_wrenable : ℕ
reg_wrenable = 0x4

abbrev pub reg_size : ℕ
reg_size = 0x8

abbrev pub reg_storage : ℕ
reg_storage = 0x10

pub record Storage : Type 0 where
  pub offset : ℤ
  pub wrenable : Bool
  pub storage_map : List ℕ
  pub storage_size : ℕ

-- With the bytes of the image.
unfoldable pub init : List ℕ → Storage
init image = record {
  offset = pos 0;
  wrenable = true;
  storage_map = image;
  storage_size = length image;
}

unfoldable pub get_item : ℕ → Storage → Result ℕ
get_item item s =
    if in_range item reg_offset (reg_offset + 3)
    then get_word_byte s.offset (pos item)
    else if in_range item reg_wrenable (reg_wrenable + 3)
    then get_word_byte (pos (if s.wrenable then 1 else 0)) (pos item -ℤ pos reg_wrenable)
    else if in_range item reg_size (reg_size + 3)
    then get_word_byte (pos s.storage_size) (pos item -ℤ pos reg_size)
    else if in_range item reg_storage (reg_storage + 511)
    then index s.storage_map (s.offset +ℤ (pos item -ℤ pos reg_storage))
    else ok 0

unfoldable pub set_item : ℕ → ℕ → Storage → Result Storage
set_item item val s =
    if in_range item reg_offset (reg_offset + 3)
    then map_ok (λ n. record s { offset = n }) (set_word_byte s.offset (pos item) val)
    else if in_range item reg_wrenable (reg_wrenable + 3)
    then ok (record s { wrenable = if val == 0 then false else true })
    else if in_range item reg_storage (reg_storage + 511)
    then (if s.wrenable
        then map_ok (λ m. record s { storage_map = m })
            (set_index s.storage_map (s.offset +ℤ (pos item -ℤ pos reg_storage)) (bit_and val 0xff))
        else ok s)
    else ok s
