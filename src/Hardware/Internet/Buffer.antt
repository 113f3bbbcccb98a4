-- ===== src/Hardware/Internet/Buffer.antt =====
-- The buffer of the network device (compyter/hardware/internet.py) as a program
-- sees it through memory.
use compyter.Prelude.{
  ℕ, ◌+◌, ◌≤◌, ◌<◌, ◌≡◌, ◌∙◌, refl, ap, arith, List, length, set, leb, ltb, false,
}
use compyter.Prelude.Int.{pos, ◌-ℤ◌}
use compyter.Result.{ok, err, index_error, map_ok, index}
use compyter.Exec.{changes, changes-eq-ok}
use compyter.Memory.Cells.{index-set_self, set_index-set}
use compyter.Hardware.Internet.Sockets.{Host}
use compyter.Hardware.Internet.State.{Internet}
use compyter.Hardware.Internet.{reg_buffer, reg_bufsize, store, get_item, set_item}

get_place : (k : ℕ) → pos (reg_buffer + k) -ℤ pos reg_bufsize ≡ pos (k + 4)
get_place k = ground arith

set_place : (k : ℕ) → pos (reg_buffer + k) -ℤ pos reg_buffer ≡ pos k
set_place k = ground arith

index_past : (xs : List ℕ) (i : ℕ) → length xs ≤ i → index xs (pos i) ≡ err index_error
index_past xs i h = let test : ltb i (length xs) ≡ false = ground arith in rw test refl

store-set : (xs : List ℕ) (i v : ℕ) → i < length xs → v < 256 → store xs (pos i) v ≡ ok (set xs i v)
store-set xs i v h small =
    let test : leb 256 v ≡ false = ground arith in rw (test, set_index-set xs i v h) refl

module _ {H : Host} where
  read_place :
      (k : ℕ) (s : Internet H)
      → k < 1024
      → get_item (reg_buffer + k) s ≡ index s.buffer (pos (reg_buffer + k) -ℤ pos reg_bufsize)
  unfolding get_item
  read_place k s h = ground arith

  write_place :
      (k v : ℕ) (s : Internet H)
      → k < 1024
      → set_item (reg_buffer + k) v s
        ≡ changes
            (λ t.
              map_ok
                (λ b. record t { buffer = b })
                (store t.buffer (pos (reg_buffer + k) -ℤ pos reg_buffer) v))
            s
  unfolding set_item
  write_place k v s h = ground arith

  -- The window on the buffer shows it shifted by four: a byte that is written at the place `k + 4` of
  -- the window is stored there in a buffer of 1024 bytes, and read back at the place `k`; and the last
  -- four places of the window raise an IndexError when they are read.
  pub set_item-get_item_shifted :
      (k v m : ℕ) (s : Internet H)
      → length s.buffer ≡ 1024
      → k < 1020
      → v < 256
      → 1020 ≤ m
      → m < 1024
      → (set_item (reg_buffer + (k + 4)) v s
          ≡ (ok tt, record s { buffer = set s.buffer (k + 4) v }))
        × (get_item (reg_buffer + k) (record s { buffer = set s.buffer (k + 4) v }) ≡ ok v)
        × (get_item (reg_buffer + m) s ≡ err index_error)
  set_item-get_item_shifted k v m s size lt small last inside =
      let t = record s { buffer = set s.buffer (k + 4) v } in
      let there : k + 4 < length s.buffer = omega (arith, size) in
      let past : length s.buffer ≤ m + 4 = omega (arith, size) in
      (
        write_place (k + 4) v s (omega arith)
            ∙ changes-eq-ok
                (λ u.
                  map_ok (λ b. record u { buffer = b })
                    (store u.buffer (pos (reg_buffer + (k + 4)) -ℤ pos reg_buffer) v))
                s t
                (rw (set_place (k + 4)) (
                  ap (map_ok (λ b. record s { buffer = b }))
                    (store-set s.buffer (k + 4) v there small))),
        read_place k t (omega arith) ∙ rw (get_place k) (index-set_self s.buffer (k + 4) v there),
        read_place m s inside ∙ rw (get_place m) (index_past s.buffer (m + 4) past),
      )
