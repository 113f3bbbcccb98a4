-- ===== src/Hardware/Internet/Sized/Writes.antt =====
-- The size of the buffer of the network device through the writes to its registers
-- (compyter/hardware/internet.py).
use compyter.Prelude.{
  ℕ, zero, suc, ◌+◌, ◌-◌, ◌≡◌, ◌∙◌, refl, sym, arith, Option, none, some, List, length, length-set,
  get_elem?, set, inl, inr, Bool-cases, Option-cases, leb, ltb, ◌==◌, bit_and, bit_or,
}
use compyter.Prelude.Int.{ℤ, pos, negsuc, ◌-ℤ◌, ◌*ℤ◌}
use compyter.Result.{
  Exception, Result, ok, err, map_ok, or_raise, place, index, index_error, value_error, shift_left,
  bind-eq-ok, ok_injective,
}
use compyter.Exec.{changes}
use compyter.Util.{in_range, mask_table, set_word_byte}
use compyter.Memory.{set_index}
use compyter.Hardware.Internet.Sockets.{Host}
use compyter.Hardware.Internet.Quad.{set_quad_byte}
use compyter.Hardware.Internet.State.{Internet, maxbufsize}
use compyter.Hardware.Internet.{
  reg_addr, reg_ip_ver, reg_ip_proto, reg_handle, reg_params, reg_status, reg_async_op,
  reg_async_handle, reg_bufsize, reg_buffer, command_of, reg_command, wrap_bufsize, store, act,
  set_item,
}
use compyter.Hardware.Internet.Sized.{
  IsSmall, IsSized, IsBounded, Keeps, pure-Keeps, bind-Keeps, if-Keeps,
}
use compyter.Hardware.Internet.Sized.Commands.{changed, run_command-IsSized}

map_ok-eq-ok :
    {A B : Type 0} (f : A → B) (r : Result A) (b : B)
    → map_ok f r ≡ ok b
    → (a : A) × (r ≡ ok a) × (f a ≡ b)
map_ok-eq-ok f (ok a) b h = (a, refl, ok_injective h)
map_ok-eq-ok f (err e) b h = cc

-- The masks are not negative.
mask_pos : (p : ℕ) (m : ℤ) → get_elem? mask_table p ≡ some m → (k : ℕ) × (m ≡ pos k)
mask_pos zero m h = (0x00ffffff, cc)
mask_pos (suc zero) m h = (0xff00ffff, cc)
mask_pos (suc (suc zero)) m h = (0xffff00ff, cc)
mask_pos (suc (suc (suc zero))) m h = (0xffffff00, cc)
mask_pos (suc (suc (suc (suc p)))) m h = cc

or_raise-eq-ok :
    {A : Type 0} (o : Option A) (e : Exception) (a : A) → or_raise o e ≡ ok a → o ≡ some a
or_raise-eq-ok none e a h = cc
or_raise-eq-ok (some b) e a h = cc

index-mask_pos : (i m : ℤ) → index mask_table i ≡ ok m → (k : ℕ) × (m ≡ pos k)
index-mask_pos i m h =
    let (p, _, found) =
      bind-eq-ok (or_raise (place i 4) index_error)
        (λ p. or_raise (get_elem? mask_table p) index_error) m h in
    mask_pos p m (or_raise-eq-ok (get_elem? mask_table p) index_error m found)

shift_left_pos : (v : ℕ) (i w : ℤ) → shift_left (pos v) i ≡ ok w → (k : ℕ) × (w ≡ pos k)
shift_left_pos v (pos i) w h = (_, sym (ok_injective h))
shift_left_pos v (negsuc i) w h = cc

set_word_byte_pos :
    (n v : ℕ) (byte m : ℤ) → set_word_byte (pos n) byte v ≡ ok m → (k : ℕ) × (m ≡ pos k)
unfolding set_word_byte
set_word_byte_pos n v byte m h =
    let shift = λ (k : ℤ). shift_left (pos (bit_and v 0xff)) ((pos 3 -ℤ byte) *ℤ pos 8) in
    let (k, mask, rest) = bind-eq-ok (index mask_table (pos 3 -ℤ byte)) _ m h in
    let (w, shifted, last) = bind-eq-ok (shift k) _ m rest in
    let (a, a_eq) = index-mask_pos (pos 3 -ℤ byte) k mask in
    let (b, b_eq) = shift_left_pos (bit_and v 0xff) ((pos 3 -ℤ byte) *ℤ pos 8) w shifted in
    (bit_or (bit_and a n) b, sym (ok_injective last) ∙ rw (a_eq, b_eq) refl)

wrap_bufsize-IsSmall : (n : ℕ) → IsSmall (wrap_bufsize (pos n))
wrap_bufsize-IsSmall n = elim (Bool-cases (ltb maxbufsize n)) [
  | inl large ↦ rw large (omega arith)
  | inr small ↦ rw small (ground arith)
]

bufsize-IsSmall :
    (m n byte : ℤ) (v : ℕ) → IsSmall m → set_word_byte m byte v ≡ ok n → IsSmall (wrap_bufsize n)
bufsize-IsSmall (pos a) n byte v small h =
    let (k, e) = set_word_byte_pos a v byte n h in rw e (wrap_bufsize-IsSmall k)
bufsize-IsSmall (negsuc a) n byte v small h = absurd small

length-store : (xs ys : List ℕ) (i : ℤ) (v : ℕ) → store xs i v ≡ ok ys → length ys ≡ length xs
length-store xs ys i v h = elim (Bool-cases (leb 256 v)) [
  | inl large ↦ let h' : err value_error ≡ ok ys = rw large at h in cc
  | inr byte ↦
      let h' : set_index xs i v ≡ ok ys = rw byte at h in
      let (p, _, e) =
        map_ok-eq-ok (λ p. set xs p v) (or_raise (place i (length xs)) index_error) ys h' in
      rw (← e) (length-set xs p v)
]

module _ {H : Host} where
  changes-Keeps :
      (f : Internet H → Result (Internet H))
      → ((s t : Internet H) → f s ≡ ok t → IsSized s → IsSized t)
      → Keeps (changes f)
  unfolding changes
  changes-Keeps f k s h = changed_step (f s) s (k s) h
    where
      changed_step :
          (r : Result (Internet H)) (s : Internet H)
          → ((t : Internet H) → r ≡ ok t → IsSized s → IsSized t)
          → IsSized s
          → IsSized (changes (λ _. r) s).1
      changed_step (ok t) s k h = k t refl h
      changed_step (err e) s k h = h

  -- A write to one register of a word.
  register-Keeps :
      (read : Internet H → ℤ) (write : ℤ → Internet H → Internet H) (byte : ℤ) (v : ℕ)
      → ((s : Internet H) (n : ℤ)
          → set_word_byte (read s) byte v ≡ ok n
          → IsSized s
          → IsSized (write n s))
      → Keeps (changes (λ s. map_ok (λ n. write n s) (set_word_byte (read s) byte v)))
  register-Keeps read write byte v k = changes-Keeps _ (λ s t e h.
      let (n, found, made) = map_ok-eq-ok (λ n. write n s) (set_word_byte (read s) byte v) t e in
      rw (← made) (k s n found h))

  store-Keeps :
      (i : ℤ) (v : ℕ)
      → Keeps {H = H} (changes (λ s. map_ok (λ b. record s { buffer = b }) (store s.buffer i v)))
  store-Keeps i v = changes-Keeps _ (λ s t e h.
      let (b, stored, made) =
        map_ok-eq-ok (λ b. record s { buffer = b }) (store s.buffer i v) t e in
      rw (← made) (record {
        small = h.small;
        whole = omega (arith, h.whole, length-store s.buffer b i v stored);
      }))

  act-Keeps : IsBounded H → (item : ℕ) → Keeps (act {H = H} item)
  unfolding act
  act-Keeps bounded item s h = elim (Bool-cases (item == reg_command + 3)) [
    | inl last ↦ elim (Option-cases (command_of s.command)) [
      | inl unknown ↦ rw (last, unknown, act) h
      | inr (c, known) ↦ rw (last, known, act) (run_command-IsSized bounded c s h)
    ]
    | inr other ↦ rw (other, act) h
  ]

  set_item-Keeps : IsBounded H → (item val : ℕ) → Keeps {H = H} (set_item item val)
  unfolding set_item
  set_item-Keeps bounded item val =
      if-Keeps (in_range item reg_addr (reg_addr + 15)) _ _
        (changes-Keeps _ (λ s t e h.
          let (n, _, made) =
            map_ok-eq-ok (λ n. record s { addr = n }) (set_quad_byte s.addr (pos item) val) t e in
          rw (← made) (changed s _ refl refl h)))
        (if-Keeps (in_range item reg_ip_ver (reg_ip_ver + 3)) _ _
          (register-Keeps (λ s. s.ip_ver) (λ n s. record s { ip_ver = n }) _ val
            (λ s n e h. changed s _ refl refl h))
          (if-Keeps (in_range item reg_ip_proto (reg_ip_proto + 3)) _ _
            (register-Keeps (λ s. s.proto) (λ n s. record s { proto = n }) _ val
              (λ s n e h. changed s _ refl refl h))
            (if-Keeps (in_range item reg_handle (reg_handle + 3)) _ _
              (register-Keeps (λ s. s.current_handle) (λ n s. record s { current_handle = n }) _ val
                (λ s n e h. changed s _ refl refl h))
              (if-Keeps (in_range item reg_command (reg_command + 3)) _ _
                (bind-Keeps _ _
                  (register-Keeps (λ s. s.command) (λ n s. record s { command = n }) _ val
                    (λ s n e h. changed s _ refl refl h))
                  (λ _. act-Keeps bounded item))
                (if-Keeps (in_range item reg_params (reg_params + 3)) _ _
                  (register-Keeps (λ s. s.params) (λ n s. record s { params = n }) _ val
                    (λ s n e h. changed s _ refl refl h))
                  (if-Keeps (in_range item reg_status (reg_status + 3)) _ _
                    (register-Keeps (λ s. s.status) (λ n s. record s { status = n }) _ val
                      (λ s n e h. changed s _ refl refl h))
                    (if-Keeps (in_range item reg_async_op (reg_async_op + 3)) _ _
                      (register-Keeps (λ s. s.async_op) (λ n s. record s { async_op = n }) _ val
                        (λ s n e h. changed s _ refl refl h))
                      (if-Keeps (in_range item reg_async_handle (reg_async_handle + 3)) _ _
                        (register-Keeps (λ s. s.async_handle) (λ n s. record s { async_handle = n })
                          _ val (λ s n e h. changed s _ refl refl h))
                        (if-Keeps (in_range item reg_bufsize (reg_bufsize + 3)) _ _
                          (register-Keeps (λ s. s.bufsize)
                            (λ n s. record s { bufsize = wrap_bufsize n }) _ val
                            (λ s n e h. record {
                              small = bufsize-IsSmall s.bufsize n _ val h.small e;
                              whole = h.whole;
                            }))
                          (if-Keeps (in_range item reg_buffer (reg_buffer + (maxbufsize - 1))) _ _
                            (store-Keeps _ val) (pure-Keeps tt)))))))))))

  -- Whatever the program writes to whatever register, `bufsize` stays at most 1024 and the buffer keeps
  -- at least 1024 bytes, through the command that the write runs too, if the host brings no more bytes
  -- than `recv` asks for and no name that is longer than 1024 bytes in IDNA.
  pub set_item-IsSized :
      (item val : ℕ) (s : Internet H) → IsBounded H → IsSized s → IsSized (set_item item val s).1
  set_item-IsSized item val s bounded h = set_item-Keeps bounded item val s h
