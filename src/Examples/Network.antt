-- ===== src/Examples/Network.antt =====
-- The theorems on the network device, applied.
use compyter.Prelude.{
  ℕ, ◌+◌, ◌-◌, ◌*◌, ◌^◌, ◌%◌, ◌≤◌, ◌≡◌, refl, arith, false, none, some, List, [], ◌∷◌, ◌++◌, length,
  length-take-le, length-replicate, replicate, set, take,
}
use compyter.Prelude.Int.{pos}
use compyter.Result.{Result, ok, err, index_error, ok_injective}
use compyter.Hardware.Intc
use compyter.Hardware.Intc.{Intc}
use compyter.Hardware.Internet.Sockets.{Host, Outcome, value, os_error, af_inet, ipv4}
use compyter.Hardware.Internet.Quad.{set_quad_byte, get_quad_byte}
use compyter.Hardware.Internet.Quad.Bytes.{with_byte, set_quad_byte-get_quad_byte}
use compyter.Hardware.Internet.State.{Internet, init, maxbufsize}
use compyter.Hardware.Internet.{bind, reg_buffer, reg_bufsize, get_item, set_item, select, int_num}
use compyter.Hardware.Internet.Buffer.{set_item-get_item_shifted}
use compyter.Hardware.Internet.Async.{handles, handle_all, handle_all-events}
use compyter.Hardware.Internet.Sized.{IsSized, IsBounded}
use compyter.Hardware.Internet.Sized.Writes.{set_item-IsSized}

-- A host that counts its calls: sockets are numbers, `recv` brings seven bytes at most, and every
-- address is in use.
abbrev pub counting : Host
counting = record {
  World = ℕ;
  Socket = ℕ;
  fileno = λ sock. pos sock;
  family = λ _. af_inet;
  socket = λ _ _ w. (value w, w + 1);
  bind = λ _ _ _ w. (os_error (pos 98) (some (b'u' ∷ b's' ∷ b'e' ∷ b'd' ∷ [])), w + 1);
  connect = λ _ _ _ w. (os_error (pos 111) none, w + 1);
  listen = λ _ _ w. (value tt, w + 1);
  accept = λ _ w. (value (w, ipv4 0x7f000001, 1024), w + 1);
  close = λ _ w. (value tt, w + 1);
  recv = λ _ n _ w. (value (take n (1 ∷ 2 ∷ 3 ∷ 4 ∷ 5 ∷ 6 ∷ 7 ∷ [])), w + 1);
  send = λ _ bytes _ w. (value (length bytes), w + 1);
  recvfrom = λ _ n _ w. (value (take n (1 ∷ [])), w + 1);
  sendto = λ _ bytes _ _ _ w. (value (length bytes), w + 1);
  getnameinfo = λ host w. (value host, w + 1);
  encode_idna = λ text. ok text;
  setblocking = λ _ _ w. (value tt, w + 1);
  register = λ _ _ w. (ok tt, w + 1);
  unregister = λ _ w. (ok tt, w + 1);
  message = λ why. b'?' ∷ [];
}

took :
    (n : ℕ) (all bytes : List ℕ)
    → ◌≡◌ {A = Outcome (List ℕ)} (value (take n all)) (value bytes)
    → length bytes ≤ n
took n all bytes h = let e : take n all ≡ bytes = cc in rw (← e) (length-take-le n all)

kept :
    (text bytes : List ℕ)
    → ◌≡◌ {A = Result (List ℕ)} (ok (take maxbufsize text)) (ok bytes)
    → length bytes ≤ maxbufsize
kept text bytes h = rw (← ok_injective h) (length-take-le maxbufsize text)

counting-IsBounded : IsBounded counting
counting-IsBounded = record {
  recv_le = λ sock n oob w bytes h. took n _ bytes h;
  idna_le = λ host name bytes w found h. kept name bytes h;
}

-- The device with an open socket, whose handle is 3.
abbrev opened : Internet counting
opened = record (init 4) { sockets = λ h. some 3; current_handle = pos 3 }

opened_size : length opened.buffer ≡ 1024
unfolding init
opened_size = length-replicate {A = ℕ} 1024 0

set_item-get_item_shifted_example :
    (set_item (reg_buffer + (2 + 4)) 9 opened
      ≡ (ok tt, record opened { buffer = set opened.buffer (2 + 4) 9 }))
    × (get_item (reg_buffer + 2) (record opened { buffer = set opened.buffer (2 + 4) 9 }) ≡ ok 9)
    × (get_item (reg_buffer + 1023) opened ≡ err index_error)
set_item-get_item_shifted_example =
    set_item-get_item_shifted 2 9 1023 opened opened_size (omega arith) (omega arith) (omega arith)
      (omega arith)

set_quad_byte-get_quad_byte_example :
    (set_quad_byte (pos (with_byte (8 * (15 - 14)) 5 7 1)) (pos 14) 0x2ff
      ≡ ok (pos (with_byte (8 * (15 - 14)) 5 (0x2ff % 2 ^ 8) 1)))
    × (get_quad_byte (pos (with_byte (8 * (15 - 14)) 5 7 1)) (pos 14) ≡ ok 7)
set_quad_byte-get_quad_byte_example =
    set_quad_byte-get_quad_byte 14 5 7 1 0x2ff (omega arith) (omega arith) (omega arith)
      (omega arith)

-- Two sockets are ready.
abbrev ready_two : Internet counting
ready_two = record opened { events = (pos 3, 1) ∷ (pos 5, 2) ∷ [] }

not_waiting : ready_two.waiting ≡ false
unfolding init
not_waiting = refl

handle_all-events_example :
    (t : Internet counting) × (intc' : Intc) × (handle_all
        (length ready_two.events)
        (ready_two, Intc.init)
      ≡ some (handles ready_two.events, t, intc'))
    × (intc'.pending ≡ Intc.init.pending ++ replicate (length ready_two.events) int_num)
    × (select [] t ≡ some (record t { events = [] }))
handle_all-events_example = handle_all-events ready_two Intc.init [] not_waiting

opened-IsSized : IsSized opened
unfolding init
opened-IsSized = record {
  small = omega arith;
  whole = omega (arith, length-replicate {A = ℕ} 1024 0);
}

set_item-IsSized_example : IsSized (set_item (reg_bufsize + 2) 0xff opened).1
set_item-IsSized_example =
    set_item-IsSized (reg_bufsize + 2) 0xff opened counting-IsBounded opened-IsSized
