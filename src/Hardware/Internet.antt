-- ===== src/Hardware/Internet.antt =====
-- compyter/hardware/internet.py: the network device, over the sockets of the host.
pub mod Sockets
pub mod Quad
pub mod State
pub mod Commands
pub mod Failures
pub mod Buffer
pub mod Sized
pub mod Async
use compyter.Prelude.{
  ℕ, ◌+◌, ◌-◌, ◌%◌, Bool, true, false, Option, none, some, List, [], ◌∷◌, ◌++◌, ◌==◌, not, ltb, leb,
  get_elem?, if◌then◌else◌,
}
use compyter.Prelude.Int.{ℤ, pos, negsuc, ◌-ℤ◌, ltb_ℤ, eqb_ℤ, mask}
use compyter.Result.{Result, ok, err, value_error, map_ok, index}
use compyter.Exec.{⊤, Exec, pure, changes, ◌>>=◌, ◌>>◌, when}
use compyter.Util.{in_range, set_word_byte, get_word_byte}
use compyter.Memory.{set_index}
use compyter.Hardware.Intc.{Intc, interrupt}
use compyter.Hardware.Internet.Sockets.{Host}
use compyter.Hardware.Internet.Quad.{set_quad_byte, get_quad_byte}
use compyter.Hardware.Internet.State.{Internet, maxbufsize, async_read, async_write}
use compyter.Hardware.Internet.Commands.{
  cmd_nop, cmd_socket, cmd_bind, cmd_connect, cmd_listen, cmd_accept, cmd_close, cmd_setsockopt,
  cmd_getsockopt, cmd_recv, cmd_send, cmd_recvfrom, cmd_sendto, cmd_getaddrinfo, cmd_getnameinfo,
  cmd_async_start, cmd_async_stop, cmd_async_done,
}

abbrev pub int_num : ℤ
int_num = pos 192

abbrev pub addr_begin : ℕ
addr_begin = 0xffffe94f

abbrev pub addr_end : ℕ
addr_end = 0xffffedaf

abbrev pub reg_addr : ℕ
reg_addr = 0x0

abbrev pub reg_ip_ver : ℕ
reg_ip_ver = 0x10

abbrev pub reg_ip_proto : ℕ
reg_ip_proto = 0x14

abbrev pub reg_handle : ℕ
reg_handle = 0x18

abbrev pub reg_command : ℕ
reg_command = 0x1c

abbrev pub reg_params : ℕ
reg_params = 0x20

abbrev pub reg_status : ℕ
reg_status = 0x24

abbrev pub reg_async_op : ℕ
reg_async_op = 0x28

abbrev pub reg_async_handle : ℕ
reg_async_handle = 0x2c

abbrev pub reg_bufsize : ℕ
reg_bufsize = 0x5c

abbrev pub reg_buffer : ℕ
reg_buffer = 0x60

-- The commands, in the order of their numbers 0 to 17.
pub data Command : Type 0 where
  nop socket bind connect listen accept close setsockopt getsockopt recv send recvfrom sendto
        getaddrinfo getnameinfo async_start async_stop async_done :
      Command

abbrev pub commands : List Command
commands =
    nop ∷ socket ∷ bind ∷ connect ∷ listen ∷ accept ∷ close ∷ setsockopt ∷ getsockopt ∷ recv ∷ send
    ∷ recvfrom ∷ sendto ∷ getaddrinfo ∷ getnameinfo ∷ async_start ∷ async_stop ∷ async_done ∷ []

-- The entry of `CMD_TABLE` for a number, if there is one.
unfoldable pub command_of : ℤ → Option Command
command_of (pos n) = get_elem? commands n
command_of (negsuc n) = none

-- `self.bufsize %= self.MAXBUFSIZE`, for what is larger.
abbrev pub wrap_bufsize : ℤ → ℤ
wrap_bufsize (pos n) = if ltb maxbufsize n then pos (n % maxbufsize) else pos n
wrap_bufsize (negsuc n) = negsuc n

-- `self.buffer[i] = val`, which takes a byte.
abbrev pub store : List ℕ → ℤ → ℕ → Result (List ℕ)
store buffer i val = if leb 256 val then err value_error else set_index buffer i val

-- The operations that the events of the selector stand for.
abbrev pub op_of : ℕ → ℤ
op_of events = pos (
    (if ltb 0 (mask 1 (pos events)) then async_read else 0)
    + (if ltb 0 (mask 2 (pos events)) then async_write else 0))

module _ {H : Host} where
  unfoldable pub run_command : Command → Exec (Internet H) ⊤
  run_command nop = cmd_nop
  run_command socket = cmd_socket
  run_command bind = cmd_bind
  run_command connect = cmd_connect
  run_command listen = cmd_listen
  run_command accept = cmd_accept
  run_command close = cmd_close
  run_command setsockopt = cmd_setsockopt
  run_command getsockopt = cmd_getsockopt
  run_command recv = cmd_recv
  run_command send = cmd_send
  run_command recvfrom = cmd_recvfrom
  run_command sendto = cmd_sendto
  run_command getaddrinfo = cmd_getaddrinfo
  run_command getnameinfo = cmd_getnameinfo
  run_command async_start = cmd_async_start
  run_command async_stop = cmd_async_stop
  run_command async_done = cmd_async_done

  unfoldable pub get_item : ℕ → Internet H → Result ℕ
  get_item item s =
      if in_range item reg_addr (reg_addr + 15)
      then get_quad_byte s.addr (pos item)
      else if in_range item reg_ip_ver (reg_ip_ver + 3)
      then get_word_byte s.ip_ver (pos item -ℤ pos reg_ip_ver)
      else if in_range item reg_ip_proto (reg_ip_proto + 3)
      then get_word_byte s.proto (pos item -ℤ pos reg_ip_proto)
      else if in_range item reg_handle (reg_handle + 3)
      then get_word_byte s.current_handle (pos item -ℤ pos reg_handle)
      else if in_range item reg_command (reg_command + 3)
      then get_word_byte s.command (pos item -ℤ pos reg_command)
      else if in_range item reg_params (reg_params + 3)
      then get_word_byte s.params (pos item -ℤ pos reg_params)
      else if in_range item reg_status (reg_status + 3)
      then get_word_byte s.status (pos item -ℤ pos reg_status)
      else if in_range item reg_async_op (reg_async_op + 3)
      then get_word_byte s.async_op (pos item -ℤ pos reg_async_op)
      else if in_range item reg_async_handle (reg_async_handle + 3)
      then get_word_byte s.async_handle (pos item -ℤ pos reg_async_handle)
      else if in_range item reg_bufsize (reg_bufsize + 3)
      then get_word_byte s.bufsize (pos item -ℤ pos reg_bufsize)
      else if in_range item reg_buffer (reg_buffer + (maxbufsize - 1))
      then index s.buffer (pos item -ℤ pos reg_bufsize)
      else ok 0

  -- A write of the last byte of the command register runs the command.
  unfoldable pub act : ℕ → Exec (Internet H) ⊤
  unfolding run_command
  act item s =
      if item == reg_command + 3
      then elim (command_of s.command) [ none ↦ (ok tt, s) | some c ↦ run_command c s ]
      else (ok tt, s)

  unfoldable pub set_item : ℕ → ℕ → Exec (Internet H) ⊤
  unfolding changes ◌>>=◌ act
  set_item item val =
      if in_range item reg_addr (reg_addr + 15)
      then changes (λ s. map_ok (λ n. record s { addr = n }) (set_quad_byte s.addr (pos item) val))
      else if in_range item reg_ip_ver (reg_ip_ver + 3)
      then changes (λ s.
        map_ok (λ n. record s { ip_ver = n })
          (set_word_byte s.ip_ver (pos item -ℤ pos reg_ip_ver) val))
      else if in_range item reg_ip_proto (reg_ip_proto + 3)
      then changes (λ s.
        map_ok (λ n. record s { proto = n })
          (set_word_byte s.proto (pos item -ℤ pos reg_ip_proto) val))
      else if in_range item reg_handle (reg_handle + 3)
      then changes (λ s.
        map_ok (λ n. record s { current_handle = n })
          (set_word_byte s.current_handle (pos item -ℤ pos reg_handle) val))
      else if in_range item reg_command (reg_command + 3)
      then (do
        changes (λ s.
            map_ok (λ n. record s { command = n })
              (set_word_byte s.command (pos item -ℤ pos reg_command) val))
        act item)
      else if in_range item reg_params (reg_params + 3)
      then changes (λ s.
        map_ok (λ n. record s { params = n })
          (set_word_byte s.params (pos item -ℤ pos reg_params) val))
      else if in_range item reg_status (reg_status + 3)
      then changes (λ s.
        map_ok (λ n. record s { status = n })
          (set_word_byte s.status (pos item -ℤ pos reg_params) val))
      else if in_range item reg_async_op (reg_async_op + 3)
      then changes (λ s.
        map_ok (λ n. record s { async_op = n })
          (set_word_byte s.async_op (pos item -ℤ pos reg_async_op) val))
      else if in_range item reg_async_handle (reg_async_handle + 3)
      then changes (λ s.
        map_ok (λ n. record s { async_handle = n })
          (set_word_byte s.async_handle (pos item -ℤ pos reg_async_handle) val))
      else if in_range item reg_bufsize (reg_bufsize + 3)
      then changes (λ s.
        map_ok (λ n. record s { bufsize = wrap_bufsize n })
          (set_word_byte s.bufsize (pos item -ℤ pos reg_bufsize) val))
      else if in_range item reg_buffer (reg_buffer + (maxbufsize - 1))
      then changes (λ s.
        map_ok (λ b. record s { buffer = b }) (store s.buffer (pos item -ℤ pos reg_buffer) val))
      else pure tt

  -- `process_async`: what `select` brings, once the events before are dealt with.
  unfoldable pub select : List (ℤ × ℕ) → Internet H → Option (Internet H)
  select ready s = elim (s.events) [
    | _ ∷ _ ↦ none
    | [] ↦ if s.waiting then none else some (record s { events = ready })
  ]

  -- The next event: the registers, the cleared `async_done` and the interrupt.
  unfoldable pub fire : Internet H × Intc → Option (Internet H × Intc)
  unfolding interrupt
  fire (s, intc) = elim (s.events) [
    | [] ↦ none
    | (fd, events) ∷ rest ↦
        if s.waiting
        then none
        else some (
          record s {
            async_op = op_of events;
            async_handle = fd;
            async_done = false;
            events = rest;
            waiting = true;
          },
          interrupt int_num intc,
        )
  ]

  -- `self.async_done.wait()` returns when the event is set.
  unfoldable pub resume : Internet H → Option (Internet H)
  resume s =
      if s.waiting
      then (if s.async_done then some (record s { waiting = false }) else none)
      else none
