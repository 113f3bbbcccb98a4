-- ===== src/Hardware/Internet/Commands.antt =====
-- The commands of the network device: the methods `_cmd_*` of compyter/hardware/internet.py.
use compyter.Prelude.{
  ℕ, ◌+◌, Bool, true, false, Option, none, some, List, [], ◌∷◌, ◌&&◌, length, take, ltb,
  if◌then◌else◌,
}
use compyter.Prelude.Int.{ℤ, pos, negsuc, mask, truthy, eqb_ℤ}
use compyter.Result.{
  Result, ok, err, attribute_error, value_error, name_error, overflow_error, os_error as raised,
}
use compyter.Exec.{⊤, Exec, pure, raise, lift, gets, modify, ◌>>=◌, ◌>>◌}
use compyter.Hardware.Internet.Sockets.{
  Host, Outcome, value, os_error, Family, af_inet, af_inet6, af_unspec, Kind, unspec, sock_stream,
  sock_dgram, Address, int, Invalid, no_addr, no_ip_address, no_text,
}
use compyter.Hardware.Internet.State.{
  Internet, maxbufsize, ver_ipv4, ver_ipv6, proto_tcp, proto_udp, async_read, async_write, einval,
  enosys, overwrite, slice_to, insert, delete, int_to_addr, ip_address, ip_ver_of, set_error,
  succeed, call, attempt, with_socket,
}

abbrev pub family_of : ℤ → Family
family_of v = if eqb_ℤ v ver_ipv4 then af_inet else if eqb_ℤ v ver_ipv6 then af_inet6 else af_unspec

abbrev pub kind_of : ℤ → Kind
kind_of p =
    if eqb_ℤ p proto_tcp then sock_stream else if eqb_ℤ p proto_udp then sock_dgram else unspec

-- `self._int_to_addr(self._sock_ip_ver(sock), n)`
abbrev pub sock_addr : Family → ℤ → Option Address
sock_addr f n = elim (ip_ver_of f) [ none ↦ none | some v ↦ int_to_addr v n ]

-- `bytes.decode("ascii")`
abbrev pub is_ascii : List ℕ → Bool
is_ascii [] = true
is_ascii (b ∷ bs) = ltb b 128 && is_ascii bs

-- The events that the bits of `params` ask for; `EVENT_READ` is 1 and `EVENT_WRITE` 2.
abbrev pub event_mask : ℤ → ℕ
event_mask p =
    (if ltb 0 (mask async_read p) then 1 else 0) + (if ltb 0 (mask async_write p) then 2 else 0)

-- The range of a C `int`.
abbrev pub is_c_int : ℤ → Bool
is_c_int (pos n) = ltb n 0x80000000
is_c_int (negsuc n) = ltb n 0x80000000

abbrev pub to_option {ℓ} : {A : Type ℓ} → Result A → Option A
to_option (ok a) = some a
to_option (err e) = none

module _ {H : Host} where
  -- An `OSError` that nothing catches.
  abbrev pub or_raised {ℓ} : {A : Type ℓ} → Outcome A → Exec (Internet H) ⊤ → Exec (Internet H) ⊤
  or_raised (value a) next = next
  or_raised (os_error e text) next = raise raised

  -- `except Exception as e: self._set_error(errno.EINVAL, str(e)); return`
  abbrev pub or_invalid {ℓ} :
      {A : Type ℓ} → Invalid → (A → Exec (Internet H) ⊤) → Option A → Exec (Internet H) ⊤
  or_invalid why next none = set_error einval (some (H.message why))
  or_invalid why next (some a) = next a

  unfoldable pub cmd_nop : Exec (Internet H) ⊤
  cmd_nop = pure tt

  unfoldable pub socket_made : Outcome H.Socket → Exec (Internet H) ⊤
  socket_made (os_error e text) = do
    modify (λ s. record s { current_handle = pos 0 })
    set_error e text
  socket_made (value sock) = do
    succeed
    modify (λ s. record s {
      current_handle = H.fileno sock;
      sockets = insert (H.fileno sock) sock s.sockets;
    })

  unfoldable pub cmd_socket : Exec (Internet H) ⊤
  unfolding call socket_made
  cmd_socket s =
      let (sock, s') = call (H.socket (family_of s.ip_ver) (kind_of s.proto)) s in
      socket_made sock s'

  unfoldable pub cmd_bind : Exec (Internet H) ⊤
  cmd_bind = with_socket (λ sock. do
    n ← gets (λ s. s.addr)
    port ← gets (λ s. mask 0xffff s.params)
    or_invalid (no_addr (ip_ver_of (H.family sock)) n)
        (λ addr. attempt (H.bind sock addr port) (λ _. succeed)) (sock_addr (H.family sock) n))

  unfoldable pub cmd_connect : Exec (Internet H) ⊤
  cmd_connect = with_socket (λ sock. do
    n ← gets (λ s. s.addr)
    port ← gets (λ s. mask 0xffff s.params)
    or_invalid (no_addr (ip_ver_of (H.family sock)) n)
        (λ addr. attempt (H.connect sock addr port) (λ _. succeed)) (sock_addr (H.family sock) n))

  -- `listen` raises an OverflowError for what is no C `int`, and that is no `OSError`.
  unfoldable pub cmd_listen : Exec (Internet H) ⊤
  cmd_listen = with_socket (λ sock. do
    backlog ← gets (λ s. s.params)
    if is_c_int backlog
        then attempt (H.listen sock backlog) (λ _. succeed)
        else raise overflow_error)

  unfoldable pub cmd_accept : Exec (Internet H) ⊤
  cmd_accept = with_socket (λ sock. attempt (H.accept sock) (λ (conn, addr, port). do
    modify (λ s. record s {
      addr = pos (int addr);
      params = pos port;
      sockets = insert (H.fileno conn) conn s.sockets;
      current_handle = H.fileno conn;
    })
    succeed))

  -- What `close` raises is passed over.
  unfoldable pub cmd_close : Exec (Internet H) ⊤
  unfolding call
  cmd_close = with_socket (λ sock. do
    _ ← λ s. (let (_, s') = call (H.close sock) s in (ok tt, s'))
    modify (λ s. record s { sockets = delete s.current_handle s.sockets })
    succeed)

  unfoldable pub cmd_setsockopt : Exec (Internet H) ⊤
  cmd_setsockopt = set_error enosys none

  unfoldable pub cmd_getsockopt : Exec (Internet H) ⊤
  cmd_getsockopt = set_error enosys none

  -- `self.bufsize = len(data)` and `self.buffer[0:len(data)] = data`
  unfoldable pub received : List ℕ → Exec (Internet H) ⊤
  received bytes =
      modify (λ s. record s { bufsize = pos (length bytes); buffer = overwrite bytes s.buffer })

  unfoldable pub cmd_recv : Exec (Internet H) ⊤
  unfolding received
  cmd_recv = with_socket (λ sock. do
    oob ← gets (λ s. truthy s.params)
    attempt (H.recv sock maxbufsize oob) (λ bytes. do received bytes; succeed))

  unfoldable pub sent : ℕ → Exec (Internet H) ⊤
  sent n = do modify (λ s. record s { params = pos n }); succeed

  unfoldable pub cmd_send : Exec (Internet H) ⊤
  unfolding sent
  cmd_send = with_socket (λ sock. do
    oob ← gets (λ s. truthy s.params)
    bytes ← gets (λ s. slice_to s.bufsize s.buffer)
    attempt (H.send sock bytes oob) sent)

  -- `ipaddress.ip_address(addr)` is given the pair of a host and a port, which is no address.
  unfoldable pub cmd_recvfrom : Exec (Internet H) ⊤
  cmd_recvfrom = with_socket (λ sock. do
    oob ← gets (λ s. truthy s.params)
    attempt (H.recvfrom sock maxbufsize oob) (λ _. raise value_error))

  unfoldable pub cmd_sendto : Exec (Internet H) ⊤
  unfolding sent
  cmd_sendto = with_socket (λ sock. do
    oob ← gets (λ s. truthy s.status)
    n ← gets (λ s. s.addr)
    bytes ← gets (λ s. slice_to s.bufsize s.buffer)
    port ← gets (λ s. mask 0xffff s.params)
    or_invalid (no_ip_address n) (λ addr. attempt (H.sendto sock bytes oob addr port) sent)
        (ip_address n))

  -- `self.buffer[0:self.buflen].decode("ascii")`
  unfoldable pub ascii_text : Internet H → Result (List ℕ)
  ascii_text s = elim (s.buflen) [
    | none ↦ err attribute_error
    | some n ↦ if is_ascii (take n s.buffer) then ok (take n s.buffer) else err value_error
  ]

  -- The name `getaddrinfo` is not imported, so what follows the call is never reached.
  unfoldable pub cmd_getaddrinfo : Exec (Internet H) ⊤
  unfolding ascii_text
  cmd_getaddrinfo = do _ ← (λ s. (ascii_text s, s)); raise name_error

  -- The name of the host goes to the buffer. An `OSError` is not caught here.
  unfoldable pub named : Outcome (List ℕ) → Exec (Internet H) ⊤
  unfolding received
  named (os_error e text) = raise raised
  named (value host) = do
    bytes ← lift (H.encode_idna (take maxbufsize host))
    received bytes
    succeed

  unfoldable pub cmd_getnameinfo : Exec (Internet H) ⊤
  unfolding ascii_text named call
  cmd_getnameinfo = do
    addr ← gets (λ s. int_to_addr s.ip_ver s.addr)
    text ← gets (λ s. to_option (ascii_text s))
    bad_addr ← gets (λ s. no_addr (some s.ip_ver) s.addr)
    bad_text ← gets (λ s. no_text s.buflen s.buffer)
    or_invalid bad_addr
        (λ _.
          or_invalid bad_text
            (λ host s. let (name, s') = call (H.getnameinfo host) s in named name s') text)
        addr

  unfoldable pub cmd_async_start : Exec (Internet H) ⊤
  unfolding call
  cmd_async_start = with_socket (λ sock. do
    events ← gets (λ s. event_mask s.params)
    blocking ← λ s. (let (r, s') = call (H.setblocking sock false) s in (ok r, s'))
    or_raised blocking (do _ ← call (H.register sock events); succeed))

  unfoldable pub cmd_async_stop : Exec (Internet H) ⊤
  unfolding call
  cmd_async_stop = with_socket (λ sock. do _ ← call (H.unregister sock); succeed)

  unfoldable pub cmd_async_done : Exec (Internet H) ⊤
  cmd_async_done = do modify (λ s. record s { async_done = true }); succeed
