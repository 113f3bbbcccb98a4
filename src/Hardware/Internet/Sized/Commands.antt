-- ===== src/Hardware/Internet/Sized/Commands.antt =====
-- The size of the buffer of the network device through the commands of compyter/hardware/internet.py.
use compyter.Prelude.{ℕ, ◌≡◌, refl, none, List, take}
use compyter.Result.{value_error, name_error, overflow_error, os_error as raised}
use compyter.Exec.{⊤, Exec}
use compyter.Hardware.Internet.Sockets.{Host, Outcome, value, os_error}
use compyter.Hardware.Internet.State.{Internet, maxbufsize, call, ip_address, enosys}
use compyter.Hardware.Internet.Commands.{
  sock_addr, family_of, kind_of, socket_made, named, or_raised, is_c_int, cmd_nop, cmd_socket,
  cmd_bind, cmd_connect, cmd_listen, cmd_accept, cmd_close, cmd_setsockopt, cmd_getsockopt,
  cmd_recv, cmd_send, cmd_recvfrom, cmd_sendto, cmd_getaddrinfo, cmd_getnameinfo, cmd_async_start,
  cmd_async_stop, cmd_async_done,
}
use compyter.Hardware.Internet.{
  Command, nop, socket, bind, connect, listen, accept, close, setsockopt, getsockopt, recv, send,
  recvfrom, sendto, getaddrinfo, getnameinfo, async_start, async_stop, async_done, run_command,
}
use compyter.Hardware.Internet.Sized.{
  IsSized, IsBounded, Keeps, if-Keeps, pure-Keeps, raise-Keeps, lift-Keeps, modify-Keeps,
  bind-Keeps, gets-Keeps, set_error-Keeps, succeed-Keeps, attempt-Keeps, with_socket-Keeps,
  or_invalid-Keeps, received-Keeps, sent-Keeps,
}

module _ {H : Host} where
  -- A change of registers other than the buffer and its size.
  pub changed :
      (s t : Internet H) → s.bufsize ≡ t.bufsize → s.buffer ≡ t.buffer → IsSized s → IsSized t
  changed s t e f h = record { small = rw (← e) h.small; whole = rw (← f) h.whole }

  socket_made-Keeps : (made : Outcome H.Socket) → Keeps {H = H} (socket_made made)
  unfolding socket_made
  socket_made-Keeps (os_error e text) =
      bind-Keeps _ _ (modify-Keeps _ (λ s h. changed s _ refl refl h)) (λ _. set_error-Keeps e text)
  socket_made-Keeps (value sock) =
      bind-Keeps _ _ succeed-Keeps (λ _. modify-Keeps _ (λ s h. changed s _ refl refl h))

  cmd_socket-Keeps : Keeps {H = H} cmd_socket
  unfolding cmd_socket call
  cmd_socket-Keeps s h =
      let r = H.socket (family_of s.ip_ver) (kind_of s.proto) s.world in
      socket_made-Keeps (r.0) (record s { world = r.1 }) (changed s _ refl refl h)

  cmd_bind-Keeps : Keeps {H = H} cmd_bind
  unfolding cmd_bind
  cmd_bind-Keeps = with_socket-Keeps _ (λ sock. gets-Keeps _ _ (λ n. gets-Keeps _ _ (λ port.
      or_invalid-Keeps _ _ (sock_addr (H.family sock) n)
        (λ addr. attempt-Keeps (H.bind sock addr port) _ (λ w a e. succeed-Keeps)))))

  cmd_connect-Keeps : Keeps {H = H} cmd_connect
  unfolding cmd_connect
  cmd_connect-Keeps = with_socket-Keeps _ (λ sock. gets-Keeps _ _ (λ n. gets-Keeps _ _ (λ port.
      or_invalid-Keeps _ _ (sock_addr (H.family sock) n)
        (λ addr. attempt-Keeps (H.connect sock addr port) _ (λ w a e. succeed-Keeps)))))

  cmd_listen-Keeps : Keeps {H = H} cmd_listen
  unfolding cmd_listen
  cmd_listen-Keeps = with_socket-Keeps _ (λ sock. gets-Keeps _ _ (λ backlog.
      if-Keeps (is_c_int backlog) _ _
        (attempt-Keeps (H.listen sock backlog) _ (λ w a e. succeed-Keeps))
        (raise-Keeps _ overflow_error)))

  cmd_accept-Keeps : Keeps {H = H} cmd_accept
  unfolding cmd_accept
  cmd_accept-Keeps = with_socket-Keeps _ (λ sock.
      attempt-Keeps (H.accept sock) _ (λ w (conn, addr, port) e.
        bind-Keeps _ _ (modify-Keeps _ (λ s h. changed s _ refl refl h)) (λ _. succeed-Keeps)))

  cmd_close-Keeps : Keeps {H = H} cmd_close
  unfolding cmd_close call
  cmd_close-Keeps = with_socket-Keeps _ (λ sock.
      bind-Keeps _ _ (λ s h. changed s _ refl refl h)
        (λ _.
          bind-Keeps _ _ (modify-Keeps _ (λ s h. changed s _ refl refl h)) (λ _. succeed-Keeps)))

  cmd_recv-Keeps : IsBounded H → Keeps {H = H} cmd_recv
  unfolding cmd_recv
  cmd_recv-Keeps bounded = with_socket-Keeps _ (λ sock. gets-Keeps _ _ (λ oob.
      attempt-Keeps (H.recv sock maxbufsize oob) _ (λ w bytes e.
        bind-Keeps _ _ (received-Keeps bytes (bounded.recv_le sock maxbufsize oob w bytes e))
          (λ _. succeed-Keeps))))

  cmd_send-Keeps : Keeps {H = H} cmd_send
  unfolding cmd_send
  cmd_send-Keeps = with_socket-Keeps _ (λ sock. gets-Keeps _ _ (λ oob.
      gets-Keeps _ _ (λ bytes. attempt-Keeps (H.send sock bytes oob) _ (λ w n e. sent-Keeps n))))

  cmd_recvfrom-Keeps : Keeps {H = H} cmd_recvfrom
  unfolding cmd_recvfrom
  cmd_recvfrom-Keeps = with_socket-Keeps _ (λ sock. gets-Keeps _ _ (λ oob.
      attempt-Keeps (H.recvfrom sock maxbufsize oob) _ (λ w bytes e. raise-Keeps _ value_error)))

  cmd_sendto-Keeps : Keeps {H = H} cmd_sendto
  unfolding cmd_sendto
  cmd_sendto-Keeps = with_socket-Keeps _ (λ sock. gets-Keeps _ _ (λ oob. gets-Keeps _ _ (λ n.
      gets-Keeps _ _ (λ bytes. gets-Keeps _ _ (λ port.
        or_invalid-Keeps _ _ (ip_address n)
          (λ addr. attempt-Keeps (H.sendto sock bytes oob addr port) _ (λ w n e. sent-Keeps n)))))))

  cmd_getaddrinfo-Keeps : Keeps {H = H} cmd_getaddrinfo
  unfolding cmd_getaddrinfo
  cmd_getaddrinfo-Keeps = bind-Keeps _ _ (λ s h. h) (λ _. raise-Keeps _ name_error)

  named-Keeps :
      IsBounded H
      → (host : List ℕ) (w : H.World) (name : Outcome (List ℕ)) → (H.getnameinfo host w).0 ≡ name
      → Keeps {H = H} (named name)
  unfolding named
  named-Keeps bounded host w (os_error e text) found = raise-Keeps _ raised
  named-Keeps bounded host w (value name) found =
      lift-Keeps (H.encode_idna (take maxbufsize name)) _ (λ bytes e.
        bind-Keeps _ _ (received-Keeps bytes (bounded.idna_le host name bytes w found e))
          (λ _. succeed-Keeps))

  cmd_getnameinfo-Keeps : IsBounded H → Keeps {H = H} cmd_getnameinfo
  unfolding cmd_getnameinfo call
  cmd_getnameinfo-Keeps bounded = gets-Keeps _ _ (λ addr. gets-Keeps _ _ (λ text.
      gets-Keeps _ _ (λ bad_addr. gets-Keeps _ _ (λ bad_text. or_invalid-Keeps _ _ addr (λ _.
        or_invalid-Keeps _ _ text (λ host s h.
          let r = H.getnameinfo host s.world in
          named-Keeps bounded host s.world (r.0) refl (record s { world = r.1 })
            (changed s _ refl refl h)))))))

  or_raised-Keeps :
      {A : Type 0} (a : Outcome A) (next : Exec (Internet H) ⊤)
      → Keeps next
      → Keeps (or_raised a next)
  or_raised-Keeps (value a) next k = k
  or_raised-Keeps (os_error e text) next k = raise-Keeps _ raised

  cmd_async_start-Keeps : Keeps {H = H} cmd_async_start
  unfolding cmd_async_start call
  cmd_async_start-Keeps = with_socket-Keeps _ (λ sock. gets-Keeps _ _ (λ events.
      bind-Keeps _ _ (λ s h. changed s _ refl refl h)
        (λ blocking.
          or_raised-Keeps blocking _
            (bind-Keeps _ _ (λ s h. changed s _ refl refl h) (λ _. succeed-Keeps)))))

  cmd_async_stop-Keeps : Keeps {H = H} cmd_async_stop
  unfolding cmd_async_stop call
  cmd_async_stop-Keeps =
      with_socket-Keeps _
        (λ sock. bind-Keeps _ _ (λ s h. changed s _ refl refl h) (λ _. succeed-Keeps))

  cmd_async_done-Keeps : Keeps {H = H} cmd_async_done
  unfolding cmd_async_done
  cmd_async_done-Keeps =
      bind-Keeps _ _ (modify-Keeps _ (λ s h. changed s _ refl refl h)) (λ _. succeed-Keeps)

  pub run_command-IsSized : IsBounded H → (c : Command) → Keeps {H = H} (run_command c)
  unfolding run_command cmd_nop cmd_setsockopt cmd_getsockopt
  run_command-IsSized bounded nop = pure-Keeps tt
  run_command-IsSized bounded socket = cmd_socket-Keeps
  run_command-IsSized bounded bind = cmd_bind-Keeps
  run_command-IsSized bounded connect = cmd_connect-Keeps
  run_command-IsSized bounded listen = cmd_listen-Keeps
  run_command-IsSized bounded accept = cmd_accept-Keeps
  run_command-IsSized bounded close = cmd_close-Keeps
  run_command-IsSized bounded setsockopt = set_error-Keeps enosys none
  run_command-IsSized bounded getsockopt = set_error-Keeps enosys none
  run_command-IsSized bounded recv = cmd_recv-Keeps bounded
  run_command-IsSized bounded send = cmd_send-Keeps
  run_command-IsSized bounded recvfrom = cmd_recvfrom-Keeps
  run_command-IsSized bounded sendto = cmd_sendto-Keeps
  run_command-IsSized bounded getaddrinfo = cmd_getaddrinfo-Keeps
  run_command-IsSized bounded getnameinfo = cmd_getnameinfo-Keeps bounded
  run_command-IsSized bounded async_start = cmd_async_start-Keeps
  run_command-IsSized bounded async_stop = cmd_async_stop-Keeps
  run_command-IsSized bounded async_done = cmd_async_done-Keeps
