-- ===== src/Computer/Uncaught/Commands.antt =====
-- The commands of the network device (compyter/hardware/internet.py) raise nothing that the processor
-- catches.
use compyter.Prelude.{refl, ℕ, none, List, Option-cases, Bool-cases, inl, inr, take}
use compyter.Result.{overflow_error, value_error, name_error, os_error as raised}
use compyter.Exec.{⊤, Exec}
use compyter.Hardware.Internet.Sockets.{Host, Outcome, value, os_error}
use compyter.Hardware.Internet.State.{Internet, call, enosys}
use compyter.Hardware.Internet.Commands.{
  is_ascii, ascii_text, socket_made, named, or_raised, is_c_int, cmd_nop, cmd_socket, cmd_bind,
  cmd_connect, cmd_listen, cmd_accept, cmd_close, cmd_setsockopt, cmd_getsockopt, cmd_recv,
  cmd_send, cmd_recvfrom, cmd_sendto, cmd_getaddrinfo, cmd_getnameinfo, cmd_async_start,
  cmd_async_stop, cmd_async_done,
}
use compyter.Hardware.Internet.{
  Command, nop, socket, bind, connect, listen, accept, close, setsockopt, getsockopt, recv, send,
  recvfrom, sendto, getaddrinfo, getnameinfo, async_start, async_stop, async_done, run_command,
}
use compyter.Computer.Safe.{Spared}
use compyter.Computer.Uncaught.{
  IsCalm, Uncaught, uncaught, if-Uncaught, pure-Uncaught, bind-Uncaught, raise-Uncaught,
  lift-Uncaught, gets-Uncaught, set_error-Uncaught, succeed-Uncaught, with_socket-Uncaught,
  attempt-Uncaught, or_invalid-Uncaught, call-Uncaught, sent-Uncaught,
}

module _ {H : Host} where
  socket_made-Uncaught : (made : Outcome H.Socket) → Uncaught {H = H} (socket_made made)
  unfolding socket_made
  socket_made-Uncaught (os_error e text) = search uncaught
  socket_made-Uncaught (value sock) = search uncaught

  cmd_socket-Uncaught : Uncaught {H = H} cmd_socket
  unfolding cmd_socket call
  cmd_socket-Uncaught = record { safe = λ s. (socket_made-Uncaught _).safe _ }

  cmd_bind-Uncaught : Uncaught {H = H} cmd_bind
  unfolding cmd_bind
  cmd_bind-Uncaught = search uncaught depth 20

  cmd_connect-Uncaught : Uncaught {H = H} cmd_connect
  unfolding cmd_connect
  cmd_connect-Uncaught = search uncaught depth 20

  cmd_listen-Uncaught : Uncaught {H = H} cmd_listen
  unfolding cmd_listen
  cmd_listen-Uncaught = with_socket-Uncaught _ (λ sock.
      bind-Uncaught _ _ (gets-Uncaught _) (λ backlog.
        if-Uncaught (is_c_int backlog) _ _ (attempt-Uncaught _ _ (λ _. succeed-Uncaught))
          (raise-Uncaught _ overflow_error refl)))

  cmd_accept-Uncaught : Uncaught {H = H} cmd_accept
  unfolding cmd_accept
  cmd_accept-Uncaught = search uncaught depth 20

  cmd_close-Uncaught : Uncaught {H = H} cmd_close
  unfolding cmd_close call
  cmd_close-Uncaught =
      with_socket-Uncaught _
        (λ sock. bind-Uncaught _ _ (record { safe = λ s. tt }) (λ _. search uncaught))

  cmd_recv-Uncaught : Uncaught {H = H} cmd_recv
  unfolding cmd_recv
  cmd_recv-Uncaught = search uncaught depth 20

  cmd_send-Uncaught : Uncaught {H = H} cmd_send
  unfolding cmd_send
  cmd_send-Uncaught = search (uncaught, sent-Uncaught) depth 20

  cmd_recvfrom-Uncaught : Uncaught {H = H} cmd_recvfrom
  unfolding cmd_recvfrom
  cmd_recvfrom-Uncaught = with_socket-Uncaught _ (λ sock.
      bind-Uncaught _ _ (gets-Uncaught _)
        (λ oob. attempt-Uncaught _ _ (λ _. raise-Uncaught _ value_error refl)))

  cmd_sendto-Uncaught : Uncaught {H = H} cmd_sendto
  unfolding cmd_sendto
  cmd_sendto-Uncaught = search (uncaught, sent-Uncaught) depth 20

  ascii_text-Spared : (s : Internet H) → Spared (ascii_text s)
  unfolding ascii_text
  ascii_text-Spared s = elim (Option-cases s.buflen) [
    | inl unset ↦ rw (unset, ascii_text) refl
    | inr (n, known) ↦ elim (Bool-cases (is_ascii (take n s.buffer))) [
      | inl ascii ↦ rw (known, ascii, ascii_text) tt
      | inr other ↦ rw (known, other, ascii_text) refl
    ]
  ]

  cmd_getaddrinfo-Uncaught : Uncaught {H = H} cmd_getaddrinfo
  unfolding cmd_getaddrinfo
  cmd_getaddrinfo-Uncaught =
      bind-Uncaught _ _ (record { safe = ascii_text-Spared })
        (λ _. raise-Uncaught _ name_error refl)

  named-Uncaught : IsCalm H → (name : Outcome (List ℕ)) → Uncaught {H = H} (named name)
  unfolding named
  named-Uncaught calm (os_error e text) = raise-Uncaught _ raised refl
  named-Uncaught calm (value name) =
      bind-Uncaught _ _ (lift-Uncaught _ (calm.calm_idna _)) (λ bytes. search uncaught)

  cmd_getnameinfo-Uncaught : IsCalm H → Uncaught {H = H} cmd_getnameinfo
  unfolding cmd_getnameinfo call
  cmd_getnameinfo-Uncaught calm = bind-Uncaught _ _ (gets-Uncaught _) (λ addr.
      bind-Uncaught _ _ (gets-Uncaught _) (λ text. bind-Uncaught _ _ (gets-Uncaught _) (λ bad_addr.
        bind-Uncaught _ _ (gets-Uncaught _) (λ bad_text. or_invalid-Uncaught _ _ addr (λ _.
          or_invalid-Uncaught _ _ text
            (λ host. record { safe = λ s. (named-Uncaught calm _).safe _ }))))))

  or_raised-Uncaught :
      {A : Type 0} (a : Outcome A) (next : Exec (Internet H) ⊤)
      → Uncaught next
      → Uncaught (or_raised a next)
  or_raised-Uncaught (value a) next h = h
  or_raised-Uncaught (os_error e text) next h = raise-Uncaught _ raised refl

  cmd_async_start-Uncaught : IsCalm H → Uncaught {H = H} cmd_async_start
  unfolding cmd_async_start
  cmd_async_start-Uncaught calm = with_socket-Uncaught _ (λ sock.
      bind-Uncaught _ _ (gets-Uncaught _) (λ events.
        bind-Uncaught _ _ (record { safe = λ s. tt })
          (λ blocking. or_raised-Uncaught blocking _ (
            bind-Uncaught _ _ (call-Uncaught _ (λ w. calm.calm_register sock events w))
              (λ _. succeed-Uncaught)))))

  cmd_async_stop-Uncaught : IsCalm H → Uncaught {H = H} cmd_async_stop
  unfolding cmd_async_stop
  cmd_async_stop-Uncaught calm = with_socket-Uncaught _ (λ sock.
      bind-Uncaught _ _ (call-Uncaught _ (λ w. calm.calm_unregister sock w))
        (λ _. succeed-Uncaught))

  cmd_async_done-Uncaught : Uncaught {H = H} cmd_async_done
  unfolding cmd_async_done
  cmd_async_done-Uncaught = search uncaught

  pub run_command-Uncaught : IsCalm H → (c : Command) → Uncaught {H = H} (run_command c)
  unfolding run_command cmd_nop cmd_setsockopt cmd_getsockopt
  run_command-Uncaught calm nop = pure-Uncaught tt
  run_command-Uncaught calm socket = cmd_socket-Uncaught
  run_command-Uncaught calm bind = cmd_bind-Uncaught
  run_command-Uncaught calm connect = cmd_connect-Uncaught
  run_command-Uncaught calm listen = cmd_listen-Uncaught
  run_command-Uncaught calm accept = cmd_accept-Uncaught
  run_command-Uncaught calm close = cmd_close-Uncaught
  run_command-Uncaught calm setsockopt = set_error-Uncaught enosys none
  run_command-Uncaught calm getsockopt = set_error-Uncaught enosys none
  run_command-Uncaught calm recv = cmd_recv-Uncaught
  run_command-Uncaught calm send = cmd_send-Uncaught
  run_command-Uncaught calm recvfrom = cmd_recvfrom-Uncaught
  run_command-Uncaught calm sendto = cmd_sendto-Uncaught
  run_command-Uncaught calm getaddrinfo = cmd_getaddrinfo-Uncaught
  run_command-Uncaught calm getnameinfo = cmd_getnameinfo-Uncaught calm
  run_command-Uncaught calm async_start = cmd_async_start-Uncaught calm
  run_command-Uncaught calm async_stop = cmd_async_stop-Uncaught calm
  run_command-Uncaught calm async_done = cmd_async_done-Uncaught
