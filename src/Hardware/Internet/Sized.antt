-- ===== src/Hardware/Internet/Sized.antt =====
-- The size of the buffer of the network device (compyter/hardware/internet.py), through every command
-- and every write to a register.
pub mod Commands
pub mod Writes
use compyter.Prelude.{
  ℕ, zero, suc, ◌+◌, ◌-◌, ◌≤◌, ◌<◌, ◌≡◌, refl, arith, Bool, Option, none, some, List, [], ◌∷◌, ◌++◌,
  if◌then◌else◌, true, false, length, length-append, length-drop, length-take-le, take, drop, inl,
  inr, Bool-cases,
}
use compyter.Prelude.Int.{ℤ, pos, negsuc, eqb_ℤ, mask, truthy}
use compyter.Result.{Result, ok, err, Exception, value_error, name_error, os_error as raised}
use compyter.Exec.{⊤, Exec, pure, raise, lift, gets, modify, continue, ◌>>=◌, ◌>>◌}
use compyter.Hardware.Internet.Sockets.{Host, Outcome, value, os_error, Address, Invalid}
use compyter.Hardware.Internet.State.{
  Internet, maxbufsize, with_message, status_of, strerror_of, overwrite, set_error, succeed, call,
  attempt, or_report, on_socket, with_socket, slice_to, int_to_addr, ip_address, enosys, einval,
}
use compyter.Hardware.Internet.Commands.{
  sock_addr, or_invalid, family_of, kind_of, socket_made, received, sent, named, ascii_text,
  to_option, event_mask, or_raised, cmd_nop, cmd_socket, cmd_bind, cmd_connect, cmd_listen,
  cmd_accept, cmd_close, cmd_setsockopt, cmd_getsockopt, cmd_recv, cmd_send, cmd_recvfrom,
  cmd_sendto, cmd_getaddrinfo, cmd_getnameinfo, cmd_async_start, cmd_async_stop, cmd_async_done,
}
use compyter.Hardware.Internet.{
  Command, nop, socket, bind, connect, listen, accept, close, setsockopt, getsockopt, recv, send,
  recvfrom, sendto, getaddrinfo, getnameinfo, async_start, async_stop, async_done, run_command,
}

abbrev pub IsSmall : ℤ → Type 0
IsSmall (pos n) = n ≤ maxbufsize
IsSmall (negsuc n) = ⊥

-- `bufsize` is at most 1024, and the buffer has at least 1024 bytes.
pub record IsSized {H : Host} (s : Internet H) : Type 0 where
  pub small : IsSmall s.bufsize
  pub whole : maxbufsize ≤ length s.buffer

-- What the device relies on: `recv` brings at most the bytes that it is asked for, and the name that
-- `getnameinfo` finds for a host has at most 1024 bytes in IDNA.
pub record IsBounded (H : Host) : Type 0 where
  pub recv_le :
      (sock : H.Socket) (n : ℕ) (oob : Bool) (w : H.World) (bytes : List ℕ)
      → (H.recv sock n oob w).0 ≡ value bytes
      → length bytes ≤ n
  pub idna_le :
      (host name bytes : List ℕ) (w : H.World)
      → (H.getnameinfo host w).0 ≡ value name
      → H.encode_idna (take maxbufsize name) ≡ ok bytes
      → length bytes ≤ maxbufsize

length-overwrite : (bytes xs : List ℕ) → length xs ≤ length (overwrite bytes xs)
length-overwrite bytes xs =
    omega (arith, length-append bytes (drop (length bytes) xs), length-drop (length bytes) xs)

module _ {H : Host} where
  abbrev pub Keeps : {A : Type 0} → Exec (Internet H) A → Type 0
  Keeps m = (s : Internet H) → IsSized s → IsSized (m s).1

  -- The rules for the ways to build an action.
  pub pure-Keeps : {A : Type 0} (a : A) → Keeps (pure a)
  unfolding pure
  pure-Keeps a s h = h

  pub raise-Keeps : (A : Type 0) (e : Exception) → Keeps {A = A} (raise e)
  unfolding raise
  raise-Keeps A e s h = h

  pub modify-Keeps :
      (f : Internet H → Internet H)
      → ((s : Internet H) → IsSized s → IsSized (f s))
      → Keeps (modify f)
  unfolding modify
  modify-Keeps f k s h = k s h

  bind_step :
      {A B : Type 0} (r : Result A × Internet H) (f : A → Exec (Internet H) B)
      → ((a : A) → r.0 ≡ ok a → Keeps (f a))
      → IsSized (r.1)
      → IsSized (continue (r.0) f (r.1)).1
  bind_step (ok a, t) f k h = k a refl t h
  bind_step (err e, t) f k h = h

  pub bind-Keeps :
      {A B : Type 0} (m : Exec (Internet H) A) (f : A → Exec (Internet H) B)
      → Keeps m
      → ((a : A) → Keeps (f a))
      → Keeps (m >>= f)
  unfolding ◌>>=◌
  bind-Keeps m f k g s h = bind_step (m s) f (λ a _. g a) (k s h)

  pub lift-Keeps :
      {A B : Type 0} (r : Result A) (f : A → Exec (Internet H) B)
      → ((a : A) → r ≡ ok a → Keeps (f a))
      → Keeps (lift r >>= f)
  unfolding lift ◌>>=◌
  lift-Keeps r f k s h = bind_step (r, s) f k h

  pub gets-Keeps :
      {A B : Type 0} (f : Internet H → A) (g : A → Exec (Internet H) B)
      → ((a : A) → Keeps (g a))
      → Keeps (gets f >>= g)
  unfolding gets ◌>>=◌
  gets-Keeps f g k s h = k (f s) s h

  pub if-Keeps :
      {A : Type 0} (b : Bool) (m n : Exec (Internet H) A)
      → Keeps m
      → Keeps n
      → Keeps (if b then m else n)
  if-Keeps true m n k l = k
  if-Keeps false m n k l = l

  with_message-IsSized :
      (text : List ℕ) (s : Internet H) → IsSized s → IsSized (with_message text s)
  with_message-IsSized [] s h = h
  with_message-IsSized (c ∷ cs) s h = record {
    small = h.small;
    whole = omega (arith, h.whole, length-overwrite ((c ∷ cs) ++ 0 ∷ []) s.buffer);
  }

  pub set_error-Keeps : (e : ℤ) (text : Option (List ℕ)) → Keeps (set_error e text)
  unfolding set_error
  set_error-Keeps e (some text) s h =
      let k = with_message-IsSized text s h in record { small = k.small; whole = k.whole }
  set_error-Keeps e none s h = elim (Bool-cases (eqb_ℤ e (pos 0))) [
    | inl zero_error ↦ rw (zero_error, set_error) (record { small = h.small; whole = h.whole })
    | inr other ↦ rw (other, set_error) h
  ]

  pub succeed-Keeps : Keeps succeed
  unfolding succeed
  succeed-Keeps s h = record { small = h.small; whole = h.whole }

  or_report_step :
      {A : Type 0} (r : Outcome A × H.World) (next : A → Exec (Internet H) ⊤)
      → ((a : A) → r.0 ≡ value a → Keeps (next a))
      → Keeps (λ s. or_report next (r.0) (record s { world = r.1 }))
  or_report_step (value a, w) next k s h =
      k a refl (record s { world = w }) (record { small = h.small; whole = h.whole })
  or_report_step (os_error e text, w) next k s h =
      set_error-Keeps e text (record s { world = w }) (record { small = h.small; whole = h.whole })

  -- A call of the host, with what is known of its value.
  pub attempt-Keeps :
      {A : Type 0} (f : H.World → Outcome A × H.World) (next : A → Exec (Internet H) ⊤)
      → ((w : H.World) (a : A) → (f w).0 ≡ value a → Keeps (next a))
      → Keeps (attempt f next)
  unfolding attempt call
  attempt-Keeps f next k s h = or_report_step (f s.world) next (k s.world) s h

  on_socket_step :
      (sock : Option H.Socket) (next : H.Socket → Exec (Internet H) ⊤)
      → ((a : H.Socket) → Keeps (next a))
      → Keeps (on_socket sock next)
  unfolding pure
  on_socket_step none next k s h = h
  on_socket_step (some a) next k s h = k a s h

  pub with_socket-Keeps :
      (next : H.Socket → Exec (Internet H) ⊤)
      → ((a : H.Socket) → Keeps (next a))
      → Keeps (with_socket next)
  unfolding with_socket
  with_socket-Keeps next k s h = on_socket_step (s.sockets s.current_handle) next k s h

  pub or_invalid-Keeps :
      {A : Type 0} (why : Invalid) (next : A → Exec (Internet H) ⊤) (a : Option A)
      → ((x : A) → Keeps (next x))
      → Keeps (or_invalid why next a)
  or_invalid-Keeps why next none k s h = set_error-Keeps einval (some (H.message why)) s h
  or_invalid-Keeps why next (some x) k s h = k x s h

  pub received-Keeps : (bytes : List ℕ) → length bytes ≤ maxbufsize → Keeps (received bytes)
  unfolding received modify
  received-Keeps bytes few s h = record {
    small = few;
    whole = omega (arith, h.whole, length-overwrite bytes s.buffer);
  }

  pub sent-Keeps : (n : ℕ) → Keeps (sent n)
  unfolding sent
  sent-Keeps n =
      bind-Keeps (modify (λ s. record s { params = pos n })) (λ _. succeed)
        (modify-Keeps _ (λ s h. record { small = h.small; whole = h.whole })) (λ _. succeed-Keeps)
