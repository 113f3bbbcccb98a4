-- ===== src/Hardware/Internet/Failures.antt =====
-- How the commands of the network device (compyter/hardware/internet.py) fail.
use compyter.Prelude.{ℕ, if◌then◌else◌, Option, none, some, List}
use compyter.Prelude.Int.{ℤ, mask, truthy}
use compyter.Result.{Result, ok, err, name_error}
use compyter.Exec.{⊤, Exec}
use compyter.Hardware.Internet.Sockets.{
  Host, Outcome, value, os_error, Address, no_addr, no_ip_address,
}
use compyter.Hardware.Internet.State.{
  Internet, maxbufsize, einval, ip_address, ip_ver_of, with_message, status_of, slice_to,
}
use compyter.Hardware.Internet.Commands.{sock_addr, is_c_int}
use compyter.Hardware.Internet.{
  Command, bind, connect, listen, accept, recv, send, recvfrom, sendto,
}

-- The call of the host that a command makes on a socket, if it fails: the number of the error, its
-- message and the host behind it. An address that the socket cannot have fails before the call. The
-- commands that fail in other ways, or never, have no refusal.
abbrev pub Refusal : Type 0 → Type 0
Refusal W = Option (ℤ × Option (List ℕ) × W)

abbrev pub failure : {A W : Type 0} → Outcome A × W → Refusal W
failure (value a, w) = none
failure (os_error e text, w) = some (e, text, w)

abbrev pub to_address :
    {W : Type 0} → List ℕ → Option Address → W → (Address → Refusal W) → Refusal W
to_address message none w next = some (einval, some message, w)
to_address message (some a) w next = next a

module _ {H : Host} where
  abbrev pub refusal : Command → H.Socket → Internet H → Refusal H.World
  refusal bind sock s =
      to_address (H.message (no_addr (ip_ver_of (H.family sock)) s.addr))
        (sock_addr (H.family sock) s.addr) s.world
        (λ a. failure (H.bind sock a (mask 0xffff s.params) s.world))
  refusal connect sock s =
      to_address (H.message (no_addr (ip_ver_of (H.family sock)) s.addr))
        (sock_addr (H.family sock) s.addr) s.world
        (λ a. failure (H.connect sock a (mask 0xffff s.params) s.world))
  refusal listen sock s =
      if is_c_int s.params then failure (H.listen sock s.params s.world) else none
  refusal accept sock s = failure (H.accept sock s.world)
  refusal recv sock s = failure (H.recv sock maxbufsize (truthy s.params) s.world)
  refusal send sock s =
      failure (H.send sock (slice_to s.bufsize s.buffer) (truthy s.params) s.world)
  refusal recvfrom sock s = failure (H.recvfrom sock maxbufsize (truthy s.params) s.world)
  refusal sendto sock s =
      to_address (H.message (no_ip_address s.addr)) (ip_address s.addr) s.world (λ a. failure (
        H.sendto sock (slice_to s.bufsize s.buffer) (truthy s.status) a (mask 0xffff s.params)
          s.world))
  refusal _ sock s = none

  -- What is left of it in the device.
  abbrev pub reported : ℤ → Option (List ℕ) → H.World → Internet H → Result ⊤ × Internet H
  reported e (some text) w s =
      (ok tt, record (with_message text (record s { world = w })) { status = status_of e })
  reported e none w s = (err name_error, record s { world = w })
