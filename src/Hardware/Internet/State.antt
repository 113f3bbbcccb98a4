-- ===== src/Hardware/Internet/State.antt =====
-- The registers and the sockets of the network device (compyter/hardware/internet.py), and how its
-- commands report errors.
use compyter.Prelude.{
  ℕ, suc, ◌-◌, Bool, false, Option, none, some, List, [], ◌∷◌, ◌++◌, length, replicate, take, drop,
  if◌then◌else◌,
}
use compyter.Prelude.Int.{ℤ, pos, negsuc, ◌-ℤ◌, eqb_ℤ, ltb_ℤ}
use compyter.Result.{Result, ok, err, name_error}
use compyter.Exec.{⊤, Exec, pure, ◌>>=◌}
use compyter.Hardware.Internet.Sockets.{
  Host, Outcome, value, os_error, Family, af_inet, af_inet6, af_unspec, Address, ipv4, ipv6, fits,
}

abbrev pub maxbufsize : ℕ
maxbufsize = 0x400

abbrev pub ver_ipv4 : ℤ
ver_ipv4 = pos 0x1

abbrev pub ver_ipv6 : ℤ
ver_ipv6 = pos 0x2

abbrev pub proto_tcp : ℤ
proto_tcp = pos 0x1

abbrev pub proto_udp : ℤ
proto_udp = pos 0x2

abbrev pub async_read : ℕ
async_read = 0x1

abbrev pub async_write : ℕ
async_write = 0x2

-- `errno.EINVAL` and `errno.ENOSYS`
abbrev pub einval : ℤ
einval = pos 22

abbrev pub enosys : ℤ
enosys = pos 38

-- `buflen` is `none` as long as nothing has set it. `events` is what the thread has from `select` and
-- has not fired, and `waiting` whether it waits for `async_done`.
pub record Internet (H : Host) : Type 0 where
  pub addr : ℤ
  pub ip_ver : ℤ
  pub proto : ℤ
  pub command : ℤ
  pub current_handle : ℤ
  pub params : ℤ
  pub status : ℤ
  pub bufsize : ℤ
  pub buffer : List ℕ
  pub buflen : Option ℕ
  pub async_op : ℤ
  pub async_handle : ℤ
  pub async_done : Bool
  pub sockets : ℤ → Option H.Socket
  pub world : H.World
  pub events : List (ℤ × ℕ)
  pub waiting : Bool

-- `buffer[0:len(bytes)] = bytes`
abbrev pub overwrite : List ℕ → List ℕ → List ℕ
overwrite bytes xs = bytes ++ drop (length bytes) xs

-- `buffer[0:n]`
abbrev pub slice_to : ℤ → List ℕ → List ℕ
slice_to (pos n) xs = take n xs
slice_to (negsuc n) xs = take (length xs - suc n) xs

-- `-err if err > 0 else err`
abbrev pub status_of : ℤ → ℤ
status_of e = if ltb_ℤ (pos 0) e then pos 0 -ℤ e else e

-- The dictionary of the sockets.
abbrev pub insert {ℓ} : {A : Type ℓ} → ℤ → A → (ℤ → Option A) → ℤ → Option A
insert k v d j = if eqb_ℤ j k then some v else d j

abbrev pub delete {ℓ} : {A : Type ℓ} → ℤ → (ℤ → Option A) → ℤ → Option A
delete k d j = if eqb_ℤ j k then none else d j

-- `_int_to_addr`; what is no address raises, and every caller catches that.
unfoldable pub int_to_addr : ℤ → ℤ → Option Address
int_to_addr ip_ver (negsuc n) = none
int_to_addr ip_ver (pos n) =
    if eqb_ℤ ip_ver ver_ipv4
    then (if fits 32 n then some (ipv4 n) else none)
    else if eqb_ℤ ip_ver ver_ipv6
    then (if fits 128 n then some (ipv6 n) else none)
    else none

-- `ipaddress.ip_address` on a number.
unfoldable pub ip_address : ℤ → Option Address
ip_address (negsuc n) = none
ip_address (pos n) = if fits 32 n then some (ipv4 n) else if fits 128 n then some (ipv6 n) else none

-- `_sock_ip_ver`
unfoldable pub ip_ver_of : Family → Option ℤ
ip_ver_of af_inet = some ver_ipv4
ip_ver_of af_inet6 = some ver_ipv6
ip_ver_of af_unspec = none

-- `os` is not imported, so there is no message for an error that brings none.
unfoldable pub strerror_of : ℤ → Option (List ℕ) → Result (List ℕ)
strerror_of e (some text) = ok text
strerror_of e none = if eqb_ℤ e (pos 0) then ok [] else err name_error

-- The message of an error, ended by a zero byte, goes to the buffer, if there is one.
abbrev pub with_message : {H : Host} → List ℕ → Internet H → Internet H
with_message [] s = s
with_message (c ∷ cs) s =
    let bytes = (c ∷ cs) ++ 0 ∷ [] in
    record s { buflen = some (length bytes); buffer = overwrite bytes s.buffer }

module _ {H : Host} where
  -- With the bytes of the new buffer and the state of the host.
  unfoldable pub init : H.World → Internet H
  init world = record {
    addr = pos 0;
    ip_ver = pos 0;
    proto = pos 0;
    command = pos 0;
    current_handle = negsuc 0;
    params = pos 0;
    status = pos 0;
    bufsize = pos maxbufsize;
    buffer = replicate maxbufsize 0;
    buflen = none;
    async_op = pos 0;
    async_handle = pos 0;
    async_done = false;
    sockets = λ _. none;
    world = world;
    events = [];
    waiting = false;
  }

  unfoldable pub set_error : ℤ → Option (List ℕ) → Exec (Internet H) ⊤
  unfolding ◌>>=◌ strerror_of
  set_error e strerror s = elim (strerror_of e strerror) [
    | err x ↦ (err x, s)
    | ok text ↦ (ok tt, record (with_message text s) { status = status_of e })
  ]

  -- `self._set_error(0)`
  unfoldable pub succeed : Exec (Internet H) ⊤
  unfolding set_error
  succeed = set_error (pos 0) none

  -- A call of the host.
  unfoldable pub call {ℓ} : {A : Type ℓ} → (H.World → A × H.World) → Internet H → A × Internet H
  call f s = let (a, w) = f s.world in (a, record s { world = w })

  -- `try: a = f()` with `except OSError as e: self._set_error(e.errno, e.strerror); return`.
  abbrev pub or_report {ℓ} :
      {A : Type ℓ} → (A → Exec (Internet H) ⊤) → Outcome A → Exec (Internet H) ⊤
  or_report next (value a) = next a
  or_report next (os_error e text) = set_error e text

  unfoldable pub attempt {ℓ} :
      {A : Type ℓ}
      → (H.World → Outcome A × H.World)
      → (A → Exec (Internet H) ⊤)
      → Exec (Internet H) ⊤
  unfolding call set_error
  attempt f next s = let (a, s') = call f s in or_report next a s'

  -- `if self.current_handle not in self.sockets: return`, and the socket.
  abbrev pub on_socket : Option H.Socket → (H.Socket → Exec (Internet H) ⊤) → Exec (Internet H) ⊤
  on_socket none next = pure tt
  on_socket (some sock) next = next sock

  unfoldable pub with_socket : (H.Socket → Exec (Internet H) ⊤) → Exec (Internet H) ⊤
  unfolding pure
  with_socket next s = on_socket (s.sockets s.current_handle) next s
