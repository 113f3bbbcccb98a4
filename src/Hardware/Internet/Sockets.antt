-- ===== src/Hardware/Internet/Sockets.antt =====
-- What the network device (compyter/hardware/internet.py) asks of the host: Python's `socket`,
-- `selectors` and `ipaddress`. A message that the host
-- hands over is its bytes in UTF-8, the name of a host its characters.
use compyter.Prelude.{ℕ, ◌^◌, Bool, Option, List, ltb}
use compyter.Prelude.Int.{ℤ}
use compyter.Result.{Result}
use compyter.Exec.{⊤}

pub data Family : Type 0 where
  af_unspec af_inet af_inet6 : Family

pub data Kind : Type 0 where
  unspec sock_stream sock_dgram : Kind

-- An `IPv4Address` or an `IPv6Address`, as its number.
pub data Address : Type 0 where
  ipv4 ipv6 : ℕ → Address

-- `int(address)`
abbrev pub int : Address → ℕ
int (ipv4 n) = n
int (ipv6 n) = n

-- What a call comes to: a value, or an `OSError` with its `errno` and its `strerror`.
pub data Outcome {ℓ} (A : Type ℓ) : Type ℓ where
  value : A → Outcome A
  os_error : ℤ → Option (List ℕ) → Outcome A

-- What `except Exception` catches: `_int_to_addr` of a version and a number, `ip_address` of a number, and
-- the decoding of `buflen` bytes of the buffer.
pub data Invalid : Type 0 where
  no_addr : Option ℤ → ℤ → Invalid
  no_ip_address : ℤ → Invalid
  no_text : Option ℕ → List ℕ → Invalid

-- `World` is all that calls read and change. Flags are `true` for `MSG_OOB`.
pub record Host : Type 1 where
  pub World : Type 0
  pub Socket : Type 0
  pub fileno : Socket → ℤ
  pub family : Socket → Family
  pub socket : Family → Kind → World → Outcome Socket × World
  pub bind : Socket → Address → ℕ → World → Outcome ⊤ × World
  pub connect : Socket → Address → ℕ → World → Outcome ⊤ × World
  pub listen : Socket → ℤ → World → Outcome ⊤ × World
  pub accept : Socket → World → Outcome (Socket × Address × ℕ) × World
  pub close : Socket → World → Outcome ⊤ × World
  pub recv : Socket → ℕ → Bool → World → Outcome (List ℕ) × World
  pub send : Socket → List ℕ → Bool → World → Outcome ℕ × World
  pub recvfrom : Socket → ℕ → Bool → World → Outcome (List ℕ) × World
  pub sendto : Socket → List ℕ → Bool → Address → ℕ → World → Outcome ℕ × World
  pub getnameinfo : List ℕ → World → Outcome (List ℕ) × World
  pub encode_idna : List ℕ → Result (List ℕ)
  pub setblocking : Socket → Bool → World → Outcome ⊤ × World
  pub register : Socket → ℕ → World → Result ⊤ × World
  pub unregister : Socket → World → Result ⊤ × World
  -- `str(e)` for the exceptions that the device catches by `except Exception`.
  pub message : Invalid → List ℕ

-- `IPv4Address(n)` and `IPv6Address(n)` take the numbers of 32 and of 128 bits.
abbrev pub fits : ℕ → ℕ → Bool
fits bits n = ltb n (2 ^ bits)
