-- ===== src/Memory/Attach.antt =====
-- What `attach_hardware` and `load_file` of compyter/memory.py set up.
use compyter.Prelude.{
  ℕ, zero, suc, ◌+◌, ◌-◌, ◌≡◌, ◌∙◌, refl, arith, Option, none, some, List, [], ◌∷◌, ◌++◌, ◌&&◌, leb,
  ltb, ◌==◌, false, length, get_elem?, get_elem?-past, replicate, if◌then◌else◌, inl, inr,
  Bool-cases,
}
use compyter.Prelude.Int.{pos}
use compyter.Result.{map_ok, index, index_error, or_raise}
use compyter.Memory.{Bus, Memory, trap_base, get_item, set_item, claim, attach_hardware, load_file}

-- The loop claims the addresses that it runs over.
claim_lem :
    {D : Type 0} (n i : ℕ) (d : D) (mmio : ℕ → Option D) (a : ℕ)
    → claim n i d mmio a ≡ (if leb i a && ltb a (i + n) then some d else mmio a)
unfolding claim
claim_lem zero i d mmio a = ground arith
claim_lem (suc n) i d mmio a =
    claim_lem n (i + 1) d (λ b. if b == i then some d else mmio b) a ∙ ground arith

module _ {B : Bus} where
  -- Attaching a device gives it the addresses of its window, both ends included, from whatever had
  -- them before, and no other address.
  pub attach_hardware-window :
      (d : B.Device) (m : Memory B) (a : ℕ)
      → (attach_hardware d m).hardware_mmio a
        ≡ (if leb (B.addr_begin d) a && leb a (B.addr_end d) then some d else m.hardware_mmio a)
  unfolding attach_hardware
  attach_hardware-window d m a =
      claim_lem (B.addr_end d + 1 - B.addr_begin d) (B.addr_begin d) d m.hardware_mmio a
      ∙ ground arith

module _ {B : Bus} where
  -- An access to an address that a device has claimed, below the trap vectors, goes to the device.
  pub access :
      (m : Memory B) (d : B.Device) (a k v : ℕ)
      → m.hardware_mmio a ≡ some d
      → leb trap_base a ≡ false
      → a - B.addr_begin d ≡ k
      → (get_item m (pos a) ≡ B.get_item d k m.hardware)
        × (set_item m (pos a) v
            ≡ map_ok (λ h. record m { hardware = h }) (B.set_item d k v m.hardware))
  unfolding get_item set_item
  access m d a k v found low place = (rw (low, found, place) refl, rw (low, found, place) refl)

get_elem?-replicate :
    (n i : ℕ) → get_elem? (replicate {A = ℕ} n 0) i ≡ (if ltb i n then some 0 else none)
get_elem?-replicate zero i = ground arith
get_elem?-replicate (suc n) zero = ground arith
get_elem?-replicate (suc n) (suc i) = get_elem?-replicate n i ∙ ground arith

-- The byte of the image at an address: that of the file, and zeros behind it up to 4096 bytes.
abbrev pub image_byte : List ℕ → ℕ → Option ℕ
image_byte file a =
    if ltb a (length file) then get_elem? file a else if ltb a 4096 then some 0 else none

get_elem?-padded :
    (file : List ℕ) (k a : ℕ)
    → get_elem? (file ++ replicate k 0) a ≡ (
        if ltb a (length file)
        then get_elem? file a
        else if ltb a (length file + k)
        then some 0
        else none)
get_elem?-padded [] k a = get_elem?-replicate k a ∙ ground arith
get_elem?-padded (x ∷ file) k zero = ground arith
get_elem?-padded (x ∷ file) k (suc a) = get_elem?-padded file k a ∙ ground arith

pub get_elem?-load_file : (file : List ℕ) (a : ℕ) → get_elem? (load_file file) a ≡ image_byte file a
unfolding load_file
get_elem?-load_file file a = elim (Bool-cases (ltb (length file) 4096)) [
  | inl short ↦ rw short (get_elem?-padded file (4096 - length file) a ∙ ground (arith, short))
  | inr long ↦ rw long (elim (Bool-cases (ltb a (length file))) [
    | inl inside ↦ rw inside refl
    | inr outside ↦
        rw outside (get_elem?-past file a (ground (arith, outside)) ∙ ground (arith, long, outside))
  ])
]

-- A read of a list that is in front of its end, or an IndexError.
pub index-get_elem? :
    (xs : List ℕ) (a : ℕ) → index xs (pos a) ≡ or_raise (get_elem? xs a) index_error
index-get_elem? xs a = elim (Bool-cases (ltb a (length xs))) [
  | inl inside ↦ rw inside refl
  | inr outside ↦ rw (outside, get_elem?-past xs a (ground (arith, outside))) refl
]
