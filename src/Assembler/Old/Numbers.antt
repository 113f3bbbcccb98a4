-- ===== src/Assembler/Old/Numbers.antt =====
-- `int` of old/assembler.py reads the numbers that are printed for it.
use Prim.Native.Char.{Char, code}
use Prim.Native.String.{String, [] as empty, ◌∷◌ as ◌▹◌}
use compyter.Prelude.{
  ℕ, zero, suc, ◌+◌, ◌*◌, ◌/◌, ◌%◌, ◌<◌, ◌≤◌, ◌≡◌, refl, sym, ap, ◌∙◌, arith, Bool, true, false,
  Option, none, some, ltb, ◌==◌, ◌&&◌, not, Bool-cases, Option-cases, inl, inr, if◌then◌else◌,
}
use mathlib.Core.Path.{subst}
use compyter.Prelude.Int.{ℤ, pos, negsuc, sub_ℕ}
use compyter.Result.{ok}
use compyter.Assembler.Old.Text.{is_space, digit, digits, unsigned, int}
use compyter.Assembler.Old.Printer.{append, hex_digit, hex, print_int, is_plain, AllChars}

-- A test holds of the numbers below a bound.
abbrev below : ℕ → (ℕ → Bool) → Bool
below zero test = true
below (suc n) test = test n && below n test

below-lt : (n d : ℕ) (test : ℕ → Bool) → below n test ≡ true → d < n → test d ≡ true
below-lt zero d test h lt = elim lt [ ]
below-lt (suc n) d test h lt = elim (Bool-cases (d == n)) [
  | inl same ↦ let e : n ≡ d = ground arith in subst (λ k. test k ≡ true) e (ground arith)
  | inr other ↦ below-lt n d test (ground arith) (ground arith)
]

abbrev is_some : ℕ → Option ℕ → Bool
is_some n none = false
is_some n (some m) = n == m

is_some-eq : (n : ℕ) (o : Option ℕ) → is_some n o ≡ true → o ≡ some n
is_some-eq n none h = cc
is_some-eq n (some m) h = let e : m ≡ n = ground arith in ap some e

digit-hex_digit : (d : ℕ) → d < 16 → digit (code (hex_digit d)) ≡ some d
unfolding digit hex_digit
digit-hex_digit d h =
    let t : is_some d (digit (code (hex_digit d))) ≡ true =
      below-lt 16 d (λ d. is_some d (digit (code (hex_digit d)))) refl h in
    is_some-eq d (digit (code (hex_digit d))) t

pub hex_digit-plain : (d : ℕ) → d < 16 → is_plain (hex_digit d) ≡ true
unfolding is_plain hex_digit is_space
hex_digit-plain d h = below-lt 16 d (λ d. is_plain (hex_digit d)) refl h

abbrev pub not_dot : Char → Bool
not_dot c = not (code c == 46)

pub hex_digit-not_dot : (d : ℕ) → d < 16 → not_dot (hex_digit d) ≡ true
unfolding hex_digit
hex_digit-not_dot d h = below-lt 16 d (λ d. not_dot (hex_digit d)) refl h

-- A digit is neither a sign nor the underscore nor the `x` of a prefix.
digit-ne :
    (n d : ℕ)
    → digit n ≡ some d
    → (n == 45 ≡ false)
      × (n == 43 ≡ false)
      × (n == 95 ≡ false)
      × (n == 120 ≡ false)
      × (n == 88 ≡ false)
unfolding digit
digit-ne n d h = (ground arith, ground arith, ground arith, ground arith, ground arith)

digits-underscore :
    (n : ℕ) (last : Bool) (c : Char) (s : String)
    → code c == 95 ≡ true
    → digits n last (c ▹ s) ≡ (if last then digits n false s else none)
unfolding digits
digits-underscore n last c s h = rw h refl

digits-step :
    (n : ℕ) (last : Bool) (c : Char) (s : String) (o : Option ℕ)
    → code c == 95 ≡ false
    → digit (code c) ≡ o
    → digits n last (c ▹ s) ≡ (elim o [ none ↦ none | some d ↦ digits (n * 16 + d) true s ])
unfolding digits
digits-step n last c s o h e = rw (h, e) refl

digits-end : (n m : ℕ) (last : Bool) → digits n last empty ≡ some m → n ≡ m
unfolding digits
digits-end n m true h = cc
digits-end n m false h = cc

if-some :
    (b : Bool) (o o' : Option ℕ) (m m' : ℕ)
    → (o ≡ some m → o' ≡ some m')
    → (if b then o else none) ≡ some m
    → (if b then o' else none) ≡ some m'
if-some true o o' m m' f h = f h
if-some false o o' m m' f h = cc

digits-append :
    (s : String) (c : Char) (n m d : ℕ) (last : Bool)
    → digits n last s ≡ some m
    → digit (code c) ≡ some d
    → digits n last (append s (c ▹ empty)) ≡ some (m * 16 + d)
unfolding digits
digits-append empty c n m d last h e =
    let (_, _, u, _, _) = digit-ne (code c) d e in
    rw (digits-step n last c empty (some d) u e, digits-end n m last h) refl
digits-append (x ▹ s) c n m d last h e = elim (Bool-cases (code x == 95)) [
  | inl u ↦ rw (digits-underscore n last x (append s (c ▹ empty)) u) (
      if-some last _ _ m (m * 16 + d) (λ g. digits-append s c n m d false g e)
        (rw (digits-underscore n last x s u) at h))
  | inr u ↦ elim (Option-cases (digit (code x))) [
    | inl o ↦ let no : none ≡ some m = rw (digits-step n last x s none u o) at h in cc
    | inr (k, o) ↦
        rw (digits-step n last x (append s (c ▹ empty)) (some k) u o) (
          digits-append s c (n * 16 + k) m d true (rw (digits-step n last x s (some k) u o) at h) e)
  ]
]

abbrev is_known : Option ℕ → Bool
is_known none = false
is_known (some n) = true

abbrev is_digit : Char → Bool
is_digit c = is_known (digit (code c))

hex-small : (k n : ℕ) → ltb n 16 ≡ true → hex (suc k) n ≡ hex_digit n ▹ empty
unfolding hex
hex-small k n h = rw (hex, h) refl

hex-large :
    (k n : ℕ)
    → ltb n 16 ≡ false
    → hex (suc k) n ≡ append (hex k (n / 16)) (hex_digit (n % 16) ▹ empty)
unfolding hex
hex-large k n h = rw (hex, h) refl

pub AllChars-append :
    (test : Char → Bool) (s t : String)
    → AllChars test s
    → AllChars test t
    → AllChars test (append s t)
AllChars-append test empty t hs ht = ht
AllChars-append test (c ▹ s) t (h, hs) ht = (h, AllChars-append test s t hs ht)

-- What holds of the sixteen digits holds of every printed number.
pub AllChars-hex :
    (test : Char → Bool) (k n : ℕ)
    → ((d : ℕ) → d < 16 → test (hex_digit d) ≡ true)
    → n ≤ k
    → AllChars test (hex k n)
unfolding hex
AllChars-hex test zero n f h = (f n (omega arith), tt)
AllChars-hex test (suc k) n f h = elim (Bool-cases (ltb n 16)) [
  | inl small ↦ subst (AllChars test) (sym (hex-small k n small)) (f n (ground arith), tt)
  | inr large ↦ subst (AllChars test) (sym (hex-large k n large)) (
      AllChars-append test (hex k (n / 16)) (hex_digit (n % 16) ▹ empty)
        (AllChars-hex test k (n / 16) f (ground arith)) (f (n % 16) (omega arith), tt))
]

hex_digit-digit : (d : ℕ) → d < 16 → is_digit (hex_digit d) ≡ true
hex_digit-digit d h = ap is_known (digit-hex_digit d h)

digits-one : (d : ℕ) → d < 16 → digits 0 false (hex_digit d ▹ empty) ≡ some d
unfolding digits
digits-one d h =
    let found = digit-hex_digit d h in
    let (_, _, u, _, _) = digit-ne (code (hex_digit d)) d found in
    digits-step 0 false (hex_digit d) empty (some d) u found ∙ ap some (omega arith)

-- The digits of a number are read as the number.
digits-hex : (k n : ℕ) → n ≤ k → digits 0 false (hex k n) ≡ some n
unfolding hex
digits-hex zero n h = digits-one n (omega arith)
digits-hex (suc k) n h = elim (Bool-cases (ltb n 16)) [
  | inl small ↦ ap (digits 0 false) (hex-small k n small) ∙ digits-one n (ground arith)
  | inr large ↦
      ap (digits 0 false) (hex-large k n large)
      ∙ digits-append (hex k (n / 16)) (hex_digit (n % 16)) 0 (n / 16) (n % 16) false
          (digits-hex k (n / 16) (ground arith)) (digit-hex_digit (n % 16) (omega arith))
      ∙ ap some (omega arith)
]

is_digit-some : (c : Char) → is_digit c ≡ true → (d : ℕ) × (digit (code c) ≡ some d)
is_digit-some c h = elim (Option-cases (digit (code c))) [
  | inl none_ ↦ let no : false ≡ true = sym (ap is_known none_) ∙ h in cc
  | inr found ↦ found
]

digits-empty : (n : ℕ) → digits 0 false empty ≡ some n → ⊥
unfolding digits
digits-empty n h = cc

unsigned-digits :
    (s : String) (n : ℕ) → AllChars is_digit s → digits 0 false s ≡ some n → unsigned s ≡ some n
unfolding unsigned
unsigned-digits empty n all h = absurd (digits-empty n h)
unsigned-digits (c ▹ empty) n all h = h
unsigned-digits (c ▹ (x ▹ s)) n (_, (all, _)) h =
    let (d, found) = is_digit-some x all in
    let (_, _, _, lower, upper) = digit-ne (code x) d found in
    elim (Bool-cases (code c == 48)) [
      | inl nought ↦ rw (nought, lower, upper) h
      | inr other ↦ rw other h
    ]

int-digits :
    (s : String) (n : ℕ) → AllChars is_digit s → digits 0 false s ≡ some n → int s ≡ ok (pos n)
unfolding int
int-digits empty n all h = absurd (digits-empty n h)
int-digits (c ▹ s) n (first, rest) h =
    let (d, found) = is_digit-some c first in
    let (minus, plus, _, _, _) = digit-ne (code c) d found in
    rw (minus, plus, unsigned-digits (c ▹ s) n (first, rest) h) refl

int-negative : (s : String) (n : ℕ) → unsigned s ≡ some (suc n) → int ("-" ▹ s) ≡ ok (negsuc n)
unfolding int
int-negative s n h = let below_0 : sub_ℕ 0 (suc n) ≡ negsuc n = ground arith in rw h (ap ok below_0)

-- Every number is read from its print.
pub int-print_int : (n : ℤ) → int (print_int n) ≡ ok n
unfolding print_int
int-print_int (pos n) =
    int-digits (hex n n) n (AllChars-hex is_digit n n hex_digit-digit (omega arith))
      (digits-hex n n (omega arith))
int-print_int (negsuc n) =
    let s = hex (suc n) (suc n) in
    int-negative s n (
      unsigned-digits s (suc n)
        (AllChars-hex is_digit (suc n) (suc n) hex_digit-digit (omega arith))
        (digits-hex (suc n) (suc n) (omega arith)))
