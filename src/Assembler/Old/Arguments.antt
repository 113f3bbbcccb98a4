-- ===== src/Assembler/Old/Arguments.antt =====
-- Numbers and arguments of old/assembler.py, printed and read again.
use Prim.Native.Char.{Char, code}
use Prim.Native.String.{String, [] as empty, ◌∷◌ as ◌▹◌}
use compyter.Prelude.{
  ℕ, suc, ◌<◌, ◌≤◌, ◌≡◌, refl, ap, arith, Bool, true, false, List, [], ◌∷◌, map, length, All, ◌==◌,
}
use compyter.Prelude.Int.{ℤ, pos, negsuc}
use compyter.Result.{ok, map_ok, ◌>>=◌}
use compyter.Cpu.Decode.{ArgType, ia_none, ia_immed, ia_addr, ia_reg}
use compyter.Assembler.Old.{Arg, ref, number}
use compyter.Assembler.Old.Text.{is_space, int}
use compyter.Assembler.Old.Source.{ints, read_arg, read_args}
use compyter.Assembler.Old.Printer.{
  hex_digit, print_int, print_arg, is_plain, AllChars, IsWord, IsPlainArg, is_taken, Fits, stops,
  skips, takes,
}
use compyter.Assembler.Old.Numbers.{
  not_dot, hex_digit-not_dot, AllChars-hex, hex_digit-plain, int-print_int,
}

-- What holds of the digits and of the sign.
AllChars-print_int :
    (test : Char → Bool) (n : ℤ)
    → ((d : ℕ) → d < 16 → test (hex_digit d) ≡ true)
    → test "-" ≡ true
    → AllChars test (print_int n)
unfolding print_int
AllChars-print_int test (pos n) digits sign = AllChars-hex test n n digits (omega arith)
AllChars-print_int test (negsuc n) digits sign =
    (sign, AllChars-hex test (suc n) (suc n) digits (omega arith))

int-IsWord : (s : String) (n : ℤ) → int s ≡ ok n → AllChars is_plain s → IsWord s
unfolding int
int-IsWord empty n h all = cc
int-IsWord (c ▹ s) n h all = all

pub print_int-IsWord : (n : ℤ) → IsWord (print_int n)
unfolding is_plain is_space
print_int-IsWord n =
    int-IsWord (print_int n) n (int-print_int n)
      (AllChars-print_int is_plain n hex_digit-plain refl)

pub map-print_int-IsWord : (ns : List ℤ) → All IsWord (map print_int ns)
map-print_int-IsWord [] = tt
map-print_int-IsWord (n ∷ ns) = (print_int-IsWord n, map-print_int-IsWord ns)

pub ints-print_int : (ns : List ℤ) → ints (map print_int ns) ≡ ok ns
unfolding ints
ints-print_int [] = refl
ints-print_int (n ∷ ns) = rw (int-print_int n, ints-print_int ns) refl

read_arg-number :
    (s : String) (n : ℤ) → int s ≡ ok n → AllChars not_dot s → read_arg s ≡ ok (number n)
unfolding read_arg
read_arg-number empty n h all = ap (map_ok number) h
read_arg-number (c ▹ s) n h (first, rest) =
    let other : code c == 46 ≡ false = ground arith in rw other (ap (map_ok number) h)

pub read_arg-print_arg : (a : Arg) → read_arg (print_arg a) ≡ ok a
unfolding read_arg print_arg
read_arg-print_arg (ref l) = refl
read_arg-print_arg (number n) =
    read_arg-number (print_int n) n (int-print_int n)
      (AllChars-print_int not_dot n hex_digit-not_dot refl)

print_arg-IsWord : (a : Arg) → IsPlainArg a → IsWord (print_arg a)
unfolding print_arg is_plain is_space
print_arg-IsWord (ref l) h = (refl, h)
print_arg-IsWord (number n) h = print_int-IsWord n

pub Fits-IsWord :
    (ts : List ArgType) (args : List Arg) → Fits ts args → All IsWord (map print_arg args)
Fits-IsWord ts _ (stops _) = tt
Fits-IsWord _ _ (skips ts args rest) =
    (print_arg-IsWord (number (pos 0)) tt, Fits-IsWord ts args rest)
Fits-IsWord _ _ (takes t ts arg args taken h rest) =
    (print_arg-IsWord arg h, Fits-IsWord ts args rest)

pub Fits-length :
    (ts : List ArgType) (args : List Arg) → Fits ts args → length (map print_arg args) ≤ length ts
Fits-length ts _ (stops _) = omega arith
Fits-length _ _ (skips ts args rest) = omega (arith, Fits-length ts args rest)
Fits-length _ _ (takes t ts arg args taken h rest) = omega (arith, Fits-length ts args rest)

read_args-taken :
    (t : ArgType) (ts : List ArgType) (w : String) (ws : List String)
    → is_taken t ≡ true
    → read_args (t ∷ ts) (w ∷ ws) ≡ (do arg ← read_arg w; args ← read_args ts ws; ok (arg ∷ args))
unfolding read_args
read_args-taken ia_none ts w ws h = cc
read_args-taken ia_immed ts w ws h = refl
read_args-taken ia_addr ts w ws h = refl
read_args-taken ia_reg ts w ws h = refl

pub read_args-print_arg :
    (ts : List ArgType) (args : List Arg)
    → Fits ts args
    → read_args ts (map print_arg args) ≡ ok args
unfolding read_args
read_args-print_arg [] _ (stops _) = refl
read_args-print_arg (t ∷ ts) _ (stops _) = refl
read_args-print_arg _ _ (skips ts args rest) = rw (read_args-print_arg ts args rest) refl
read_args-print_arg _ _ (takes t ts arg args taken h rest) =
    rw
      (
        read_args-taken t ts (print_arg arg) (map print_arg args) taken,
        read_arg-print_arg arg,
        read_args-print_arg ts args rest,
      )
      refl
