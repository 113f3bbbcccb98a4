-- ===== src/Cpu/Jumps/Keeps.antt =====
-- The jumps of compyter/cpu.py leave the cache in agreement with memory.
use compyter.Prelude.Int.{ℤ}
use compyter.Memory.{Bus}
use compyter.Cpu.Jumps.{
  jmpr, jmpeq, jmpeqi, jmpeqr, jmpeqri, jmpne, jmpnei, jmpner, jmpneri, jmpgt, jmpgti, jmpgtr,
  jmpgtri, jmpge, jmpgei, jmpger, jmpgeri, jmplt, jmplti, jmpltr, jmpltri, jmple, jmplei, jmpler,
  jmpleri,
}
use compyter.Cpu.Keeps.{Keeps, keeps, jmp-Keeps}

module _ {B : Bus} where
  pub jmpr-Keeps : (a : ℤ) → Keeps {B = B} (jmpr a)
  unfolding jmpr
  jmpr-Keeps a = search (keeps, jmp-Keeps)

  pub jmpeq-Keeps : (a b c : ℤ) → Keeps {B = B} (jmpeq a b c)
  unfolding jmpeq
  jmpeq-Keeps a b c = search (keeps, jmp-Keeps)

  pub jmpeqi-Keeps : (a b c : ℤ) → Keeps {B = B} (jmpeqi a b c)
  unfolding jmpeqi
  jmpeqi-Keeps a b c = search (keeps, jmpeq-Keeps)

  pub jmpeqr-Keeps : (a b c : ℤ) → Keeps {B = B} (jmpeqr a b c)
  unfolding jmpeqr
  jmpeqr-Keeps a b c = search (keeps, jmpeq-Keeps)

  pub jmpeqri-Keeps : (a b c : ℤ) → Keeps {B = B} (jmpeqri a b c)
  unfolding jmpeqri
  jmpeqri-Keeps a b c = search (keeps, jmpeqi-Keeps)

  pub jmpne-Keeps : (a b c : ℤ) → Keeps {B = B} (jmpne a b c)
  unfolding jmpne
  jmpne-Keeps a b c = search (keeps, jmp-Keeps)

  pub jmpnei-Keeps : (a b c : ℤ) → Keeps {B = B} (jmpnei a b c)
  unfolding jmpnei
  jmpnei-Keeps a b c = search (keeps, jmpne-Keeps)

  pub jmpner-Keeps : (a b c : ℤ) → Keeps {B = B} (jmpner a b c)
  unfolding jmpner
  jmpner-Keeps a b c = search (keeps, jmpne-Keeps)

  pub jmpneri-Keeps : (a b c : ℤ) → Keeps {B = B} (jmpneri a b c)
  unfolding jmpneri
  jmpneri-Keeps a b c = search (keeps, jmpnei-Keeps)

  pub jmpgt-Keeps : (a b c : ℤ) → Keeps {B = B} (jmpgt a b c)
  unfolding jmpgt
  jmpgt-Keeps a b c = search (keeps, jmp-Keeps)

  pub jmpgti-Keeps : (a b c : ℤ) → Keeps {B = B} (jmpgti a b c)
  unfolding jmpgti
  jmpgti-Keeps a b c = search (keeps, jmpgt-Keeps)

  pub jmpgtr-Keeps : (a b c : ℤ) → Keeps {B = B} (jmpgtr a b c)
  unfolding jmpgtr
  jmpgtr-Keeps a b c = search (keeps, jmpgt-Keeps)

  pub jmpgtri-Keeps : (a b c : ℤ) → Keeps {B = B} (jmpgtri a b c)
  unfolding jmpgtri
  jmpgtri-Keeps a b c = search (keeps, jmpgti-Keeps)

  pub jmpge-Keeps : (a b c : ℤ) → Keeps {B = B} (jmpge a b c)
  unfolding jmpge
  jmpge-Keeps a b c = search (keeps, jmp-Keeps)

  pub jmpgei-Keeps : (a b c : ℤ) → Keeps {B = B} (jmpgei a b c)
  unfolding jmpgei
  jmpgei-Keeps a b c = search (keeps, jmpge-Keeps)

  pub jmpger-Keeps : (a b c : ℤ) → Keeps {B = B} (jmpger a b c)
  unfolding jmpger
  jmpger-Keeps a b c = search (keeps, jmpge-Keeps)

  pub jmpgeri-Keeps : (a b c : ℤ) → Keeps {B = B} (jmpgeri a b c)
  unfolding jmpgeri
  jmpgeri-Keeps a b c = search (keeps, jmpgei-Keeps)

  pub jmplt-Keeps : (a b c : ℤ) → Keeps {B = B} (jmplt a b c)
  unfolding jmplt
  jmplt-Keeps a b c = search (keeps, jmp-Keeps)

  pub jmplti-Keeps : (a b c : ℤ) → Keeps {B = B} (jmplti a b c)
  unfolding jmplti
  jmplti-Keeps a b c = search (keeps, jmplt-Keeps)

  pub jmpltr-Keeps : (a b c : ℤ) → Keeps {B = B} (jmpltr a b c)
  unfolding jmpltr
  jmpltr-Keeps a b c = search (keeps, jmplt-Keeps)

  pub jmpltri-Keeps : (a b c : ℤ) → Keeps {B = B} (jmpltri a b c)
  unfolding jmpltri
  jmpltri-Keeps a b c = search (keeps, jmplti-Keeps)

  pub jmple-Keeps : (a b c : ℤ) → Keeps {B = B} (jmple a b c)
  unfolding jmple
  jmple-Keeps a b c = search (keeps, jmp-Keeps)

  pub jmplei-Keeps : (a b c : ℤ) → Keeps {B = B} (jmplei a b c)
  unfolding jmplei
  jmplei-Keeps a b c = search (keeps, jmple-Keeps)

  pub jmpler-Keeps : (a b c : ℤ) → Keeps {B = B} (jmpler a b c)
  unfolding jmpler
  jmpler-Keeps a b c = search (keeps, jmple-Keeps)

  pub jmpleri-Keeps : (a b c : ℤ) → Keeps {B = B} (jmpleri a b c)
  unfolding jmpleri
  jmpleri-Keeps a b c = search (keeps, jmplei-Keeps)
