-- ===== src/Assembler/Grammar.antt =====
-- assembler/grammar.py: the table of the instructions with their operands, the names of the registers
-- and the numbers that the parse actions make. The texts that match are pyparsing's business.
pub mod Methods
pub mod Tables
use Prim.Native.String.{String}
use compyter.Prelude.{ℕ, ◌+◌, List, [], ◌∷◌}
use compyter.Prelude.Int.{ℤ, mask}

-- The parse action of the three kinds of integer literals.
unfoldable pub int_literal : ℤ → ℕ
int_literal n = mask 0xffffffff n

-- `inst_op_reg`, `inst_op_addr` and `inst_op_immed`: a register, an address or a label, and an integer, a
-- real number or a label.
pub data Operand : Type 0 where
  reg addr immed : Operand

abbrev pub inst_op_reg : List Operand
inst_op_reg = reg ∷ []

abbrev pub inst_op_addr : List Operand
inst_op_addr = addr ∷ []

abbrev pub inst_op_reg_addr : List Operand
inst_op_reg_addr = reg ∷ addr ∷ []

abbrev pub inst_op_reg_reg : List Operand
inst_op_reg_reg = reg ∷ reg ∷ []

abbrev pub inst_op_reg_immed : List Operand
inst_op_reg_immed = reg ∷ immed ∷ []

abbrev pub inst_op_reg_reg_reg : List Operand
inst_op_reg_reg_reg = reg ∷ reg ∷ reg ∷ []

abbrev pub inst_op_reg_reg_addr : List Operand
inst_op_reg_reg_addr = reg ∷ reg ∷ addr ∷ []

abbrev pub inst_op_reg_immed_reg : List Operand
inst_op_reg_immed_reg = reg ∷ immed ∷ reg ∷ []

abbrev pub inst_op_reg_immed_addr : List Operand
inst_op_reg_immed_addr = reg ∷ immed ∷ addr ∷ []

abbrev pub inst_op_immed_reg : List Operand
inst_op_immed_reg = immed ∷ reg ∷ []

abbrev pub inst_op_immed_addr : List Operand
inst_op_immed_addr = immed ∷ addr ∷ []

-- `inst_ops`; `None` is no operand.
unfoldable pub inst_ops : List (String × List Operand)
inst_ops =
    ("nop", [])
    ∷ ("savew", inst_op_reg_addr)
    ∷ ("loadw", inst_op_reg_addr)
    ∷ ("saveb", inst_op_reg_addr)
    ∷ ("loadb", inst_op_reg_addr)
    ∷ ("savewr", inst_op_reg_reg)
    ∷ ("loadwr", inst_op_reg_reg)
    ∷ ("savebr", inst_op_reg_reg)
    ∷ ("loadbr", inst_op_reg_reg)
    ∷ ("savewi", inst_op_immed_addr)
    ∷ ("loadwi", inst_op_reg_immed)
    ∷ ("savebi", inst_op_immed_addr)
    ∷ ("loadbi", inst_op_reg_immed)
    ∷ ("savewri", inst_op_immed_reg)
    ∷ ("savebri", inst_op_immed_reg)
    ∷ ("add", inst_op_reg_reg_reg)
    ∷ ("sub", inst_op_reg_reg_reg)
    ∷ ("mul", inst_op_reg_reg_reg)
    ∷ ("div", inst_op_reg_reg_reg)
    ∷ ("mod", inst_op_reg_reg_reg)
    ∷ ("addi", inst_op_reg_immed_reg)
    ∷ ("subi", inst_op_reg_immed_reg)
    ∷ ("muli", inst_op_reg_immed_reg)
    ∷ ("divi", inst_op_reg_immed_reg)
    ∷ ("modi", inst_op_reg_immed_reg)
    ∷ ("jmp", inst_op_addr)
    ∷ ("jmpr", inst_op_reg)
    ∷ ("jmplt", inst_op_reg_reg_addr)
    ∷ ("jmpgt", inst_op_reg_reg_addr)
    ∷ ("jmple", inst_op_reg_reg_addr)
    ∷ ("jmpge", inst_op_reg_reg_addr)
    ∷ ("jmpeq", inst_op_reg_reg_addr)
    ∷ ("jmpne", inst_op_reg_reg_addr)
    ∷ ("jmplti", inst_op_reg_immed_addr)
    ∷ ("jmpgti", inst_op_reg_immed_addr)
    ∷ ("jmplei", inst_op_reg_immed_addr)
    ∷ ("jmpgei", inst_op_reg_immed_addr)
    ∷ ("jmpeqi", inst_op_reg_immed_addr)
    ∷ ("jmpnei", inst_op_reg_immed_addr)
    ∷ ("jmpltr", inst_op_reg_reg_reg)
    ∷ ("jmpgtr", inst_op_reg_reg_reg)
    ∷ ("jmpler", inst_op_reg_reg_reg)
    ∷ ("jmpger", inst_op_reg_reg_reg)
    ∷ ("jmpeqr", inst_op_reg_reg_reg)
    ∷ ("jmpner", inst_op_reg_reg_reg)
    ∷ ("jmpltri", inst_op_reg_reg_reg)
    ∷ ("jmpgtri", inst_op_reg_reg_reg)
    ∷ ("jmpleri", inst_op_reg_reg_reg)
    ∷ ("jmpgeri", inst_op_reg_reg_reg)
    ∷ ("jmpeqri", inst_op_reg_reg_reg)
    ∷ ("jmpneri", inst_op_reg_reg_reg)
    ∷ ("halt", [])
    ∷ ("intr", [])
    ∷ ("rfe", [])
    ∷ ("wait", [])
    ∷ ("swap", inst_op_reg_reg)
    ∷ ("copy", inst_op_reg_reg)
    ∷ ("and", inst_op_reg_reg_reg)
    ∷ ("or", inst_op_reg_reg_reg)
    ∷ ("xor", inst_op_reg_reg_reg)
    ∷ ("andi", inst_op_reg_immed_reg)
    ∷ ("ori", inst_op_reg_immed_reg)
    ∷ ("xori", inst_op_reg_immed_reg)
    ∷ ("not", inst_op_reg_reg)
    ∷ ("shl", inst_op_reg_reg_reg)
    ∷ ("shr", inst_op_reg_reg_reg)
    ∷ ("shli", inst_op_reg_immed_reg)
    ∷ ("shri", inst_op_reg_immed_reg)
    ∷ ("cpuid", [])
    ∷ ("strapr", inst_op_reg_addr)
    ∷ ("strapi", inst_op_immed_addr)
    ∷ []

-- The position that `keyword_parse_action` puts in place of the name.
unfoldable pub opcodes_from : ℕ → List (String × List Operand) → List (String × ℕ)
opcodes_from i [] = []
opcodes_from i ((name, op) ∷ ops) = (name, i) ∷ opcodes_from (i + 1) ops

unfoldable pub opcodes : List (String × ℕ)
unfolding opcodes_from inst_ops
opcodes = opcodes_from 0 inst_ops

-- `reg_map`
unfoldable pub reg_map : List (String × ℕ)
reg_map =
    ("0", 0x0)
    ∷ ("1", 0x1)
    ∷ ("2", 0x2)
    ∷ ("3", 0x3)
    ∷ ("4", 0x4)
    ∷ ("5", 0x5)
    ∷ ("6", 0x6)
    ∷ ("7", 0x7)
    ∷ ("8", 0x8)
    ∷ ("9", 0x9)
    ∷ ("10", 0xa)
    ∷ ("11", 0xb)
    ∷ ("12", 0xc)
    ∷ ("13", 0xd)
    ∷ ("14", 0xe)
    ∷ ("15", 0xf)
    ∷ ("16", 0x10)
    ∷ ("17", 0x11)
    ∷ ("18", 0x12)
    ∷ ("19", 0x13)
    ∷ ("20", 0x14)
    ∷ ("21", 0x15)
    ∷ ("22", 0x16)
    ∷ ("23", 0x17)
    ∷ ("24", 0x18)
    ∷ ("25", 0x19)
    ∷ ("26", 0x1a)
    ∷ ("27", 0x1b)
    ∷ ("28", 0x1c)
    ∷ ("29", 0x1d)
    ∷ ("30", 0x1e)
    ∷ ("31", 0x1f)
    ∷ ("pc", 0x20)
    ∷ ("sp", 0x21)
    ∷ ("result", 0x22)
    ∷ ("res", 0x22)
    ∷ ("carry", 0x23)
    ∷ ("c", 0x23)
    ∷ ("ret", 0x24)
    ∷ ("return", 0x24)
    ∷ ("status", 0x25)
    ∷ ("stat", 0x25)
    ∷ ("vaddr", 0x26)
    ∷ ("va", 0x26)
    ∷ ("baseptr", 0x27)
    ∷ ("bp", 0x27)
    ∷ []
