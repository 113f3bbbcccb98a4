-- ===== src/Lib.antt =====
-- A model of compyter, an emulator of a 32-bit computer in Python, and proofs about it.
--
-- The program. `compyter/cpu.py` holds the processor: the traps, one method for every instruction, the
-- table of the instructions, and `decode_next_instr`, which fetches four words, checks the operands
-- and calls a method. It keeps its registers in a `RegisterFile` (`compyter/register.py`), which
-- refuses the privileged registers in user mode and takes a pending interrupt on a write. Memory
-- accesses go through the `MMU` (`compyter/mmu.py`) with the caches before its methods, to the
-- `Memory` (`compyter/memory.py`), which sends an address to the trap vectors, to the device that
-- claims it, or to RAM. The devices (`compyter/hardware/`) read and write their registers by the byte
-- with `compyter/util.py`. `compyter/machine.py` puts the parts together. `assemble.py` turns a
-- program that `assembler/grammar.py` has parsed into an image.
--
-- The files.
--   Prelude, Prelude/*: shared names; Int has the integers of Python with their bitwise operators, Bits
--     the laws of the bitwise operators on numbers.
--   Result: exceptions and what raises them. Exec: methods as functions from a state to a result and a
--     state. What was written before an exception stays written.
--   Util: `compyter/util.py`. Util/WordByte: the bytes of a word in a device register.
--   Memory: `compyter/memory.py`, over a `Bus`, which is the class `Hardware` of
--     `compyter/hardware/__init__.py` as a record: the devices, their windows and their operations on
--     a joint state. Memory/Cells: RAM and trap vectors as cells. Memory/Attach: windows and images.
--   Pte: `class PTE`, with its bytes in Pte/Bytes. Cache: `functools.lru_cache`, as `compyter/mmu.py` uses
--     it. Pte/Access: the three bits of an access. Mmu: `class MMU`. Mmu/Coherence: the cached read
--     against the memory. Mmu/Enabled: accesses with the MMU on. Mmu/Pages: the accesses to whole pages,
--     which nothing calls, with Pages/RoundTrip.
--   Machine: the state of `CPU`, `RegisterFile`, `MMU` and `Memory` as one record. A register is an
--     integer, as in the source: no bound is built in.
--   Register: `compyter/register.py`. Register/StatusBits: the bits of the status register.
--   Cpu: traps, interrupts and jumps of `compyter/cpu.py`; below it Jumps, Divmod, Arith, LoadStore
--     and Control hold the instructions, Decode the table and `decode_next_instr`, Access the reads
--     and writes of registers that nothing stands in the way of, and Traps, Divmod/Correct,
--     Arith/Sums, Arith/Shifts, Jumps/Signed, LoadStore/Words, LoadStore/RoundTrip, Control/Rfe,
--     Control/Pending, Control/Swap, UserMode, Decode/Operands and Decode/Turn theorems. Keeps is the predicate of what
--     keeps the cache of reads true to the memory, Keeps/Accesses has it of the accesses, LoadStore/Stores
--     of the stores, and the Keeps below Arith, Jumps, LoadStore, Control and Decode of the instructions
--     and the decoder.
--   Hardware: the devices. Intc is the interrupt controller, with its registers (Intc/Registers) and the
--     histories of its queue and its thread (Intc/Pending); Timer, Keyboard, Printer, Rtc; Storage, with
--     the window on the disk (Storage/Blocks).
--   Hardware/Internet: `compyter/hardware/internet.py`, over a `Host`, which is what it calls of Python's
--     `socket`, `selectors` and `ipaddress` (Internet/Sockets). Internet/Quad has the bytes of its address
--     register, Internet/State its state and error reports, Internet/Commands the methods `_cmd_*`;
--     theorems on failures (Internet/Failures), the window (Internet/Buffer), the thread (Internet/Async)
--     and the sizes (Internet/Sized).
--   Computer: `compyter/machine.py`: the devices as one `Bus`, the assembled machine, and its turns: a
--     step of the processor or of a device's thread. Computer/Windows: the windows of the devices.
--     Computer/Image: the program in memory.
--     Computer/Delivery: an interrupt from the timer to the processor (Cpu/Interrupts is `CPU.intr`).
--     Computer/Safe and Computer/Uncaught are about the exceptions of the devices and of the network
--     device, for Computer/Coherence, the cache of reads under every schedule of turns.
--   Assembler: `do_parse` of `assemble.py`, over parsed statements. Assembler/Grammar: the tables of
--     `assembler/grammar.py`, with Grammar/Tables against the table of the processor and Grammar/Methods, the
--     methods by their names.
--     Assembler/Reference is an assembler in two passes; Patch, Places, Chain, Pieces and Labels are
--     lemmas on the places that wait, Progress on what is accepted, Accepts, TwoPass and Errors theorems.
--     Assembler/Old is `old/assembler.py` over lines that have been read, Old/Text what it uses of
--     Python's `str`, and Old/Source the reading of the text; Old/Agrees is about the images of
--     `assemble.py`, Old/Printer prints lines as text, and Numbers, Blanks, Endings, Arguments, RoundTrip
--     and Printed below Old are about reading that text.
--   Examples, Examples/*: small machines on which the theorems are applied.
--
-- Fuel. `trap` calls itself through the fault counter, `jmp` and the register write. `trap_fuel` takes
-- fuel for these calls, and `trap` is fuel for two. That is enough because the mode is saved first,
-- which disables interrupts, and the counter leaves the double fault behind after one more call.
--
-- Not modelled. Output of the processor (`print`, `pretty_format`), the lock, the threads and `sleep`:
-- a step of the processor holds the lock, so it is one function, and a turn of a device's thread is
-- another, of the controller's thread a step between two points where others may run; an interrupt
-- that a thread raises in the middle of a step is not seen. `wait` sets a flag. The loops of the
-- threads end when the processor exits; a schedule of turns just ends. When the controller's own
-- thread halts, it alone ends, which `exit_event` records, and the other threads may go on in a
-- schedule for longer than the one round that the source lets them finish. The locks are not there, so
-- no turn waits for another. The parser is pyparsing, third-party code: a program is the statements
-- that it returns, with reals as whatever `pack(">f")` makes four bytes of. What `internet.py` has
-- behind the call of `getaddrinfo`, which is not imported, and behind the `ip_address` of
-- `_cmd_recvfrom`, which always raises, is left out. `int` takes the digits of ASCII alone.
-- `PTE.__repr__` is output. The reading and writing of files are left out.
pub mod Assembler
pub mod Computer
pub mod Prelude
pub mod Result
pub mod Util
pub mod Exec
pub mod Memory
pub mod Pte
pub mod Cache
pub mod Machine
pub mod Register
pub mod Mmu
pub mod Cpu
pub mod Hardware
pub mod Examples
