-- ===== src/Lib.antt =====
-- The RISC-V instruction set simulator of riscv-isa-sim: its instruction bodies, memory port, control
-- registers and traps.
--
-- A hart (`processor_t`) decodes an instruction word, runs the body of riscv-isa-sim/riscv/insns for
-- it, and takes a trap when the body throws. The body reads and writes the hart's state, its memory
-- port (`mmu_t`) and its CSRs. Here an instruction is an action, a function from a hart to an outcome
-- and a hart: a C++ exception is the outcome `throw`, and what was written before it stays written.
-- A 64-bit integer is a natural number below 2^64, a signed one its two's complement.
--
--   Base       Boolean tests on numbers, 64-bit words (Base/Word), bitwise operations (Base/Bits)
--              and their digits (Base/Digits).
--   Machine    state_t, processor_t, mmu_t and trap_t as records (Machine/Data: riscv/processor.h,
--              mmu.h, trap.h, memtracer.h), actions (Machine/Monad: the macros of decode.h), and
--              rules for what an action keeps (Machine/Keeps).
--   Decode     class insn_t of riscv/decode.h: fields and immediates of an instruction word.
--   Encoding   constants of riscv/encoding.h, get_field and set_field of decode.h.
--   Mulhi      riscv/mulhi.h: the high halves of 128-bit products.
--   Mmu        riscv/mmu.h and mmu.cc: memory as bytes (Mmu/Memory), the TLB (Mmu/Tlb), page table
--              walks (Mmu/Walk), loads and stores (Mmu/Access), fetch and its cache (Mmu/Fetch); then
--              Mmu/Roundtrip, Coherent, Frame, FastPath, Misaligned and OnBus on these.
--   Insn       riscv/insns/*.h, each instruction under the name of its file, and the macros that the
--              bodies use: Insn/Context, Insn/FloatContext, Insn/Compressed. Insn/Canonical and
--              Insn/Registers state what a register holds, Insn/Rules how an action keeps it; AluRegs,
--              MulDivRegs, HighRegs, MemoryRegs, WideRegs, CompressedRegs, FloatMemoryRegs, FloatRegs,
--              SystemRegs, JumpRegs and CompressedJumpRegs are about groups of instructions.
--   Opcode     decode_insn and build_opcode_map of riscv/processor.cc: the list of descriptions
--              (Opcode/Table), the decoder with its cache (Opcode/Decoder), the encodings of
--              riscv/encoding.h (Opcode/EncodingsBase, EncodingsFloat), and the base instructions
--              (Opcode/Base); then Opcode/Grouped, Moves, Correct and Reached on its answers.
--   Privileged riscv/processor.cc: set_csr (Privileged/Csr), get_csr (Privileged/CsrRead), the
--              privilege stack, traps and interrupts (Privileged/Traps), reset and the window of the
--              CSRs on the bus (Privileged/Reset); then Privileged/Reservation on load-reserved and
--              traps, Privileged/Pushed on the mode of a trap, Privileged/StackMoves, StatusWrites and
--              TrapReturn on the return from it, Privileged/Started on reset and Privileged/Serialize
--              on CSR instructions.
--   Execute    riscv/execute.cc: the instruction functions of insn_template.cc by name
--              (Execute/Dispatch), a processor with the functions that its instruction cache keeps
--              (Execute/Processor: riscv/processor.h, mmu.h), and processor_t::step (Execute/Loop);
--              then Execute/Registers on all instructions together, Execute/Interrupts on the timer,
--              and Execute/CountRules, Bounds, Rounds and Steps on instruction counts.
--   CacheSim   riscv/cachesim.h and cachesim.cc: cache_sim_t and lfsr_t (CacheSim/Cache); then
--              CacheSim/Lfsr, Tags, Hits, Init and Counts. fa_cache_sim_t: CacheSim/FullyAssoc.
--   Devices    riscv/devices.h and devices.cc: bus_t and rom_device_t (Devices/Bus); then
--              Devices/Map, Routes and Edges on which device answers.
--   OpDumper   op_dumper/: the tool that writes memory operations to a trace and reads them back. The
--              numbers of operations (OpDumper/Codes: operation_opcodes.hpp and .cpp), how a function
--              ends and what C++ leaves open (OpDumper/Outcome), class Operation
--              (OpDumper/Operation: operation.hpp, operation_set.cpp, operation_get.cpp), its bytes
--              (OpDumper/Binary: operation_binary.cpp), class Dumper (OpDumper/Trace), class memsync
--              (OpDumper/Sync) and the loops of main (OpDumper/Main); then Fields, Tables, Units,
--              Fixed, Payload and Values on the parts of a record, Logged on what a trace keeps,
--              Setters, Stale and Closed on calls, RoundTrip, WholeTrace and Copies on traces.
--   Witness    concrete inputs for the results.
--
-- The loop over the levels of a page table walk is structural on the number of levels, at most
-- four, and the linear search of `decode_insn` on the list of descriptions; no fuel is needed. A
-- turn through the instruction cache is structural on the entries that are left. The inner loop of
-- `step` runs on fuel, for which its budget is enough; its outer loop need not end, since traps may
-- follow one another, so it is a function on fuel beside the relation of its rounds. The loops of the
-- main of op_dumper run on fuel, of which one more than there are operations is enough. Memory is a
-- function from addresses to bytes, read only below `memsz` except through the TLB, as in the
-- source. The memory port belongs to a processor (`proc` is not null). The address of the next
-- instruction is `pc` and the length of the instruction word, which for a word that decoding has
-- matched is that of the OPCODE that riscv/insn_template.cc takes.
--
-- Parameters: softfloat is the record `SoftFloat` of functions from operands to a result and
-- flags; the record `Bus` says what the bus answers to a load or a store of a hart, and which hart
-- it leaves, since riscv/sim.cc puts the processors on the bus, where an access of one reads or
-- sets a CSR; Devices is not put into it. `htif->tick`, which `get_csr` calls, is a function that
-- says what hart it leaves: it may set tohost and fromhost, write memory, and reset the processor.
-- Of op_dumper: what C++ leaves open is the record `Unspecified`, what the file system answers to
-- an open is `Disk`; an `fstream` is the bytes written, the bytes left to read and its state bits.
--
-- The commit log, the histogram and the text output of the simulator are not modelled, nor are the
-- printing of op_dumper, the host interface, the debugger, the LiveCache model, which is a copy of
-- another project's, and the RTL of the other directories.
pub mod Base
pub mod Machine
pub mod Decode
pub mod Encoding
pub mod Mulhi
pub mod Mmu
pub mod Insn
pub mod Opcode
pub mod Privileged
pub mod Execute
pub mod CacheSim
pub mod Devices
pub mod OpDumper
pub mod Witness
