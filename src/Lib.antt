-- ===== src/Lib.antt =====
-- The parts of the RISC-V emulator that decide what an instruction is and does, what a memory
-- access does, and what a checkpoint records, as definitions that run, with the theorems that
-- relate them.
--
-- The instruction codec, src/asm. An operand is scattered over the bits of an instruction as the
-- templates of src/asm/types.h say (Asm/Types), and src/asm/operands.h lists the operands
-- (Asm/Operands). An encoder and a decoder for each of 47 formats join them (src/asm/encode.h,
-- src/asm/decode.h: Asm/Encoders, Asm/Decoders). The tables of src/asm/meta.cc (Asm/Meta) give
-- the format and the fixed bits of each opcode, the compressed forms of an instruction for each
-- register width with their constraints (Asm/Constraints, for src/asm/constraints.h), the opcode
-- that a compressed form expands to, and the pseudo-instructions. `encode_inst` and
-- `decode_inst_type` of src/asm/switch.h (Asm/Switch) dispatch on the format, `decode_inst_op`
-- finds the opcode of an instruction by switches on its bits (Asm/Switch/Tree has their shape, as
-- data, and `find` runs them), and src/asm/codec.h (Asm/Codec) fetches, decodes
-- (Asm/Codec/Decoding), compresses, expands and rewrites.
--
-- The memory of the emulated machine, src/emu. A translation buffer (src/emu/tlb-soft.h: Emu/Tlb)
-- maps a protection domain, an address space and a page to an entry. The memory management unit
-- (src/emu/mmu-soft.h: Emu/Mmu) translates an address by the buffer or by a walk of the page
-- table (Emu/Mmu/Walk, with the entries of src/emu/pte.h in Emu/Pte), checks the permission of
-- the entry, and loads, stores, fetches (Emu/Mmu/Fetch) or runs an atomic operation
-- (src/emu/amo.h: Emu/Amo) over a memory bus (the `memory_bus` of src/emu/mmu-memory.h: Emu/Bus),
-- which is a parameter, as `MEMORY` is in the source. The interrupt controller
-- (src/emu/device-plic.h: Emu/Plic) keeps which interrupts are pending and which are served. The
-- arithmetic that the interpreter calls for products and quotients is that of src/asm/alu.h
-- (Asm/Alu).
--
-- The processor, src/emu. The interpreter (`exec_inst_rv32` and `exec_inst_rv64` of
-- src/emu/interp.h: Emu/Interp) changes the registers of src/emu/processor-base.h (Emu/Hart) and
-- gives the offset of the program counter, which the run loop adds. It takes the memory as an
-- interface, `MmuOps`, as the source takes the type of `proc.mmu`. The privileged processor
-- (src/emu/processor-priv-1.9.h and src/emu/processor-impl.h: Emu/Priv) keeps the control and
-- status registers; it services the interrupts of the controller, takes traps and delegates them,
-- returns from them, and reads and writes its registers (Emu/Priv/Access). Emu/Priv/Reach has its
-- runs as a relation. The run loop (src/emu/processor-runloop.h: Emu/RunLoop) fetches an
-- instruction, decodes it through a cache, executes it, and catches what is raised; the processor
-- is its parameter, as the template parameter `P` of `processor_runloop` is.
--
-- The checkpoints, src/util/fmt.h (Ckpt). A trace (`MemTrace`: Ckpt/Mem) keeps for each page
-- which bytes were accessed, and the value of the first access (`PageRec`: Ckpt/Page); a fetch
-- also counts how often an address is executed (Ckpt/Fetch). The checkpoint manager
-- (Ckpt/Manager) breaks a run into checkpoints of more than a period of retired instructions. The
-- memory of a proxied program (src/emu/mmu-proxy.h: Ckpt/Proxy) records its accesses in the
-- trace. A program is a tree of fetches, loads and stores in which what follows a load depends on
-- the value (Ckpt/Replay), so that it may compute its addresses, its stores and its control flow;
-- the counters of fetched instructions are in Ckpt/Execs.
--
-- How the source is represented. Numbers are natural numbers with the wrap-around of their width
-- written out; `Decode.imm` is the 32-bit pattern of an `int32_t`. An opcode is its number in
-- `enum rv_op`, a table that is an array indexed by the opcode is a list of all its entries where
-- most of them are set (`rv_inst_codec`, `rv_inst_match`) and an association list where most of
-- them are null or `rv_op_illegal`. A failed `assert` of an encoder is `none`. The arrays of
-- constraints end with their list, in place of `rvc_end`. Loops over arrays are recursion on
-- lists, so that no fuel is needed for them. The loop of `step` runs for a number of turns, since
-- a trap may repeat without end; `none` says that it has not ended in them. The page walk is
-- recursion on its level, which is at most the levels of the paging mode less one; where `level`
-- would wrap below 0 the walk ends with `below`, and the access with `lost`. `proc.raise` is an
-- outcome that ends the access, as the `longjmp` of a running processor does. A `UX` is its bit
-- pattern, also where the source makes it signed. `shift_count` is what the host makes of the
-- count of a shift by the width or more, which C++ leaves undefined; `undef` is the value of a
-- variable that a skipped load does not assign. A control and status register is found under its
-- number, and a bit field by its shift and its width. The hash maps of the traces are functions
-- from keys to options. A null pointer that is used is `none`. A translation to address 0 ends
-- the access without an exception (`skipped`).
--
-- What a theorem uses in its statement beside the code: `IsEncodable` (Asm/RoundTrip/Encodable)
-- says that the fields of an instruction fit its format; `survives`
-- (Asm/RoundTrip/Forms/Survives) lists the compressed forms whose constraints accept more than
-- the encoding holds; `selects_by_rs2` (Asm/RoundTrip/Opcodes) lists the opcodes that are told
-- apart by the place of rs2; `has_fixed_rv32` and `has_fixed_rv64` (Asm/RoundTrip/Decoding) list
-- those that no switch tells apart by the place of a field; `IsReversible` (Asm/Codec/Compress)
-- is either left alone or undone by expansion; `little_endian` (Asm/Codec/Fetch) is the number
-- that bytes stand for; `run_mappings` (Emu/Tlb/Spec) is the abstract map that a translation
-- buffer caches; `IsLeaf` (Emu/Mmu/Leaf) is what a page table entry must satisfy; `Agree` and the
-- laws `Decodes` (Emu/RunLoop/Cache) say that two loops differ in their caches only, `HasWords`
-- that no word that is fetched is 0, and `KeepsCount` and `AllExecuted` (Emu/RunLoop/Ends) that
-- no operation changes the count and that the interpreter executes what is fetched; `machine`
-- (Emu/RunLoop/Machine) is a processor with these laws, made of the decoder and the interpreter
-- of src/emu; `IsMapped` (Ckpt/Replay) keeps data apart from code; `IsHart` (Emu/Interp/Inv) and
-- `IsPriv` (Emu/Priv/Inv) say that registers keep their widths; `Returns` (Emu/Priv/Trap),
-- `Taken` (Emu/Priv/Interrupts) and `TakenAt` (Emu/Priv/Delegation) say what a trap leaves;
-- `AllowsLoad` and `AllowsStore` (Emu/Mmu/Permission) are the permissions of an access.
--
-- Not modelled: the strings and the operand descriptions of src/asm/meta.cc; the assembler and
-- the disassembler; the just-in-time compiler, whose output goes to a third-party assembler; the
-- floating-point instructions, which are those of the host; logging and histograms; the signals
-- of the run loop; the writing of the checkpoint files; the other devices, the cache, the ELF
-- reader, and the tools.
pub mod Base
pub mod Asm
pub mod Emu
pub mod Ckpt
