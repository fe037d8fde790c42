-- ===== src/Lib.antt =====
-- Mihini is a small computer in software: an assembler, a disassembler and a virtual machine with
-- sixteen registers of 64 bits, a flat memory, and a heap inside that memory. This library models the
-- three programs and the parts they stand on, and proves what they do.
--
-- The parts, the files that model them, and the code they follow:
--
-- - Vm.State: `vmstate_t` of src/vm.h as a record. A step of the machine is a function from the state to
--   a result: a value and a state, undefined behaviour of C, or no more fuel. The memory is a function
--   from addresses to bytes, of which the first `memsize` are the block that `vm_init` allocates; any
--   access outside it is undefined behaviour. What is printed is a list of events.
-- - Vm.Memory, Vm.Operand, Width: `vm_read_memory`, `vm_write_memory`, the `read_` functions, the
--   register operands of `vm_read_register_or_memory` and `vm_write_register_or_memory`, and the
--   conversions `vm_width_to_` of src/vm.c. Integers are natural numbers, and every cut to a C type is
--   written out.
-- - Vm.Data, Vm.Arith, Vm.Logic, Vm.Compare, Vm.Flow: the handlers `vm_opcode_` of src/vm.c, one
--   definition for each, under the same name. The conversion of FCAST to a double is a parameter.
-- - Vm.Execute, Vm.Init: `vm_opcode_execute`, `vm_run` and `vm_init` of src/vm.c. The operands of an
--   instruction are fetched in the order of the encoding; C leaves the order of a call's arguments open.
-- - Vm.Heap: src/pmalloc.c, whose block lists lie in the machine's memory and are reached by the host's
--   addresses.
-- - Opcode: the numbers and mnemonics of src/opcodes.h and the tables of src/opcodes.c (Opcode.Tables).
-- - Btree: the search tree of src/btree.c, which the disassembler uses for opcodes and labels.
-- - Dll: the doubly linked list of src/dll.c, on a store of nodes.
-- - Stree: the ternary tree of src/stree.c, which the assembler uses. The host's `malloc` is a parameter,
--   the record Malloc, since the code relies on more than malloc promises: `stree_new` leaves the links, the
--   key and the value of a node as the memory holds them, and `stree_set` writes one byte behind the copy of
--   a key. Where the memory does not hold zeroes, or has no room for that byte, the result is undefined.
--   `stree_insert`, which `stree_balance` uses, compares the addresses of keys: their order is a parameter.
-- - Printer, Parser: the operands' text, src/printer.c and src/parser.c. Parser.Immediate has the
--   `strtoul` and `strtol` of C, Printer.Immediate its hexadecimal and decimal conversions.
-- - Asm: the assembler, src/mhasm.c. Asm has the types of src/mhasm.h, with `state_t` as the record Asm;
--   Asm.Scan is `str_trim_right`, `next_segment`, `get_segment` and `parse`; Asm.Write the writes;
--   Asm.Layout the groups of cases of `assemble`; Asm.Assemble `check_args`, the operand parsers and
--   `assemble`; Asm.Data `write_data`; Asm.Label `parse_label`; Asm.Fix the fixing of forward references;
--   Asm.Main the loop of `main`. The state has the host's `malloc` beside the fields of `state_t`. The file
--   that is written is the list of its bytes, and what goes to the error stream a list of messages.
-- - Dasm: the disassembler, src/mhdasm.c: its state and reads, the groups of cases of both passes
--   (Dasm.Layout), `first_pass` (Dasm.First), `disassemble` (Dasm.Second) and `main` (Dasm.Main). The
--   text that is written is a list of bytes.
-- - Mhvm: `main` of src/mhvm.c, which loads a file into the machine and runs it.
--
-- How they meet: the handlers use Vm.Operand, which uses Vm.Memory; ALLOC and FREE call Vm.Heap, which
-- reads and writes through Vm.Memory; the tables of Opcode.Tables are built by `btree_add` and
-- `stree_set`, and searched by Asm and Dasm; Printer and Parser are for the register operands that
-- Vm.Operand reads. What Asm writes is what Mhvm loads and Vm.Execute decodes: Asm.Branch and
-- Asm.Backward follow a label from the source to the jump of the machine, and Dasm.Lengths compares what
-- is written with what is taken apart.
--
-- Bounds: the loop of `vm_run` has fuel for its rounds, since a program may run for ever. The loop of POP
-- has fuel too, and seventeen rounds are enough to show what it comes to. A walk of a block list has one
-- step more than the memory has bytes.
-- `btree_balance` and `stree_balance` have fuel for their depth, and the number of nodes is enough; the
-- loops over a doubly linked list have fuel, and more than its values is enough. The loops of
-- `next_segment` have 256 rounds, after which each position of the `uint8_t` has been seen and the loop
-- of the source does not end. The passes of the disassembler have fuel, and two more than the bytes of the
-- file are enough.
--
-- Not modelled: the freeing of trees; `dump_reg` and `pmalloc_dump`, which only print; the text of error
-- messages; a failing `malloc` or `fopen`; floating point, whose conversions from and
-- to text are parameters; src/endian_shim.h, whose macros are those of the host; src/tests and
-- src/example.
pub mod Prelude
pub mod Bits
pub mod Opcode
pub mod Width
pub mod Vm
pub mod Btree
pub mod Dll
pub mod Stree
pub mod Printer
pub mod Parser
pub mod Asm
pub mod Dasm
pub mod Mhvm
