-- ===== src/Lib.antt =====
-- The virtual machine of clojit-cvm: a register machine for the byte code of a Clojure dialect.
--
-- The parts of the program, and how they interact. A file is mapped and cut into sections (loader.c).
-- The interpreter (`start` in execute.c) fetches instructions from it and runs them on a machine
-- (vm.c): a program counter, the frame's first slot, an array of slots (slots.c) that grows when it is
-- written and shrinks when it is read, a stack of contexts (stack.c), a symbol table and the heap
-- objects (alloc.c). A slot is a 64-bit word with a tag, or the bits of a double (slots.c). print.c
-- prints slots, and builtin.c holds the one built-in function.
--
-- The files.
-- - Common: numbers, words of fixed width, bits, lists, and results: `ok`, `exit` (the process exits,
--   with a status and what is printed: by a call of a part, its last words; by the machine, all),
--   `fault` (the C program has no defined behaviour or traps) and `out_of_fuel`.
-- - Slot: the predicates and conversions of slots.c on one word. A signed argument is given by its bit
--   pattern.
-- - Slots: the array of slots.c. A cell is `none` until it is written, and reading such a cell is a
--   fault. The type `Slots codes` carries the result codes with which the Memory Pool System answers
--   the requests of the reallocations for roots; what slots.c prints is kept until the machine prints
--   it. Slots/Roots: the roots that are live.
-- - Stack: stack.c. Store: what the machine asks of slots and stack, filled by the arrays and by plain
--   lists.
-- - Memory: the header of alloc.h, `mps_alloc_obj`, and the words of heap objects.
-- - Format: the collector's callbacks of vm.c on one object. Format/Scan: `obj_scan`, the callback on
--   a block of objects.
-- - Setup: the set-up of the Memory Pool System in `vm_init` of vm.c with the request of `slots_init`,
--   and `free_vm`.
-- - Host: the libraries and the loaded process, as parameters with the laws that the libraries
--   document.
-- - Program: the sections of loader.h, and what the interpreter reads from them. Loader: loader.c.
--   Loader/Strings: how the strings are laid out in a file. Loader/Files: whole files of sections, as
--   they are laid out, loaded and read. Loader/Swap: `swap` and `swap_int64`.
-- - Vm: the accessors of vm.c. Handlers: one function for each case of the switch of `start`.
-- - Print, Builtin: print.c and builtin.c. What is printed is a list of values.
-- - Execute: the switch, one round of the loop (`step`), the loop (`run`) and `start` after loading
--   (`boot`).
-- - Start: main.c, and `start` from the file's name on. Start/Code: the interpreter on a list of
--   instructions, with no file, for comparison.
-- - Print/Tree: what a slot shows, as a finite tree, a description of printing without fuel.
--   Print/Line: the same for a line of `println_slot`.
-- - Memory/Retries: allocation where commits fail.
-- - Refinement: the interpreter over the arrays against the interpreter over the lists.
-- - Samples: a host, programs and machines for the tests.
--
-- Fuel. The rounds of `run` bound the loop of `start`, which is endless by design; the other fuel
-- bounds the loops that scan objects or repeat a reservation (one more than the commits that fail),
-- the rounds of `print_slots`, and the printing of nested objects, for which the depth of what is
-- printed is enough. Every other loop over slots, fields, instructions or records is bounded by its
-- own counter. A statement about fuel holds for every amount of it, or says how much is enough.
--
-- Dangling and bad pointers. The machine's pool pointer `amc` points to a local variable of `vm_init`:
-- behind it `ap` is `none`, and the instruction ALLOC is a fault in every run of `start`. A file that
-- cannot be mapped gives MAP_FAILED, which `loadfile` parses: a fault (`unmapped`).
--
-- Not modelled: exhausted memory; `slots_free` and `stack_free`, which only free; uthash.h and GLib,
-- which are parameters; the output at a positive `debug_level`; the empty or unused files heap.c and
-- namespace.c. An array of slots or contexts may not outgrow an `int`: there the model faults.
pub mod Common
pub mod Slot
pub mod Slots
pub mod Stack
pub mod Store
pub mod Memory
pub mod Host
pub mod Program
pub mod Vm
pub mod Print
pub mod Builtin
pub mod Handlers
pub mod Execute
pub mod Refinement
pub mod Samples
pub mod Setup
pub mod Loader
pub mod Start
pub mod Format
