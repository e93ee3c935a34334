-- ===== src/Lib.antt =====
-- A model of PeachOS, a small 32-bit kernel in C. Paths are from the repository's root.
--
-- The parts, and how they interact. The heap (src/memory/heap/heap.c) hands out blocks of 4096
-- bytes from a pool that a table of one byte for each block describes; src/memory/heap/kheap.c and
-- src/memory/memory.c put `kmalloc`, `kzalloc` and `kfree` over it. A process (src/task/process.c)
-- enters what it is given by `kzalloc` in its own array of allocations, and has a ring of unread
-- keys that the keyboard's interrupt handler fills (src/keyboard). Files (src/fs/file.c) are opened
-- by a path that the path parser (src/fs/pparser.c) splits, through the function pointers of a
-- filesystem, which reads its disk through the byte stream of src/disk; the one that there is is
-- FAT16 (src/fs/fat/fat16.c). Page tables (src/memory/paging/paging.c) map the memory of a process,
-- whose program the ELF loader (src/loader/formats/elfloader.c) checks and measures. The
-- descriptors of segments (src/gdt/gdt.c) and interrupts (src/idt/idt.c) are encoded for the
-- processor, and src/kernel.c has the text screen.
--
-- Files. Each module is named for its part, holds the part's state and operations by the names of the C
-- functions (without a prefix that the module's name repeats), and has child modules for the proofs:
--   Prelude      shared names, lists as arrays, the values of an `int`, lemmas on bits.
--   Status       src/status.h and src/config.h.
--   Heap         src/memory/heap/heap.c and `kheap_init`. A `struct heap` is the list of the table's
--                entries and the pool's address. Search: first fit. Mark: the entries of an allocation.
--                Alloc: malloc and free. Whole: the table as a whole. Overrun: no room. Create: set-up.
--   Memory       src/memory/memory.c and the rest of kheap.c, over a memory of bytes. Blocks: the proofs.
--   CString      src/string/string.c. Length, Compare, Copy.
--   PathParser   src/fs/pparser.c. Parts: what the parser makes. RoundTrip: written paths.
--   Files        src/fs/file.c, with the record FileSystem for the function pointers of src/fs/file.h.
--                Slots: the search for an empty slot. Open, Close.
--   Streamer     src/disk/disk.c and src/disk/streamer.c, over a drive that is a parameter: the
--                byte at each position. Read.
--   Fat          src/fs/fat/fat16.c. Disk: the state, the header and the root directory; Clusters: the
--                chains of clusters; Directory: items and their search; Open: the functions that the
--                filesystem offers, and their table `fat16_init`. The children of these have the proofs:
--                Disk/Count, Disk/Resolve, Clusters/Read, Directory/Names, Directory/Search,
--                Directory/Nested, Open/Read, Open/Seek, Open/Lookup, Open/Nested and Open/Fread, where
--                the path parser, Files, Fat and Streamer come together.
--   Paging       src/memory/paging/paging.c, over a memory of words. Frame: addresses and flags.
--                Entries: one entry. Range: many pages. Chunk: the making and freeing of a directory and
--                its tables, with the proofs in Table, Round and Fresh.
--   Kernel       `kernel_main` of src/kernel.c: the parts are set up in order, and the first program is
--                loaded and entered. SetUp: the steps before that. Main: all of them, on a FAT16 drive.
--   Keyboard     src/keyboard/keyboard.c and src/keyboard/classic.c. Ring: the invariant. Queue: the
--                specification as a bounded queue. Drivers: the list of drivers.
--                Interrupt: `interrupt_handler` of src/idt/idt.c with the keyboard's handler behind it. Key:
--                from the port to the key buffer.
--   Gdt          src/gdt/gdt.c. Decode: what the processor reads.
--   Idt          src/idt/idt.c. Table, Commands.
--   Terminal     the screen of src/kernel.c. Cursor.
--   Elf          src/loader/formats/elfloader.c. Extent.
--   Task         src/task/task.c: the linked list over a store, and the registers. Append, Remove. Switch:
--                the pages and segments that are loaded, with `paging_switch` and `kernel_page`, and the
--                registers that a program starts with. Copy: strings through the page tables, with the
--                proofs in Strings, Shared and Whole. Sample: data for the runs.
--   Process      src/task/process.c. Alloc: allocations. Slots: the table of processes.
--                Mapping: how a program and its stack are mapped, with the proofs in Pages and Whole.
--                Load: `process_load_for_slot` with `task_new` and `task_free`, where Loader, Mapping,
--                Paging/Chunk and Task come together, with the proofs in Steps and Enter, and FromDisk,
--                where the program is a file of a FAT16 disk. Sample: such a disk.
--   Commands     src/isr80h, with `isr80h_handler` of src/idt/idt.c. Calls, Print: commands through the
--                handler.
--   Loader       `elf_load`, and `process_load_data` of src/task/process.c. Table: the descriptors.
--                Disk: files of a FAT16 disk.
--                Sample: data for the runs.
--   Stdlib       `itoa` of programs/stdlib/src/stdlib.c. Decimal: the loop over the digits. RoundTrip.
-- A module's child Tests has runs at fixed inputs, and instances of the theorems.
--
-- Conventions. Numbers are natural numbers, and 32-bit and 16-bit arithmetic has its wrap-around
-- written out. Codes are integers, negative for errors. An access outside of an array is `none`
-- where the code can make one. A string is the list of the bytes that a pointer leads to.
--
-- Fuel. `diskstreamer_read` calls itself once for each sector: each call but the last reads a byte
-- at least, so that the number of bytes asked for, plus one, is enough. The path parser's loop
-- takes the path's length plus one, since each part has a byte at least. `fat16_read_internal`
-- reads a byte at least in each call but the last, and takes the number of bytes plus one. The
-- count of the items of a directory takes 2^26 records of 32 bytes, behind which no position is an
-- `int`. `itoa` takes 11 rounds for the ten digits that an `int` has at most. All other loops are
-- structural.
--
-- Not modelled: the wait for the disk, the loading of tables into the processor, assembly but for
-- what a task switch loads, and the user programs but for `itoa`. Where page tables are made or a
-- process is loaded, each place in the code that calls `kzalloc` has its address as a parameter,
-- and what is freed is a list of addresses; in `kernel_main` these answers are a function of the
-- heap that `kheap_init` leaves, and the heap after them is not followed. Page tables are words
-- apart from the bytes of the kernel's memory. In Fat, memory is not addressed: `room` says of
-- each call of `kzalloc` whether it finds memory, and the freeing of items, directories and
-- descriptors is without effect on the values, so that a use after it is not seen. A fault of a
-- function of Fat is `none`; through the table of the filesystem it is an error code that stands
-- for the fault, and the disk is unbound from then on. Memory is taken to be there where the code
-- does not test for it (the path parser, descriptors, streams).
pub mod CString
pub mod Commands
pub mod Elf
pub mod Fat
pub mod Files
pub mod Gdt
pub mod Heap
pub mod Idt
pub mod Kernel
pub mod Keyboard
pub mod Loader
pub mod Memory
pub mod Paging
pub mod PathParser
pub mod Prelude
pub mod Process
pub mod Status
pub mod Stdlib
pub mod Streamer
pub mod Task
pub mod Terminal
