-- ===== src/Lib.antt =====
-- Nachos, the instructional operating system, as this repository builds it under code/.
--
-- The kernel runs in a process of the host beside a simulated MIPS workstation (code/machine). The
-- file system (code/filesys) keeps its free sectors in a bitmap (code/userprog/bitmap.cc) and the
-- sectors of each file in a file header; the machine reaches its memory through page tables or a TLB.
--
-- BitMap (code/userprog/bitmap.cc): the record BitMap has the class's fields, and mark, clear, test,
--   find, num_clear and new are its members. An `int` argument is an integer; `none` is a failed
--   ASSERT. BitMap/Bits sees a map as its bits, BitMap/Laws has the constructor and Find, BitMap/Count
--   the number of clear bits, BitMap/Takes sequences of calls of Find and their undoing by Clear.
-- Filesys/FileHeader (code/filesys/filehdr.cc): the i-node with 4 direct sectors and indirect blocks;
--   allocate, deallocate, extend_file, byte_to_sector and file_length. It calls the bitmap. The modules
--   below it follow one loop each (Sectors, Blocks), then Allocate (Allocation), Deallocate and the two
--   together (Release), ExtendFile (Extension) and ByteToSector (Lookup).
-- Filesys/Directory (code/filesys/directory.cc): the table of file names; find_index, find, add,
--   expand_table and remove are its members. Names compares names as strncmp does, Lookup reads a table
--   as a function of names, Update, Removal and Invariant are about Add, Remove and both.
-- Filesys/OpenFile (code/filesys/openfile.cc): ReadAt, WriteAt and the calls at a position, on the disk
--   as a function from sectors to bytes. It calls the file header. Contents sees a file as its bytes;
--   Reading, Buffers, Writing and InPlace follow the loops and the buffer of a transfer, RoundTrip has
--   writes inside a file, Across those that run past its end.
-- Filesys/SysOpenFile (code/filesys/SysOpenFile.cc): the kernel's table of open files, on the bitmap and
--   the lock, with its objects on a heap. Table has a file entered, fetched and closed.
-- Filesys/MapFile (code/userprog/bitmap.cc): FetchFrom and WriteBack, the words of a bitmap in an open
--   file. It calls ReadAt and WriteAt.
-- Machine (code/machine/machine.h): memory, registers, TLB and page table. A command is a function of
--   the machine to an Outcome: done, a trap to the kernel, or a stop.
--   Machine/Word has C's operators on 32-bit patterns; Machine/Mult the function Mult of mipssim.cc;
--   Machine/Translate and Machine/Memory are translate.cc; Machine/Instr the tables of mipssim.h and
--   Decode; Machine/Effect and Machine/Step are OneInstruction, case by case, where `none` is the
--   default of its switch.
-- Threads/Lock (code/threads/synch.cc): the class Lock, and a step relation of threads that use one
--   lock: each call runs with interrupts off and is one step. Threads/Lock/Exclusion has what holds in
--   every state that the steps reach. The queue of threads is a list of their numbers.
-- Threads/Semaphore and Threads/Condition (code/threads/synch.cc): the classes Semaphore, with a step
--   relation of threads that use one semaphore, and Condition, whose calls take the lock.
-- Threads/LinkedList (code/threads/list.cc): the list on a heap of elements, with NULL and dangling
--   pointers. Queue has what a list ordered by key promises, Chain sees a list on the heap as its
--   elements, Insert follows the loop of SortedInsert, Refine and Ends show that the heap list
--   implements the queue.
-- Machine/Interrupt (code/machine/interrupt.cc, timer.cc): the pending interrupts, a queue ordered by
--   time, the interrupt level and the clock of code/machine/stats.h. The handlers, the yield of a
--   thread and the delayed load are the record Kernel; Calls says what a handler may do, Timer has the
--   handler of the timer. Loop follows the loop over due interrupts, Clock has OneTick, Rest has Idle,
--   Level has SetLevel.
-- Userprog/MemoryManager (code/userprog/MemoryManager.cc): the frames of memory, which calls the bitmap
--   and the lock. A call runs to its end, to the sleep of its thread, or to a failed ASSERT.
-- Userprog/Pcb (code/userprog/PCB.cc): the control block of a process with its table of open files, on
--   the bitmap. Files sees the table as the file at each index.
-- Vm/SwapManager (code/vm/SwapManager.cc): the pages of the processes in the swap file. It calls the
--   bitmap and an open file, the record SwapFile. Slots and Search see its loops as the first slot that
--   holds a page; Adding, RoundTrip, Removing and Writing are its operations on a file with the laws
--   IsPaged, OnHost has them on the file that vm/Makefile gives it, one of the host.
-- Filesys/StubFile (code/filesys/openfile.h): ReadAt and WriteAt as compiled with FILESYS_STUB. The file
--   of the host is a parameter with the laws IsPosix; Bytes is an instance. The kernel aborts where a
--   call of the host fails, which is not modelled.
-- Base has what these share: Boolean tests, lists with numeric indices, options, integers and bits.
--
-- Loops are recursion on the number of rounds left, where the source fixes it before the loop. The walk
-- of SortedInsert has as fuel the length of the list; the loop over due interrupts one more than the
-- number of pending interrupts, since a handler schedules interrupts for later times only. The host
-- is little endian and has a signed `char`; `int` arithmetic wraps.
--
-- Not modelled: input and output of headers and directories, the scheduler, the process table, address
-- spaces, system calls, page replacement, the network, and the devices but the timer.
pub mod Base
pub mod BitMap
pub mod Filesys
pub mod Machine
pub mod Threads
pub mod Userprog
pub mod Vm
