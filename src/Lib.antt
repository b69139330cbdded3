-- ===== src/Lib.antt =====
-- Escort, a library for persistent memory: programs work on a heap in DRAM, and a thread checkpoints it
-- to NVM epoch by epoch.
--
-- The program's parts and the modules that model them (paths from the repository's root):
--   Address        src/globalEscort.hpp, src/bitmap_t.hpp: lines, heap size, add_addr, get_index
--   Epoch          src/globalEscort.cpp: the epoch word, a counter of 62 bits and two bits of phase
--   Bitmap         src/bitmap_t.hpp: which lines were written in an epoch; one map for odd epochs, one for even
--   Bytemap        src/bytemap_t.hpp: bytes of blocks in an epoch (DRAM), sizes of blocks (NVM)
--   Chain          src/plog_t.hpp, src/allocatorlog_t.hpp: log blocks, their pool, logs as chains of them
--   Plog           src/plog_t.cpp, src/checkpointing.cpp: the redo log and its replay
--   RedoLog        the interface by which the two kinds of thread use redo logs, with an instance by Plog
--   Addrlist       src/addrlist_t.hpp: the regions that a thread has marked
--   World          the state that threads share: both heaps, bitmaps, lists, redo logs, epochs
--   Userthread     src/userthreadctx_t.cpp: mark, with the copy on write of a line of the previous epoch
--   Checkpoint     src/checkpointing.cpp: log_persistence_unit, nvm_heap_update_unit
--   Snapshot       the two together, step by step in any order, and what ends up in NVM
--   EpochProtocol  src/userthreadctx_t.cpp, src/checkpointing.cpp: begin_op, end_op, and the wait
--   Durability     all threads together, epoch after epoch, src/userthreadctx_t.cpp, src/checkpointing.cpp
--   LineRace       one line, access by access: mark (src/userthreadctx_t.cpp) beside the checkpoint (src/checkpointing.cpp)
--   Interface      src/Escort.cpp, src/Escort.hpp: calls of programs, pwrite, named roots; finalize and restart behind them
--   EpochHeap      the stores of a run, and the heap after those that a crash leaves
--   Allocatorlog   src/allocatorlog_t.hpp, src/allocatorlog_t.cpp: the log of allocations
--   Allocator      src/userthreadctx_t.cpp, src/deallocator_t.cpp: malloc, free, delayed deallocation
--   Cpallocator    src/cpallocator_t.cpp: check_valid and checkpointing
--   NvmConfig      src/nvm/config.cpp, src/nvm/config.hpp: the layout of the file in NVM, malloc behind it, and its opening
--   Master         src/checkpointing.cpp: a round of checkpointing, and finalize, with no user thread moving
--   RootTable      src/roottable_t.hpp: set, get, remove, and the lock of a bucket
--   Objects        src/Escort.hpp: pnew, pdelete
--   Registration   src/checkpointing.hpp, src/checkpointing.cpp: threads register beside rounds, by the execute right
--   Startup        src/Escort.cpp, src/init.cpp, src/recovery.cpp: escort_init as a whole; crash and restart
--   Recovery       src/recovery.cpp: replay_redo_logs, copy; the branch on the phase of src/Escort.cpp
-- Prelude and Bits hold the shared helpers; Tests has concrete runs.
--
-- A user thread calls mark before it writes. If the line is still marked in the bitmap of the previous
-- epoch, mark logs its old value; the checkpointing thread, once no operation of the previous epoch runs,
-- logs the lines that are still marked, then writes all logs to the heap in NVM and clears them.
-- Allocations go to a log of their own, which the checkpoint carries over into the map of sizes.
--
-- How the model corresponds to the code: a call that fails an assertion or reaches DEBUG_ERROR is none;
-- in the root table the outcomes are told apart. Numbers are natural numbers, with the wrap-around of
-- 64-bit words written out where it can occur. A line of 64 bytes is one value, and memory is read and
-- written by lines. A pair of objects indexed by the parity of an epoch is a function of a Bool. Lists of
-- blocks are written with their back first. A step of Snapshot is one round of a loop; a step of
-- EpochProtocol is one shared access; a step of Durability is either of them. Durability therefore does not show
-- what the accesses within one line can do; LineRace does, for one line and one thread, and its Rounds takes
-- the round of mark and the visit of a line apart into these accesses.
--
-- Durability asks one thing of programs (Ordered): while operations of two epochs run, an operation of the
-- older one neither marks nor writes a line that the newer one has marked. Its threads are registered
-- before the start, and its regions are counted in lines; a whole call of mark is a run of its steps.
--
-- Fuel: fill of Bytemap has the number of lines of the block, and each round takes at least one; the
-- loops over the entries of a block have its size. unlink and lock_from take fuel as a parameter and tell
-- where it is used up.
--
-- Interface has programs of whole calls, one after the other, while the checkpointing thread rests. A program
-- keeps to the rules (Proper) if its threads are registered, stores within operations and in the heap, and
-- stores objects that take no more lines than their size says.
--
-- Not modelled: caches, write-backs and fences (clwb, sfence), a line that is read while it is written,
-- relaxed memory, the build variants OLD_VERSION, WEAK_CONSISTENCY and NO_PERSIST_METADATA, debug
-- output, and the wrappers of malloc, free and the status in src/Escort.cpp. jemalloc, mprotect, open,
-- file_size and mmap are parameters. Of the nodes of the root table only the array for the name and the
-- address are kept, and a comparison with a name of 64 bytes or more would read on behind that array. The
-- areas of the logs have to hold all their blocks, and the file the map of sizes, when the library is started
-- from a path.
mod Prelude
mod Bits
pub mod Epoch
pub mod Address
pub mod Bitmap
pub mod Bytemap
pub mod Chain
pub mod Plog
pub mod NvmConfig
pub mod Master
pub mod Registration
pub mod RedoLog
pub mod Addrlist
pub mod World
pub mod Userthread
pub mod Checkpoint
pub mod Snapshot
pub mod Allocatorlog
pub mod Allocator
pub mod Cpallocator
pub mod EpochProtocol
pub mod EpochHeap
pub mod Durability
pub mod Interface
pub mod LineRace
pub mod Startup
pub mod Recovery
pub mod Objects
pub mod RootTable
mod Tests
