-- ===== src/Lib.antt =====
-- Verification of MyVmOS: the machines, the schedulers, the timeouts, the router, their managers,
-- and the pools of objects and of memory.
--
-- The program runs virtual machines. `X86CPUVM` (include/vm/X86CPU.h, src/vm/X86CPU.cpp,
-- src/vm/X86_decode.cpp, src/vm/X86_instructions.cpp, src/vm/X86_other_instructions.cpp) interprets
-- x86 code in a flat memory. A scheduler (include/vm/Scheduler, src/vm/Scheduler) decides which
-- machine runs: `CFSScheduler`, `EDFScheduler`, `QuotaScheduler` and `HybridScheduler` fill one
-- interface and tell the machines by `VMScheduleCtx` (include/vm/baseVM.h). `mVM` (include/vm/mVM.h,
-- src/vm/mVM.cpp) is a second, small machine with five instructions and a thread of its own.
-- `SchedulerManager` (include/vm/SchedulerManager.h, src/vm/SchedulerManager.cpp) keeps the scheduler in
-- use. `RouterCore` (include/router, src/router) hands messages from a ring to those who subscribed.
-- `TimeoutManager` (include/utils/TimeoutManager.h, src/utils/TimeoutManager.cpp) calls back when a time
-- is over. `VmManager` (include/vm/VmManager.h, src/vm/VmManager.cpp) stands between them: it takes the
-- machines' interrupt requests from the router, blocks the machine at the scheduler, sets a timer, sends
-- the request on, and gives the machine the answer, or the timeout, in the rounds of its own thread.
-- `ObjectPool` (include/utils/ObjectPool.h) keeps objects for use again, and `MemoryManager`
-- (src/utils/mempool) keeps areas of memory in a red-black tree and a linked list.
--
-- Files:
--   Base               numbers, Boolean tests, 64-bit words, lists, association maps, `int`
--   Cpu/Reg, Flag, State   registers, flags, the state of `X86CPUVM`, start, stop, reset
--   Cpu/Machine        code that reads and changes the state: `none` is an undefined access
--   Cpu/Memory         bytes, wide accesses, push, pop, load_binary, load_program, load_elf
--   Cpu/Interrupt      trigger_interrupt, trigger_syscall, handle_interrupt
--   Cpu/ModRm, Decode  decode_modrm, calculate_effective_address, decode_and_execute
--   Cpu/Mov, Alu, Arithmetic, Logical, Branch, System   the instruction groups
--   Cpu/Block, Run     basic blocks, execute_basic_block, execute_instruction, run_loop
--   Cpu/Valid          the well-formed machines, and a module per part of the code that keeps them
--   Sched/Vm           the machines as a scheduler sees them, on a heap of weak pointers
--   Sched/OrderedSet, DeadlineQueue   std::set and std::priority_queue as lists in order
--   Sched/Cfs, Edf, Quota, Hybrid   the four schedulers, with their proofs below them
--   Sched/Policy, Manager   the calls of `SchedulerBase` by class; `SchedulerManager` and its mutex
--   Timeout            `TimeoutManager`: its queue, its map and its counters; below it the valid states,
--                      the set of timers that it refines, cancelling, callbacks, one timer
--   Message            the messages of the router
--   Router/Ring        the ring of messages: its calls, and their loads and stores on two threads
--   Router             `RouterCore`: subscribing, sending, dispatch, the polling loop
--   VmManager          requests, answers, registration; Worker: the rounds of the worker thread; Stage,
--                      Ask, Delivery: one request on its way
--   Mvm, Mvm/Loop      the state and the instructions of `mVM`; the steps of its thread
--   ObjectPool         the pool of objects to use again; below it what its users hold, the maximum, and the
--                      state of the objects
--   RbTree             red-black trees: insertion, and Erase, removal; below them balance, order, a row
--                      of insertions
--   Vma                memory areas: merging, translation, the searches of `MemoryManager`
--   Tests              the theorems at concrete machines and schedulers
--
-- A function of the source has the name that it has there, with the object as its last argument. A
-- method that changes the object returns the new one. Registers and memory are functions of the
-- index; 64-bit sums and differences are written with their wrap-around.
--
-- Bounds and fuel. The prefix loop of `decode_and_execute` runs at most one round more than memory has
-- bytes: a byte outside memory reads as 0, which is no prefix. The parity loop runs eight rounds for a
-- byte. `run_loop` may run for ever, as the source does, and takes the number of rounds as an argument.
-- The loop of `reserve` (ObjectPool) gets as many rounds as objects are asked for, since each adds one.
--
-- Undefined behaviour. `read_word`, `read_dword`, `read_qword` and the writes do not test the address;
-- an access past the end of memory is `none`. The same holds of a `load_binary` whose bound test
-- wraps, and of a length, an `int`, that overflows: the count of prefix bytes, in a memory of nearly
-- 2^31 bytes or more, and that of the instructions of a block. The sums of time points and of times,
-- which are `int64_t`, are written with their wrap-around.
--
-- Parameters. The graph that `build_cfg` makes is any list of blocks. What a callback does is an
-- argument of the code that calls it (`run_callbacks` of Timeout, `deliver` of Router); so is what a
-- machine does with a result (`resume` of VmManager/Worker), and the object that an `ObjectPool` makes
-- and its `reset`.
--
-- Not modelled: the threads and their waiting (one round of a loop is a function, `tick`, `poll_round`,
-- `worker_round`); the locks, but for the mutex of `SchedulerManager`; the clock, which is an argument;
-- logs and debug output; the disassembler and the construction of the control flow graph, whose blocks
-- are part of the machine's state; adding and removing an area (`add_vma`, `remove_vma`) and the
-- linked list of areas; the peripherals, the thread pool, the loader and the console; the compiler.
pub mod Base
pub mod Cpu
pub mod Sched
pub mod Mvm
pub mod Timeout
pub mod Message
pub mod ObjectPool
pub mod RbTree
pub mod Vma
pub mod Router
pub mod VmManager
pub mod Tests
