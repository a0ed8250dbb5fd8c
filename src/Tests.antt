-- ===== src/Tests.antt =====
-- Concrete runs of the theorems: small machines (src/vm/X86CPU.cpp, src/vm/mVM.cpp), schedulers
-- (src/vm/Scheduler), timers, messages, managers, pools and areas, on which their hypotheses hold.
mod Machine
mod Flags
mod Queues
mod Threads
mod Timers
mod Routing
mod Managers
mod Pools
mod Areas
