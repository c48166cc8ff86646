-- ===== src/Lib.antt =====
-- The restaurant of semaphore_restaurant: groups, a receptionist, a waiter and a chef are processes
-- that share one memory region and one set of System V semaphores.
--
-- The parts, and the files that model them (paths from semaphore_restaurant/src):
--   Const, State       probConst.h and probDataStruct.h: the constants and FULL_STAT. An array is a
--                      function of its index; the table -1 is `none`. `groupsWaiting` is a natural
--                      number, since the code takes 1 from it only after a test that it is positive.
--   Semaphore          semaphore.c. The kernel's semop and semget are a parameter, the record `Kernel`;
--                      `IsKernel` is what the manual pages promise for the calls made here.
--                      `Laws` has what a call that succeeds does, `Barrier` calls that undo one
--                      another. `Kernel` also says which calls of saveState find that the log
--                      cannot be opened or closed.
--   SharedData         sharedDataSync.h and the numbering of the semaphores in `main` of
--                      probSemSharedMemRestaurant.c. A field of SHARED_DATA is a `SemId`; `sem_index` is the
--                      number that it holds.
--   Process            what the processes are written in: a program is a tree of semaphore calls,
--                      reads, writes and calls of saveState, in the order of the source. Adjacent
--                      assignments without a call between them may be one write, and a scan one read.
--                      `Alone` runs a program with nothing between its steps, where no call fails.
--   Group, Chef, Waiter, Receptionist
--                      semSharedMemGroup.c, semSharedMemChef.c, semSharedMemWaiter.c and
--                      semSharedMemReceptionist.c: one program for each operation and the loop of each
--                      main. The receptionist's `groupRecord` and the chef's `lastGroup` are variables
--                      of one process: an operation takes and returns them. A call of semDown or semUp
--                      is followed by its test, and a process whose call returns -1 exits.
--   System             `main` of probSemSharedMemRestaurant.c and all interleavings: a schedule names
--                      the process that makes each step, and a system is `Reached` if main starts one
--                      from which a schedule leads to it.
--   Tokens             accounts of semaphores. A down of a counted semaphore gives the process a token,
--                      an up takes one; a protocol says what a process may do with how many. The
--                      protocols are Mutex, Desk (requests to the receptionist) and Kitchen (orders).
--   Ownership          invariants of the memory that rest on one process writing some fields alone.
--   Logging            logging.c: the text of the log, as lists of ASCII codes.
--   LogFile            logging.c again: the stream that openLog opens and closeLog closes, with fopen and
--                      fclose as a parameter, the record `Stdio`. In the system of the processes the
--                      log is the list of the states saved, and a call of saveState that cannot
--                      open or close it ends its process wherever it is (`on_save` of System).
--   Requests           how many calls a program makes on a path to its end, whatever it reads.
--   Tables, Reception  what the receptionist decides and keeps true.
--   Hall               what the receptionist is to do, without the memory: where each group is, and
--                      which semaphores a request is answered with. `Desk` has one request of
--                      semSharedMemReceptionist.c against it, `Day` a sequence of requests.
--   Ghost, Floor       invariants of all processes together: each has a view that only it changes, and
--                      the invariant relates the views to the memory and the semaphores. `Floor` has
--                      where each group is in its life, what the receptionist has recorded, and who
--                      holds the region and the request; `Life`, `Counter`, `Payments` and `Service`
--                      go through the programs of the groups, the receptionist, the waiter and the
--                      chef, `Served` says what follows for the hall, `Closing` how it is left
--                      in the end, and `Leaving` how the critical region is.
--   Room               how far the ups of all programs together can raise the semaphores.
--   Ipc                sharedMemory.c, and the calls of semaphore.c by key, over the system calls as a
--                      parameter, the record `Calls`. `IsCalls` is what their manual pages promise.
--   CommandLine        the numbers that are printed with sprintf and read with strtol.
--   Startup            the part of each process's `main` before its life cycle. Once started it runs
--                      the program that System has for it.
--   ConfigFile         how `main` of probSemSharedMemRestaurant.c reads config.txt.
--   Simulation         that `main` from its first system call to its last, around the processes: it
--                      creates the block, writes the first lines of the log, creates the set, starts
--                      the processes, waits for them, and removes what it has made.
--
-- Bounds: the loops over requests and orders run as often as the source says. The waiter's
-- `while (!foundRequest)` takes a number of rounds, since its end depends on the other processes. The
-- theorems hold for every number of rounds, so for every finite run; a waiter that has used its rounds
-- up only stops. `nGroups` is read once, by main: no process writes it. It is at most MAXGROUPS in a
-- `Config`, which the code does not test: with more, `main` writes past the end of its arrays before it
-- starts a process, and `ConfigFile` stops there. So the indices of groups are below MAXGROUPS, and an
-- array of FULL_STAT may be a function with a value at every index: no process asks for the others.
--
-- A line of the log, a number on a command line and a number in config.txt have at most 10 digits,
-- the fuel of `digits`; where that matters the theorems ask for an `int`.
--
-- Not modelled: how long processes sleep (a schedule allows every timing) and the random numbers for it;
-- what a child does if execl fails; messages on stderr; a call of fprintf that fails. The connection
-- of a process is not interleaved with the steps of the others: it comes before them, as semSignal
-- comes after all calls of fork. A block of shared memory starts as zeros, as shmget promises. The
-- names of the error files, and a negative number of groups, are followed no further. Where a process
-- takes the table -1 as an index, or reads through a NULL pointer, it stops at a `fault`.
pub mod Prelude
pub mod Const
pub mod State
pub mod Semaphore
pub mod SharedData
pub mod Process
pub mod Group
pub mod Room
pub mod Ghost
pub mod Floor
pub mod Hall
pub mod Chef
pub mod Waiter
pub mod Receptionist
pub mod System
pub mod Tokens
pub mod Ownership
pub mod Tables
pub mod Reception
pub mod Logging
pub mod LogFile
pub mod Requests
pub mod Ipc
pub mod CommandLine
pub mod Startup
pub mod ConfigFile
pub mod Simulation
mod Tests
