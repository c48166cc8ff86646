-- ===== src/Simulation.antt =====
-- `main` of semaphore_restaurant/src/probSemSharedMemRestaurant.c from its first system call to its
-- return: what it creates, what it starts, and what it removes.
pub mod Cleanup
pub mod Leak
use so_projeto.Prelude.{
  ℕ, zero, suc, ◌+◌, Bool, true, false, Option, none, some, List, [], ◌∷◌, ℤ, pos, negsuc, ltb,
  ◌==◌, if◌then◌else◌, update,
}
use so_projeto.Semaphore.{SemSet, SemResult, Kernel, success, blocked, failure}
use so_projeto.Semaphore
use so_projeto.SharedData.{sem_nu}
use so_projeto.CommandLine.{Text}
use so_projeto.ConfigFile.{Times, read_config, rounds_of}
use so_projeto.Ipc.{
  Objects, Calls, same_int, shmem_create, shmem_destroy, shmem_attach, shmem_dettach, sem_create,
  sem_destroy,
}
use so_projeto.System.{filled, initial_sems}
use so_projeto.LogFile.{Output, Stdio, log_run}

-- `main` returns, exits with an error, reads through a pointer that it has not set, or writes past
-- the end of an array. The objects are as it leaves them. What it does with a negative nGroups is
-- followed no further than to `below_zero`.
pub data Ending : Type 0 where
  finished : Objects → Ending
  failed : Objects → Ending
  wild_pointer : Ending
  overran : Ending
  below_zero : Ending

-- The removal, in order: the set, the mapping, the block.
abbrev pub block_gone : Bool × Objects → Ending
block_gone (true, w) = finished w
block_gone (false, w) = failed w

abbrev pub unmapped : Calls → ℕ → Objects → Bool → Ending
unmapped c shmid w true = block_gone (shmem_destroy c w shmid)
unmapped c shmid w false = failed w

abbrev pub set_gone : Calls → ℕ → Option ℕ → Bool × Objects → Ending
set_gone c shmid pointer (true, w) = unmapped c shmid w (shmem_dettach c w pointer)
set_gone c shmid pointer (false, w) = failed w

unfoldable pub remove_all : Calls → ℕ → ℕ → Option ℕ → Objects → Ending
remove_all c semgid shmid pointer w = set_gone c shmid pointer (sem_destroy c w semgid)

abbrev pub after_wait : (Objects → Ending) → Bool × Objects → Ending
after_wait next (true, w) = next w
after_wait next (false, w) = failed w

-- do … while (m < 3 + nGroups), with the rounds that are left after this one.
unfoldable pub wait_all : Calls → ℕ → (Objects → Ending) → Objects → Ending
wait_all c zero next w = after_wait next (c.wait w)
wait_all c (suc left) next w = after_wait (wait_all c left next) (c.wait w)

abbrev pub after_signal : Calls → ℕ → ℕ → (Objects → Ending) → Objects → SemResult → Ending
after_signal c semgid n next w (success s) =
    wait_all c (2 + n) next (record w { semaphores = update w.semaphores semgid s })
after_signal c semgid n next w blocked = failed w
after_signal c semgid n next w failure = failed w

-- From the signal of the start on.
unfoldable pub signal_and_wait : Calls → ℕ → ℕ → (Objects → Ending) → Objects → Ending
signal_and_wait c semgid n next w =
    after_signal c semgid n next w (Semaphore.sem_signal c.kernel (w.semaphores semgid))

abbrev pub after_fork : (Objects → Ending) → Bool × Objects → Ending
after_fork next (true, w) = next w
after_fork next (false, w) = failed w

-- The calls of fork: the groups, the waiter, the chef and the receptionist. What follows fork in a
-- child is in Startup.
unfoldable pub fork_all : Calls → ℕ → (Objects → Ending) → Objects → Ending
fork_all c zero next w = next w
fork_all c (suc left) next w = after_fork (fork_all c left next) (c.fork w)

abbrev pub opened_sems : Calls → ℕ → ℕ → (Objects → Ending) → Objects → Option SemSet → Ending
opened_sems c semgid n next w none = failed w
opened_sems c semgid n next w (some s) =
    fork_all c (n + 3) (signal_and_wait c semgid n next)
      (record w { semaphores = update w.semaphores semgid s })

-- The set is as `initial_sems` of System leaves it.
abbrev pub made_set : Calls → ℕ → ℕ → Option ℕ → Option ℕ × Objects → Ending
made_set c n shmid pointer (none, w) = failed w
made_set c n shmid pointer (some semgid, w) =
    opened_sems c semgid n (remove_all c semgid shmid pointer) w (initial_sems c.kernel n)

-- How the log is written: the calls of stdio, the name of the file and what there is before.
pub record Log : Type 0 where
  pub calls : Stdio
  pub name : Text
  pub before : Output

-- createLog and the first saveState; `none` is an exit. They show nothing of the times, which only
-- say how long a group sleeps, so a time below 0 may stand as 0.
unfoldable pub first_log : Log → ℕ → Times → Option Output
first_log l n t =
    let s = filled n (λ g. rounds_of (t.start g)) (λ g. rounds_of (t.eat g)) in
    log_run l.calls l.name s (s ∷ []) l.before

abbrev pub logged : Calls → ℤ → ℕ → Option ℕ → Objects → ℕ → Option Output → Ending
logged c key shmid pointer w n none = failed w
logged c key shmid pointer w n (some out) =
    made_set c n shmid pointer (sem_create c w key (sem_nu n))

abbrev pub with_config : Calls → Log → ℤ → ℕ → Option ℕ → Objects → Option (ℤ × Times) → Ending
with_config c l key shmid pointer w none = overran
with_config c l key shmid pointer w (some (negsuc n, t)) = below_zero
with_config c l key shmid pointer w (some (pos n, t)) =
    logged c key shmid pointer w n (first_log l n t)

-- config.txt is opened once the block has been filled in; `none` is a file that is not there.
abbrev pub open_config : Calls → Log → ℤ → ℕ → Option ℕ → Objects → Option Text → Ending
open_config c l key shmid pointer w none = failed w
open_config c l key shmid pointer w (some text) =
    with_config c l key shmid pointer w (read_config text)

abbrev pub mapped : Calls → Log → ℤ → ℕ → Objects → Option Text → ℤ × Option ℕ → Ending
mapped c l key shmid w file (result, none) =
    if same_int result (negsuc 0) then failed w else wild_pointer
mapped c l key shmid w file (result, some add) =
    if same_int result (negsuc 0) then failed w else open_config c l key shmid (some add) w file

abbrev pub made_block : Calls → Log → ℤ → Option Text → Option ℕ × Objects → Ending
made_block c l key file (none, w) = failed w
made_block c l key file (some shmid, w) = mapped c l key shmid w file (shmem_attach c w shmid none)

-- `sizeof (SHARED_DATA)` is `size`.
unfoldable pub simulate : Calls → Log → ℕ → ℤ → Option Text → Objects → Ending
simulate c l size key file w = made_block c l key file (shmem_create c w key size)
