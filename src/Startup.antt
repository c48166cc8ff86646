-- ===== src/Startup.antt =====
-- The first half of the `main` functions of semSharedMemGroup.c, semSharedMemWaiter.c,
-- semSharedMemChef.c and semSharedMemReceptionist.c in semaphore_restaurant/src: the command line, the
-- connection to the semaphores and to the shared memory. Messages on stderr are left out.
pub mod Programs
use so_projeto.Prelude.{
  ℕ, ◌+◌, ◌*◌, Bool, true, false, ◌||◌, not, Option, none, some, List, [], ◌∷◌, ℤ, pos, negsuc, ltb,
  if◌then◌else◌,
}
use so_projeto.Const.{max_groups, toarrive}
use so_projeto.Logging.{length}
use so_projeto.CommandLine.{Text, strtol, to_int, print_int}
use so_projeto.Ipc.{
  Objects, Calls, Connected, connected, waiting, refused, same_int, shmem_connect, shmem_attach,
  sem_connect,
}
use so_projeto.Process.{Proc, exited, fault}
use so_projeto.Group.{group_life}
use so_projeto.Waiter.{waiter_loop}
use so_projeto.Chef.{chef_main}
use so_projeto.Receptionist.{receptionist_loop}
use so_projeto.System.{Pid, group, waiter, chef, receptionist}

-- A process exits, waits for the start, has written past the end of `nFic`, or goes on with its
-- identifier (0 where it has none) and the pointer `sh`, where NULL is `none`.
pub data Startup : Type 0 where
  exits : Objects → Startup
  waits : Startup
  overruns : Startup
  enters : ℤ → Option ℕ → Objects → Startup

-- `char nFic[51]`, with the final NUL.
abbrev pub name_size : ℕ
name_size = 51

abbrev pub attached : Objects → ℤ → ℤ × Option ℕ → Startup
attached w id (result, pointer) =
    if same_int result (negsuc 0) then exits w else enters id pointer w

abbrev pub find_block : Calls → ℤ → Option ℕ × Objects → Startup
find_block c id (none, w) = exits w
find_block c id (some shmid, w) = attached w id (shmem_attach c w shmid none)

abbrev pub find_set : Calls → ℤ → ℤ → Connected → Startup
find_set c id key (refused w) = exits w
find_set c id key waiting = waits
find_set c id key (connected semgid w) = find_block c id (shmem_connect c w key)

unfoldable pub connect_all : Calls → Objects → ℤ → ℤ → Startup
connect_all c w id key = find_set c id key (sem_connect c w key)

-- The test `*tinp != '\0'`.
abbrev pub is_left : Text → Bool
is_left [] = false
is_left (c ∷ cs) = true

abbrev pub with_key : Calls → Objects → ℤ → ℤ × Text → Startup
with_key c w id (key, rest) = if is_left rest then exits w else connect_all c w id (to_int key)

-- From `strcpy (nFic, …)` on.
unfoldable pub with_log : Calls → Objects → ℤ → Text → Text → Startup
with_log c w id log key =
    if ltb (length log) name_size then with_key c w id (strtol key) else overruns

-- n >= MAXGROUPS, for an `int`.
abbrev pub too_large : ℤ → Bool
too_large (pos n) = not (ltb n max_groups)
too_large (negsuc n) = false

abbrev pub with_identifier : Calls → Objects → ℤ × Text → Text → Text → Startup
with_identifier c w (n, rest) log key =
    if is_left rest || too_large (to_int n) then exits w else with_log c w (to_int n) log key

-- `main` of the group, for the list `argv`, up to the life cycle.
unfoldable pub start_group : Calls → Objects → List Text → Startup
start_group c w (name ∷ n ∷ log ∷ key ∷ errors ∷ []) = with_identifier c w (strtol n) log key
start_group c w argv = exits w

unfoldable pub start_waiter : Calls → Objects → List Text → Startup
start_waiter c w (name ∷ log ∷ key ∷ errors ∷ []) = with_log c w (pos 0) log key
start_waiter c w argv = exits w

unfoldable pub start_chef : Calls → Objects → List Text → Startup
start_chef c w (name ∷ log ∷ key ∷ errors ∷ []) = with_log c w (pos 0) log key
start_chef c w argv = exits w

unfoldable pub start_receptionist : Calls → Objects → List Text → Startup
start_receptionist c w (name ∷ log ∷ key ∷ errors ∷ []) = with_log c w (pos 0) log key
start_receptionist c w argv = exits w

unfoldable pub start_process : Calls → Objects → Pid → List Text → Startup
start_process c w (group g) argv = start_group c w argv
start_process c w waiter argv = start_waiter c w argv
start_process c w chef argv = start_chef c w argv
start_process c w receptionist argv = start_receptionist c w argv

-- The lists that `main` of probSemSharedMemRestaurant.c hands to execl.
unfoldable pub arguments : Pid → Text → ℤ → Text → List Text
arguments (group g) log key errors =
    (b'.' ∷ b'/' ∷ b'g' ∷ b'r' ∷ b'o' ∷ b'u' ∷ b'p' ∷ [])
    ∷ print_int (pos g)
    ∷ log
    ∷ print_int key
    ∷ errors
    ∷ []
arguments waiter log key errors =
    (b'.' ∷ b'/' ∷ b'w' ∷ b'a' ∷ b'i' ∷ b't' ∷ b'e' ∷ b'r' ∷ []) ∷ log ∷ print_int key ∷ errors ∷ []
arguments chef log key errors =
    (b'.' ∷ b'/' ∷ b'c' ∷ b'h' ∷ b'e' ∷ b'f' ∷ []) ∷ log ∷ print_int key ∷ errors ∷ []
arguments receptionist log key errors =
    (b'.' ∷ b'/' ∷ b'r' ∷ b'e' ∷ b'c' ∷ b'e' ∷ b'p' ∷ b't' ∷ b'i' ∷ b'o' ∷ b'n' ∷ b'i' ∷ b's' ∷ b't'
      ∷ [])
    ∷ log
    ∷ print_int key
    ∷ errors
    ∷ []

-- The life cycle of a process with that identifier, in a restaurant of `n` groups. The first thing
-- that each does is to read through the pointer; a group indexes its arrays by the identifier.
unfoldable pub life : ℕ → ℕ → Pid → ℤ → Proc (Unit {0})
life rounds n (group g) (pos id) = group_life id
life rounds n (group g) (negsuc id) = fault
life rounds n waiter id = waiter_loop rounds (n * 2)
life rounds n chef id = chef_main n
life rounds n receptionist id = receptionist_loop (n * 2) (λ g. toarrive)

-- What a process runs after it has started; nothing yet while it waits.
unfoldable pub program : ℕ → ℕ → Pid → Startup → Option (Proc (Unit {0}))
program rounds n p (exits w) = some exited
program rounds n p waits = none
program rounds n p overruns = some fault
program rounds n p (enters id none w) = some fault
program rounds n p (enters id (some add) w) = some (life rounds n p id)
