-- ===== src/Startup/Programs.antt =====
-- What the processes of semaphore_restaurant/src run, from the arguments that `main` of
-- probSemSharedMemRestaurant.c gives them.
use so_projeto.Prelude.{
  ℕ, suc, ◌≤◌, ◌<◌, ◌≡◌, refl, Option, none, some, [], ◌∷◌, ℤ, pos, negsuc, ltb, update, Bool-cases,
  inl, inr, arith,
}
use so_projeto.Const.{max_groups}
use so_projeto.Logging.{length}
use so_projeto.Semaphore.{SemSet, semvmx}
use so_projeto.Semaphore
use so_projeto.CommandLine.{Text, print_int}
use so_projeto.CommandLine.Decimal.{IsInt, strtol-print_int}
use so_projeto.Ipc.{Objects, find, Calls, connected, shmem_connect, shmem_attach, sem_connect}
use so_projeto.Ipc.Laws.{IsCalls}
use so_projeto.Process.{fault}
use so_projeto.Group.{group_main}
use so_projeto.System.{Pid, group, waiter, chef, receptionist, initial_procs}
use so_projeto.Startup.{
  exits, enters, name_size, connect_all, find_block, with_log, start_group, start_waiter,
  start_chef, start_receptionist, start_process, arguments, life, program,
}

-- The set and the block of the key exist, and the start has been signalled.
pub record IsOpen (w : Objects) (key : ℤ) : Type 0 where
  pub semgid : ℕ
  pub shmid : ℕ
  pub units : ℕ
  pub set : find w.sets key ≡ some semgid
  pub block : find w.blocks key ≡ some shmid
  pub inside : 0 < (w.semaphores semgid).size
  pub signalled : (w.semaphores semgid).value 0 ≡ suc units
  pub room : units < semvmx

module _ {c : Calls} (law : IsCalls c) (w : Objects) (key : ℤ) (o : IsOpen w key) where
  -- The objects after `semConnect`, which takes one unit and gives it back.
  abbrev pub passed : Objects
  passed = record w { semaphores = update w.semaphores o.semgid (w.semaphores o.semgid) }

  sem_connect-passes : sem_connect c w key ≡ connected o.semgid passed
  unfolding sem_connect Semaphore.sem_connect
  sem_connect-passes = rw (law.set_found w key) (
      rw o.set
        (rw (law.kernel.pass (w.semaphores o.semgid) 0 o.units o.inside o.signalled o.room) refl))

  connect_all-enters : (id : ℤ) → connect_all c w id key ≡ enters id (c.shmat passed o.shmid) passed
  unfolding connect_all shmem_connect shmem_attach
  connect_all-enters id =
      rw sem_connect-passes
        (rw (law.block_found passed key) (rw o.block (by_address (c.shmat passed o.shmid) refl)))
    where
      by_address :
          (a : Option ℕ)
          → c.shmat passed o.shmid ≡ a
          → find_block c id (some o.shmid, passed) ≡ enters id a passed
      by_address none e = rw (e, shmem_attach) refl
      by_address (some add) e = rw (e, shmem_attach) refl

  module _ (i : IsInt key) (log errors : Text) (short : length log < name_size) where
    with_log-enters :
        (id : ℤ) → with_log c w id log (print_int key) ≡ enters id (c.shmat passed o.shmid) passed
    unfolding with_log
    with_log-enters id = ground (arith, strtol-print_int key i, connect_all-enters id)

    -- A process gets past its arguments, with its identifier.
    abbrev pub identifier : Pid → ℤ
    identifier (group g) = pos g
    identifier p = pos 0

    start_process-enters :
        (p : Pid)
        → ((g : ℕ) → p ≡ group g → g < max_groups)
        → start_process c w p (arguments p log key errors)
          ≡ enters (identifier p) (c.shmat passed o.shmid) passed
    unfolding start_process start_group start_waiter start_chef start_receptionist arguments
    start_process-enters (group g) lt = ground (
      arith,
      strtol-print_int (pos g) (omega (arith, lt g refl)),
      with_log-enters (pos g),
      lt g refl,
    )
    start_process-enters waiter lt = with_log-enters (pos 0)
    start_process-enters chef lt = with_log-enters (pos 0)
    start_process-enters receptionist lt = with_log-enters (pos 0)

    start_group-exits :
        (g : ℕ)
        → max_groups ≤ g
        → IsInt (pos g)
        → start_process c w (group g) (arguments (group g) log key errors) ≡ exits w
    unfolding start_process start_group arguments
    start_group-exits g ge h = ground (arith, strtol-print_int (pos g) h)

    -- Once the start is signalled, with a key that is an `int` and a name of the log that fits, and
    -- where the block can be mapped, each process that `main` starts runs the program that
    -- `initial_procs` has for it: a group of any number that is an `int`, the waiter, the chef and
    -- the receptionist.
    pub started_programs :
        (add : ℕ)
        → c.shmat passed o.shmid ≡ some add
        → (rounds n : ℕ) (p : Pid) → ((g : ℕ) → p ≡ group g → IsInt (pos g))
        → program rounds n p (start_process c w p (arguments p log key errors))
          ≡ some (initial_procs rounds n p)
    unfolding program life initial_procs group_main
    started_programs add e rounds n (group g) h = elim (Bool-cases (ltb g max_groups)) [
      | inl below ↦
          rw (start_process-enters (group g) (λ g' e'. ground arith)) (rw e (rw below refl))
      | inr above ↦ rw (start_group-exits g (ground arith) (h g refl)) (rw above refl)
    ]
    started_programs add e rounds n waiter h =
        rw (start_process-enters waiter (λ g' e'. cc)) (rw e refl)
    started_programs add e rounds n chef h =
        rw (start_process-enters chef (λ g' e'. cc)) (rw e refl)
    started_programs add e rounds n receptionist h =
        rw (start_process-enters receptionist (λ g' e'. cc)) (rw e refl)

    -- `shmemAttach` returns 1 where it fails, and the test is for -1. So under the same conditions, where the
    -- block cannot be mapped, no process exits: each that has got past its arguments goes on and
    -- reads through a NULL pointer.
    pub failed_attach_faults :
        c.shmat passed o.shmid ≡ none
        → (rounds n : ℕ) (p : Pid) → ((g : ℕ) → p ≡ group g → g < max_groups)
        → program rounds n p (start_process c w p (arguments p log key errors)) ≡ some fault
    unfolding program
    failed_attach_faults e rounds n p h = rw (start_process-enters p h) (rw e refl)

    -- The identifier is tested against MAXGROUPS as an `int`, and never against 0. So under the same
    -- conditions a group that is started with a negative number does not exit: it goes on, and
    -- indexes its arrays with that number.
    pub negative_identifier_faults :
        (m : ℕ)
        → m < 2147483648
        → (rounds n g : ℕ) (name : Text)
        → (start_group c w (name ∷ print_int (negsuc m) ∷ log ∷ print_int key ∷ errors ∷ [])
            ≡ enters (negsuc m) (c.shmat passed o.shmid) passed)
          × (program rounds n
                (group g)
                (start_group c w (name ∷ print_int (negsuc m) ∷ log ∷ print_int key ∷ errors ∷ []))
              ≡ some fault)
    unfolding program life start_group
    negative_identifier_faults m lt rounds n g name =
        let e : start_group c w (name ∷ print_int (negsuc m) ∷ log ∷ print_int key ∷ errors ∷ [])
            ≡ enters (negsuc m) (c.shmat passed o.shmid) passed =
          ground (arith, strtol-print_int (negsuc m) lt, with_log-enters (negsuc m)) in
        (e, rw e (by_address (c.shmat passed o.shmid)))
      where
        by_address :
            (a : Option ℕ) → program rounds n (group g) (enters (negsuc m) a passed) ≡ some fault
        by_address none = refl
        by_address (some add) = refl
