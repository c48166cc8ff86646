-- ===== src/System.antt =====
-- The restaurant: the processes of semaphore_restaurant/src over one shared region and one
-- semaphore set, as `main` of probSemSharedMemRestaurant.c starts them.
-- A schedule names, step after step, the process that moves. Each step is one semaphore call, one
-- read, one write or one `saveState`; a process that has to wait leaves everything as it is.
pub mod Start
use so_projeto.Prelude.{
  ℕ, zero, suc, ◌*◌, ◌≤◌, ◌≡◌, arith, refl, Bool, true, false, Option, none, some, List, [], ◌∷◌,
  ◌++◌, ltb, ◌==◌, if◌then◌else◌, update,
}
use so_projeto.Const.{max_groups, wait_for_order, wait_for_request, gotorest, toarrive}
use so_projeto.State.{FullStat}
use so_projeto.Semaphore.{Kernel, SemSet, SemResult, success, blocked, failure, sem_create}
use so_projeto.Semaphore
use so_projeto.SharedData.{
  SemId, mutex, receptionist_request_possible, waiter_request_possible, sem_nu, sem_index,
}
use so_projeto.Process.{Proc, ret, down, up, read, write, save, exited, fault, spinning}
use so_projeto.Group.{group_main}
use so_projeto.Chef.{chef_main}
use so_projeto.Waiter.{waiter_loop}
use so_projeto.Receptionist.{receptionist_loop}

-- The memory, the states that `saveState` has written to the log, how often it has been called by the
-- processes, and the semaphores.
pub record World : Type 0 where
  pub mem : FullStat
  pub log : List FullStat
  pub tries : ℕ
  pub sems : SemSet

abbrev pub Move : Type 0
Move = Proc (Unit {0}) × World

-- What follows a semaphore call of the program `p`, which goes on with `q`.
abbrev pub after_call : Proc (Unit {0}) → Proc (Unit {0}) → World → Option SemResult → Move
after_call p q w none = (exited, w)
after_call p q w (some (success s)) = (q, record w { sems = s })
after_call p q w (some blocked) = (p, w)
after_call p q w (some failure) = (exited, w)

-- A call of `saveState`, which exits if the log cannot be opened or closed, wherever the process is.
abbrev pub on_save : Proc (Unit {0}) → World → Bool → Move
on_save p w true = (p, record w { log = w.log ++ (w.mem ∷ []); tries = suc w.tries })
on_save p w false = (exited, record w { tries = suc w.tries })

pub on_save_mem : (p : Proc (Unit {0})) (w : World) (b : Bool) → (on_save p w b).1.mem ≡ w.mem
on_save_mem p w true = refl
on_save_mem p w false = refl

-- A call on the number that a field of `SHARED_DATA` holds.
abbrev pub on_sem :
    (SemSet → ℕ → Option SemResult) → Proc (Unit {0}) → Proc (Unit {0}) → World → Option ℕ → Move
on_sem call p q w none = (fault, w)
on_sem call p q w (some i) = after_call p q w (call w.sems i)

pub on_sem_mem :
    (call : SemSet → ℕ → Option SemResult) (p q : Proc (Unit {0})) (w : World) (o : Option ℕ)
    → (on_sem call p q w o).1.mem ≡ w.mem
on_sem_mem call p q w none = refl
on_sem_mem call p q w (some i) = ground arith

-- One step of one process, among `n` groups.
unfoldable pub proc_step : Kernel → ℕ → Proc (Unit {0}) → World → Move
proc_step k n (ret a) w = (ret a, w)
proc_step k n (down i p) w = on_sem (Semaphore.sem_down k) (down i p) p w (sem_index n i)
proc_step k n (up i p) w = on_sem (Semaphore.sem_up k) (up i p) p w (sem_index n i)
proc_step k n (read f) w = (f w.mem, w)
proc_step k n (write g p) w = (p, record w { mem = g w.mem })
proc_step k n (save p) w = on_save p w (k.log_works w.tries)
proc_step k n exited w = (exited, w)
proc_step k n fault w = (fault, w)
proc_step k n spinning w = (spinning, w)

pub data Pid : Type 0 where
  group : ℕ → Pid
  waiter chef receptionist : Pid

pub record System : Type 0 where
  pub world : World
  pub open world use *
  pub procs : Pid → Proc (Unit {0})

abbrev pub same_pid : Pid → Pid → Bool
same_pid (group i) (group j) = i == j
same_pid waiter waiter = true
same_pid chef chef = true
same_pid receptionist receptionist = true
same_pid _ _ = false

pub same_pid_self : (p : Pid) → same_pid p p ≡ true
same_pid_self (group g) = ground arith
same_pid_self waiter = refl
same_pid_self chef = refl
same_pid_self receptionist = refl

pub same_pid_comm : (p q : Pid) → same_pid p q ≡ same_pid q p
same_pid_comm p q = ground arith

abbrev pub set_at {ℓ} : {A : Type ℓ} → (Pid → A) → Pid → A → Pid → A
set_at f p a q = if same_pid p q then a else f q

pub same_pid→eq : (p q : Pid) → same_pid p q ≡ true → p ≡ q
same_pid→eq p q h = ground arith

-- Among `n` groups there is no other process.
abbrev pub is_pid : ℕ → Pid → Bool
is_pid n (group g) = ltb g n
is_pid n _ = true

unfoldable pub move : Kernel → ℕ → System → Pid → System
move k n s p =
    let (c, w) = proc_step k n (s.procs p) s.world in
    record { world = w; procs = set_at s.procs p c }

unfoldable pub step : Kernel → ℕ → System → Pid → System
step k n s p = if is_pid n p then move k n s p else s

unfoldable pub run : Kernel → ℕ → System → List Pid → System
run k n s [] = s
run k n s (p ∷ ps) = run k n (step k n s p) ps

-- What `main` reads from config.txt, where it gives no more groups than the arrays have room for. With
-- more, `main` has written past their end before it starts a process.
pub record Config : Type 0 where
  pub n_groups : ℕ
  pub start_time : ℕ → ℕ
  pub eat_time : ℕ → ℕ
  pub few : n_groups ≤ max_groups

-- The shared region once `main` has filled it in for `n` groups, at most MAXGROUPS; what it leaves alone
-- is 0 in a new region. Only the first MAXGROUPS places of an array stand for memory.
abbrev pub filled : ℕ → (ℕ → ℕ) → (ℕ → ℕ) → FullStat
filled n start eat = record {
  st = record {
    receptionist_stat = wait_for_request;
    waiter_stat = wait_for_request;
    chef_stat = wait_for_order;
    group_stat = λ g. gotorest;
  };
  n_groups = n;
  groups_waiting = 0;
  start_time = start;
  eat_time = eat;
  assigned_table = λ g. none;
  food_order = 0;
  food_group = 0;
  receptionist_request = record { req_type = 0; req_group = 0 };
  waiter_request = record { req_type = 0; req_group = 0 };
}

unfoldable pub initial_state : Config → FullStat
initial_state c = filled c.n_groups c.start_time c.eat_time

-- The three calls of `semUp` behind `semCreate`; `none` is an exit of `main`.
abbrev pub up_first : Kernel → ℕ → SemId → Option SemSet → Option SemSet
up_first k n x none = none
up_first k n x (some s) = elim (sem_index n x) [
  | none ↦ none
  | some i ↦ elim (Semaphore.sem_up k s i) [
    | none ↦ none
    | some (success s') ↦ some s'
    | some blocked ↦ none
    | some failure ↦ none
  ]
]

unfoldable pub initial_sems : Kernel → ℕ → Option SemSet
initial_sems k n =
    up_first k n receptionist_request_possible
      (up_first k n waiter_request_possible (up_first k n mutex (some (sem_create k (sem_nu n)))))

-- The programs that `main` starts; `rounds` bounds each wait of the waiter.
unfoldable pub initial_procs : ℕ → ℕ → Pid → Proc (Unit {0})
initial_procs rounds n (group g) = group_main g
initial_procs rounds n waiter = waiter_loop rounds (n * 2)
initial_procs rounds n chef = chef_main n
initial_procs rounds n receptionist = receptionist_loop (n * 2) (λ g. toarrive)

-- The system as the last `fork` leaves it.
abbrev pub first_system : ℕ → Config → SemSet → System
first_system rounds c s = record {
  world = record { mem = initial_state c; log = initial_state c ∷ []; tries = 0; sems = s };
  procs = initial_procs rounds c.n_groups;
}

abbrev pub started : ℕ → Config → Option SemSet → Option System
started rounds c none = none
started rounds c (some s) = some (first_system rounds c s)

unfoldable pub main : Kernel → ℕ → Config → Option System
main k rounds c = started rounds c (initial_sems k c.n_groups)

-- A system that `main` starts and that some schedule leads to.
pub record Reached (k : Kernel) (c : Config) (t : System) : Type 0 where
  pub rounds : ℕ
  pub start : System
  pub begins : main k rounds c ≡ some start
  pub schedule : List Pid
  pub ends : run k c.n_groups start schedule ≡ t
