-- ===== src/Tests/Runs.antt =====
-- Runs of the restaurant with five groups, as semaphore_restaurant/run/config.txt has it.
use so_projeto.Prelude.{
  arith, ℕ, zero, suc, ◌≡◌, refl, Bool, true, false, some, List, [], ◌∷◌, ◌++◌, update, first,
  if◌then◌else◌,
}
use so_projeto.Process.{Proc, ret}
use so_projeto.Semaphore.{SemSet, sem_create}
use so_projeto.Semaphore
use so_projeto.SharedData.{sem_nu, sem_index}
use so_projeto.Group.{
  check_in_at_reception, order_food, wait_food, check_out_at_reception, group_life, group_main,
}
use so_projeto.Chef.{wait_for_order_step, process_order, chef_loop, chef_main}
use so_projeto.Waiter.{
  waiter_loop, wait_for_client_or_chef, announce, poll, poll_loop, serve, inform_chef_of,
  take_food_to_table, chef_signal, first_in_state,
}
use so_projeto.Receptionist.{
  receptionist_loop, wait_for_group, handle, provide_table_or_waiting_room, receive_payment,
  decide_table_or_wait, decide_next_group, is_occupied,
}
use so_projeto.System.{
  Pid, group, waiter, chef, receptionist, System, Config, Reached, run, step, move, proc_step,
  first_system, initial_procs, initial_state,
}
use so_projeto.System.Start.{opened, main_lem}
use so_projeto.Tests.Kernel.{sysv, sysv-IsKernel}

abbrev pub five_groups : Config
five_groups = record {
  n_groups = 5;
  start_time = update (update (update (update (λ g. 25000) 0 50000) 1 10000) 2 10000) 3 20000;
  eat_time = update (update (λ g. 100000) 1 600000) 2 200000;
  few = omega arith;
}

abbrev pub begin : System
begin = first_system 100 five_groups (opened (sem_create sysv (sem_nu 5)))

abbrev pub after : List Pid → System
after ps = run sysv 5 begin ps

pub reached : (ps : List Pid) → Reached sysv five_groups (after ps)
reached ps = record {
  rounds = 100;
  start = begin;
  begins = main_lem sysv-IsKernel 100 five_groups;
  schedule = ps;
  ends = refl;
}

abbrev pub times : ℕ → Pid → List Pid
times zero p = []
times (suc k) p = p ∷ times k p

-- All that a run computes with.
unfoldable pub running : ℕ
unfolding check_in_at_reception order_food wait_food check_out_at_reception group_life group_main
    wait_for_order_step process_order chef_loop chef_main waiter_loop wait_for_client_or_chef
    announce poll poll_loop serve inform_chef_of take_food_to_table receptionist_loop wait_for_group
    handle provide_table_or_waiting_room receive_payment decide_table_or_wait decide_next_group
    is_occupied chef_signal first_in_state first run step move proc_step initial_procs initial_state
    sem_index sem_create Semaphore.sem_down Semaphore.sem_up
running = 0

-- Group 1 takes the first table.
seated_first : (after (times 7 (group 1) ++ times 20 receptionist)).mem.assigned_table 1 ≡ some 0
unfolding running
seated_first = refl

abbrev pub turns : ℕ → List Pid
turns zero = []
turns (suc k) =
    group 0 ∷ group 1 ∷ group 2 ∷ group 3 ∷ group 4 ∷ waiter ∷ chef ∷ receptionist ∷ turns k

abbrev pub has_returned : Proc (Unit {0}) → Bool
has_returned (ret x) = true
has_returned p = false

abbrev all_returned : List Pid → System → Bool
all_returned [] y = true
all_returned (p ∷ ps) y = if has_returned (y.procs p) then all_returned ps y else false

-- In turns, every group is served and leaves, and every process returns.
everyone_leaves :
    all_returned
      (group 0 ∷ group 1 ∷ group 2 ∷ group 3 ∷ group 4 ∷ waiter ∷ chef ∷ receptionist ∷ [])
      (after (turns 600))
    ≡ true
unfolding running
everyone_leaves = refl
