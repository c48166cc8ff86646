-- ===== src/Group.antt =====
-- semaphore_restaurant/src/semSharedMemGroup.c: the life of a group.
use so_projeto.Prelude.{ℕ, Option, none, some, ltb, if◌then◌else◌}
use so_projeto.Const.{
  max_groups, tablereq, foodreq, billreq, atreception, food_request, wait_for_food, eat, checkout,
  leaving,
}
use so_projeto.State.{set_group_stat, set_receptionist_request, set_waiter_request}
use so_projeto.SharedData.{
  SemId, mutex, receptionist_req, receptionist_request_possible, waiter_request,
  waiter_request_possible, wait_for_table, food_arrived, request_received, table_done,
}
use so_projeto.Process.{Proc, exited, fault, ◌>>=◌, ◌>>◌, sem_down, sem_up, get, assign, save_state}

-- An index -1 lies outside of the array.
abbrev pub down_at : (ℕ → SemId) → Option ℕ → Proc (Unit {0})
down_at array none = fault
down_at array (some t) = sem_down (array t)

abbrev pub up_at : (ℕ → SemId) → Option ℕ → Proc (Unit {0})
up_at array none = fault
up_at array (some t) = sem_up (array t)

unfoldable pub check_in_at_reception : ℕ → Proc (Unit {0})
check_in_at_reception id = do
  sem_down receptionist_request_possible
  sem_down mutex
  assign (set_group_stat id atreception)
  save_state
  assign (set_receptionist_request tablereq id)
  sem_up receptionist_req
  sem_up mutex
  sem_down (wait_for_table id)

unfoldable pub order_food : ℕ → Proc (Unit {0})
order_food id = do
  sem_down waiter_request_possible
  sem_down mutex
  assign (set_group_stat id food_request)
  save_state
  assign (set_waiter_request foodreq id)
  sem_up waiter_request
  table ← get (λ s. s.assigned_table id)
  sem_up mutex
  down_at request_received table

unfoldable pub wait_food : ℕ → Proc (Unit {0})
wait_food id = do
  sem_down mutex
  assign (set_group_stat id wait_for_food)
  save_state
  table ← get (λ s. s.assigned_table id)
  sem_up mutex
  down_at food_arrived table
  sem_down mutex
  assign (set_group_stat id eat)
  save_state
  sem_up mutex

unfoldable pub check_out_at_reception : ℕ → Proc (Unit {0})
check_out_at_reception id = do
  sem_down receptionist_request_possible
  sem_down mutex
  assign (set_group_stat id checkout)
  save_state
  assign (set_receptionist_request billreq id)
  sem_up receptionist_req
  table ← get (λ s. s.assigned_table id)
  sem_up mutex
  down_at table_done table
  sem_down mutex
  assign (set_group_stat id leaving)
  save_state
  sem_up mutex

-- The life cycle in `main`. `goToRestaurant` and `eat` only sleep.
unfoldable pub group_life : ℕ → Proc (Unit {0})
group_life id = do check_in_at_reception id; order_food id; wait_food id; check_out_at_reception id

-- `main`, for the identifier on the command line.
unfoldable pub group_main : ℕ → Proc (Unit {0})
group_main id = if ltb id max_groups then group_life id else exited
