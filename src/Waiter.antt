-- ===== src/Waiter.antt =====
-- semaphore_restaurant/src/semSharedMemWaiter.c: the waiter.
pub mod Poll
pub mod Serve
use so_projeto.Prelude.{ℕ, zero, suc, Option, none, some, ◌==◌, if◌then◌else◌, first}
use so_projeto.Const.{
  max_groups, foodreq, foodready, cook, food_request, wait_for_food, eat, wait_for_request,
  inform_chef, take_to_table,
}
use so_projeto.State.{Request, FullStat, set_group_stat, set_waiter_stat, set_waiter_request}
use so_projeto.SharedData.{
  mutex, waiter_request_possible, wait_order, order_received, request_received, food_arrived,
}
use so_projeto.Process.{
  Proc, ret, read, spinning, ◌>>=◌, ◌>>◌, sem_down, sem_up, get, assign, save_state,
}
use so_projeto.Group.{up_at}

abbrev pub request : ℕ → ℕ → Request
request t g = record { req_type = t; req_group = g }

-- The scans of `groupStat`, over all MAXGROUPS places.
unfoldable pub first_in_state : ℕ → FullStat → Option ℕ
first_in_state v s = first max_groups (λ i. s.st.group_stat i == v)

-- The second `if` of the loop: the chef's signal, if the request says FOODREADY.
unfoldable pub chef_signal : FullStat → Option ℕ
chef_signal s =
    if s.waiter_request.req_type == foodready then first_in_state wait_for_food s else none

-- What one round does with the results of the scans.
abbrev pub take_request : Option ℕ → Proc (Option Request)
take_request (some i) = do assign (set_group_stat i wait_for_food); ret (some (request foodreq i))
take_request none = do
  ready ← get chef_signal
  ret (elim ready [ none ↦ none | some i ↦ some (request foodready i) ])

-- One round of `while (!foundRequest)`.
unfoldable pub poll : Proc (Option Request)
poll = do
  sem_down mutex
  asking ← get (first_in_state food_request)
  found ← take_request asking
  sem_up mutex
  ret found

abbrev pub found_or : Proc Request → Option Request → Proc Request
found_or again (some req) = ret req
found_or again none = again

-- The loop, on a number of rounds.
unfoldable pub poll_loop : ℕ → Proc Request
poll_loop zero = spinning
poll_loop (suc rounds) = poll >>= found_or (poll_loop rounds)

-- The part of `waitForClientOrChef` before its loop.
unfoldable pub announce : Proc (Unit {0})
announce = do
  sem_down mutex
  assign (set_waiter_stat wait_for_request)
  save_state
  sem_up mutex
  sem_up waiter_request_possible

unfoldable pub wait_for_client_or_chef : ℕ → Proc Request
wait_for_client_or_chef rounds = do announce; poll_loop rounds

unfoldable pub inform_chef_of : ℕ → Proc (Unit {0})
inform_chef_of n = do
  sem_down mutex
  assign (set_waiter_stat inform_chef)
  save_state
  assign (set_waiter_request cook n)
  sem_up wait_order
  sem_up mutex
  sem_down order_received
  table ← get (λ s. s.assigned_table n)
  up_at request_received table

unfoldable pub take_food_to_table : ℕ → Proc (Unit {0})
take_food_to_table n = do
  sem_down mutex
  assign (set_waiter_stat take_to_table)
  save_state
  table ← get (λ s. s.assigned_table n)
  up_at food_arrived table
  sem_up mutex
  sem_down mutex
  assign (set_group_stat n eat)
  save_state
  sem_up mutex

-- The `switch` of `main`.
unfoldable pub serve : Request → Proc (Unit {0})
serve req =
    if req.req_type == foodreq
    then inform_chef_of req.req_group
    else if req.req_type == foodready
    then take_food_to_table req.req_group
    else ret tt

-- The loop of `main`, with the requests that are left.
unfoldable pub waiter_loop : ℕ → ℕ → Proc (Unit {0})
waiter_loop rounds zero = ret tt
waiter_loop rounds (suc left) = do
  req ← wait_for_client_or_chef rounds
  serve req
  waiter_loop rounds left
