-- ===== src/Receptionist.antt =====
-- semaphore_restaurant/src/semSharedMemReceptionist.c: the receptionist.
-- `groupRecord` is a variable of the process: an operation takes it and returns it.
use so_projeto.Prelude.{
  ℕ, zero, suc, ◌+◌, ◌-◌, Bool, true, false, ◌&&◌, not, Option, none, some, ltb, ◌==◌,
  if◌then◌else◌, is_some, holds_num, update, first,
}
use so_projeto.Const.{
  num_tables, tablereq, billreq, atreception, wait_for_request, assigntable, recvpay, toarrive,
  wait, attable, done,
}
use so_projeto.State.{
  Request, FullStat, set_receptionist_stat, set_assigned_table, set_groups_waiting,
}
use so_projeto.SharedData.{
  mutex, receptionist_req, receptionist_request_possible, wait_for_table, table_done,
}
use so_projeto.Process.{Proc, ret, ◌>>=◌, ◌>>◌, sem_down, sem_up, get, assign, save_state}
use so_projeto.Group.{up_at}

abbrev pub GroupRecord : Type 0
GroupRecord = ℕ → ℕ

-- The inner loop of `decideTableOrWait`: is the table assigned to a group?
unfoldable pub is_occupied : FullStat → ℕ → Bool
is_occupied s t = is_some (first s.n_groups (λ g. holds_num (s.assigned_table g) t))

-- The result -1 is `none`.
unfoldable pub decide_table_or_wait : FullStat → ℕ → Option ℕ
decide_table_or_wait s n =
    if s.st.group_stat n == atreception then first num_tables (λ t. not (is_occupied s t)) else none

unfoldable pub decide_next_group : GroupRecord → FullStat → Option ℕ
decide_next_group rec s =
    first s.n_groups (λ g. is_some (decide_table_or_wait s g) && rec g == wait)

unfoldable pub wait_for_group : Proc Request
wait_for_group = do
  sem_down mutex
  assign (set_receptionist_stat wait_for_request)
  save_state
  sem_up mutex
  sem_down receptionist_req
  sem_down mutex
  req ← get (λ s. s.receptionist_request)
  sem_up receptionist_request_possible
  sem_up mutex
  ret req

-- The branches of `provideTableOrWaitingRoom`.
abbrev pub provide : GroupRecord → ℕ → Option ℕ → Proc GroupRecord
provide rec n (some t) = do
  assign (set_receptionist_stat assigntable)
  save_state
  assign (set_assigned_table n (some t))
  sem_up (wait_for_table n)
  ret (update rec n attable)
provide rec n none = do
  assign (λ s. set_groups_waiting (s.groups_waiting + 1) s)
  ret (update rec n wait)

abbrev pub provide_if : Bool → GroupRecord → ℕ → Proc GroupRecord
provide_if true rec n = do table ← get (λ s. decide_table_or_wait s n); provide rec n table
provide_if false rec n = ret rec

unfoldable pub provide_table_or_waiting_room : GroupRecord → ℕ → Proc GroupRecord
provide_table_or_waiting_room rec n = do
  sem_down mutex
  rec' ← provide_if (rec n == toarrive) rec n
  sem_up mutex
  ret rec'

-- The branches of `receivePayment`, with the table that has become vacant.
abbrev pub seat : GroupRecord → Option ℕ → Option ℕ → Proc GroupRecord
seat rec table (some g) = do
  assign (set_assigned_table g table)
  sem_up (wait_for_table g)
  assign (λ s. set_groups_waiting (s.groups_waiting - 1) s)
  ret (update rec g attable)
seat rec table none = ret rec

abbrev pub seat_if : Bool → GroupRecord → Option ℕ → Proc GroupRecord
seat_if true rec table = do next_group ← get (decide_next_group rec); seat rec table next_group
seat_if false rec table = ret rec

-- `receivePayment` from the signal to the group that pays to the end of the critical region.
abbrev pub pay : GroupRecord → ℕ → Option ℕ → Proc GroupRecord
pay rec n table = do
  up_at table_done table
  assign (set_assigned_table n none)
  waiting ← get (λ s. ltb 0 s.groups_waiting)
  seat_if waiting (update rec n done) table

unfoldable pub receive_payment : GroupRecord → ℕ → Proc GroupRecord
receive_payment rec n = do
  sem_down mutex
  assign (set_receptionist_stat recvpay)
  save_state
  table ← get (λ s. s.assigned_table n)
  rec' ← pay rec n table
  sem_up mutex
  ret rec'

-- The `switch` of `main`.
unfoldable pub handle : GroupRecord → Request → Proc GroupRecord
handle rec req =
    if req.req_type == tablereq
    then provide_table_or_waiting_room rec req.req_group
    else if req.req_type == billreq
    then receive_payment rec req.req_group
    else ret rec

-- The loop of `main`, with the requests that are left.
unfoldable pub receptionist_loop : ℕ → GroupRecord → Proc (Unit {0})
receptionist_loop zero rec = ret tt
receptionist_loop (suc left) rec = do
  req ← wait_for_group
  rec' ← handle rec req
  receptionist_loop left rec'
