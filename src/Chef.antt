-- ===== src/Chef.antt =====
-- semaphore_restaurant/src/semSharedMemChef.c: the chef.
pub mod Orders
use so_projeto.Prelude.{ℕ, zero, suc}
use so_projeto.Const.{foodready, cook, wait_for_order}
use so_projeto.State.{FullStat, set_chef_stat, set_waiter_request}
use so_projeto.SharedData.{
  mutex, waiter_request, waiter_request_possible, wait_order, order_received,
}
use so_projeto.Process.{Proc, ret, ◌>>=◌, ◌>>◌, sem_down, sem_up, get, assign, save_state}

-- `waitForOrder`; the result is the new value of `lastGroup`.
unfoldable pub wait_for_order_step : Proc ℕ
wait_for_order_step = do
  sem_down wait_order
  sem_down mutex
  last_group ← get (λ s. s.food_group)
  assign (set_chef_stat cook)
  save_state
  sem_up order_received
  sem_up mutex
  ret last_group

unfoldable pub process_order : ℕ → Proc (Unit {0})
process_order last_group = do
  sem_down waiter_request_possible
  sem_down mutex
  assign (set_waiter_request foodready last_group)
  sem_up waiter_request
  assign (set_chef_stat wait_for_order)
  save_state
  sem_up mutex

-- The loop of `main`, with the orders that are left.
unfoldable pub chef_loop : ℕ → Proc (Unit {0})
chef_loop zero = ret tt
chef_loop (suc left) = do last_group ← wait_for_order_step; process_order last_group; chef_loop left

unfoldable pub chef_main : ℕ → Proc (Unit {0})
chef_main n = chef_loop n
