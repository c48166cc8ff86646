-- ===== src/Tokens/Kitchen.antt =====
-- The orders: `waitOrder` and `orderReceived` pass one token between the waiter and the chef. The
-- waiter holds it while no order is out.
use so_projeto.Prelude.{
  ℕ, ◌+◌, ◌≤◌, ◌<◌, ◌≡◌, refl, Bool, true, false, ◌||◌, some, ◌==◌, total, total-eq_zero, arith,
}
use so_projeto.Const.{max_groups}
use so_projeto.Semaphore.{Kernel, IsKernel, ushort}
use so_projeto.SharedData.{SemId, wait_order, order_received, sem_index}
use so_projeto.Group.{check_in_at_reception, order_food, wait_food, check_out_at_reception}
use so_projeto.Chef.{wait_for_order_step, process_order}
use so_projeto.Waiter.{announce, poll, inform_chef_of, take_food_to_table, serve}
use so_projeto.Receptionist.{wait_for_group, provide_table_or_waiting_room, receive_payment, handle}
use so_projeto.System.{Pid, waiter, System, Config, Reached}
use so_projeto.Tokens.{Protocol}
use so_projeto.Tokens.Programs.{Parts}
use so_projeto.Tokens.Reached.{Reached-Balanced}

abbrev pub is_kitchen : SemId → Bool
is_kitchen wait_order = true
is_kitchen order_received = true
is_kitchen _ = false

abbrev pub num_is_kitchen : ℕ → Bool
num_is_kitchen i = (i == 6) || (i == 7)

pub kitchen_low : (i : ℕ) → num_is_kitchen i ≡ true → i < 8
kitchen_low i h = ground arith

pub kitchen_agree :
    (n : ℕ) (x : SemId) {i : ℕ}
    → n ≤ max_groups
    → sem_index n x ≡ some i
    → num_is_kitchen (ushort i) ≡ is_kitchen x
unfolding sem_index
kitchen_agree n x le e = ground arith

abbrev pub kitchen_protocol : Protocol
kitchen_protocol = record {
  counts = is_kitchen;
  counts_num = num_is_kitchen;
  low = kitchen_low;
  agree = kitchen_agree;
  may_read = λ p k. Unit;
  may_write = λ p g k. Unit;
  may_save = λ k. Unit;
  may_down = λ k. Unit;
  may_rest = λ k. Unit;
}

abbrev pub at_rest : Pid → ℕ
at_rest waiter = 1
at_rest _ = 0

pub kitchen_parts : Parts kitchen_protocol at_rest
unfolding check_in_at_reception order_food wait_food check_out_at_reception wait_for_order_step
    process_order announce poll serve inform_chef_of take_food_to_table wait_for_group handle
    provide_table_or_waiting_room receive_payment
kitchen_parts = record {
  resting = λ p. tt;
  check_in = λ g id. ground arith;
  order = λ g id. ground arith;
  wait = λ g id. ground arith;
  check_out = λ g id. ground arith;
  take_order = ground arith;
  process = λ last. ground arith;
  announcing = ground arith;
  polling = ground arith;
  serving = λ req. ground arith;
  waiting = ground arith;
  handling = λ rec req. ground arith;
}

-- With at most MAXGROUPS groups and a kernel that keeps its promises, in every system that is reached
-- at most one order is on its way to the chef or acknowledged but not yet seen by the waiter.
pub one_order :
    {k : Kernel}
    → IsKernel k
    → (c : Config) {t : System} → c.n_groups ≤ max_groups
    → Reached k c t
    → t.sems.value 6 + t.sems.value 7 ≤ 1
unfolding total
one_order law c le r =
    let b = Reached-Balanced law c le kitchen_parts r in
    omega (arith, b.sum, total-eq_zero c.n_groups (λ g. 0) (λ g. refl))
