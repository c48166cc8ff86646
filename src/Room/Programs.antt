-- ===== src/Room/Programs.antt =====
-- How many ups the programs of the restaurant make at most.
use so_projeto.Prelude.{ℕ, zero, suc, ◌+◌, ◌*◌, Option, none, some, arith}
use so_projeto.Process.{◌>>=◌}
use so_projeto.State.{Request}
use so_projeto.Group.{
  check_in_at_reception, order_food, wait_food, check_out_at_reception, group_life, group_main,
}
use so_projeto.Chef.{wait_for_order_step, process_order, chef_loop, chef_main}
use so_projeto.Waiter.{
  announce, poll, poll_loop, found_or, wait_for_client_or_chef, serve, inform_chef_of,
  take_food_to_table, waiter_loop,
}
use so_projeto.Receptionist.{
  GroupRecord, wait_for_group, handle, provide_table_or_waiting_room, receive_payment,
  receptionist_loop,
}
use so_projeto.System.{Pid, group, waiter, chef, receptionist, initial_procs}
use so_projeto.Room.{Raises, Raises-bind}

group-Raises : (g : ℕ) → Raises 3 (group_main g)
unfolding group_main group_life check_in_at_reception order_food wait_food check_out_at_reception
group-Raises g = ground arith

chef-Raises : (left : ℕ) → Raises (left * 2) (chef_loop left)
unfolding chef_loop wait_for_order_step process_order
chef-Raises zero = tt
chef-Raises (suc left) = ground (arith, chef-Raises left)

poll-Raises : Raises 0 poll
unfolding poll
poll-Raises = ground arith

found_or-Raises :
    (rounds : ℕ) (r : Option Request)
    → Raises 0 (poll_loop rounds)
    → Raises 0 (found_or (poll_loop rounds) r)
found_or-Raises rounds none e = e
found_or-Raises rounds (some req) e = tt

poll_loop-Raises : (rounds : ℕ) → Raises 0 (poll_loop rounds)
unfolding poll_loop
poll_loop-Raises zero = tt
poll_loop-Raises (suc rounds) =
    Raises-bind (found_or (poll_loop rounds)) 0
      (λ r. found_or-Raises rounds r (poll_loop-Raises rounds)) 0 0 poll (omega arith) poll-Raises

announce-Raises : Raises 1 announce
unfolding announce
announce-Raises = ground arith

serve-Raises : (req : Request) → Raises 2 (serve req)
unfolding serve inform_chef_of take_food_to_table
serve-Raises req = ground arith

waiter-Raises : (rounds left : ℕ) → Raises (left * 3) (waiter_loop rounds left)
unfolding waiter_loop wait_for_client_or_chef
waiter-Raises rounds zero = tt
waiter-Raises rounds (suc left) =
    Raises-bind _ (2 + left * 3)
      (λ req.
        Raises-bind (λ x. waiter_loop rounds left) (left * 3) (λ x. waiter-Raises rounds left) 2 _
          (serve req) (omega arith) (serve-Raises req))
      1 _ (announce >>= λ x. poll_loop rounds) (omega arith)
      (Raises-bind (λ x. poll_loop rounds) 0 (λ x. poll_loop-Raises rounds) 1 _ announce
        (omega arith) announce-Raises)

handle-Raises : (rec : GroupRecord) (req : Request) → Raises 2 (handle rec req)
unfolding handle provide_table_or_waiting_room receive_payment
handle-Raises rec req = ground arith

wait_for_group-Raises : Raises 1 wait_for_group
unfolding wait_for_group
wait_for_group-Raises = ground arith

receptionist-Raises :
    (left : ℕ) (rec : GroupRecord) → Raises (left * 3) (receptionist_loop left rec)
unfolding receptionist_loop
receptionist-Raises zero rec = tt
receptionist-Raises (suc left) rec =
    Raises-bind _ (2 + left * 3)
      (λ req.
        Raises-bind (receptionist_loop left) (left * 3) (receptionist-Raises left) 2 _
          (handle rec req) (omega arith) (handle-Raises rec req))
      1 _ wait_for_group (omega arith) wait_for_group-Raises

-- The ups of each process, at most.
abbrev pub supply : ℕ → Pid → ℕ
supply n (group g) = 3
supply n waiter = n * 2 * 3
supply n chef = n * 2
supply n receptionist = n * 2 * 3

pub initial_procs-Raises : (rounds n : ℕ) (p : Pid) → Raises (supply n p) (initial_procs rounds n p)
unfolding initial_procs chef_main
initial_procs-Raises rounds n (group g) = group-Raises g
initial_procs-Raises rounds n waiter = waiter-Raises rounds (n * 2)
initial_procs-Raises rounds n chef = chef-Raises n
initial_procs-Raises rounds n receptionist = receptionist-Raises (n * 2) (λ g. 0)
