-- ===== src/Requests.antt =====
-- How many requests the processes of semaphore_restaurant/src make and serve.
use so_projeto.Prelude.{ℕ, zero, suc, ◌*◌, refl, Bool, true, false, arith}
use so_projeto.State.{Request}
use so_projeto.Const.{foodreq, foodready}
use so_projeto.Waiter.{request, serve, inform_chef_of, take_food_to_table}
use so_projeto.SharedData.{
  SemId, receptionist_req, receptionist_request_possible, wait_order, order_received,
}
use so_projeto.Process.Calls.{Counted, Makes, Makes-bind}
use so_projeto.Group.{
  check_in_at_reception, order_food, wait_food, check_out_at_reception, group_life,
}
use so_projeto.Chef.{chef_main, chef_loop, wait_for_order_step, process_order}
use so_projeto.Receptionist.{
  GroupRecord, receptionist_loop, wait_for_group, handle, provide_table_or_waiting_room,
  receive_payment,
}

abbrev nothing : SemId → Bool
nothing _ = false

abbrev pub is_receptionist_req : SemId → Bool
is_receptionist_req receptionist_req = true
is_receptionist_req _ = false

abbrev pub is_request_possible : SemId → Bool
is_request_possible receptionist_request_possible = true
is_request_possible _ = false

abbrev pub is_wait_order : SemId → Bool
is_wait_order wait_order = true
is_wait_order _ = false

abbrev pub is_order_received : SemId → Bool
is_order_received order_received = true
is_order_received _ = false

abbrev pub only_down : (SemId → Bool) → Counted
only_down x = record { downs = x; ups = nothing }

abbrev pub only_up : (SemId → Bool) → Counted
only_up x = record { downs = nothing; ups = x }

module _ (c : Counted) where
  receptionist-Makes :
      Makes c 1 wait_for_group
      → ((rec : GroupRecord) (req : Request) → Makes c 0 (handle rec req))
      → (left : ℕ) (rec : GroupRecord) → Makes c left (receptionist_loop left rec)
  unfolding receptionist_loop
  receptionist-Makes turn handles zero rec = refl
  receptionist-Makes turn handles (suc left) rec =
      Makes-bind c _ left
        (λ req.
          Makes-bind c (receptionist_loop left) left (receptionist-Makes turn handles left) 0 left
            (handle rec req) (omega arith) (handles rec req))
        1 (suc left) wait_for_group (omega arith) turn

  chef-Makes :
      Makes c 1 wait_for_order_step
      → ((last : ℕ) → Makes c 0 (process_order last))
      → (left : ℕ) → Makes c left (chef_loop left)
  unfolding chef_loop
  chef-Makes turn process zero = refl
  chef-Makes turn process (suc left) =
      Makes-bind c _ left
        (λ last.
          Makes-bind c (λ x. chef_loop left) left (λ x. chef-Makes turn process left) 0 left
            (process_order last) (omega arith) (process last))
        1 (suc left) wait_for_order_step (omega arith) turn

-- Whatever it reads, a group that comes to the end of its life has taken the leave to make a request
-- to the receptionist twice and has signalled twice, and a receptionist that has served twice as many
-- requests as there are groups has taken that many signals and given leave that often.
pub desk_requests_match :
    (n : ℕ) (rec : GroupRecord)
    → ((g : ℕ)
        → Makes (only_down is_request_possible) 2 (group_life g)
          × Makes (only_up is_receptionist_req) 2 (group_life g))
      × Makes (only_down is_receptionist_req) (n * 2) (receptionist_loop (n * 2) rec)
      × Makes (only_up is_request_possible) (n * 2) (receptionist_loop (n * 2) rec)
unfolding group_life check_in_at_reception order_food wait_food check_out_at_reception
    wait_for_group handle provide_table_or_waiting_room receive_payment
desk_requests_match n rec = (
  λ g. (ground arith, ground arith),
  receptionist-Makes (only_down is_receptionist_req) (ground arith) (λ r req. ground arith) (n * 2)
      rec,
  receptionist-Makes (only_up is_request_possible) (ground arith) (λ r req. ground arith) (n * 2)
      rec,
)

-- Whatever the processes read, the waiter signals one order and takes one acknowledgement for each
-- request FOODREQ that it serves to the end, and none for a request FOODREADY, and a chef that comes to
-- its end has taken as many orders, and acknowledged as many, as there are groups.
pub orders_match :
    (n : ℕ)
    → ((g : ℕ)
        → Makes (only_up is_wait_order) 1 (serve (request foodreq g))
          × Makes (only_down is_order_received) 1 (serve (request foodreq g))
          × Makes (only_up is_wait_order) 0 (serve (request foodready g))
          × Makes (only_down is_order_received) 0 (serve (request foodready g)))
      × Makes (only_down is_wait_order) n (chef_main n)
      × Makes (only_up is_order_received) n (chef_main n)
unfolding serve inform_chef_of take_food_to_table chef_main wait_for_order_step process_order
orders_match n = (
  λ g. ground arith,
  chef-Makes (only_down is_wait_order) (ground arith) (λ last. ground arith) n,
  chef-Makes (only_up is_order_received) (ground arith) (λ last. ground arith) n,
)
