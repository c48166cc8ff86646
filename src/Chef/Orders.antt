-- ===== src/Chef/Orders.antt =====
-- The group that the chef of semaphore_restaurant/src/semSharedMemChef.c names in its request.
-- `foodGroup` has no writer but `main`, which leaves it 0.
use so_projeto.Prelude.{◌≤◌, ℕ, zero, suc, ◌*◌, ◌≡◌, refl, true, false, arith}
use so_projeto.Const.{max_groups, foodready, toarrive}
use so_projeto.State.{FullStat, Request}
use so_projeto.Semaphore.{Kernel, IsKernel}
use so_projeto.SharedData.{request_received, food_arrived, table_done}
use so_projeto.Group.{
  check_in_at_reception, order_food, wait_food, check_out_at_reception, group_main, down_at, up_at,
}
use so_projeto.Chef.{wait_for_order_step, process_order, chef_loop, chef_main}
use so_projeto.Waiter.{announce, inform_chef_of, take_food_to_table, waiter_loop}
use so_projeto.Receptionist.{
  GroupRecord, wait_for_group, provide_table_or_waiting_room, receive_payment, handle,
}
use so_projeto.System.{
  Pid, group, waiter, chef, receptionist, System, Config, Reached, is_pid, same_pid, initial_state,
  initial_procs,
}
use so_projeto.Ownership.{Owns, Leaves, Leaves-bind, Owns-bind, Done}
use so_projeto.Ownership.Run.{Reached-Owned}
use so_projeto.Ownership.Programs.{
  down_at-Leaves, up_at-Leaves, group_main-Leaves, poll-Leaves, serve-Leaves, waiter_loop-Leaves,
  receptionist_loop-Leaves,
}

-- No order names a group, and the chef's signal names group 0.
pub record IsAnonymous (food_group req_type req_group : ℕ) : Type 0 where
  pub unnamed : food_group ≡ 0
  pub signal : req_type ≡ foodready → req_group ≡ 0

abbrev pub Anonymous : Unit {0} → FullStat → Type 0
Anonymous v s = IsAnonymous s.food_group s.waiter_request.req_type s.waiter_request.req_group

abbrev elsewhere : (v : Unit {0}) (s : FullStat) → Anonymous v s → Anonymous v s
elsewhere v s h = h

-- Every other request has another number.
asks :
    (t g : ℕ)
    → ¬ (t ≡ foodready)
    → (v : Unit {0}) (s : FullStat) → Anonymous v s
    → IsAnonymous s.food_group t g
asks t g ne v s h = record { unnamed = h.unnamed; signal = λ e. absurd (ne e) }

group-Leaves : (g : ℕ) → Leaves Anonymous (group_main g)
unfolding check_in_at_reception order_food wait_food check_out_at_reception
group-Leaves g =
    group_main-Leaves Anonymous g (elsewhere, (elsewhere, tt))
      (
        elsewhere,
        (
          asks 3 g (omega arith),
          λ s. down_at-Leaves Anonymous request_received (s.assigned_table g),
        ),
      )
      (
        elsewhere,
        λ s.
            Leaves-bind Anonymous (down_at food_arrived (s.assigned_table g)) _
              (down_at-Leaves Anonymous food_arrived (s.assigned_table g)) (λ a. (elsewhere, tt)),
      )
      (
        elsewhere,
        (
          elsewhere,
          λ s.
              Leaves-bind Anonymous (down_at table_done (s.assigned_table g)) _
                (down_at-Leaves Anonymous table_done (s.assigned_table g)) (λ a. (elsewhere, tt)),
        ),
      )

waiter-Leaves : (rounds left : ℕ) → Leaves Anonymous (waiter_loop rounds left)
unfolding announce inform_chef_of take_food_to_table
waiter-Leaves rounds left =
    waiter_loop-Leaves Anonymous rounds left (elsewhere, tt)
      (poll-Leaves Anonymous (λ i. elsewhere))
      λ req.
        serve-Leaves Anonymous req
          (
            elsewhere,
            (
              asks 1 req.req_group (omega arith),
              λ s. up_at-Leaves Anonymous request_received (s.assigned_table req.req_group),
            ),
          )
          (
            elsewhere,
            λ s.
                Leaves-bind Anonymous (up_at food_arrived (s.assigned_table req.req_group)) _
                  (up_at-Leaves Anonymous food_arrived (s.assigned_table req.req_group))
                  (λ a. (elsewhere, tt)),
          )

wait_for_group-Leaves : Leaves Anonymous wait_for_group
unfolding wait_for_group
wait_for_group-Leaves = (elsewhere, λ s. tt)

handle-Leaves : (rec : GroupRecord) (req : Request) → Leaves Anonymous (handle rec req)
unfolding handle provide_table_or_waiting_room receive_payment
handle-Leaves rec req = ground arith

abbrev Any : {A : Type 0} → A → Unit {0} → Type 0
Any a v = Unit

take_order-Owns : (v : Unit {0}) → Owns Anonymous wait_for_order_step (λ last u. last ≡ 0) v
unfolding wait_for_order_step
take_order-Owns v = λ s h. (v, elsewhere v, h.unnamed)

process-Owns : (last : ℕ) (v : Unit {0}) → last ≡ 0 → Owns Anonymous (process_order last) Any v
unfolding process_order
process-Owns last v e =
    (v, λ s h. record { unnamed = h.unnamed; signal = λ x. e }, (v, elsewhere v, tt))

chef_loop-Owns : (left : ℕ) (v : Unit {0}) → Owns Anonymous (chef_loop left) (Done Anonymous) v
unfolding chef_loop
chef_loop-Owns zero v = tt
chef_loop-Owns (suc left) v =
    Owns-bind Anonymous wait_for_order_step _ (λ last u. last ≡ 0) (Done Anonymous) v
      (take_order-Owns v)
      λ last u e.
        Owns-bind Anonymous (process_order last) _ Any (Done Anonymous) u (process-Owns last u e)
          λ a w x. chef_loop-Owns left w

others-Leaves :
    (n rounds : ℕ) (q : Pid)
    → is_pid n q ≡ true
    → same_pid chef q ≡ false
    → Leaves Anonymous (initial_procs rounds n q)
unfolding initial_procs
others-Leaves n rounds (group g) u d = group-Leaves g
others-Leaves n rounds waiter u d = waiter-Leaves rounds (n * 2)
others-Leaves n rounds chef u d = cc
others-Leaves n rounds receptionist u d =
    receptionist_loop-Leaves Anonymous (n * 2) (λ g. toarrive) wait_for_group-Leaves handle-Leaves

chef-Owns : (n rounds : ℕ) → Owns Anonymous (initial_procs rounds n chef) (Done Anonymous) tt
unfolding initial_procs chef_main
chef-Owns n rounds = chef_loop-Owns n tt

-- With at most MAXGROUPS groups and a kernel that keeps its promises, in every system that is reached,
-- `foodGroup` is still 0, and a request FOODREADY to the waiter names group 0, whichever group ordered.
pub food_ready_names_group_zero :
    {k : Kernel}
    → IsKernel k
    → (c : Config) {t : System} → c.n_groups ≤ max_groups
    → Reached k c t
    → (t.mem.food_group ≡ 0)
      × (t.mem.waiter_request.req_type ≡ foodready → t.mem.waiter_request.req_group ≡ 0)
unfolding initial_state
food_ready_names_group_zero law c le r =
    let o =
      Reached-Owned Anonymous law c chef tt (record { unnamed = refl; signal = λ e. refl })
        (chef-Owns c.n_groups) (others-Leaves c.n_groups) r in
    (o.now.unnamed, o.now.signal)
