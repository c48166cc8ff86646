-- ===== src/Logging/Small.antt =====
-- The states in the memory of semaphore_restaurant are small numbers, whichever process writes.
use so_projeto.Prelude.{ℕ, ◌*◌, ◌≤◌, ◌<◌, ◌≡◌, true, false, arith}
use so_projeto.State.{
  Stat, FullStat, set_group_stat, set_chef_stat, set_waiter_stat, set_receptionist_stat,
}
use so_projeto.SharedData.{food_arrived, request_received, table_done}
use so_projeto.Group.{
  check_in_at_reception, order_food, wait_food, check_out_at_reception, group_main, down_at, up_at,
}
use so_projeto.Chef.{wait_for_order_step, process_order, chef_loop, chef_main}
use so_projeto.Waiter.{announce, inform_chef_of, take_food_to_table, waiter_loop}
use so_projeto.System.{Pid, group, waiter, chef, receptionist, is_pid, same_pid, initial_procs}
use so_projeto.Ownership.{Leaves, Leaves-bind}
use so_projeto.Ownership.Programs.{
  down_at-Leaves, up_at-Leaves, group_main-Leaves, chef_loop-Leaves, poll-Leaves, serve-Leaves,
  waiter_loop-Leaves,
}

module _ (most : ℕ) where
  -- Every state is a small number, and at most `v` groups wait, which is at most `most`.
  pub record IsSmall (v : ℕ) (st : Stat) (waiting : ℕ) : Type 0 where
    pub chef : st.chef_stat < 100
    pub waiter : st.waiter_stat < 100
    pub receptionist : st.receptionist_stat < 100
    pub group : (g : ℕ) → st.group_stat g < 1000
    pub queue : waiting ≤ v
    pub bound : v ≤ most

  abbrev pub Small : ℕ → FullStat → Type 0
  Small v s = IsSmall v s.st s.groups_waiting

  group-IsSmall :
      (g a : ℕ) → a < 1000 → (v : ℕ) (s : FullStat) → Small v s → Small v (set_group_stat g a s)
  group-IsSmall g a lt v s h = record {
    chef = h.chef;
    waiter = h.waiter;
    receptionist = h.receptionist;
    group = λ j. ground (arith, h.group j);
    queue = h.queue;
    bound = h.bound;
  }

  chef-IsSmall :
      (a : ℕ) → a < 100 → (v : ℕ) (s : FullStat) → Small v s → Small v (set_chef_stat a s)
  chef-IsSmall a lt v s h = record {
    chef = lt;
    waiter = h.waiter;
    receptionist = h.receptionist;
    group = h.group;
    queue = h.queue;
    bound = h.bound;
  }

  waiter-IsSmall :
      (a : ℕ) → a < 100 → (v : ℕ) (s : FullStat) → Small v s → Small v (set_waiter_stat a s)
  waiter-IsSmall a lt v s h = record {
    chef = h.chef;
    waiter = lt;
    receptionist = h.receptionist;
    group = h.group;
    queue = h.queue;
    bound = h.bound;
  }

  pub receptionist-IsSmall :
      (a : ℕ) → a < 100 → (v : ℕ) (s : FullStat) → Small v s → Small v (set_receptionist_stat a s)
  receptionist-IsSmall a lt v s h = record {
    chef = h.chef;
    waiter = h.waiter;
    receptionist = lt;
    group = h.group;
    queue = h.queue;
    bound = h.bound;
  }

  -- A write of fields that are not printed.
  abbrev pub elsewhere : (v : ℕ) (s : FullStat) → Small v s → Small v s
  elsewhere v s h = h

  group-Leaves : (g : ℕ) → Leaves Small (group_main g)
  unfolding check_in_at_reception order_food wait_food check_out_at_reception
  group-Leaves g =
      group_main-Leaves Small g (group-IsSmall g 2 (omega arith), (elsewhere, tt))
        (
          group-IsSmall g 3 (omega arith),
          (elsewhere, λ s. down_at-Leaves Small request_received (s.assigned_table g)),
        )
        (
          group-IsSmall g 4 (omega arith),
          λ s.
              Leaves-bind Small (down_at food_arrived (s.assigned_table g)) _
                (down_at-Leaves Small food_arrived (s.assigned_table g))
                (λ a. (group-IsSmall g 5 (omega arith), tt)),
        )
        (
          group-IsSmall g 6 (omega arith),
          (
            elsewhere,
            λ s.
                Leaves-bind Small (down_at table_done (s.assigned_table g)) _
                  (down_at-Leaves Small table_done (s.assigned_table g))
                  (λ a. (group-IsSmall g 7 (omega arith), tt)),
          ),
        )

  waiter-Leaves : (rounds left : ℕ) → Leaves Small (waiter_loop rounds left)
  unfolding announce inform_chef_of take_food_to_table
  waiter-Leaves rounds left =
      waiter_loop-Leaves Small rounds left (waiter-IsSmall 0 (omega arith), tt)
        (poll-Leaves Small (λ i. group-IsSmall i 4 (omega arith)))
        λ req.
          serve-Leaves Small req
            (
              waiter-IsSmall 1 (omega arith),
              (
                elsewhere,
                λ s. up_at-Leaves Small request_received (s.assigned_table req.req_group),
              ),
            )
            (
              waiter-IsSmall 2 (omega arith),
              λ s.
                  Leaves-bind Small (up_at food_arrived (s.assigned_table req.req_group)) _
                    (up_at-Leaves Small food_arrived (s.assigned_table req.req_group))
                    (λ a. (group-IsSmall req.req_group 5 (omega arith), tt)),
            )

  chef-Leaves : (left : ℕ) → Leaves Small (chef_loop left)
  unfolding wait_for_order_step process_order
  chef-Leaves left =
      chef_loop-Leaves Small left (λ s. (chef-IsSmall 1 (omega arith), tt))
        (λ last. (elsewhere, (chef-IsSmall 0 (omega arith), tt)))

  pub others-Leaves :
      (n rounds : ℕ) (q : Pid)
      → is_pid n q ≡ true
      → same_pid receptionist q ≡ false
      → Leaves Small (initial_procs rounds n q)
  unfolding initial_procs chef_main
  others-Leaves n rounds (group g) u d = group-Leaves g
  others-Leaves n rounds waiter u d = waiter-Leaves rounds (n * 2)
  others-Leaves n rounds chef u d = chef-Leaves n
  others-Leaves n rounds receptionist u d = cc
