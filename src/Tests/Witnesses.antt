-- ===== src/Tests/Witnesses.antt =====
-- Each theorem at an input that meets its conditions: the five groups of config.txt, under a kernel
-- that keeps its promises.
use so_projeto.Prelude.{◌≤◌, ◌≡◌, refl, List, [], ◌∷◌, ◌++◌, arith}
use so_projeto.Const.{max_groups, foodready}
use so_projeto.SharedData.{wait_for_table}
use so_projeto.SharedData.Layout.{sem_index_injective}
use so_projeto.System.{Pid, group, waiter, receptionist, step}
use so_projeto.Tokens.Desk.{pending_request_kept}
use so_projeto.Tables.{IsSeated}
use so_projeto.Tables.Safety.{tables_distinct}
use so_projeto.Chef.Orders.{food_ready_names_group_zero}
use so_projeto.Tests.Kernel.{sysv, sysv-IsKernel}
use so_projeto.Tests.Runs.{five_groups, after, reached, times, running}

abbrev few : five_groups.n_groups ≤ max_groups
few = omega arith

sem_index_injective_example : wait_for_table 4 ≡ wait_for_table 4
sem_index_injective_example =
    sem_index_injective 5 (wait_for_table 4) (wait_for_table 4) (omega arith) (omega arith)
      (omega arith) refl

-- Group 0 is in the critical region, about to write its state.
abbrev writing : List Pid
writing = times 2 (group 0) ++ times 4 (group 1) ++ waiter ∷ []

-- Group 0 has signalled its request.
abbrev asking : List Pid
asking = times 6 (group 0)

pending_request_kept_example :
    (step sysv 5 (after asking) (group 1)).mem.receptionist_request
    ≡ (after asking).mem.receptionist_request
unfolding running
pending_request_kept_example =
    pending_request_kept sysv-IsKernel five_groups few (reached asking) (group 1) (omega arith)

-- Group 1 has been seated.
abbrev seating : List Pid
seating = times 7 (group 1) ++ times 20 receptionist

tables_distinct_example : IsSeated 5 (after seating).mem.assigned_table
tables_distinct_example = tables_distinct sysv-IsKernel five_groups few (reached seating)

food_ready_names_group_zero_example :
    ((after seating).mem.food_group ≡ 0)
    × ((after seating).mem.waiter_request.req_type ≡ foodready
        → (after seating).mem.waiter_request.req_group ≡ 0)
food_ready_names_group_zero_example =
    food_ready_names_group_zero sysv-IsKernel five_groups few (reached seating)
