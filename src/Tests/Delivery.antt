-- ===== src/Tests/Delivery.antt =====
-- Schedules under which the waiter brings food twice to one group: the other never gets any, or the
-- waiter goes to the table of a group that has left.
use so_projeto.Prelude.{arith, ℕ, suc, zero, ◌≡◌, refl, List, [], ◌∷◌, ◌++◌, Bool, true, false}
use so_projeto.Const.{wait_for_food}
use so_projeto.Semaphore.{sem_create}
use so_projeto.SharedData.{sem_nu}
use so_projeto.Process.{Proc, fault}
use so_projeto.System.{Pid, group, waiter, chef, receptionist, System, Config, run, first_system}
use so_projeto.System.Start.{opened}
use so_projeto.Tests.Kernel.{sysv}
use so_projeto.Tests.Runs.{times, running, has_returned}

abbrev two_groups : Config
two_groups = record {
  n_groups = 2;
  start_time = λ g. 10000;
  eat_time = λ g. 10000;
  few = omega arith;
}

abbrev after : List Pid → System
after ps = run sysv 2 (first_system 100 two_groups (opened (sem_create sysv (sem_nu 2)))) ps

abbrev turns : ℕ → List Pid
turns zero = []
turns (suc k) = group 0 ∷ group 1 ∷ waiter ∷ chef ∷ receptionist ∷ turns k

-- Both groups are seated, and group 0 orders.
abbrev ordered : List Pid
ordered =
    times 7 (group 0)
    ++ times 30 receptionist
    ++ times 7 (group 1)
    ++ times 30 receptionist
    ++ times 9 (group 0)

-- The waiter delivers before group 0 has written that it waits for food, and again when it has.
abbrev delivered_twice : List Pid
delivered_twice =
    ordered
    ++ times 40 waiter
    ++ times 30 chef
    ++ times 27 waiter
    ++ times 6 (group 0)
    ++ times 19 waiter

-- The semaphore of the food of the first table has been raised twice.
food_twice : (after delivered_twice).sems.value 10 ≡ 2
unfolding running
food_twice = refl

abbrev returned : System → List Bool
returned s =
    has_returned (s.procs (group 0))
    ∷ has_returned (s.procs (group 1))
    ∷ has_returned (s.procs waiter)
    ∷ has_returned (s.procs chef)
    ∷ has_returned (s.procs receptionist)
    ∷ []

-- At the end group 0, the waiter and the chef have returned. Group 1 still waits for food, which
-- nobody is left to bring, and the receptionist for its bill.
group_left_hungry :
    returned (after (delivered_twice ++ turns 300)) ≡ true ∷ false ∷ true ∷ true ∷ false ∷ []
unfolding running
group_left_hungry = refl

still_waiting : (after (delivered_twice ++ turns 300)).mem.st.group_stat 1 ≡ wait_for_food
unfolding running
still_waiting = refl

-- The waiter finds group 0 again, which then eats, pays and leaves before the waiter reads its table.
abbrev left_meanwhile : List Pid
left_meanwhile =
    ordered
    ++ times 40 waiter
    ++ times 30 chef
    ++ times 27 waiter
    ++ times 6 (group 0)
    ++ times 4 waiter
    ++ times 30 (group 0)
    ++ times 30 receptionist
    ++ times 30 (group 0)
    ++ times 30 waiter

abbrev has_faulted : Proc (Unit {0}) → Bool
has_faulted fault = true
has_faulted p = false

-- The table is -1 then, and the waiter goes out of the array `foodArrived`.
waiter_out_of_array : has_faulted ((after left_meanwhile).procs waiter) ≡ true
unfolding running
waiter_out_of_array = refl
