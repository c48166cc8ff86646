-- ===== src/Tests/Meeting.antt =====
-- Requests that meet the receptionist, and a queue at the reception.
use so_projeto.Prelude.{ℕ, ◌≤◌, ◌<◌, ◌≡◌, ◌≢◌, refl, true, none, List, ◌++◌, arith}
use so_projeto.Const.{max_groups}
use so_projeto.Process.{exited, fault}
use so_projeto.Receptionist.{GroupRecord}
use so_projeto.Reception.{IsDesk, IsTaken}
use so_projeto.Hall.{Hall, Ask, request_of}
use so_projeto.Hall.Places.{IsHall, MayAsk}
use so_projeto.Hall.Desk.{IsServed}
use so_projeto.System.{Pid, group, receptionist, is_pid}
use so_projeto.Room.{IsRoomy}
use so_projeto.Room.Run.{Reached-IsRoomy}
use so_projeto.Floor.Safety.{no_table_missing, no_process_exits}
use so_projeto.Floor.Served.{no_idle_table, request_answered}
use so_projeto.Floor.Closing.{receptionist_leaves_nothing}
use so_projeto.Floor.Leaving.{LeavesAfter, region_is_left}
use so_projeto.Tests.Kernel.{sysv-IsKernel}
use so_projeto.Tests.Runs.{five_groups, after, reached, times, turns, running}

abbrev few : five_groups.n_groups ≤ max_groups
few = omega arith

-- Three groups come, and each request is answered.
abbrev crowd : List Pid
crowd =
    times 7 (group 0)
    ++ times 30 receptionist
    ++ times 7 (group 1)
    ++ times 30 receptionist
    ++ times 7 (group 2)
    ++ times 30 receptionist

no_table_missing_example :
    ((after crowd).procs receptionist ≢ fault)
    × ((g : ℕ) → g < 5 → (after crowd).procs (group g) ≢ fault)
no_table_missing_example = no_table_missing sysv-IsKernel five_groups few (reached crowd)

Reached-IsRoomy_example : IsRoomy 5 (after crowd).sems
Reached-IsRoomy_example = Reached-IsRoomy sysv-IsKernel five_groups few (reached crowd)

no_process_exits_example : (after crowd).procs (group 4) ≢ exited
no_process_exits_example =
    no_process_exits sysv-IsKernel five_groups few (λ i. refl) (reached crowd) (group 4) refl

no_idle_table_example : IsTaken (after crowd).mem 1
unfolding running
no_idle_table_example =
    no_idle_table sysv-IsKernel five_groups few (reached crowd) (omega arith) (omega arith) 1
      (omega arith)

-- Group 0 has asked, and has left the critical region.
abbrev asked : List Pid
asked = times 7 (group 0)

request_answered_example :
    (rec : GroupRecord) × (p : Hall) × (ask : Ask) × (request_of ask
      ≡ (after asked).mem.receptionist_request)
    × IsHall p rec (after asked).mem
    × IsDesk rec (after asked).mem
    × MayAsk rec (after asked).mem ask
    × IsServed p rec (after asked).mem ask
unfolding running
request_answered_example =
    request_answered sysv-IsKernel five_groups few (reached asked) (omega arith) (omega arith)

receptionist_leaves_nothing_example :
    ((g : ℕ) → g < 5 → (after (turns 600)).mem.assigned_table g ≡ none)
    × ((after (turns 600)).mem.groups_waiting ≡ 0)
    × ((after (turns 600)).sems.value 2 ≡ 0)
unfolding running
receptionist_leaves_nothing_example =
    receptionist_leaves_nothing sysv-IsKernel five_groups few (reached (turns 600)) refl

-- Group 0 has taken the mutex.
abbrev entered : List Pid
entered = times 2 (group 0)

region_is_left_example :
    (p : Pid) × (is_pid 5 p ≡ true)
    × (m : ℕ) × LeavesAfter sysv-IsKernel five_groups few (λ i. refl) p (after entered) m
unfolding running
region_is_left_example =
    region_is_left sysv-IsKernel five_groups few (λ i. refl) (reached entered) refl
