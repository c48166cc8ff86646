-- ===== src/Hall/Calls.antt =====
-- Whom the receptionist of semaphore_restaurant/src/semSharedMemReceptionist.c calls to a table, and
-- when.
use so_projeto.Prelude.{ℕ, ◌+◌, ◌<◌, ◌≡◌, ◌∙◌, Option, List, ◌==◌, bit, arith}
use so_projeto.Const.{num_tables, wait, attable, done}
use so_projeto.State.{FullStat}
use so_projeto.SharedData.{SemId}
use so_projeto.Receptionist.{GroupRecord}
use so_projeto.System.{Config}
use so_projeto.Reception.{IsTaken, waiting_groups}
use so_projeto.Hall.{Place, outside, queued, gone, seated, Ask}
use so_projeto.Hall.Laws.{calls, has_sat, Visits-IsOrderly}
use so_projeto.Hall.Places.{IsAt}
use so_projeto.Hall.Day.{Day, Day-IsShown}

IsAt-has_sat :
    (x : Place) (r : ℕ) (o : Option ℕ)
    → IsAt x r o
    → has_sat x ≡ bit (r == attable) + bit (r == done)
IsAt-has_sat outside r o h = ground arith
IsAt-has_sat queued r o h = ground arith
IsAt-has_sat gone r o h = ground arith
IsAt-has_sat (seated t) r o h = ground arith

-- After what the receptionist has served, with what the others may write in between: each group below
-- nGroups has been given waitForTable once if it is recorded as being at a table or done, and never
-- otherwise; groupsWaiting is the number of groups recorded as waiting; and while one waits, every
-- table has a group.
pub called_once :
    {c : Config} {asks : List Ask} {given : List SemId} {rec : GroupRecord} {s : FullStat}
    → Day c asks given rec s
    → ((g : ℕ) → g < s.n_groups → calls g given ≡ bit (rec g == attable) + bit (rec g == done))
      × (s.groups_waiting ≡ waiting_groups s.n_groups rec)
      × ((g : ℕ) → g < s.n_groups → rec g ≡ wait → (t : ℕ) → t < num_tables → IsTaken s t)
called_once {c} {asks} {given} {rec} {s} day =
    let x = Day-IsShown day in
    (
      λ g lt.
          (Visits-IsOrderly c.n_groups asks given x.hall x.visits).called_once g
          ∙ IsAt-has_sat (x.hall g) (rec g) (s.assigned_table g) (x.shown g lt),
      x.desk.counted,
      x.desk.full,
    )
