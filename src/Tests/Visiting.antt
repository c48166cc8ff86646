-- ===== src/Tests/Visiting.antt =====
-- Visits of the hall: groups that arrive and pay.
use so_projeto.Prelude.{
  ℕ, ◌+◌, ◌<◌, ◌≡◌, refl, [], ◌∷◌, ◌==◌, bit, inl, inr, Bool-cases, update, first, arith,
}
use so_projeto.Const.{num_tables, atreception, toarrive, wait, attable, done}
use so_projeto.State.{FullStat, set_group_stat}
use so_projeto.Process.Alone.{finished, alone}
use so_projeto.Receptionist.{
  GroupRecord, handle, provide_table_or_waiting_room, decide_table_or_wait, is_occupied,
}
use so_projeto.System.{initial_state}
use so_projeto.Reception.{IsTaken, waiting_groups}
use so_projeto.Reception.Arrive.{seated_state, seated_events}
use so_projeto.SharedData.{wait_for_table}
use so_projeto.Hall.{Hall, outside, queued, seated, arrives, pays, request_of}
use so_projeto.Hall.Laws.{calls}
use so_projeto.Hall.Places.{IsHall}
use so_projeto.Hall.Desk.{IsServed, handle_refines}
use so_projeto.Hall.Day.{Day, opens, others, serves}
use so_projeto.Hall.Calls.{called_once}
use so_projeto.Tests.Runs.{five_groups}
use so_projeto.Tests.Receiving.{busy, busy_record, busy-IsDesk}

-- Groups 2 and 3 sit, and group 4 waits.
abbrev busy_hall : Hall
busy_hall = update (update (update (λ g. outside) 2 (seated 0)) 3 (seated 1)) 4 queued

busy_shown : IsHall busy_hall busy_record busy
unfolding initial_state
busy_shown g lt = elim (Bool-cases (4 == g)) [
  | inl e ↦ rw e (refl, ground arith)
  | inr e ↦ elim (Bool-cases (3 == g)) [
    | inl f ↦ rw (e, f) (refl, refl)
    | inr f ↦ elim (Bool-cases (2 == g)) [
      | inl h ↦ rw (e, f, h) (refl, refl)
      | inr h ↦ rw (e, f, h) (refl, refl)
    ]
  ]
]

handle_refines_example : IsServed busy_hall busy_record busy (pays 2)
unfolding initial_state
handle_refines_example =
    handle_refines busy_hall busy_record busy busy-IsDesk busy_shown (pays 2) (omega arith, refl)

-- Group 0 comes to the reception, and is served.
abbrev before_first : FullStat
before_first = set_group_stat 0 atreception (initial_state five_groups)

abbrev first_record : GroupRecord
first_record = update (λ g. toarrive) 0 attable

abbrev after_first : FullStat
after_first = seated_state (λ g. toarrive) 0 before_first 0

serves_first :
    alone (handle (λ g. toarrive) (request_of (arrives 0))) before_first
    ≡ finished first_record after_first (seated_events (λ g. toarrive) 0 before_first)
unfolding handle request_of provide_table_or_waiting_room decide_table_or_wait first is_occupied
    initial_state
serves_first = refl

first-Day : Day five_groups (arrives 0 ∷ []) (wait_for_table 0 ∷ []) first_record after_first
unfolding initial_state
first-Day =
    serves (arrives 0) (seated_events (λ g. toarrive) 0 before_first)
      (others before_first opens (record {
        same_tables = refl;
        same_groups = refl;
        same_waiting = refl;
        still_there = λ g lt e h. ground arith;
      }))
      (omega arith, refl, refl) serves_first

called_once_example :
    ((g : ℕ)
      → g < after_first.n_groups
      → calls g (wait_for_table 0 ∷ [])
        ≡ bit (first_record g == attable) + bit (first_record g == done))
    × (after_first.groups_waiting ≡ waiting_groups after_first.n_groups first_record)
    × ((g : ℕ)
        → g < after_first.n_groups
        → first_record g ≡ wait
        → (t : ℕ) → t < num_tables
        → IsTaken after_first t)
called_once_example = called_once first-Day
