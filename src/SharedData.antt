-- ===== src/SharedData.antt =====
-- semaphore_restaurant/src/sharedDataSync.h, and the part of `main` in
-- semaphore_restaurant/src/probSemSharedMemRestaurant.c that numbers the semaphores.
pub mod Layout
use so_projeto.Prelude.{ℕ, ◌+◌, ◌*◌, Option, none, some, ltb, if◌then◌else◌}
use so_projeto.Const.{max_groups, num_tables}

-- The fields of `SHARED_DATA` that hold the number of a semaphore.
pub data SemId : Type 0 where
  mutex receptionist_req receptionist_request_possible : SemId
  waiter_request waiter_request_possible wait_order order_received : SemId
  wait_for_table : (group : ℕ) → SemId
  food_arrived request_received table_done : (table : ℕ) → SemId

-- FOODARRIVED, REQUESTRECEIVED, TABLEDONE and SEM_NU, for `n` groups.
abbrev pub first_food_arrived : ℕ → ℕ
first_food_arrived n = 8 + n

abbrev pub first_request_received : ℕ → ℕ
first_request_received n = first_food_arrived n + num_tables

abbrev pub first_table_done : ℕ → ℕ
first_table_done n = first_request_received n + num_tables

abbrev pub sem_nu : ℕ → ℕ
sem_nu n = 7 + n + 3 * num_tables

-- An array of `SHARED_DATA` has `size` places and starts as zeros. The first `filled` of them are
-- numbered from `first` on. `none` is an index outside of the array.
abbrev pub array_entry : ℕ → ℕ → ℕ → ℕ → Option ℕ
array_entry size filled first i =
    if ltb i size then some (if ltb i filled then first + i else 0) else none

-- The number that a field holds once `main` has filled `SHARED_DATA` in for `n` groups.
unfoldable pub sem_index : ℕ → SemId → Option ℕ
sem_index n mutex = some 1
sem_index n receptionist_req = some 2
sem_index n receptionist_request_possible = some 3
sem_index n waiter_request = some 4
sem_index n waiter_request_possible = some 5
sem_index n wait_order = some 6
sem_index n order_received = some 7
sem_index n (wait_for_table g) = array_entry max_groups n 8 g
sem_index n (food_arrived t) = array_entry num_tables num_tables (first_food_arrived n) t
sem_index n (request_received t) = array_entry num_tables num_tables (first_request_received n) t
sem_index n (table_done t) = array_entry num_tables num_tables (first_table_done n) t
