-- ===== src/SharedData/Layout.antt =====
-- The numbers of semaphore_restaurant/src/sharedDataSync.h: in range, and one for each field.
use so_projeto.Prelude.{ℕ, ◌+◌, ◌≤◌, ◌<◌, ◌≡◌, some, arith}
use so_projeto.Const.{max_groups, num_tables}
use so_projeto.SharedData.{
  SemId, mutex, receptionist_req, receptionist_request_possible, waiter_request,
  waiter_request_possible, wait_order, order_received, wait_for_table, food_arrived,
  request_received, table_done, sem_nu, sem_index,
}

-- The fields that a program for `n` groups may use.
abbrev pub IsUsed : ℕ → SemId → Type 0
IsUsed n (wait_for_table g) = g < n
IsUsed n (food_arrived t) = t < num_tables
IsUsed n (request_received t) = t < num_tables
IsUsed n (table_done t) = t < num_tables
IsUsed n _ = Unit

-- With at most MAXGROUPS groups, every semaphore field in use holds a number from 1 to SEM_NU.
sem_index_range :
    (n : ℕ) (x : SemId)
    → n ≤ max_groups
    → IsUsed n x
    → (i : ℕ) × (sem_index n x ≡ some i) × (0 < i) × (i ≤ sem_nu n)
unfolding sem_index
sem_index_range n (wait_for_table g) le u = (8 + g, ground arith, ground arith, ground arith)
sem_index_range n (food_arrived t) le u = (8 + n + t, ground arith, ground arith, ground arith)
sem_index_range n (request_received t) le u =
    (8 + n + 2 + t, ground arith, ground arith, ground arith)
sem_index_range n (table_done t) le u =
    (8 + n + 2 + 2 + t, ground arith, ground arith, ground arith)
sem_index_range n mutex le u = (1, ground arith, ground arith, ground arith)
sem_index_range n receptionist_req le u = (2, ground arith, ground arith, ground arith)
sem_index_range n receptionist_request_possible le u = (3, ground arith, ground arith, ground arith)
sem_index_range n waiter_request le u = (4, ground arith, ground arith, ground arith)
sem_index_range n waiter_request_possible le u = (5, ground arith, ground arith, ground arith)
sem_index_range n wait_order le u = (6, ground arith, ground arith, ground arith)
sem_index_range n order_received le u = (7, ground arith, ground arith, ground arith)

-- With at most MAXGROUPS groups, two semaphore fields in use that hold the same number are the same
-- field.
pub sem_index_injective :
    (n : ℕ) (x y : SemId)
    → n ≤ max_groups
    → IsUsed n x
    → IsUsed n y
    → sem_index n x ≡ sem_index n y
    → x ≡ y
unfolding sem_index
sem_index_injective n x y le u v e = ground arith
