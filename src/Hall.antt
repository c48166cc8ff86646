-- ===== src/Hall.antt =====
-- What the receptionist of semaphore_restaurant/src/semSharedMemReceptionist.c is to do, with nothing
-- of the shared memory: where each group is, and what becomes of a request.
pub mod Laws
pub mod Places
pub mod Desk
pub mod Day
pub mod Calls
use so_projeto.Prelude.{ℕ, ◌<◌, ◌≡◌, ◌≢◌, List, [], ◌∷◌, ◌++◌, update}
use so_projeto.Const.{num_tables, tablereq, billreq}
use so_projeto.State.{Request}
use so_projeto.SharedData.{SemId, wait_for_table, table_done}

pub data Place : Type 0 where
  outside queued gone : Place
  seated : (table : ℕ) → Place

abbrev pub Hall : Type 0
Hall = ℕ → Place

-- A group asks for a table, or pays.
pub data Ask : Type 0 where
  arrives pays : (group : ℕ) → Ask

unfoldable pub request_of : Ask → Request
request_of (arrives g) = record { req_type = tablereq; req_group = g }
request_of (pays g) = record { req_type = billreq; req_group = g }

module _ (n : ℕ) (p : Hall) where
  abbrev pub IsHeld : ℕ → Type 0
  IsHeld t = (h : ℕ) × (h < n) × (p h ≡ seated t)

  abbrev pub IsFull : Type 0
  IsFull = (t : ℕ) → t < num_tables → IsHeld t

  pub record IsFirstFree (t : ℕ) : Type 0 where
    pub exists : t < num_tables
    pub free : (h : ℕ) → h < n → p h ≢ seated t
    pub before : (u : ℕ) → u < t → IsHeld u

  pub record IsFirstQueued (h : ℕ) : Type 0 where
    pub exists : h < n
    pub queues : p h ≡ queued
    pub least : (j : ℕ) → j < h → p j ≢ queued

  -- A request, the semaphores that are given for it, and where the groups are then.
  pub data Visit : Ask → List SemId → Hall → Type 0 where
    takes_table :
        (g t : ℕ)
        → g < n
        → p g ≡ outside
        → IsFirstFree t
        → Visit (arrives g) (wait_for_table g ∷ []) (update p g (seated t))
    queues_up : (g : ℕ) → g < n → p g ≡ outside → IsFull → Visit (arrives g) [] (update p g queued)
    leaves :
        (g t : ℕ)
        → g < n
        → p g ≡ seated t
        → ((h : ℕ) → h < n → p h ≢ queued)
        → Visit (pays g) (table_done t ∷ []) (update p g gone)
    passes_on :
        (g t h : ℕ)
        → g < n
        → p g ≡ seated t
        → IsFirstQueued h
        → Visit
            (pays g)
            (table_done t ∷ wait_for_table h ∷ [])
            (update (update p g gone) h (seated t))

-- What has been asked, what has been given, and where the groups are, from an empty restaurant on.
pub data Visits (n : ℕ) : List Ask → List SemId → Hall → Type 0 where
  opening : Visits n [] [] (λ g. outside)
  then_visit :
      {asks : List Ask} {given : List SemId} {p q : Hall} (a : Ask) (more : List SemId)
      → Visits n asks given p
      → Visit n p a more q
      → Visits n (asks ++ (a ∷ [])) (given ++ more) q
