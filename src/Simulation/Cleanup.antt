-- ===== src/Simulation/Cleanup.antt =====
-- How `main` of semaphore_restaurant/src/probSemSharedMemRestaurant.c ends.
use so_projeto.Prelude.{ℕ, ◌≡◌, ◌≢◌, true, false, none, some, ℤ}
use so_projeto.Semaphore.{IsKernel, success}
use so_projeto.Semaphore
use so_projeto.Ipc.{Objects, Calls, find}
use so_projeto.Ipc.Laws.{IsCalls, ChildrenEnd}

-- There is room for what is created from these objects on, and a block can be mapped and unmapped.
pub record IsRoomy (c : Calls) (w : Objects) : Type 0 where
  pub block : (key : ℤ) (size : ℕ) → find w.blocks key ≡ none → c.shmget w key size true ≢ (none, w)
  pub set :
      (w' : Objects) (key : ℤ) (size : ℕ)
      → w'.sets ≡ w.sets
      → find w.sets key ≡ none
      → c.semget w' key size true ≢ (none, w')
  pub child : (w' : Objects) → c.fork w' ≢ (false, w')
  pub map : (w' : Objects) (shmid : ℕ) → c.shmat w' shmid ≢ none
  pub unmap : (w' : Objects) (add : ℕ) → c.shmdt w' (some add) ≡ true

module _ {c : Calls} (law : IsCalls c) where
  module _ {v : Objects} (room : IsRoomy c v) (ends : ChildrenEnd c) (key : ℤ) where
    -- Every key has the block and the set that it had, and no child is left.
    pub record IsClean (before after : Objects) : Type 0 where
      pub blocks : (k : ℤ) → find after.blocks k ≡ find before.blocks k
      pub sets : (k : ℤ) → find after.sets k ≡ find before.sets k
      pub childless : after.children ≡ 0
