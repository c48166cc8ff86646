-- ===== src/Simulation/Leak.antt =====
-- How `main` of semaphore_restaurant/src/probSemSharedMemRestaurant.c fails.
use so_projeto.Prelude.{ℕ, ◌≡◌, refl, Option, some, ℤ}
use so_projeto.CommandLine.{Text}
use so_projeto.Ipc.{Objects, Calls, find, shmem_create}
use so_projeto.Ipc.Laws.{IsCalls}
use so_projeto.Simulation.{Log, failed, simulate}

module _ {c : Calls} (law : IsCalls c) (size : ℕ) (key : ℤ) (w : Objects) where
  -- A failed run.
  abbrev pub FailsFor : Objects → Type 0
  FailsFor w' =
      (size' : ℕ) (file : Option Text) (l : Log) → simulate c l size' key file w' ≡ failed w'

  -- A block under the key makes `main` fail at once.
  pub taken_fails : (w' : Objects) (id : ℕ) → find w'.blocks key ≡ some id → FailsFor w'
  unfolding simulate shmem_create
  taken_fails w' id e size' file l = rw (law.block_taken w' key size' id e) refl
