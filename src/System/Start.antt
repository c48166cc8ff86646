-- ===== src/System/Start.antt =====
-- `main` of probSemSharedMemRestaurant.c: it gets as far as the processes, and the values of the
-- semaphores are then as sharedDataSync.h says.
use so_projeto.Prelude.{ℕ, ◌+◌, ◌≤◌, ◌<◌, ◌≡◌, refl, ◌||◌, some, ◌==◌, bit, update, arith}
use so_projeto.Semaphore.{
  Kernel, IsKernel, SemSet, SemResult, success, blocked, failure, ushort, sem_create, plus_one,
}
use so_projeto.Semaphore
use so_projeto.SharedData.{
  SemId, mutex, receptionist_request_possible, waiter_request_possible, sem_index, sem_nu,
}
use so_projeto.System.{System, Config, up_first, initial_sems, first_system, main}

-- The set that `main` hands over, as a function of the kernel's new set.
abbrev pub opened : SemSet → SemSet
opened s = record s { value = update (update (update s.value 1 1) 5 1) 3 1 }

-- An up of a single semaphore, of a set that has it and leaves room, does not fail.
module _ {k : Kernel} (law : IsKernel k) (n : ℕ) where
  up_first_lem :
      (x : SemId) (i : ℕ) (s : SemSet)
      → sem_index n x ≡ some i
      → 0 < i
      → i < 8
      → 8 ≤ s.size
      → s.value i ≡ 0
      → up_first k n x (some s) ≡ some (record s { value = update s.value i 1 })
  unfolding Semaphore.sem_up
  up_first_lem x i s e pos lt size v = ground (arith, law.give s i)

  created : SemSet
  created = sem_create k (sem_nu n)

  created_size : 8 ≤ created.size
  unfolding created sem_create
  created_size = omega (arith, law.created_size (sem_nu n + 1))

  created_value : (i : ℕ) → created.value i ≡ 0
  unfolding created sem_create
  created_value i = law.created_value (sem_nu n + 1) i

  pub initial_sems_lem : initial_sems k n ≡ some (opened (sem_create k (sem_nu n)))
  unfolding initial_sems created sem_index
  initial_sems_lem =
      let first = record created { value = update created.value 1 1 } in
      let second = record first { value = update first.value 5 1 } in
      rw
        (up_first_lem mutex 1 created refl (omega arith) (omega arith) created_size
          (created_value 1))
        (rw
          (up_first_lem waiter_request_possible 5 first refl (omega arith) (omega arith)
            created_size (created_value 5))
          (rw (
            up_first_lem receptionist_request_possible 3 second refl (omega arith) (omega arith)
              created_size (created_value 3))))

  -- The values once `main` has opened the critical region and the two requests.
  pub opened_value :
      (i : ℕ) → (opened (sem_create k (sem_nu n))).value i ≡ bit ((i == 1) || (i == 3) || (i == 5))
  unfolding created
  opened_value i = ground (arith, created_value i)

-- `main` reaches the point where all processes are started.
pub main_lem :
    {k : Kernel}
    → IsKernel k
    → (rounds : ℕ) (c : Config)
    → main k rounds c ≡ some (first_system rounds c (opened (sem_create k (sem_nu c.n_groups))))
unfolding main
main_lem law rounds c = rw (initial_sems_lem law c.n_groups)

pub main-eq :
    {k : Kernel}
    → IsKernel k
    → (rounds : ℕ) (c : Config) {s : System} → main k rounds c ≡ some s
    → s ≡ first_system rounds c (opened (sem_create k (sem_nu c.n_groups)))
main-eq law rounds c e = cc (main_lem law rounds c)
