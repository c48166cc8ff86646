-- ===== src/Ipc.antt =====
-- The System V objects behind semaphore_restaurant/src/sharedMemory.c and semaphore.c: the calls that
-- create, find, map and remove a block or a set. The system calls are a parameter.
pub mod Laws
use so_projeto.Prelude.{
  ℕ, ◌+◌, Bool, true, false, Option, none, some, ℤ, pos, negsuc, List, [], ◌∷◌, ◌==◌, if◌then◌else◌,
  update,
}
use so_projeto.Semaphore.{SemSet, SemResult, Kernel, success, blocked, failure}
use so_projeto.Semaphore

abbrev pub same_int : ℤ → ℤ → Bool
same_int (pos m) (pos n) = m == n
same_int (negsuc m) (negsuc n) = m == n
same_int _ _ = false

-- Which identifier has a key.
abbrev pub Names : Type 0
Names = List (ℤ × ℕ)

unfoldable pub find : Names → ℤ → Option ℕ
find [] key = none
find ((k, id) ∷ names) key = let rest = find names key in if same_int k key then some id else rest

unfoldable pub drop_key : ℤ → Names → Names
drop_key key [] = []
drop_key key ((k, id) ∷ names) =
    let rest = drop_key key names in if same_int k key then rest else (k, id) ∷ rest

-- What the kernel holds: which block and which set have a key, the semaphores of a set, and how many
-- children of `main` have not been waited for.
pub record Objects : Type 0 where
  pub blocks : Names
  pub sets : Names
  pub semaphores : ℕ → SemSet
  pub children : ℕ

-- The system calls. `none` and `false` stand for the result -1. The flag of shmget and semget is
-- true where the code asks for `IPC_CREAT | IPC_EXCL`; shmctl and semctl are called with IPC_RMID.
pub record Calls : Type 0 where
  pub kernel : Kernel
  pub shmget : Objects → ℤ → ℕ → Bool → Option ℕ × Objects
  pub shmat : Objects → ℕ → Option ℕ
  pub shmdt : Objects → Option ℕ → Bool
  pub shmctl : Objects → ℕ → Bool × Objects
  pub semget : Objects → ℤ → ℕ → Bool → Option ℕ × Objects
  pub semctl : Objects → ℕ → Bool × Objects
  pub fork : Objects → Bool × Objects
  pub wait : Objects → Bool × Objects

unfoldable pub shmem_create : Calls → Objects → ℤ → ℕ → Option ℕ × Objects
shmem_create c w key size = c.shmget w key size true

unfoldable pub shmem_connect : Calls → Objects → ℤ → Option ℕ × Objects
shmem_connect c w key = c.shmget w key 1 false

unfoldable pub shmem_destroy : Calls → Objects → ℕ → Bool × Objects
shmem_destroy c w shmid = c.shmctl w shmid

-- The result, and the pointer `*pAttAdd` afterwards; NULL is `none`.
unfoldable pub shmem_attach : Calls → Objects → ℕ → Option ℕ → ℤ × Option ℕ
shmem_attach c w shmid pointer = elim (c.shmat w shmid) [
  | some add ↦ (pos 0, some add)
  | none ↦ (pos 1, pointer)
]

unfoldable pub shmem_dettach : Calls → Objects → Option ℕ → Bool
shmem_dettach c w pointer = c.shmdt w pointer

unfoldable pub sem_create : Calls → Objects → ℤ → ℕ → Option ℕ × Objects
sem_create c w key snum = c.semget w key (snum + 1) true

unfoldable pub sem_destroy : Calls → Objects → ℕ → Bool × Objects
sem_destroy c w semgid = c.semctl w semgid

-- `semConnect` returns the identifier or -1, or waits for the start.
pub data Connected : Type 0 where
  connected : ℕ → Objects → Connected
  waiting : Connected
  refused : Objects → Connected

abbrev pub after_connect : Objects → ℕ → SemResult → Connected
after_connect w semgid (success s) =
    connected semgid (record w { semaphores = update w.semaphores semgid s })
after_connect w semgid blocked = waiting
after_connect w semgid failure = refused w

abbrev pub found_set : Calls → Option ℕ × Objects → Connected
found_set c (none, w) = refused w
found_set c (some semgid, w) =
    after_connect w semgid (Semaphore.sem_connect c.kernel (w.semaphores semgid))

unfoldable pub sem_connect : Calls → Objects → ℤ → Connected
sem_connect c w key = found_set c (c.semget w key 1 false)
