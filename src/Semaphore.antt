-- ===== src/Semaphore.antt =====
-- semaphore_restaurant/src/semaphore.c: semaphores of a System V set.
-- The kernel is not code of the repository: its `semop` and its `semget` are a parameter, and
-- `IsKernel` says what their manual pages promise for the calls that are made here.
pub mod Laws
pub mod Barrier
use so_projeto.Prelude.{
  ℕ, suc, ◌+◌, ◌%◌, ◌≤◌, ◌<◌, ◌≡◌, Option, none, some, List, [], ◌∷◌, Bool, ℤ, pos, negsuc, ◌==◌,
  if◌then◌else◌, update,
}

-- A set as the kernel keeps it: how many semaphores it has, and the value of each.
pub record SemSet : Type 0 where
  pub size : ℕ
  pub value : ℕ → ℕ

-- `struct sembuf`; the flags are always 0.
pub record Sembuf : Type 0 where
  pub sem_num : ℕ
  pub sem_op : ℤ

-- A call of `semop` returns 0 with the set changed, waits, or returns -1.
pub data SemResult : Type 0 where
  success : SemSet → SemResult
  blocked : SemResult
  failure : SemResult

-- The system calls: `semop`, and `semget` where it creates a set of that many semaphores. And whether
-- the fopen and fclose of each call of `saveState` succeed, by how many have been made before.
pub record Kernel : Type 0 where
  pub semop : SemSet → List Sembuf → SemResult
  pub semget : ℕ → SemSet
  pub log_works : ℕ → Bool

abbrev pub minus_one : ℕ → Sembuf
minus_one i = record { sem_num = i; sem_op = negsuc 0 }

abbrev pub plus_one : ℕ → Sembuf
plus_one i = record { sem_num = i; sem_op = pos 1 }

-- The largest value of a semaphore, SEMVMX.
abbrev pub semvmx : ℕ
semvmx = 32767

-- semop(2): what it does with one operation, and with the pair that `semConnect` hands over;
-- semget(2): a new set has its size, and Linux sets each value to 0.
pub record IsKernel (kernel : Kernel) : Type 0 where
  pub take :
      (s : SemSet) (i v : ℕ)
      → i < s.size
      → s.value i ≡ suc v
      → kernel.semop s (minus_one i ∷ []) ≡ success (record s { value = update s.value i v })
  pub sleep :
      (s : SemSet) (i : ℕ)
      → i < s.size
      → s.value i ≡ 0
      → kernel.semop s (minus_one i ∷ []) ≡ blocked
  pub give :
      (s : SemSet) (i : ℕ)
      → i < s.size
      → s.value i < semvmx
      → kernel.semop s (plus_one i ∷ [])
        ≡ success (record s { value = update s.value i (suc (s.value i)) })
  pub full :
      (s : SemSet) (i : ℕ)
      → i < s.size
      → semvmx ≤ s.value i
      → kernel.semop s (plus_one i ∷ []) ≡ failure
  pub outside : (s : SemSet) (b : Sembuf) → s.size ≤ b.sem_num → kernel.semop s (b ∷ []) ≡ failure
  pub pass :
      (s : SemSet) (i v : ℕ)
      → i < s.size
      → s.value i ≡ suc v
      → v < semvmx
      → kernel.semop s (minus_one i ∷ plus_one i ∷ []) ≡ success s
  pub queue :
      (s : SemSet) (i : ℕ)
      → i < s.size
      → s.value i ≡ 0
      → kernel.semop s (minus_one i ∷ plus_one i ∷ []) ≡ blocked
  pub created_size : (n : ℕ) → (kernel.semget n).size ≡ n
  pub created_value : (n i : ℕ) → (kernel.semget n).value i ≡ 0

-- The cast to `unsigned short`.
abbrev pub ushort : ℕ → ℕ
ushort i = i % 65536

-- `none` is a failed assertion.
unfoldable pub sem_down : Kernel → SemSet → ℕ → Option SemResult
sem_down kernel s i = if i == 0 then none else some (kernel.semop s (minus_one (ushort i) ∷ []))

unfoldable pub sem_up : Kernel → SemSet → ℕ → Option SemResult
sem_up kernel s i = if i == 0 then none else some (kernel.semop s (plus_one (ushort i) ∷ []))

-- The calls on semaphore 0, which holds every process back until the start is signalled.
unfoldable pub sem_signal : Kernel → SemSet → SemResult
sem_signal kernel s = kernel.semop s (plus_one 0 ∷ [])

-- The second half of `semConnect`, once `semget` has found the set.
unfoldable pub sem_connect : Kernel → SemSet → SemResult
sem_connect kernel s = kernel.semop s (minus_one 0 ∷ plus_one 0 ∷ [])

-- `semCreate` where no set has the key: it asks for one semaphore more, number 0.
unfoldable pub sem_create : Kernel → ℕ → SemSet
sem_create kernel snum = kernel.semget (snum + 1)
