-- ===== src/Process.antt =====
-- The programs of the processes, as the source's sequences of semaphore calls and accesses to the
-- shared memory. A program is a tree: a read goes on with the state that it finds.
pub mod Alone
pub mod Calls
use so_projeto.Prelude.{ℕ}
use so_projeto.State.{FullStat}
use so_projeto.SharedData.{SemId}

-- `down` and `up` stand for a call with the test behind it, `if (semDown (…) == -1) exit (…);`.
-- `save` is a call of `saveState`. A `write` stands for adjacent assignments, a `read` for what an
-- expression or a scan reads. `exited` is a process that has ended with an error, `fault` one that
-- went out of an array, and `spinning` one that has used up the rounds allowed to its loop.
pub data Proc (A : Type 0) : Type 0 where
  ret : A → Proc A
  down : SemId → Proc A → Proc A
  up : SemId → Proc A → Proc A
  read : (FullStat → Proc A) → Proc A
  write : (FullStat → FullStat) → Proc A → Proc A
  save : Proc A → Proc A
  exited : Proc A
  fault : Proc A
  spinning : Proc A

infixl 5 ◌>>=◌ ◌>>◌
abbrev pub ◌>>=◌ : {A B : Type 0} → Proc A → (A → Proc B) → Proc B
ret a >>= k = k a
down i p >>= k = down i (p >>= k)
up i p >>= k = up i (p >>= k)
read f >>= k = read (λ s. f s >>= k)
write g p >>= k = write g (p >>= k)
save p >>= k = save (p >>= k)
exited >>= k = exited
fault >>= k = fault
spinning >>= k = spinning

abbrev pub ◌>>◌ : {A B : Type 0} → Proc A → Proc B → Proc B
p >> q = p >>= λ _. q

-- The single calls, for `do` blocks.
abbrev pub sem_down : SemId → Proc (Unit {0})
sem_down i = down i (ret tt)

abbrev pub sem_up : SemId → Proc (Unit {0})
sem_up i = up i (ret tt)

abbrev pub get : {A : Type 0} → (FullStat → A) → Proc A
get f = read (λ s. ret (f s))

abbrev pub assign : (FullStat → FullStat) → Proc (Unit {0})
assign g = write g (ret tt)

abbrev pub save_state : Proc (Unit {0})
save_state = save (ret tt)
