-- ===== src/Room.antt =====
-- How far the semaphores can rise: every up but that of the mutex is counted, and no program makes many.
pub mod Programs
pub mod Run
use so_projeto.Prelude.{ℕ, ◌+◌, ◌-◌, ◌≤◌, ◌<◌, ◌≢◌, ◌≡◌, not, bit, arith}
use so_projeto.State.{FullStat}
use so_projeto.Semaphore.{SemSet, semvmx}
use so_projeto.SharedData.{SemId, sem_nu}
use so_projeto.Process.{Proc, ret, down, up, read, write, save, exited, fault, spinning, ◌>>=◌}
use so_projeto.System.{Pid, System}
use so_projeto.Tokens.{all_held}
use so_projeto.Tokens.Mutex.{is_mutex}

-- An up that is not of the mutex.
abbrev pub rise : SemId → ℕ
rise i = bit (not (is_mutex i))

-- On no path through the program are there more than `k` of these.
abbrev pub Raises : {A : Type 0} → ℕ → Proc A → Type 0
Raises k (ret a) = Unit
Raises k (down i p) = Raises k p
Raises k (up i p) = (rise i ≤ k) × Raises (k - rise i) p
Raises k (read f) = (s : FullStat) → Raises k (f s)
Raises k (write g p) = Raises k p
Raises k (save p) = Raises k p
Raises k exited = Unit
Raises k fault = Unit
Raises k spinning = Unit

pub Raises-weaken : {A : Type 0} (p : Proc A) (k m : ℕ) → k ≤ m → Raises k p → Raises m p
Raises-weaken (ret a) k m le e = tt
Raises-weaken (down i p) k m le e = Raises-weaken p k m le e
Raises-weaken (up i p) k m le e =
    (omega (arith, e.0), Raises-weaken p (k - rise i) (m - rise i) (omega arith) e.1)
Raises-weaken (read f) k m le e = λ s. Raises-weaken (f s) k m le (e s)
Raises-weaken (write g p) k m le e = Raises-weaken p k m le e
Raises-weaken (save p) k m le e = Raises-weaken p k m le e
Raises-weaken exited k m le e = tt
Raises-weaken fault k m le e = tt
Raises-weaken spinning k m le e = tt

module _ {A B : Type 0} (q : A → Proc B) (k : ℕ) (h : (a : A) → Raises k (q a)) where
  pub Raises-bind : (j n : ℕ) (p : Proc A) → j + k ≤ n → Raises j p → Raises n (p >>= q)
  Raises-bind j n (ret a) le e = Raises-weaken (q a) k n (omega arith) (h a)
  Raises-bind j n (down i p) le e = Raises-bind j n p le e
  Raises-bind j n (up i p) le e =
      (omega (arith, e.0), Raises-bind (j - rise i) (n - rise i) p (omega (arith, e.0)) e.1)
  Raises-bind j n (read f) le e = λ s. Raises-bind j n (f s) le (e s)
  Raises-bind j n (write g p) le e = Raises-bind j n p le e
  Raises-bind j n (save p) le e = Raises-bind j n p le e
  Raises-bind j n exited le e = tt
  Raises-bind j n fault le e = tt
  Raises-bind j n spinning le e = tt

-- A set for `n` groups that has a place for each number, and each value may rise.
pub record IsRoomy (n : ℕ) (s : SemSet) : Type 0 where
  pub size : s.size ≡ sem_nu n + 1
  pub room : (i : ℕ) → s.value i < semvmx

-- No value but the mutex's, with all that can still be added, is more than `most`.
pub record Supplied (most n : ℕ) (s : System) : Type 0 where
  pub left : Pid → ℕ
  pub raises : (p : Pid) → Raises (left p) (s.procs p)
  pub bound : (i : ℕ) → i ≢ 1 → s.sems.value i + all_held n left ≤ most
  pub size : s.sems.size ≡ sem_nu n + 1
