-- ===== src/Tokens.antt =====
-- Accounting for semaphores: a down of a counted semaphore gives the process a token, an up takes
-- one from it. A protocol says which semaphores count, and how many tokens each access needs.
pub mod Step
pub mod Run
pub mod Bind
pub mod Programs
pub mod Reached
pub mod Mutex
pub mod Desk
pub mod Kitchen
pub mod Exclusion
use so_projeto.Prelude.{
  ℕ, zero, suc, ◌+◌, ◌-◌, ◌≤◌, ◌<◌, ◌≡◌, Bool, true, some, if◌then◌else◌, bit, total,
}
use so_projeto.Const.{max_groups}
use so_projeto.State.{FullStat}
use so_projeto.Semaphore.{SemSet, ushort}
use so_projeto.SharedData.{SemId, sem_index}
use so_projeto.Process.{Proc, ret, down, up, read, write, save, exited, fault, spinning}
use so_projeto.System.{Pid, group, waiter, chef, receptionist, World, System}

pub record Protocol : Type 1 where
  pub counts : SemId → Bool
  -- The same by number, and the numbers that count are those of single semaphores.
  pub counts_num : ℕ → Bool
  pub low : (i : ℕ) → counts_num i ≡ true → i < 8
  pub agree :
      (n : ℕ) (x : SemId) {i : ℕ}
      → n ≤ max_groups
      → sem_index n x ≡ some i
      → counts_num (ushort i) ≡ counts x
  -- What a process that holds so many tokens may do.
  pub may_read : Pid → ℕ → Type 0
  pub may_write : Pid → (FullStat → FullStat) → ℕ → Type 0
  pub may_save : ℕ → Type 0
  -- With how many it may take a semaphore, and come to its end or stop polling.
  pub may_down : ℕ → Type 0
  pub may_rest : ℕ → Type 0

module _ (P : Protocol) where
  open P use {counts, counts_num, may_read, may_write, may_save, may_down, may_rest}

  -- The program, begun with `k` tokens, keeps to the protocol and ends with tokens as `Q` says.
  abbrev pub Tok : {A : Type 0} → Pid → Proc A → (A → ℕ → Type 0) → ℕ → Type 0
  Tok p (ret a) Q k = Q a k
  Tok p (down x c) Q k = may_down k × Tok p c Q (bit (counts x) + k)
  Tok p (up x c) Q k = (bit (counts x) ≤ k) × Tok p c Q (k - bit (counts x))
  Tok p (read f) Q k = may_read p k × ((s : FullStat) → Tok p (f s) Q k)
  Tok p (write g c) Q k = may_write p g k × Tok p c Q k
  Tok p (save c) Q k = may_save k × Tok p c Q k
  Tok p exited Q k = Unit
  Tok p fault Q k = Unit
  Tok p spinning Q k = may_rest k

  -- The tokens that lie in the counted semaphores.
  abbrev pub counted : (ℕ → ℕ) → ℕ → ℕ
  counted v i = if counts_num i then v i else 0

  abbrev pub pool : SemSet → ℕ
  pool s = total 8 (counted s.value)

-- The tokens in the hands of the processes.
abbrev pub all_held : ℕ → (Pid → ℕ) → ℕ
all_held n h = total n (λ g. h (group g)) + h waiter + h chef + h receptionist

-- Every process keeps to the protocol from here on, and `budget` tokens are about.
pub record Balanced (P : Protocol) (budget n : ℕ) (s : System) : Type 0 where
  pub held : Pid → ℕ
  pub keeps : (p : Pid) → Tok P p (s.procs p) (λ a k. P.may_rest k) (held p)
  pub sum : pool P s.sems + all_held n held ≡ budget
