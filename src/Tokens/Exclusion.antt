-- ===== src/Tokens/Exclusion.antt =====
-- Mutual exclusion: who may touch the shared memory of semaphore_restaurant/src at one time.
use so_projeto.Prelude.{◌+◌, ◌≤◌, total, ◌≡◌, refl, Bool, true, false, total-eq_zero, arith}
use so_projeto.Const.{max_groups}
use so_projeto.Semaphore.{Kernel, IsKernel}
use so_projeto.Process.{Proc, read, write, save}
use so_projeto.System.{Pid, System, Config, Reached, is_pid, same_pid}
use so_projeto.Tokens.Run.{add-le-all_held}
use so_projeto.Tokens.Reached.{Reached-Balanced}
use so_projeto.Tokens.Mutex.{mutex_parts}

-- The next step of the program writes the memory, or appends it to the log.
abbrev pub changes : Proc (Unit {0}) → Bool
changes (write g c) = true
changes (save c) = true
changes _ = false

-- The next step of the program reads the memory.
abbrev pub reads : Proc (Unit {0}) → Bool
reads (read f) = true
reads _ = false

module _ {k : Kernel} (law : IsKernel k) (c : Config) (le : c.n_groups ≤ max_groups) where
  -- At most one token is about.
  pub held-le-one :
      {t : System} (r : Reached k c t) (p q : Pid)
      → is_pid c.n_groups p ≡ true
      → is_pid c.n_groups q ≡ true
      → same_pid p q ≡ false
      → let b = Reached-Balanced law c le mutex_parts r in b.held p + b.held q ≤ 1
  unfolding total
  held-le-one r p q u v d =
      let b = Reached-Balanced law c le mutex_parts r in
      omega (
        arith,
        b.sum,
        total-eq_zero c.n_groups (λ g. 0) (λ g. refl),
        add-le-all_held c.n_groups b.held p q u v d,
      )
