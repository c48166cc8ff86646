-- ===== src/Tokens/Reached.antt =====
-- Every system that `main` starts and a schedule leads to keeps the accounts.
use mathlib.Core.Path.{fun_ext}
use so_projeto.Prelude.{ℕ, ◌+◌, ◌≤◌, ◌≡◌, subst, ap, ◌||◌, ◌==◌, bit, total, if◌then◌else◌}
use so_projeto.Const.{max_groups}
use so_projeto.Semaphore.{Kernel, IsKernel, sem_create}
use so_projeto.SharedData.{sem_nu}
use so_projeto.System.{Pid, System, Config, Reached, first_system}
use so_projeto.System.Start.{opened, opened_value, main-eq}
use so_projeto.Tokens.{Protocol, pool, all_held, Balanced}
use so_projeto.Tokens.Programs.{Parts, initial_procs-keeps}
use so_projeto.Tokens.Run.{run-Balanced}

-- The tokens that lie in the semaphores at the start.
abbrev pub pool_at_start : Protocol → ℕ
pool_at_start P =
    total 8 (λ i. if P.counts_num i then bit ((i == 1) || (i == 3) || (i == 5)) else 0)

total_cong : (n : ℕ) (f g : ℕ → ℕ) → ((i : ℕ) → f i ≡ g i) → total n f ≡ total n g
total_cong n f g h = rw (fun_ext h)

module _ {k : Kernel} (law : IsKernel k) (c : Config) (le : c.n_groups ≤ max_groups) where
  pool-opened :
      (P : Protocol) → pool P (opened (sem_create k (sem_nu c.n_groups))) ≡ pool_at_start P
  pool-opened P =
      total_cong 8 _ _
        λ i. ap (λ v. if P.counts_num i then v else 0) (opened_value law c.n_groups i)

  start-Balanced :
      {P : Protocol} {rest : Pid → ℕ} {s : System} (rounds : ℕ)
      → Parts P rest
      → s ≡ first_system rounds c (opened (sem_create k (sem_nu c.n_groups)))
      → Balanced P (pool_at_start P + all_held c.n_groups rest) c.n_groups s
  start-Balanced {P} {rest} rounds parts e = rw e (record {
    held = rest;
    keeps = initial_procs-keeps parts rounds c.n_groups;
    sum = rw (pool-opened P);
  })

  -- Every system that is reached keeps the accounts.
  pub Reached-Balanced :
      {P : Protocol} {rest : Pid → ℕ} {t : System}
      → Parts P rest
      → Reached k c t
      → Balanced P (pool_at_start P + all_held c.n_groups rest) c.n_groups t
  Reached-Balanced {P} {rest} parts r =
      subst (Balanced P (pool_at_start P + all_held c.n_groups rest) c.n_groups) r.ends (
        run-Balanced law le r.start r.schedule
          (start-Balanced r.rounds parts (main-eq law r.rounds c r.begins)))
