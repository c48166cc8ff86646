-- ===== src/Ghost.antt =====
-- Invariants of all processes together. Each process has a view of its own, which only it changes;
-- the invariant relates the views to the memory and to the values of the semaphores.
pub mod Bind
pub mod Run
use so_projeto.Prelude.{◌⊎◌, ℕ, suc, ◌-◌, ◌≡◌, ◌≤◌, ◌<◌, Bool, true, some, update}
use so_projeto.State.{FullStat}
use so_projeto.Semaphore.{ushort}
use so_projeto.SharedData.{SemId, sem_nu, sem_index}
use so_projeto.Process.{Proc, ret, down, up, read, write, save, exited, fault, spinning}
use so_projeto.System.{Pid, System, is_pid, set_at}

-- The field holds the number `j`, which is that of a semaphore.
pub record Numbered (n : ℕ) (x : SemId) (j : ℕ) : Type 0 where
  pub number : sem_index n x ≡ some j
  pub small : ushort j ≡ j
  pub positive : 0 < j
  pub below : j ≤ sem_nu n

-- What is shown to be kept, which processes may go out of an array, and how each ends.
pub record Contract (V : Type 0) : Type 1 where
  pub groups : ℕ
  pub inv : (Pid → V) → FullStat → (ℕ → ℕ) → Type 0
  pub may_fault : Pid → Type 0
  pub ends : Pid → V → Type 0

module _ {V : Type 0} (C : Contract V) where
  open C use {groups, inv, may_fault, ends}

  -- The program, begun with the view `u`, keeps the invariant with each of its steps, whatever the
  -- others have done in between, does not exit, and ends as `Q` says.
  unfoldable pub Ok : {A : Type 0} → Pid → Proc A → (A → V → Type 0) → V → Type 0
  Ok p (ret a) Q u = Q a u
  Ok p (down x c) Q u =
      (j : ℕ) × (Numbered groups x j)
      × ((vs : Pid → V) (m : FullStat) (val : ℕ → ℕ)
          → vs p ≡ u
          → inv vs m val
          → 0 < val j
          → (u' : V) × (inv (set_at vs p u') m (update val j (val j - 1))) × Ok p c Q u')
  Ok p (up x c) Q u =
      (j : ℕ) × (Numbered groups x j)
      × ((vs : Pid → V) (m : FullStat) (val : ℕ → ℕ)
          → vs p ≡ u
          → inv vs m val
          → (u' : V) × (inv (set_at vs p u') m (update val j (suc (val j)))) × Ok p c Q u')
  Ok p (read f) Q u =
      (vs : Pid → V) (m : FullStat) (val : ℕ → ℕ)
      → vs p ≡ u
      → inv vs m val
      → (u' : V) × (inv (set_at vs p u') m val) × Ok p (f m) Q u'
  Ok p (write g c) Q u =
      (vs : Pid → V) (m : FullStat) (val : ℕ → ℕ)
      → vs p ≡ u
      → inv vs m val
      → (u' : V) × (inv (set_at vs p u') (g m) val) × Ok p c Q u'
  Ok p (save c) Q u = Ok p c Q u
  Ok p exited Q u = ⊥
  Ok p fault Q u = may_fault p
  Ok p spinning Q u = Unit

  -- The invariant of a system, with what is left of each program. A process has exited only if `F`.
  pub record Kept (F : Type 0) (s : System) : Type 0 where
    pub views : Pid → V
    pub now : inv views s.mem s.sems.value
    pub each :
        (p : Pid)
        → is_pid groups p ≡ true
        → ((s.procs p ≡ exited) × F) ⊎ Ok p (s.procs p) (λ a u. ends p u) (views p)
