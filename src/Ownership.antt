-- ===== src/Ownership.antt =====
-- Invariants of the shared memory that rest on one process being the only writer of some fields.
-- The owner has a view `v` of what it has written; `holds v s` relates it to the memory.
pub mod Run
pub mod Programs
use so_projeto.Prelude.{
  ℕ, ◌≡◌, Bool, true, false, List, [], ◌∷◌, Option, none, some, inl, inr, refl, subst, Bool-cases,
  Option-cases,
}
use so_projeto.State.{FullStat}
use so_projeto.Semaphore.{Kernel, SemSet, SemResult, success, blocked, failure}
use so_projeto.Semaphore
use so_projeto.SharedData.{SemId, sem_index}
use so_projeto.Process.{Proc, ret, down, up, read, write, save, exited, fault, spinning, ◌>>=◌}
use so_projeto.System.{
  Pid, World, System, Move, is_pid, same_pid, same_pid→eq, set_at, on_sem, after_call, proc_step,
  move, step, run,
}

module _ {V : Type 0} (holds : V → FullStat → Type 0) where
  -- The owner's program, begun with the view `v`, keeps the invariant and ends as `Q` says.
  abbrev pub Owns {ℓ} : {A : Type 0} → Proc A → (A → V → Type ℓ) → V → Type ℓ
  Owns (ret a) Q v = Q a v
  Owns (down x c) Q v = Owns c Q v
  Owns (up x c) Q v = Owns c Q v
  Owns (read f) Q v = (s : FullStat) → holds v s → Owns (f s) Q v
  Owns (write g c) Q v = (v' : V) × ((s : FullStat) → holds v s → holds v' (g s)) × Owns c Q v'
  Owns (save c) Q v = Owns c Q v
  Owns exited Q v = Unit
  Owns fault Q v = Unit
  Owns spinning Q v = Unit

  -- Another process writes only what leaves the invariant as it is, for every view.
  abbrev pub Leaves : {A : Type 0} → Proc A → Type 0
  Leaves (ret a) = Unit
  Leaves (down x c) = Leaves c
  Leaves (up x c) = Leaves c
  Leaves (read f) = (s : FullStat) → Leaves (f s)
  Leaves (write g c) = ((v : V) (s : FullStat) → holds v s → holds v (g s)) × Leaves c
  Leaves (save c) = Leaves c
  Leaves exited = Unit
  Leaves fault = Unit
  Leaves spinning = Unit

  pub Owns-bind {ℓ κ} :
      {A B : Type 0} (c : Proc A) (f : A → Proc B) (R : A → V → Type ℓ) (Q : B → V → Type κ) (v : V)
      → Owns c R v
      → ((a : A) (u : V) → R a u → Owns (f a) Q u)
      → Owns (c >>= f) Q v
  Owns-bind (ret a) f R Q v h t = t a v h
  Owns-bind (down x c) f R Q v h t = Owns-bind c f R Q v h t
  Owns-bind (up x c) f R Q v h t = Owns-bind c f R Q v h t
  Owns-bind (read g) f R Q v h t = λ s i. Owns-bind (g s) f R Q v (h s i) t
  Owns-bind (write g c) f R Q v h t = (h.0, h.1, Owns-bind c f R Q h.0 h.2 t)
  Owns-bind (save c) f R Q v h t = Owns-bind c f R Q v h t
  Owns-bind exited f R Q v h t = tt
  Owns-bind fault f R Q v h t = tt
  Owns-bind spinning f R Q v h t = tt

  pub Leaves-bind :
      {A B : Type 0} (c : Proc A) (f : A → Proc B)
      → Leaves c
      → ((a : A) → Leaves (f a))
      → Leaves (c >>= f)
  Leaves-bind (ret a) f h t = t a
  Leaves-bind (down x c) f h t = Leaves-bind c f h t
  Leaves-bind (up x c) f h t = Leaves-bind c f h t
  Leaves-bind (read g) f h t = λ s. Leaves-bind (g s) f (h s) t
  Leaves-bind (write g c) f h t = (h.0, Leaves-bind c f h.1 t)
  Leaves-bind (save c) f h t = Leaves-bind c f h t
  Leaves-bind exited f h t = tt
  Leaves-bind fault f h t = tt
  Leaves-bind spinning f h t = tt

  abbrev pub Done : Unit {0} → V → Type 0
  Done a v = Unit

  -- The invariant of the system, with the owner's program and the others'.
  pub record Owned (owner : Pid) (n : ℕ) (s : System) : Type 0 where
    pub view : V
    pub now : holds view s.mem
    pub mine : Owns (s.procs owner) Done view
    pub others : (q : Pid) → is_pid n q ≡ true → same_pid owner q ≡ false → Leaves (s.procs q)
