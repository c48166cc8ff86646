-- ===== src/Ownership/Run.antt =====
-- The owner's invariant holds after every schedule.
use so_projeto.Prelude.{
  ℕ, ◌≡◌, true, false, List, [], ◌∷◌, Option, none, some, inl, inr, subst, Bool-cases,
}
use so_projeto.State.{FullStat}
use so_projeto.Semaphore.{
  Kernel, IsKernel, SemSet, SemResult, success, blocked, failure, sem_create,
}
use so_projeto.Semaphore
use so_projeto.SharedData.{sem_index}
use so_projeto.Process.{Proc, ret, down, up, read, write, save, exited, fault, spinning}
use so_projeto.System.{
  Pid, World, System, Config, Reached, initial_state, initial_procs, is_pid, same_pid, same_pid→eq,
  same_pid_self, same_pid_comm, on_sem, after_call, proc_step, move, step, run,
}
use so_projeto.System.Start.{main-eq}
use so_projeto.Ownership.{Owns, Leaves, Done, Owned}

-- A semaphore call leaves the memory, and goes on, waits, or ends the process.
on_sem_any {ℓ} :
    (T : Proc (Unit {0}) → FullStat → Type ℓ) (call : SemSet → ℕ → Option SemResult)
    (p q : Proc (Unit {0})) (w : World) (o : Option ℕ)
    → T p w.mem
    → T q w.mem
    → T exited w.mem
    → T fault w.mem
    → T (on_sem call p q w o).0 (on_sem call p q w o).1.mem
on_sem_any T call p q w none hp hq he hf = hf
on_sem_any T call p q w (some i) hp hq he hf = go (call w.sems i)
  where
    go : (r : Option SemResult) → T (after_call p q w r).0 (after_call p q w r).1.mem
    go none = he
    go (some (success s)) = hq
    go (some blocked) = hp
    go (some failure) = he

module _ {V : Type 0} (holds : V → FullStat → Type 0) where
  abbrev Going : Proc (Unit {0}) → FullStat → Type 0
  Going c s = (v : V) × (holds v s) × (Owns holds c (Done holds) v)

  owner_step :
      (k : Kernel) (n : ℕ) (c : Proc (Unit {0})) (w : World)
      → Going c w.mem
      → Going (proc_step k n c w).0 (proc_step k n c w).1.mem
  unfolding proc_step
  owner_step k n (ret a) w h = h
  owner_step k n (down x c) w (v, i, o) =
      on_sem_any Going (Semaphore.sem_down k) (down x c) c w (sem_index n x) (v, i, o) (v, i, o)
        (v, i, tt) (v, i, tt)
  owner_step k n (up x c) w (v, i, o) =
      on_sem_any Going (Semaphore.sem_up k) (up x c) c w (sem_index n x) (v, i, o) (v, i, o)
        (v, i, tt) (v, i, tt)
  owner_step k n (read f) w (v, i, o) = (v, i, o w.mem i)
  owner_step k n (write g c) w (v, i, o) = (o.0, o.1 w.mem i, o.2)
  owner_step k n (save c) w (v, i, o) = elim (Bool-cases (k.log_works w.tries)) [
    | inl e ↦ rw e (v, i, o)
    | inr e ↦ rw e (v, i, tt)
  ]
  owner_step k n exited w h = h
  owner_step k n fault w h = h
  owner_step k n spinning w h = h

  abbrev Leaving : V → Proc (Unit {0}) → FullStat → Type 0
  Leaving v c s = holds v s × Leaves holds c

  other_step :
      (k : Kernel) (n : ℕ) (v : V) (c : Proc (Unit {0})) (w : World)
      → Leaving v c w.mem
      → Leaving v (proc_step k n c w).0 (proc_step k n c w).1.mem
  unfolding proc_step
  other_step k n v (ret a) w h = h
  other_step k n v (down x c) w (i, l) =
      on_sem_any (Leaving v) (Semaphore.sem_down k) (down x c) c w (sem_index n x) (i, l) (i, l)
        (i, tt) (i, tt)
  other_step k n v (up x c) w (i, l) =
      on_sem_any (Leaving v) (Semaphore.sem_up k) (up x c) c w (sem_index n x) (i, l) (i, l) (i, tt)
        (i, tt)
  other_step k n v (read f) w (i, l) = (i, l w.mem)
  other_step k n v (write g c) w (i, l) = (l.0 v w.mem i, l.1)
  other_step k n v (save c) w (i, l) = elim (Bool-cases (k.log_works w.tries)) [
    | inl e ↦ rw e (i, l)
    | inr e ↦ rw e (i, tt)
  ]
  other_step k n v exited w h = h
  other_step k n v fault w h = h
  other_step k n v spinning w h = h

  module _ {owner : Pid} {n : ℕ} (k : Kernel) where
    owner_move : (s : System) → Owned holds owner n s → Owned holds owner n (move k n s owner)
    unfolding move
    owner_move s o =
        let (v, i, own) : Going (proc_step k n (s.procs owner) s.world).0
            (proc_step k n (s.procs owner) s.world).1.mem =
          owner_step k n (s.procs owner) s.world (o.view, o.now, o.mine) in
        record {
          view = v;
          now = i;
          mine = rw (same_pid_self owner) own;
          others = λ q u d. rw d (o.others q u d);
        }

    other_move :
        (s : System) (p : Pid)
        → is_pid n p ≡ true
        → same_pid owner p ≡ false
        → Owned holds owner n s
        → Owned holds owner n (move k n s p)
    unfolding move
    other_move s p u d o =
        let (i, l) = other_step k n o.view (s.procs p) s.world (o.now, o.others p u d) in
        record {
          view = o.view;
          now = i;
          mine = rw (same_pid_comm p owner, d) o.mine;
          others = λ q u' d'. elim (Bool-cases (same_pid p q)) [
            | inl e ↦ rw e l
            | inr e ↦ rw e (o.others q u' d')
          ];
        }

    move-Owned :
        (s : System) (p : Pid)
        → is_pid n p ≡ true
        → Owned holds owner n s
        → Owned holds owner n (move k n s p)
    move-Owned s p u o = elim (Bool-cases (same_pid owner p)) [
      | inl e ↦
          subst (λ q. Owned holds owner n (move k n s q)) (same_pid→eq owner p e) (owner_move s o)
      | inr e ↦ other_move s p u e o
    ]

    step-Owned : (s : System) (p : Pid) → Owned holds owner n s → Owned holds owner n (step k n s p)
    unfolding step
    step-Owned s p o = elim (Bool-cases (is_pid n p)) [
      | inl u ↦ rw u (move-Owned s p u o)
      | inr u ↦ rw u o
    ]

    run-Owned :
        (s : System) (ps : List Pid) → Owned holds owner n s → Owned holds owner n (run k n s ps)
    unfolding run
    run-Owned s [] o = o
    run-Owned s (p ∷ ps) o = run-Owned (step k n s p) ps (step-Owned s p o)

-- Every system that is reached has the invariant, if the first memory and the programs do.
pub Reached-Owned :
    {V : Type 0} (holds : V → FullStat → Type 0) {k : Kernel}
    → IsKernel k
    → (c : Config) (owner : Pid) (v : V) → holds v (initial_state c)
    → ((rounds : ℕ) → Owns holds (initial_procs rounds c.n_groups owner) (Done holds) v)
    → ((rounds : ℕ) (q : Pid)
        → is_pid c.n_groups q ≡ true
        → same_pid owner q ≡ false
        → Leaves holds (initial_procs rounds c.n_groups q))
    → {t : System} → Reached k c t
    → Owned holds owner c.n_groups t
Reached-Owned holds {k} law c owner v i own leave r = subst (Owned holds owner c.n_groups) r.ends (
    run-Owned holds k r.start r.schedule (
      rw (main-eq law r.rounds c r.begins)
        (record { view = v; now = i; mine = own r.rounds; others = leave r.rounds })))
