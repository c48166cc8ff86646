-- ===== src/Room/Run.antt =====
-- In every system that is reached, each semaphore can be raised once more.
use so_projeto.Prelude.{
  ℕ, zero, suc, ◌+◌, ◌-◌, ◌*◌, ◌≤◌, ◌≡◌, ◌≢◌, refl, sym, ◌∙◌, subst, inl, inr, Option, none, some,
  List, [], ◌∷◌, ◌==◌, total, total-eq_zero, Bool-cases, Option-cases, arith,
}
use so_projeto.Const.{max_groups}
use so_projeto.Semaphore.{
  Kernel, IsKernel, SemSet, SemResult, success, blocked, failure, ushort, semvmx, sem_create,
}
use so_projeto.Semaphore
use so_projeto.Semaphore.Laws.{IsDown-success, IsUp-success}
use so_projeto.SharedData.{SemId, sem_index, sem_nu}
use so_projeto.Process.{Proc, ret, down, up, read, write, save, exited, fault, spinning}
use so_projeto.System.{
  Pid, group, World, System, Move, Config, Reached, same_pid, set_at, is_pid, after_call, proc_step,
  move, step, run, first_system,
}
use so_projeto.System.Start.{opened, opened_value, main-eq}
use so_projeto.Tokens.Run.{all_held-set}
use so_projeto.Tokens.Reached.{Reached-Balanced}
use so_projeto.Tokens.Mutex.{mutex_parts}
use so_projeto.Room.{Raises, rise, IsRoomy, Supplied}
use so_projeto.Room.Programs.{supply, initial_procs-Raises}

module _ {k : Kernel} (law : IsKernel k) (n : ℕ) (few : n ≤ max_groups) where
  -- A move of a program with `b` ups left.
  record Spends (b : ℕ) (s : SemSet) (m : Move) : Type 0 where
    pub left : ℕ
    pub less : left ≤ b
    pub raises : Raises left m.0
    pub bound : (i : ℕ) → i ≢ 1 → m.1.sems.value i + left ≤ s.value i + b
    pub size : m.1.sems.size ≡ s.size

  stays : (b : ℕ) (c : Proc (Unit {0})) (w : World) → Raises b c → Spends b w.sems (c, w)
  stays b c w h = record {
    left = b;
    less = omega arith;
    raises = h;
    bound = λ i ne. omega arith;
    size = refl;
  }

  took :
      (b : ℕ) (x : SemId) (c : Proc (Unit {0})) (w : World) (j : ℕ)
      → Raises b c
      → (r : Option SemResult) → Semaphore.sem_down k w.sems j ≡ r
      → Spends b w.sems (after_call (down x c) c w r)
  took b x c w j h none e = stays b exited w tt
  took b x c w j h (some (success s)) e =
      let d = IsDown-success law j w.sems s e in
      record {
        left = b;
        less = omega arith;
        raises = h;
        bound = λ i ne. rw d.after (ground arith);
        size = rw d.after refl;
      }
  took b x c w j h (some blocked) e = stays b (down x c) w h
  took b x c w j h (some failure) e = stays b exited w tt

  mutex_number : (x : SemId) (j : ℕ) → sem_index n x ≡ some j → rise x ≡ 0 → ushort j ≡ 1
  unfolding sem_index
  mutex_number x j e r = ground arith

  gave :
      (b : ℕ) (x : SemId) (c : Proc (Unit {0})) (w : World) (j : ℕ)
      → sem_index n x ≡ some j
      → Raises b (up x c)
      → (r : Option SemResult) → Semaphore.sem_up k w.sems j ≡ r
      → Spends b w.sems (after_call (up x c) c w r)
  gave b x c w j at h none e = stays b exited w tt
  gave b x c w j at h (some (success s)) e =
      let d = IsUp-success law j w.sems s e in
      record {
        left = b - rise x;
        less = omega arith;
        raises = h.1;
        bound = λ i ne. rw d.after (ground (arith, h.0, mutex_number x j at));
        size = rw d.after refl;
      }
  gave b x c w j at h (some blocked) e = stays b (up x c) w h
  gave b x c w j at h (some failure) e = stays b exited w tt

  proc_step-Spends :
      (b : ℕ) (c : Proc (Unit {0})) (w : World) → Raises b c → Spends b w.sems (proc_step k n c w)
  unfolding proc_step
  proc_step-Spends b (ret a) w h = stays b (ret a) w h
  proc_step-Spends b (down x c) w h = elim (Option-cases (sem_index n x)) [
    | inl e ↦ rw e (stays b fault w tt)
    | inr (j, e) ↦ rw e (took b x c w j h _ refl)
  ]
  proc_step-Spends b (up x c) w h = elim (Option-cases (sem_index n x)) [
    | inl e ↦ rw e (stays b fault w tt)
    | inr (j, e) ↦ rw e (gave b x c w j e h _ refl)
  ]
  proc_step-Spends b (read f) w h = stays b (f w.mem) w (h w.mem)
  proc_step-Spends b (write g c) w h = record {
    left = b;
    less = omega arith;
    raises = h;
    bound = λ i ne. omega arith;
    size = refl;
  }
  proc_step-Spends b (save c) w h = elim (Bool-cases (k.log_works w.tries)) [
    | inl e ↦ rw e (record {
      left = b;
      less = omega arith;
      raises = h;
      bound = λ i ne. omega arith;
      size = refl;
    })
    | inr e ↦ rw e (record {
      left = b;
      less = omega arith;
      raises = tt;
      bound = λ i ne. omega arith;
      size = refl;
    })
  ]
  proc_step-Spends b exited w h = stays b exited w tt
  proc_step-Spends b fault w h = stays b fault w tt
  proc_step-Spends b spinning w h = stays b spinning w tt

  step-Supplied :
      (most : ℕ) (s : System) (p : Pid) → Supplied most n s → Supplied most n (step k n s p)
  unfolding step move
  step-Supplied most s p h = elim (Bool-cases (is_pid n p)) [
    | inl u ↦
        let m = proc_step-Spends (h.left p) (s.procs p) s.world (h.raises p) in
        rw u (record {
          left = set_at h.left p m.left;
          raises = λ q. elim (Bool-cases (same_pid p q)) [
            | inl e ↦ rw e m.raises
            | inr e ↦ rw e (h.raises q)
          ];
          bound = λ i ne.
              omega (arith, m.less, m.bound i ne, h.bound i ne, all_held-set n h.left p m.left u);
          size = m.size ∙ h.size;
        })
    | inr u ↦ rw u h
  ]

  run-Supplied :
      (most : ℕ) (s : System) (ps : List Pid) → Supplied most n s → Supplied most n (run k n s ps)
  unfolding run
  run-Supplied most s [] h = h
  run-Supplied most s (p ∷ ps) h = run-Supplied most (step k n s p) ps (step-Supplied most s p h)

supply_sum : (n m : ℕ) → total n (λ g. supply m (group g)) ≡ n * 3
unfolding total
supply_sum zero m = omega arith
supply_sum (suc n) m = omega (arith, supply_sum n m)

module _ {k : Kernel} (law : IsKernel k) (c : Config) (few : c.n_groups ≤ max_groups) where
  first_value : (i : ℕ) → (opened (sem_create k (sem_nu c.n_groups))).value i ≤ 1
  first_value i = ground (arith, opened_value law c.n_groups i)

  first_Supplied :
      (rounds : ℕ)
      → Supplied 300 c.n_groups (first_system rounds c (opened (sem_create k (sem_nu c.n_groups))))
  unfolding sem_create
  first_Supplied rounds = record {
    left = supply c.n_groups;
    raises = initial_procs-Raises rounds c.n_groups;
    bound = λ i ne. omega (arith, first_value i, supply_sum c.n_groups c.n_groups);
    size = law.created_size (sem_nu c.n_groups + 1);
  }

  mutex_at_most : {t : System} → Reached k c t → t.sems.value 1 ≤ 1
  unfolding total
  mutex_at_most r =
      let b = Reached-Balanced law c few mutex_parts r in
      omega (arith, b.sum, total-eq_zero c.n_groups (λ g. 0) (λ g. refl))

  -- With at most MAXGROUPS groups and a kernel that keeps its promises, in every system that is reached
  -- the set has SEM_NU + 1 semaphores, and each value is below SEMVMX, the most that a semaphore can
  -- hold: an up never overflows.
  pub Reached-IsRoomy : {t : System} → Reached k c t → IsRoomy c.n_groups t.sems
  Reached-IsRoomy {t} r =
      let h : Supplied 300 c.n_groups t = subst (Supplied 300 c.n_groups) r.ends (
        run-Supplied law c.n_groups few 300 r.start r.schedule (
          subst (Supplied 300 c.n_groups) (sym (main-eq law r.rounds c r.begins))
            (first_Supplied r.rounds))) in
      record {
        size = h.size;
        room = λ i. elim (Bool-cases (i == 1)) [
          | inl e ↦ ground (arith, mutex_at_most r)
          | inr e ↦ omega (arith, h.bound i (ground arith))
        ];
      }
