-- ===== src/Floor/Leaving.antt =====
-- The process of semaphore_restaurant/src that is in the critical region leaves it by its own steps.
use so_projeto.Prelude.{
  ℕ, zero, suc, ◌≤◌, ◌<◌, ◌≡◌, ◌⊎◌, refl, ap, ◌∙◌, subst, true, false, inl, inr, some, List, [],
  ◌∷◌, ◌++◌, if◌then◌else◌, ◌==◌, update, total, total-eq_zero, Bool-cases, arith,
}
use so_projeto.Const.{max_groups}
use so_projeto.Semaphore.{Kernel, IsKernel, SemSet, success, ushort, sem_up}
use so_projeto.SharedData.{SemId}
use so_projeto.Process.{Proc, ret, down, up, read, write, save, exited, fault, spinning}
use so_projeto.System.{
  Pid, waiter, World, System, Config, Reached, is_pid, same_pid_self, step, move, run, proc_step,
}
use so_projeto.Room.Run.{Reached-IsRoomy}
use so_projeto.Ghost.{Ok}
use so_projeto.Tokens.{Tok}
use so_projeto.Tokens.Mutex.{mutex_protocol, mutex_parts, mutex_agree, is_mutex}
use so_projeto.Tokens.Reached.{Reached-Balanced}
use so_projeto.Floor.Steps.{floor, Ends}
use so_projeto.Floor.Safety.{Reached-Kept, no_process_exits, each_Ok}
use so_projeto.Floor.Region.{someone, only_waiter}

-- A process that has so many turns in a row.
abbrev pub turns_of : ℕ → Pid → List Pid
turns_of zero p = []
turns_of (suc m) p = p ∷ turns_of m p

run-append :
    (k : Kernel) (n : ℕ) (ps : List Pid) (s : System) (p : Pid)
    → run k n s (ps ++ (p ∷ [])) ≡ step k n (run k n s ps) p
unfolding run
run-append k n [] s p = refl
run-append k n (q ∷ ps) s p = run-append k n ps (step k n s q) p

step-own :
    (k : Kernel) (n : ℕ) (s : System) (p : Pid) (c : Proc (Unit {0})) (w : World)
    → is_pid n p ≡ true
    → proc_step k n (s.procs p) s.world ≡ (c, w)
    → ((step k n s p).procs p ≡ c) × ((step k n s p).world ≡ w)
unfolding step move
step-own k n s p c w u e = rw (u, e, same_pid_self p) (refl, refl)

up_succeeds :
    {k : Kernel}
    → IsKernel k
    → (s : SemSet) (j : ℕ) → 0 < j
    → ushort j ≡ j
    → j < s.size
    → s.value j < 32767
    → sem_up k s j ≡ some (success (record s { value = update s.value j (suc (s.value j)) }))
unfolding sem_up
up_succeeds law s j pos small lt room =
    let nonzero : (j == 0) ≡ false = ground arith in rw (nonzero, small, law.give s j lt room) refl

module _ {k : Kernel} (law : IsKernel k) (c : Config) (few : c.n_groups ≤ max_groups)
    (works : (i : ℕ) → k.log_works i ≡ true) where
  Reached-step : {t : System} → Reached k c t → (p : Pid) → Reached k c (step k c.n_groups t p)
  Reached-step r p = record {
    rounds = r.rounds;
    start = r.start;
    begins = r.begins;
    schedule = r.schedule ++ (p ∷ []);
    ends = run-append k c.n_groups r.schedule r.start p ∙ ap (λ s. step k c.n_groups s p) r.ends;
  }

  -- With so many turns of its own `p` gives the mutex back, or it is the waiter and has gone out of an
  -- array.
  abbrev pub LeavesAfter : Pid → System → ℕ → Type 0
  LeavesAfter p t m =
      ((run k c.n_groups t (turns_of m p)).sems.value 1 ≡ 1)
      ⊎ ((p ≡ waiter) × ((run k c.n_groups t (turns_of m p)).procs waiter ≡ fault))

  later :
      (p : Pid) (t : System)
      → (m : ℕ) × LeavesAfter p (step k c.n_groups t p) m
      → (m : ℕ) × LeavesAfter p t m
  unfolding run
  later p t (m, h) = (suc m, h)

  -- An up that the process comes to.
  up_step :
      {t : System} (r : Reached k c t) (p : Pid)
      → is_pid c.n_groups p ≡ true
      → (x : SemId) (q : Proc (Unit {0})) → t.procs p ≡ up x q
      → t.sems.value 1 ≡ 0
      → ((step k c.n_groups t p).procs p ≡ q)
        × ((step k c.n_groups t p).sems.value 1 ≡ (if is_mutex x then 1 else 0))
  unfolding Ok proc_step
  up_step {t} r p u x q e taken =
      let (j, num, rest) =
        subst
          (λ y.
            Ok (floor c.n_groups) p y (λ a v. Ends c.n_groups p v)
              ((Reached-Kept law c few r).views p))
          e (each_Ok law c few r p u (λ e'. cc)) in
      let roomy = Reached-IsRoomy law c few r in
      let done : sem_up k t.sems j
          ≡ some
              (success (record t.sems { value = update t.sems.value j (suc (t.sems.value j)) })) =
        up_succeeds law t.sems j num.positive num.small (omega (arith, num.below, roomy.size))
          (roomy.room j) in
      let agree = mutex_agree c.n_groups x few num.number in
      let (here, world) =
        step-own k c.n_groups t p q
          (record t.world {
            sems = record t.sems { value = update t.sems.value j (suc (t.sems.value j)) };
          })
          u (rw (e, num.number, done) refl) in
      (here, ap (λ w. w.sems.value 1) world ∙ ground (arith, agree, num.small, taken))

  leaves :
      (q : Proc (Unit {0})) {t : System} (r : Reached k c t) (p : Pid) (h : ℕ)
      → is_pid c.n_groups p ≡ true
      → t.procs p ≡ q
      → Tok mutex_protocol p q (λ a j. j ≡ 0) h
      → 0 < h
      → t.sems.value 1 ≡ 0
      → (m : ℕ) × LeavesAfter p t m
  unfolding proc_step run
  leaves (ret a) r p h u e k pos taken = absurd (omega arith)
  leaves (down x q) r p h u e k pos taken = absurd (omega (arith, k.0))
  leaves (up x q) {t} r p h u e tok pos taken =
      let (here, value) = up_step r p u x q e taken in
      elim (Bool-cases (is_mutex x)) [
        | inl m ↦ (1, inl (value ∙ ap (λ b. if b then 1 else 0) m))
        | inr o ↦ later p t (
            leaves q (Reached-step r p) p h u here (ground (arith, tok.1)) pos
              (value ∙ ap (λ b. if b then 1 else 0) o))
      ]
  leaves (read f) {t} r p h u e tok pos taken =
      let (here, world) = step-own k c.n_groups t p (f t.mem) t.world u (rw e refl) in
      later p t (
        leaves (f t.mem) (Reached-step r p) p h u here (tok.1 t.mem) pos
          (ap (λ w. w.sems.value 1) world ∙ taken))
  leaves (write g q) {t} r p h u e tok pos taken =
      let (here, world) =
        step-own k c.n_groups t p q (record t.world { mem = g t.mem }) u (rw e refl) in
      later p t
        (leaves q (Reached-step r p) p h u here tok.1 pos (ap (λ w. w.sems.value 1) world ∙ taken))
  leaves (save q) {t} r p h u e tok pos taken =
      let (here, world) =
        step-own k c.n_groups t p q
          (record t.world { log = t.log ++ (t.mem ∷ []); tries = suc t.tries }) u
          (rw (e, works t.tries) refl) in
      later p t
        (leaves q (Reached-step r p) p h u here tok.1 pos (ap (λ w. w.sems.value 1) world ∙ taken))
  leaves exited r p h u e tok pos taken = absurd (no_process_exits law c few works r p u e)
  leaves fault {t} r p h u e tok pos taken =
      let w = only_waiter law c few r p u e in (0, inr (w, subst (λ x. t.procs x ≡ fault) w e))
  leaves spinning r p h u e tok pos taken = absurd (omega arith)

  -- With at most MAXGROUPS groups, a kernel that keeps its promises, and a log that can be opened and
  -- closed by every call of saveState, in every system that is reached while the mutex is 0: there is a
  -- process of the restaurant that raises it to 1 by some number of turns of its own, waiting for nobody,
  -- or the waiter, which goes out of an array before it has.
  pub region_is_left :
      {t : System}
      → Reached k c t
      → t.sems.value 1 ≡ 0
      → (p : Pid) × (is_pid c.n_groups p ≡ true) × (m : ℕ) × LeavesAfter p t m
  unfolding total
  region_is_left {t} r taken =
      let b = Reached-Balanced law c few mutex_parts r in
      let (p, u, pos) =
        someone c.n_groups b.held
          (omega (arith, b.sum, taken, total-eq_zero c.n_groups (λ g. 0) (λ g. refl))) in
      let (m, l) = leaves (t.procs p) r p (b.held p) u refl (b.keeps p) pos taken in (p, u, m, l)
