-- ===== src/Logging/Saved.antt =====
-- The states that are saved in semaphore_restaurant fit the columns of logging.c.
use so_projeto.Prelude.{
  count, ℕ, suc, ◌+◌, ◌*◌, ◌≤◌, ◌≡◌, refl, subst, Option, none, some, List, [], ◌∷◌, ◌++◌, inl, inr,
  Bool-cases, arith,
}
use so_projeto.Const.{max_groups, toarrive}
use so_projeto.State.{FullStat}
use so_projeto.Semaphore.{Kernel, IsKernel}
use so_projeto.Process.{Proc}
use so_projeto.System.{
  Pid, receptionist, System, Config, Reached, is_pid, initial_state, initial_procs,
}
use so_projeto.Ownership.Run.{Reached-Owned}
use so_projeto.Logging.{length, save_state_line, print_header, create_log, lines_text, log_text}
use so_projeto.Logging.Digits.{length-append}
use so_projeto.Logging.Lines.{IsPrintable}
use so_projeto.Logging.Width.{line_as_wide_as_header, header_width}
use so_projeto.Logging.Small.{Small, others-Leaves}
use so_projeto.Logging.Queue.{receptionist-Owns}
use so_projeto.Tables.Safety.{Reached-Shows}
use so_projeto.System.{World, step, move, run, proc_step, on_sem}
use so_projeto.System.Start.{main-eq}
use so_projeto.Semaphore.{SemSet, SemResult, success, blocked, failure}
use so_projeto.Semaphore
use so_projeto.SharedData.{sem_index}
use so_projeto.Process.{ret, down, up, read, write, save, exited, fault, spinning}

abbrev pub All : (FullStat → Type 0) → List FullStat → Type 0
All Q [] = Unit
All Q (s ∷ ss) = Q s × All Q ss

All-append :
    (Q : FullStat → Type 0) (ss : List FullStat) (s : FullStat)
    → All Q ss
    → Q s
    → All Q (ss ++ (s ∷ []))
All-append Q [] s h q = (q, tt)
All-append Q (x ∷ ss) s h q = (h.0, All-append Q ss s h.1 q)

-- A semaphore call writes nothing to the log.
on_sem_log :
    (call : SemSet → ℕ → Option SemResult) (p q : Proc (Unit {0})) (w : World) (o : Option ℕ)
    → (on_sem call p q w o).1.log ≡ w.log
on_sem_log call p q w none = refl
on_sem_log call p q w (some i) = ground arith

module _ (Q : FullStat → Type 0) (k : Kernel) (n : ℕ) where
  -- A step saves the state as it is, or nothing.
  proc_step-All :
      (p : Proc (Unit {0})) (w : World) → Q w.mem → All Q w.log → All Q (proc_step k n p w).1.log
  unfolding proc_step
  proc_step-All (ret a) w q h = h
  proc_step-All (down i p) w q h =
      rw (on_sem_log (Semaphore.sem_down k) (down i p) p w (sem_index n i)) h
  proc_step-All (up i p) w q h = rw (on_sem_log (Semaphore.sem_up k) (up i p) p w (sem_index n i)) h
  proc_step-All (read f) w q h = h
  proc_step-All (write g p) w q h = h
  proc_step-All (save p) w q h = elim (Bool-cases (k.log_works w.tries)) [
    | inl e ↦ rw e (All-append Q w.log w.mem h q)
    | inr e ↦ rw e h
  ]
  proc_step-All exited w q h = h
  proc_step-All fault w q h = h
  proc_step-All spinning w q h = h

  step-All : (s : System) (p : Pid) → Q s.mem → All Q s.log → All Q (step k n s p).log
  unfolding step move
  step-All s p q h = elim (Bool-cases (is_pid n p)) [
    | inl here ↦ rw here (proc_step-All (s.procs p) s.world q h)
    | inr nobody ↦ rw nobody h
  ]

  run-All :
      (ps : List Pid) (s : System)
      → ((qs : List Pid) → Q (run k n s qs).mem)
      → All Q s.log
      → All Q (run k n s ps).log
  unfolding run
  run-All [] s q h = h
  run-All (p ∷ ps) s q h = run-All ps (step k n s p) (λ qs. q (p ∷ qs)) (step-All s p (q []) h)

-- What holds of the memory of every system that is reached holds of every state in the log.
pub Reached-All :
    (Q : FullStat → Type 0) {k : Kernel}
    → IsKernel k
    → (c : Config) → ((s : System) → Reached k c s → Q s.mem)
    → {t : System} → Reached k c t
    → All Q t.log
unfolding run
Reached-All Q {k} law c h r =
    subst (λ t. All Q t.log) r.ends
      (run-All Q k c.n_groups r.schedule r.start
        (λ qs. h _ (record {
          rounds = r.rounds;
          start = r.start;
          begins = r.begins;
          schedule = qs;
          ends = refl;
        }))
        (rw (main-eq law r.rounds c r.begins) (start_printed, tt)))
  where
    start_printed : Q (initial_state c)
    start_printed =
        subst (λ s. Q s.mem) (main-eq law r.rounds c r.begins)
          (h r.start (record {
            rounds = r.rounds;
            start = r.start;
            begins = r.begins;
            schedule = [];
            ends = refl;
          }))

-- A state that is saved has the number of groups, and fits the columns.
abbrev pub Fits : ℕ → FullStat → Type 0
Fits n s = (s.n_groups ≡ n) × IsPrintable s

Reached-Fits :
    {k : Kernel}
    → IsKernel k
    → (c : Config) → c.n_groups ≤ max_groups
    → (t : System) → Reached k c t
    → Fits c.n_groups t.mem
unfolding initial_state initial_procs
Reached-Fits law c le t r =
    let (v, h) = Reached-Shows law c r in
    let o =
      Reached-Owned (Small (c.n_groups * 2)) law c receptionist 0
        (record {
          chef = omega arith;
          waiter = omega arith;
          receptionist = omega arith;
          group = λ g. omega arith;
          queue = omega arith;
          bound = omega arith;
        })
        (λ rounds.
          receptionist-Owns (c.n_groups * 2) (c.n_groups * 2) (λ g. toarrive) 0 (omega arith))
        (others-Leaves (c.n_groups * 2) c.n_groups) r in
    (
      h.groups,
      record {
        chef = o.now.chef;
        waiter = o.now.waiter;
        receptionist = o.now.receptionist;
        group = λ g lt. o.now.group g;
        queue = omega (arith, o.now.queue, o.now.bound);
        table = λ g a lt e. omega (arith, h.seated.bounded g a (rw h.same at e));
      },
    )

abbrev pub IsLogged : ℕ → FullStat → Type 0
IsLogged n s = Fits n s × (length (save_state_line s) ≡ 16 + 8 * n)

length-lines_text :
    (n : ℕ) (ss : List FullStat)
    → All (IsLogged n) ss
    → length (lines_text ss) ≡ count ss * (16 + 8 * n)
length-lines_text n [] h = omega arith
length-lines_text n (s ∷ ss) h =
    omega
      (arith, length-append (save_state_line s) (lines_text ss), h.0.1, length-lines_text n ss h.1)

length-create_log : (s : FullStat) → length (create_log s) ≡ 79 + length (print_header s)
unfolding create_log
length-create_log s = omega arith

-- With at most MAXGROUPS groups and a kernel that keeps its promises, in every system that is reached,
-- every state that has been saved has that number of groups, its numbers are narrower than their
-- columns, and its line in the log has 16 characters and 8 for each group. The whole log has 79
-- characters of title and a header and a line for each state, all of that width.
pub log_fits :
    {k : Kernel}
    → IsKernel k
    → (c : Config) {t : System} → c.n_groups ≤ max_groups
    → Reached k c t
    → All (IsLogged c.n_groups) t.log
      × (length (log_text (initial_state c) t.log) ≡ 79 + suc (count t.log) * (16 + 8 * c.n_groups))
unfolding initial_state
log_fits law c {t} le r =
    let all : All (IsLogged c.n_groups) t.log =
      Reached-All (IsLogged c.n_groups) law c
        (λ s r'.
          let (e, p) = Reached-Fits law c le s r' in
          let (same, width) = line_as_wide_as_header s.mem (omega arith) p in
          ((e, p), omega (arith, same, width, e)))
        r in
    (
      all,
      omega (
        arith,
        length-append (create_log (initial_state c)) (lines_text t.log),
        length-lines_text c.n_groups t.log all,
        length-create_log (initial_state c),
        header_width (initial_state c) (omega arith),
      ),
    )
