-- ===== src/Tokens/Run.antt =====
-- Tokens over whole runs: every schedule keeps the budget, and what two processes hold at once.
use so_projeto.Prelude.{
  ℕ, ◌+◌, ◌≤◌, ◌≡◌, subst, true, false, List, [], ◌∷◌, inl, inr, total-update, le-total,
  add-le-total, Bool-cases, arith,
}
use so_projeto.Const.{max_groups}
use so_projeto.Semaphore.{Kernel, IsKernel}
use so_projeto.Process.{Proc}
use so_projeto.System.{
  Pid, group, waiter, chef, receptionist, System, same_pid, set_at, same_pid→eq, is_pid, proc_step,
  move, step, run,
}
use so_projeto.Tokens.{Protocol, Tok, all_held, Balanced}
use so_projeto.Tokens.Step.{Advance, proc_step-Advance}

pub all_held-set :
    (n : ℕ) (h : Pid → ℕ) (p : Pid) (a : ℕ)
    → is_pid n p ≡ true
    → all_held n (set_at h p a) + h p ≡ all_held n h + a
all_held-set n h (group g) a u = ground (arith, total-update n (λ i. h (group i)) g a)
all_held-set n h waiter a u = omega arith
all_held-set n h chef a u = omega arith
all_held-set n h receptionist a u = omega arith

-- What two different processes hold is within the whole.
pub add-le-all_held :
    (n : ℕ) (h : Pid → ℕ) (p q : Pid)
    → is_pid n p ≡ true
    → is_pid n q ≡ true
    → same_pid p q ≡ false
    → h p + h q ≤ all_held n h
add-le-all_held n h (group g) (group j) u v d =
    ground (arith, add-le-total n (λ i. h (group i)) g j)
add-le-all_held n h (group g) q u v d = ground (arith, le-total n (λ i. h (group i)) g)
add-le-all_held n h p (group j) u v d = ground (arith, le-total n (λ i. h (group i)) j)
add-le-all_held n h p q u v d = ground arith

pub le-all_held : (n : ℕ) (h : Pid → ℕ) (p : Pid) → is_pid n p ≡ true → h p ≤ all_held n h
le-all_held n h (group g) u = ground (arith, le-total n (λ i. h (group i)) g)
le-all_held n h waiter u = omega arith
le-all_held n h chef u = omega arith
le-all_held n h receptionist u = omega arith

module _ {P : Protocol} {budget n : ℕ} where
  module _ {kernel : Kernel} (law : IsKernel kernel) (le : n ≤ max_groups) where
    keeps-set :
        {s : System} (b : Balanced P budget n s) (p : Pid) (c : Proc (Unit {0})) (k : ℕ)
        → Tok P p c (λ a j. P.may_rest j) k
        → (q : Pid) → Tok P q (set_at s.procs p c q) (λ a j. P.may_rest j) (set_at b.held p k q)
    keeps-set {s} b p c k h q = elim (Bool-cases (same_pid p q)) [
      | inl e ↦ rw e (subst (λ r. Tok P r c (λ a j. P.may_rest j) k) (same_pid→eq p q e) h)
      | inr e ↦ rw e (b.keeps q)
    ]

    move-Balanced :
        (s : System) (p : Pid)
        → is_pid n p ≡ true
        → Balanced P budget n s
        → Balanced P budget n (move kernel n s p)
    unfolding move
    move-Balanced s p u b =
        let a : Advance P p (b.held p) s.sems (proc_step kernel n (s.procs p) s.world) =
          proc_step-Advance P law n le p (s.procs p) s.world (b.held p) (b.keeps p) in
        record {
          held = set_at b.held p a.k';
          keeps = keeps-set b p _ a.k' a.keeps;
          sum = omega (arith, a.sum, b.sum, all_held-set n b.held p a.k' u);
        }

    pub step-Balanced :
        (s : System) (p : Pid) → Balanced P budget n s → Balanced P budget n (step kernel n s p)
    unfolding step
    step-Balanced s p b = elim (Bool-cases (is_pid n p)) [
      | inl u ↦ rw u (move-Balanced s p u b)
      | inr u ↦ rw u b
    ]

    pub run-Balanced :
        (s : System) (ps : List Pid)
        → Balanced P budget n s
        → Balanced P budget n (run kernel n s ps)
    unfolding run
    run-Balanced s [] b = b
    run-Balanced s (p ∷ ps) b = run-Balanced (step kernel n s p) ps (step-Balanced s p b)
