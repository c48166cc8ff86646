-- ===== src/Tokens/Step.antt =====
-- One step of one process neither makes nor destroys tokens.
use mathlib.Core.Path.{fun_ext}
use so_projeto.Prelude.{
  ℕ, suc, ◌+◌, ◌-◌, ◌≤◌, ◌≡◌, refl, Option, none, some, inl, inr, if◌then◌else◌, ltb, bit, update,
  total-update, total-update_of_le, Bool-cases, Option-cases, arith,
}
use so_projeto.Const.{max_groups}
use so_projeto.Semaphore.{Kernel, IsKernel, SemSet, SemResult, success, blocked, failure, ushort}
use so_projeto.Semaphore
use so_projeto.Semaphore.Laws.{IsDown-success, IsUp-success}
use so_projeto.SharedData.{SemId, sem_index}
use so_projeto.Process.{Proc, ret, down, up, read, write, save, exited, fault, spinning}
use so_projeto.System.{Pid, World, Move, proc_step, after_call}
use so_projeto.Tokens.{Protocol, Tok, counted, pool}

module _ (P : Protocol) where
  counted-update :
      (v : ℕ → ℕ) (i a j : ℕ)
      → counted P (update v i a) j ≡ update (counted P v) i (if P.counts_num i then a else 0) j
  counted-update v i a j = ground arith

  pool-update :
      (s : SemSet) (i a : ℕ)
      → pool P (record s { value = update s.value i a }) + counted P s.value i
        ≡ pool P s + (if P.counts_num i then a else 0)
  pool-update s i a = rw (fun_ext (counted-update s.value i a)) (elim (Bool-cases (ltb i 8)) [
    | inl lt ↦ total-update 8 (counted P s.value) i _ (ground arith)
    | inr ge ↦ ground (arith, P.low i, total-update_of_le 8 (counted P s.value) i 0)
  ])

  -- A move from `k` tokens and the semaphores `s`.
  pub record Advance (p : Pid) (k : ℕ) (s : SemSet) (m : Move) : Type 0 where
    pub k' : ℕ
    pub keeps : Tok P p m.0 (λ a k. P.may_rest k) k'
    pub sum : pool P m.1.sems + k' ≡ pool P s + k

  stay :
      {p : Pid} {k : ℕ} {c : Proc (Unit {0})} (w : World)
      → Tok P p c (λ a k. P.may_rest k) k
      → Advance p k w.sems (c, w)
  stay {k = k} w h = record { k' = k; keeps = h; sum = refl }

  module _ {kernel : Kernel} (law : IsKernel kernel) (n : ℕ) (le : n ≤ max_groups) (p : Pid) where
    took :
        (x : SemId) (c : Proc (Unit {0})) (w : World) (k : ℕ)
        → Tok P p (down x c) (λ a k. P.may_rest k) k
        → {i : ℕ} → sem_index n x ≡ some i
        → (r : Option SemResult) → Semaphore.sem_down kernel w.sems i ≡ r
        → Advance p k w.sems (after_call (down x c) c w r)
    took x c w k h e none er = stay w tt
    took x c w k h {i} e (some (success s')) er = record {
      k' = bit (P.counts x) + k;
      keeps = h.1;
      sum =
          let d = IsDown-success law i w.sems s' er in
          rw d.after (
            ground (
              arith,
              d.positive,
              pool-update w.sems (ushort i) (w.sems.value (ushort i) - 1),
              P.agree n x le e,
            ));
    }
    took x c w k h e (some blocked) er = stay w h
    took x c w k h e (some failure) er = stay w tt

    gave :
        (x : SemId) (c : Proc (Unit {0})) (w : World) (k : ℕ)
        → Tok P p (up x c) (λ a k. P.may_rest k) k
        → {i : ℕ} → sem_index n x ≡ some i
        → (r : Option SemResult) → Semaphore.sem_up kernel w.sems i ≡ r
        → Advance p k w.sems (after_call (up x c) c w r)
    gave x c w k h e none er = stay w tt
    gave x c w k h {i} e (some (success s')) er = record {
      k' = k - bit (P.counts x);
      keeps = h.1;
      sum =
          let d = IsUp-success law i w.sems s' er in
          rw d.after (
            ground (
              arith,
              h.0,
              pool-update w.sems (ushort i) (suc (w.sems.value (ushort i))),
              P.agree n x le e,
            ));
    }
    gave x c w k h e (some blocked) er = stay w h
    gave x c w k h e (some failure) er = stay w tt

    pub proc_step-Advance :
        (c : Proc (Unit {0})) (w : World) (k : ℕ)
        → Tok P p c (λ a k. P.may_rest k) k
        → Advance p k w.sems (proc_step kernel n c w)
    unfolding proc_step
    proc_step-Advance (ret a) w k h = stay w h
    proc_step-Advance (down x c) w k h = elim (Option-cases (sem_index n x)) [
      | inl e ↦ rw e (stay w tt)
      | inr (i, e) ↦ rw e (took x c w k h e _ refl)
    ]
    proc_step-Advance (up x c) w k h = elim (Option-cases (sem_index n x)) [
      | inl e ↦ rw e (stay w tt)
      | inr (i, e) ↦ rw e (gave x c w k h e _ refl)
    ]
    proc_step-Advance (read f) w k h = stay w (h.1 w.mem)
    proc_step-Advance (write g c) w k h = record { k' = k; keeps = h.1; sum = refl }
    proc_step-Advance (save c) w k h = elim (Bool-cases (kernel.log_works w.tries)) [
      | inl e ↦ rw e (record { k' = k; keeps = h.1; sum = refl })
      | inr e ↦ rw e (record { k' = k; keeps = tt; sum = refl })
    ]
    proc_step-Advance exited w k h = stay w tt
    proc_step-Advance fault w k h = stay w tt
    proc_step-Advance spinning w k h = stay w h
