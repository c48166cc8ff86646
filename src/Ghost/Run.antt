-- ===== src/Ghost/Run.antt =====
-- The invariant of all processes holds after every schedule.
use so_projeto.Prelude.{
  ◌⊎◌, false, ℕ, suc, ◌-◌, ◌<◌, ◌≡◌, ◌≢◌, refl, sym, true, Option, none, some, List, [], ◌∷◌, inl,
  inr, subst, ap, ◌∙◌, update, Bool-cases, arith,
}
use so_projeto.Semaphore.{Kernel, IsKernel, SemSet, SemResult, success, blocked, failure, ushort}
use so_projeto.Semaphore
use so_projeto.Semaphore.Laws.{IsDown-success, IsUp-success, sem_down_works, sem_up_works}
use so_projeto.SharedData.{SemId, sem_index}
use so_projeto.Process.{Proc, ret, down, up, read, write, save, exited, fault, spinning}
use so_projeto.System.{
  Pid, World, System, Move, set_at, same_pid, same_pid→eq, is_pid, after_call, proc_step, move,
  step, run,
}
use so_projeto.Room.{IsRoomy}
use so_projeto.Ghost.{Contract, Numbered, Ok, Kept}
use mathlib.Core.Path.{fun_ext}

-- Some call of saveState finds that the log cannot be opened or closed.
abbrev pub LogFails : Kernel → Type 0
LogFails k = (i : ℕ) × (k.log_works i ≡ false)

module _ {V : Type 0} (C : Contract V) {k : Kernel} (law : IsKernel k) where
  -- One move of the process `p`, with the views before it.
  record Moved (p : Pid) (vs : Pid → V) (m : Move) : Type 0 where
    pub view : V
    pub now : C.inv (set_at vs p view) m.1.mem m.1.sems.value
    pub rest : ((m.0 ≡ exited) × LogFails k) ⊎ Ok C p m.0 (λ a u. C.ends p u) view

  own_view : (vs : Pid → V) (p q : Pid) → set_at vs p (vs p) q ≡ vs q
  own_view vs p q = elim (Bool-cases (same_pid p q)) [
    | inl e ↦ rw e (ap vs (same_pid→eq p q e))
    | inr e ↦ rw e refl
  ]

  unmoved :
      (p : Pid) (vs : Pid → V) (w : World)
      → C.inv vs w.mem w.sems.value
      → C.inv (set_at vs p (vs p)) w.mem w.sems.value
  unmoved p vs w i = subst (λ v. C.inv v w.mem w.sems.value) (sym (fun_ext (own_view vs p))) i

  stays :
      (p : Pid) (vs : Pid → V) (c : Proc (Unit {0})) (w : World)
      → C.inv vs w.mem w.sems.value
      → Ok C p c (λ a u. C.ends p u) (vs p)
      → Moved p vs (c, w)
  unfolding Ok
  stays p vs c w i h = record { view = vs p; now = unmoved p vs w i; rest = inr h }

  -- The values after a call that succeeds, by the number that the field holds.
  lowered :
      (s s' : SemSet) (j : ℕ)
      → ushort j ≡ j
      → s' ≡ record s { value = update s.value (ushort j) (s.value (ushort j) - 1) }
      → s'.value ≡ update s.value j (s.value j - 1)
  lowered s s' j e a = ap (λ x. x.value) a ∙ ap (λ i. update s.value i (s.value i - 1)) e

  raised :
      (s s' : SemSet) (j : ℕ)
      → ushort j ≡ j
      → s' ≡ record s { value = update s.value (ushort j) (suc (s.value (ushort j))) }
      → s'.value ≡ update s.value j (suc (s.value j))
  raised s s' j e a = ap (λ x. x.value) a ∙ ap (λ i. update s.value i (suc (s.value i))) e

  module _ (p : Pid) (vs : Pid → V) (w : World) (i : C.inv vs w.mem w.sems.value)
      (roomy : IsRoomy C.groups w.sems) where
    abbrev Rest : Proc (Unit {0}) → V → Type 0
    Rest c u = Ok C p c (λ a u. C.ends p u) u

    took_works :
        (x : SemId) (j' j : ℕ)
        → sem_index C.groups x ≡ some j
        → Numbered C.groups x j'
        → (r : Option SemResult) → Semaphore.sem_down k w.sems j ≡ r
        → (r ≢ none) × (r ≢ some failure)
    took_works x j' j e e' r er =
        let same : j' ≡ j = cc (e'.number) in
        let small : ushort j ≡ j = subst (λ a. ushort a ≡ a) same e'.small in
        let pos : 0 < j = omega (arith, e'.positive, same) in
        let lt : j < w.sems.size = omega (arith, e'.below, same, roomy.size) in
        sem_down_works law j w.sems r pos small lt er

    took :
        (x : SemId) (c : Proc (Unit {0}))
        → Rest (down x c) (vs p)
        → (r : Option SemResult) (j : ℕ) → sem_index C.groups x ≡ some j
        → Semaphore.sem_down k w.sems j ≡ r
        → Moved p vs (after_call (down x c) c w r)
    unfolding Ok
    took x c (j', e', t) none j e er = absurd ((took_works x j' j e e' none er).0 refl)
    took x c (j', e', t) (some (success s)) j e er =
        let same : j' ≡ j = cc (e'.number) in
        let d = IsDown-success law j w.sems s er in
        let small : ushort j ≡ j = subst (λ a. ushort a ≡ a) same e'.small in
        let pos : 0 < w.sems.value j' =
          subst (λ a. 0 < w.sems.value a) (small ∙ sym same) d.positive in
        let (u, i', g) = t vs w.mem w.sems.value refl i pos in
        record {
          view = u;
          now =
              subst (C.inv (set_at vs p u) w.mem)
                (sym (
                  lowered w.sems s j small d.after
                  ∙ ap (λ a. update w.sems.value a (w.sems.value a - 1)) (sym same)))
                i';
          rest = inr g;
        }
    took x c h (some blocked) j e er = stays p vs (down x c) w i h
    took x c (j', e', t) (some failure) j e er =
        absurd ((took_works x j' j e e' (some failure) er).1 refl)

    gave_works :
        (x : SemId) (j' j : ℕ)
        → sem_index C.groups x ≡ some j
        → Numbered C.groups x j'
        → (r : Option SemResult) → Semaphore.sem_up k w.sems j ≡ r
        → (r ≢ none) × (r ≢ some failure)
    gave_works x j' j e e' r er =
        let same : j' ≡ j = cc (e'.number) in
        let small : ushort j ≡ j = subst (λ a. ushort a ≡ a) same e'.small in
        let pos : 0 < j = omega (arith, e'.positive, same) in
        let lt : j < w.sems.size = omega (arith, e'.below, same, roomy.size) in
        sem_up_works law j w.sems r pos small lt (roomy.room j) er

    gave :
        (x : SemId) (c : Proc (Unit {0}))
        → Rest (up x c) (vs p)
        → (r : Option SemResult) (j : ℕ) → sem_index C.groups x ≡ some j
        → Semaphore.sem_up k w.sems j ≡ r
        → Moved p vs (after_call (up x c) c w r)
    unfolding Ok
    gave x c (j', e', t) none j e er = absurd ((gave_works x j' j e e' none er).0 refl)
    gave x c (j', e', t) (some (success s)) j e er =
        let same : j' ≡ j = cc (e'.number) in
        let d = IsUp-success law j w.sems s er in
        let small : ushort j ≡ j = subst (λ a. ushort a ≡ a) same e'.small in
        let (u, i', g) = t vs w.mem w.sems.value refl i in
        record {
          view = u;
          now =
              subst (C.inv (set_at vs p u) w.mem)
                (sym (
                  raised w.sems s j small d.after
                  ∙ ap (λ a. update w.sems.value a (suc (w.sems.value a))) (sym same)))
                i';
          rest = inr g;
        }
    gave x c h (some blocked) j e er = stays p vs (up x c) w i h
    gave x c (j', e', t) (some failure) j e er =
        absurd ((gave_works x j' j e e' (some failure) er).1 refl)

    proc_step-Moved : (c : Proc (Unit {0})) → Rest c (vs p) → Moved p vs (proc_step k C.groups c w)
    unfolding proc_step Ok
    proc_step-Moved (ret a) h = stays p vs (ret a) w i h
    proc_step-Moved (down x c) (j, e, t) =
        rw e.number (took x c (j, e, t) (Semaphore.sem_down k w.sems j) j e.number refl)
    proc_step-Moved (up x c) (j, e, t) =
        rw e.number (gave x c (j, e, t) (Semaphore.sem_up k w.sems j) j e.number refl)
    proc_step-Moved (read f) h =
        let (u, i', g) = h vs w.mem w.sems.value refl i in
        record { view = u; now = i'; rest = inr g }
    proc_step-Moved (write g c) h =
        let (u, i', t) = h vs w.mem w.sems.value refl i in
        record { view = u; now = i'; rest = inr t }
    proc_step-Moved (save c) h = elim (Bool-cases (k.log_works w.tries)) [
      | inl e ↦ rw e (record { view = vs p; now = unmoved p vs w i; rest = inr h })
      | inr e ↦
          rw e (record { view = vs p; now = unmoved p vs w i; rest = inl (refl, (w.tries, e)) })
    ]
    proc_step-Moved exited h = absurd h
    proc_step-Moved fault h = stays p vs fault w i h
    proc_step-Moved spinning h = stays p vs spinning w i h

  -- A process that has exited stays where it is.
  stopped :
      (p : Pid) (vs : Pid → V) (w : World) (c : Proc (Unit {0}))
      → C.inv vs w.mem w.sems.value
      → c ≡ exited
      → LogFails k
      → Moved p vs (proc_step k C.groups c w)
  unfolding proc_step
  stopped p vs w c i e f =
      rw e (record { view = vs p; now = unmoved p vs w i; rest = inl (refl, f) })

  moved :
      (s : System) (p : Pid)
      → is_pid C.groups p ≡ true
      → IsRoomy C.groups s.sems
      → (h : Kept C (LogFails k) s) → Moved p h.views (proc_step k C.groups (s.procs p) s.world)
  moved s p u roomy h = elim (h.each p u) [
    | inl (e, f) ↦ stopped p h.views s.world (s.procs p) h.now e f
    | inr o ↦ proc_step-Moved p h.views s.world h.now roomy (s.procs p) o
  ]

  abbrev Going : Pid → V → Proc (Unit {0}) → Type 0
  Going p v c = ((c ≡ exited) × LogFails k) ⊎ Ok C p c (λ a u. C.ends p u) v

  move-Kept :
      (s : System) (p : Pid)
      → is_pid C.groups p ≡ true
      → IsRoomy C.groups s.sems
      → Kept C (LogFails k) s
      → Kept C (LogFails k) (move k C.groups s p)
  unfolding move
  move-Kept s p u roomy h =
      let m = moved s p u roomy h in
      record {
        views = set_at h.views p m.view;
        now = m.now;
        each = λ q v. elim (Bool-cases (same_pid p q)) [
          | inl e ↦ rw e (
              subst (λ r. Going r m.view (proc_step k C.groups (s.procs p) s.world).0)
                (same_pid→eq p q e) m.rest)
          | inr e ↦ rw e (h.each q v)
        ];
      }

  step-Kept :
      (s : System) (p : Pid)
      → IsRoomy C.groups s.sems
      → Kept C (LogFails k) s
      → Kept C (LogFails k) (step k C.groups s p)
  unfolding step
  step-Kept s p roomy h = elim (Bool-cases (is_pid C.groups p)) [
    | inl u ↦ rw u (move-Kept s p u roomy h)
    | inr u ↦ rw u h
  ]

  pub run-Kept :
      (s : System) (ps : List Pid)
      → ((qs : List Pid) → IsRoomy C.groups (run k C.groups s qs).sems)
      → Kept C (LogFails k) s
      → Kept C (LogFails k) (run k C.groups s ps)
  unfolding run
  run-Kept s [] roomy h = h
  run-Kept s (p ∷ ps) roomy h =
      run-Kept (step k C.groups s p) ps (λ qs. roomy (p ∷ qs)) (step-Kept s p (roomy []) h)
