-- ===== src/Floor/Safety.antt =====
-- What holds in every system that is reached: the requests to the receptionist are met in order, and
-- nobody who relies on them goes out of an array.
use so_projeto.Prelude.{
  ℕ, ◌+◌, ◌*◌, ◌≤◌, ◌<◌, ◌≡◌, ◌≢◌, refl, sym, subst, true, false, ◌||◌, none, inl, inr, ◌==◌, bit,
  total-eq_zero, arith,
}
use so_projeto.Const.{max_groups, toarrive}
use so_projeto.Semaphore.{Kernel, IsKernel, sem_create}
use so_projeto.SharedData.{sem_nu}
use so_projeto.Process.{exited, fault}
use so_projeto.Group.{group_main}
use so_projeto.Chef.{chef_main, chef_loop}
use so_projeto.Waiter.{waiter_loop}
use so_projeto.Hall.Day.{elsewhere-IsDesk, opens-IsDesk}
use so_projeto.System.{
  Pid, group, waiter, chef, receptionist, System, Config, Reached, is_pid, first_system,
  initial_state, initial_procs,
}
use so_projeto.System.Start.{opened, opened_value, main-eq}
use so_projeto.Ghost.{Ok, Kept}
use so_projeto.Ghost.Bind.{Ok-weaken}
use so_projeto.Ghost.Run.{LogFails, run-Kept}
use so_projeto.Room.Run.{Reached-IsRoomy}
use so_projeto.Floor.{View, Desk, Floor, picture, has_token}
use so_projeto.Floor.Steps.{floor, MayFault, Ends}
use so_projeto.Floor.Tally.{share, answers}
use so_projeto.Floor.Moves.{at}
use so_projeto.Floor.Staff.{staff}
use so_projeto.Floor.Clerk.{clerk}
use so_projeto.Floor.Life.{AtStage, group_main-Ok}
use so_projeto.Floor.Service.{IsOut, waiter_loop-Ok, chef_loop-Ok}
use so_projeto.Floor.Payments.{receptionist_loop-Ok}

abbrev first_desk : Desk
first_desk = record { rec = λ g. toarrive; tables = λ g. none; waiting = 0 }

abbrev first_view : Pid → View
first_view (group g) = at 0 false
first_view waiter = staff false none
first_view chef = staff false none
first_view receptionist = clerk 20 false first_desk none

nobody_inside : (p : Pid) → (first_view p).inside ≡ false
nobody_inside p = ground arith

no_token : (p : Pid) → has_token (first_view p).stage ≡ false
no_token p = ground arith

first_Floor :
    (c : Config) (val : ℕ → ℕ)
    → ((i : ℕ) → val i ≡ bit ((i == 1) || (i == 3) || (i == 5)))
    → Floor c.n_groups first_view (initial_state c) val
unfolding initial_state
first_Floor c val v = record {
  region = record {
    most = ground (arith, v 1);
    free = λ p lt. nobody_inside p;
    alone = λ p q a b. absurd (ground (arith, nobody_inside p));
  };
  token = record {
    most = ground (arith, v 2, v 3);
    free = λ p lt. no_token p;
    alone = λ p q a b. absurd (ground (arith, no_token p));
  };
  groups = refl;
  tables = refl;
  waiting = refl;
  bounded = λ g t e. absurd (ground arith);
  range = λ g. omega arith;
  settled = λ e.
      elsewhere-IsDesk (λ g. toarrive) (initial_state c) (picture c.n_groups first_desk)
        (record {
          same_tables = refl;
          same_groups = refl;
          same_waiting = refl;
          still_there = λ g lt w x. refl;
        })
        (opens-IsDesk c);
  flight = λ f. elim f [ inl lt ↦ absurd (ground (arith, v 2)) | inr e ↦ absurd (ground arith) ];
  distinct = λ f q e. absurd (ground arith);
  job = λ q e. absurd (ground arith);
  target = λ g e. absurd (ground arith);
  empty = λ g le. refl;
  member = λ g lt. record {
    before = λ a. (refl, ground (arith, v (8 + g)));
    called = λ a b. absurd (ground arith);
    sits = λ a b. absurd (ground arith);
    pays = λ a b. absurd (ground arith);
    waits = λ a. absurd (ground arith);
    home = λ a. refl;
    here = λ a b. absurd (ground arith);
    asks = λ a. absurd (ground arith);
    bills = λ a. absurd (ground arith);
    over = λ a. absurd (ground arith);
  };
}

none_answered : (n : ℕ) → answers n (λ g. toarrive) ≡ 0
unfolding answers
none_answered n = total-eq_zero n (λ g. share toarrive) (λ g. refl)

first_Ok :
    (rounds n : ℕ)
    → n ≤ max_groups
    → (p : Pid) → is_pid n p ≡ true
    → Ok (floor n) p (initial_procs rounds n p) (λ a u. Ends n p u) (first_view p)
unfolding initial_procs chef_main
first_Ok rounds n few (group g) u =
    Ok-weaken (floor n) (group g) (group_main g) (AtStage 9) _ (at 0 false) (λ a v h. tt)
      (group_main-Ok n g (ground arith) few)
first_Ok rounds n few waiter u =
    Ok-weaken (floor n) waiter (waiter_loop rounds (n * 2)) IsOut _ (staff false none) (λ a v h. tt)
      (waiter_loop-Ok n few rounds (n * 2) none)
first_Ok rounds n few chef u =
    Ok-weaken (floor n) chef (chef_loop n) (λ a u. u ≡ staff false none) _ (staff false none)
      (λ a v h. tt) (chef_loop-Ok n few n)
first_Ok rounds n few receptionist u =
    receptionist_loop-Ok n few (n * 2) first_desk (omega (arith, none_answered n))

module _ {k : Kernel} (law : IsKernel k) (c : Config) (few : c.n_groups ≤ max_groups) where
  first_Kept :
      (rounds : ℕ) {s : System}
      → s ≡ first_system rounds c (opened (sem_create k (sem_nu c.n_groups)))
      → Kept (floor c.n_groups) (LogFails k) s
  first_Kept rounds e = subst (Kept (floor c.n_groups) (LogFails k)) (sym e) (record {
    views = first_view;
    now = first_Floor c _ (opened_value law c.n_groups);
    each = λ p u. inr (first_Ok rounds c.n_groups few p u);
  })

  pub Reached-Kept : {t : System} → Reached k c t → Kept (floor c.n_groups) (LogFails k) t
  Reached-Kept r = subst (Kept (floor c.n_groups) (LogFails k)) r.ends (
      run-Kept (floor c.n_groups) law r.start r.schedule
        (λ qs. Reached-IsRoomy law c few (record {
          rounds = r.rounds;
          start = r.start;
          begins = r.begins;
          schedule = qs;
          ends = refl;
        }))
        (first_Kept r.rounds (main-eq law r.rounds c r.begins)))

  -- What is left of a process that has not exited.
  pub each_Ok :
      {t : System} (r : Reached k c t) (p : Pid)
      → is_pid c.n_groups p ≡ true
      → t.procs p ≢ exited
      → Ok (floor c.n_groups) p (t.procs p) (λ a u. Ends c.n_groups p u) ((Reached-Kept r).views p)
  each_Ok r p u ne = elim ((Reached-Kept r).each p u) [ inl (e, f) ↦ absurd (ne e) | inr o ↦ o ]

  no_fault :
      {t : System} (r : Reached k c t) (p : Pid)
      → is_pid c.n_groups p ≡ true
      → ¬ MayFault p
      → t.procs p ≢ fault
  unfolding Ok
  no_fault r p u safe e = safe (
      subst (λ x. Ok (floor c.n_groups) p x (λ a u. Ends c.n_groups p u) ((Reached-Kept r).views p))
        e (each_Ok r p u λ e'. cc))

  pub chef_in_range : {t : System} → Reached k c t → t.procs chef ≢ fault
  chef_in_range r = no_fault r chef refl (λ h. h)

  -- With at most MAXGROUPS groups and a kernel that keeps its promises, in every system that is reached
  -- neither the receptionist nor a group has gone out of an array: the table of a group that orders,
  -- waits for food, or pays is never -1 when the group or the receptionist uses it as an index.
  pub no_table_missing :
      {t : System}
      → Reached k c t
      → (t.procs receptionist ≢ fault) × ((g : ℕ) → g < c.n_groups → t.procs (group g) ≢ fault)
  unfolding Ok
  no_table_missing r =
      (no_fault r receptionist refl (λ h. h), λ g lt. no_fault r (group g) (ground arith) (λ h. h))

  -- With at most MAXGROUPS groups, a kernel that keeps its promises, and a log that can be opened and
  -- closed by every call of saveState, in every system that is reached no process has exited: no call of
  -- semDown or semUp has failed, and no group was refused.
  pub no_process_exits :
      ((i : ℕ) → k.log_works i ≡ true)
      → {t : System} → Reached k c t
      → (p : Pid) → is_pid c.n_groups p ≡ true
      → t.procs p ≢ exited
  unfolding Ok
  no_process_exits works r p u e = elim ((Reached-Kept r).each p u) [
    | inl (e', (i, fails)) ↦ absurd (let w = works i in cc)
    | inr o ↦
        subst
          (λ x. Ok (floor c.n_groups) p x (λ a u. Ends c.n_groups p u) ((Reached-Kept r).views p)) e
          o
  ]
