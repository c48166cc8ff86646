-- ===== src/Floor/Closing.antt =====
-- What the memory shows once the receptionist of semaphore_restaurant/src has come to its end.
use so_projeto.Prelude.{
  ℕ, ◌≤◌, ◌<◌, ◌≡◌, refl, sym, ap, ◌∙◌, subst, false, none, inl, inr, ltb, Bool-cases, Option-cases,
  arith,
}
use so_projeto.Const.{max_groups, done}
use so_projeto.State.{FullStat}
use so_projeto.Semaphore.{Kernel, IsKernel}
use so_projeto.Process.{ret}
use so_projeto.Reception.{waiting_groups_some}
use so_projeto.System.{Pid, receptionist, System, Config, Reached}
use so_projeto.Ghost.{Ok}
use so_projeto.Floor.{View, Floor}
use so_projeto.Floor.Steps.{floor, Ends}
use so_projeto.Floor.Safety.{Reached-Kept, each_Ok}

module _ {n : ℕ} {vs : Pid → View} {m : FullStat} {val : ℕ → ℕ} (i : Floor n vs m val)
    (out : (vs receptionist).inside ≡ false)
    (all_done : (g : ℕ) → g < n → (vs receptionist).desk.rec g ≡ done) where
  all_vacant : (g : ℕ) → g < n → m.assigned_table g ≡ none
  all_vacant g lt = elim (Option-cases (m.assigned_table g)) [
    | inl e ↦ e
    | inr (t, e) ↦ absurd (
        ground (
          arith,
          all_done g lt,
          (i.settled out).recorded g t lt (ap (λ a. a g) (sym i.tables) ∙ e),
        ))
  ]

  nobody_queued : m.groups_waiting ≡ 0
  nobody_queued = elim (Bool-cases (ltb 0 m.groups_waiting)) [
    | inl some_wait ↦
        let (g, lt, e) =
          waiting_groups_some n (vs receptionist).desk.rec
            (ground (arith, (i.settled out).counted, i.waiting)) in
        absurd (ground (arith, all_done g lt))
    | inr none_wait ↦ ground arith
  ]

  nothing_asked : val 2 ≡ 0
  nothing_asked = elim (Bool-cases (ltb 0 (val 2))) [
    | inl asked ↦
        let (lt, q) = i.flight (inl (ground arith)) in
        absurd (elim q [
          | inl (e, s, r) ↦ ground (arith, all_done m.receptionist_request.req_group lt)
          | inr (e, s, r) ↦ ground (arith, all_done m.receptionist_request.req_group lt)
        ])
    | inr nothing ↦ ground arith
  ]

module _ {k : Kernel} (law : IsKernel k) (c : Config) (few : c.n_groups ≤ max_groups) where
  -- With at most MAXGROUPS groups and a kernel that keeps its promises, in every system that is reached
  -- in which the receptionist has come to its end: no group has a table, groupsWaiting is 0, and no
  -- request to the receptionist is signalled that nobody will take up.
  pub receptionist_leaves_nothing :
      {t : System}
      → Reached k c t
      → t.procs receptionist ≡ ret tt
      → ((g : ℕ) → g < c.n_groups → t.mem.assigned_table g ≡ none)
        × (t.mem.groups_waiting ≡ 0)
        × (t.sems.value 2 ≡ 0)
  unfolding Ok
  receptionist_leaves_nothing r e =
      let h = Reached-Kept law c few r in
      let (out, all) =
        subst
          (λ x.
            Ok (floor c.n_groups) receptionist x (λ a u. Ends c.n_groups receptionist u)
              (h.views receptionist))
          e (each_Ok law c few r receptionist refl (λ e'. cc)) in
      (all_vacant h.now out all, nobody_queued h.now out all, nothing_asked h.now out all)
