-- ===== src/Floor/Known.antt =====
-- What the receptionist of semaphore_restaurant/src/semSharedMemReceptionist.c knows of the groups whose
-- requests it answers, and that its decisions follow from it.
use so_projeto.Prelude.{
  ℕ, ◌<◌, ◌≡◌, refl, ap, ◌∙◌, true, ◌&&◌, none, some, ◌==◌, is_some, first, first_cong, inl, inr,
  Bool-cases, arith,
}
use so_projeto.Const.{wait, attable, toarrive}
use so_projeto.State.{FullStat, Request}
use so_projeto.System.{receptionist, set_at}
use so_projeto.Receptionist.{GroupRecord, is_occupied, decide_table_or_wait, decide_next_group}
use so_projeto.Floor.{Desk, InFlight, picture}
use so_projeto.Floor.Steps.{at_own}
use so_projeto.Floor.Clerk.{clerk}
use so_projeto.Floor.Answering.{Holding, HasAsked, HasPaid}

-- The decisions look at the tables, and at the state of the groups they could seat.
table_same :
    (m s : FullStat) (g : ℕ)
    → m.n_groups ≡ s.n_groups
    → m.assigned_table ≡ s.assigned_table
    → m.st.group_stat g ≡ s.st.group_stat g
    → decide_table_or_wait m g ≡ decide_table_or_wait s g
unfolding decide_table_or_wait is_occupied
table_same m s g a b c = rw (a, b, c) refl

pub next_same :
    (rec : GroupRecord) (m s : FullStat)
    → m.n_groups ≡ s.n_groups
    → m.assigned_table ≡ s.assigned_table
    → ((g : ℕ) → g < s.n_groups → rec g ≡ wait → m.st.group_stat g ≡ s.st.group_stat g)
    → decide_next_group rec m ≡ decide_next_group rec s
unfolding decide_next_group
next_same rec m s a b c =
    ap (λ k. first k (λ g. is_some (decide_table_or_wait m g) && rec g == wait)) a
    ∙ first_cong s.n_groups _ _ (λ g lt. elim (Bool-cases (rec g == wait)) [
      | inl e ↦ ap (λ o. is_some o && rec g == wait) (table_same m s g a b (c g lt (ground arith)))
      | inr e ↦ ground arith
    ])

module _ (n : ℕ) (d : Desk) (q : Request) where
  -- The request that it has read is of a group that waits for the answer.
  pub job-HasAsked : d.rec q.req_group ≡ toarrive → Holding n d (some q) (HasAsked q.req_group)
  job-HasAsked new vs m val e i0 =
      let i = at_own vs receptionist (clerk 20 true d (some q)) e i0 in
      let (lt, v) = i.job q refl in
      (
        elim v [ inl (t, s, r) ↦ s | inr (t, s, r) ↦ absurd (ground arith) ],
        λ f. i0.distinct f q (ap (λ u. u.job) e),
      )

  pub job-HasPaid : d.rec q.req_group ≡ attable → Holding n d (some q) (HasPaid q.req_group)
  job-HasPaid sits vs m val e i0 =
      let i = at_own vs receptionist (clerk 20 true d (some q)) e i0 in
      let (lt, v) = i.job q refl in
      (
        elim v [ inl (t, s, r) ↦ absurd (ground arith) | inr (t, s, r) ↦ s ],
        λ f. i0.distinct f q (ap (λ u. u.job) e),
      )

  -- Its decision on a group that has asked.
  pub table_known :
      d.rec q.req_group ≡ toarrive
      → Holding n d (some q) (λ vs m val.
        decide_table_or_wait m q.req_group ≡ decide_table_or_wait (picture n d) q.req_group)
  table_known new vs m val e i0 =
      let i = at_own vs receptionist (clerk 20 true d (some q)) e i0 in
      let (lt, v) = i.job q refl in
      let (at, apart) = job-HasAsked new vs m val e i0 in
      table_same m (picture n d) q.req_group i.groups i.tables
        ((i.member q.req_group lt).here (omega arith) (omega arith))

module _ (n : ℕ) (d : Desk) where
  -- A group that it has sent to wait is at the reception, and has no request on its way.
  pub wait-HasAsked : (g : ℕ) → g < n → d.rec g ≡ wait → Holding n d none (HasAsked g)
  wait-HasAsked g lt w vs m val e i0 =
      let i = at_own vs receptionist (clerk 20 true d none) e i0 in
      (
        (i.member g lt).waits w,
        λ f same.
            let f' : InFlight (set_at vs receptionist (clerk 20 true d none)) val = elim f [
              | inl x ↦ inl x
              | inr x ↦ absurd (ground arith)
            ] in
            let (lq, v) = i.flight f' in
            elim v [
              | inl (t, s, r) ↦ absurd (ground arith)
              | inr (t, s, r) ↦ absurd (ground arith)
            ],
      )

  pub next_known :
      Holding n d none
        (λ vs m val. decide_next_group d.rec m ≡ decide_next_group d.rec (picture n d))
  next_known vs m val e i0 =
      let i = at_own vs receptionist (clerk 20 true d none) e i0 in
      next_same d.rec m (picture n d) i.groups i.tables (λ g lt w.
        let o = i.member g lt in o.here (omega (arith, o.waits w)) (omega (arith, o.waits w)))
