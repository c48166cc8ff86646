-- ===== src/Floor/Telling.antt =====
-- How the receptionist of semaphore_restaurant/src/semSharedMemReceptionist.c calls a group that waits.
use so_projeto.Prelude.{
  ℕ, suc, ◌+◌, ◌-◌, ◌≤◌, ◌<◌, ◌≡◌, ap, true, none, some, inl, inr, ◌==◌, update, Bool-cases, arith,
}
use so_projeto.Const.{max_groups, attable}
use so_projeto.State.{set_groups_waiting}
use so_projeto.SharedData.{wait_for_table, sem_index}
use so_projeto.Process.{Proc, up, write}
use so_projeto.System.{receptionist}
use so_projeto.Ghost.{Ok, Numbered}
use so_projeto.Floor.{View, Desk}
use so_projeto.Floor.Locks.{keep}
use so_projeto.Floor.Steps.{floor, at_own}
use so_projeto.Floor.Clerk.{clerk}

module _ (n : ℕ) {A : Type 0} (c : Proc A) (Q : A → View → Type 0) (d : Desk) where
  pub uncounts :
      Ok (floor n) receptionist c Q (clerk 20 true (record d { waiting = d.waiting - 1 }) none)
      → Ok
          (floor n)
          receptionist
          (write (λ s. set_groups_waiting (s.groups_waiting - 1) s) c)
          Q
          (clerk 20 true d none)
  unfolding Ok
  uncounts h = λ vs m val e i0.
      let d' : Desk = record d { waiting = d.waiting - 1 } in
      let u = clerk 20 true d' none in
      let i = at_own vs receptionist (clerk 20 true d none) e i0 in
      (
        u,
        record {
          region = keep i0.region receptionist u (λ t. ap (λ u. u.inside) e);
          token = keep i0.token receptionist u (λ t. ground arith);
          groups = i.groups;
          tables = i.tables;
          waiting = ap (λ k. k - 1) i.waiting;
          bounded = i.bounded;
          range = i.range;
          settled = λ a. absurd (ground arith);
          flight = i.flight;
          distinct = i.distinct;
          job = i.job;
          target = i.target;
          empty = i.empty;
          member = i.member;
        },
        h,
      )

  wait-Numbered : (g : ℕ) → g < n → n ≤ max_groups → Numbered n (wait_for_table g) (8 + g)
  unfolding sem_index
  wait-Numbered g lt few = record {
    number = ground arith;
    small = ground arith;
    positive = ground arith;
    below = ground arith;
  }

  -- The group has a table, and is told.
  pub tells :
      (g t : ℕ)
      → n ≤ max_groups
      → g < n
      → d.rec g ≡ attable
      → d.tables g ≡ some t
      → Ok (floor n) receptionist c Q (clerk 20 true d none)
      → Ok (floor n) receptionist (up (wait_for_table g) c) Q (clerk 20 true d none)
  unfolding Ok
  tells g t few lt at has h = (
    8 + g,
    wait-Numbered g lt few,
    λ vs m val e i0.
        let u = clerk 20 true d none in
        let i = at_own vs receptionist u e i0 in
        let val' = update val (8 + g) (suc (val (8 + g))) in
        let low : (k : ℕ) → k < 8 → val' k ≡ val k = λ k lk. ground arith in
        (
          u,
          record {
            region = rw (low 1 (omega arith)) i.region;
            token = rw (low 2 (omega arith), low 3 (omega arith)) i.token;
            groups = i.groups;
            tables = i.tables;
            waiting = i.waiting;
            bounded = i.bounded;
            range = i.range;
            settled = i.settled;
            flight = rw (low 2 (omega arith)) i.flight;
            distinct = rw (low 2 (omega arith)) i.distinct;
            job = i.job;
            target = i.target;
            empty = i.empty;
            member = λ x lx.
                let o = i.member x lx in
                elim (Bool-cases (g == x)) [
                  | inl y ↦ record {
                    before = λ a. absurd (ground (arith, o.before));
                    called = λ a b. (ground arith, ground arith);
                    sits = o.sits;
                    pays = o.pays;
                    waits = o.waits;
                    home = o.home;
                    here = o.here;
                    asks = o.asks;
                    bills = o.bills;
                    over = o.over;
                  }
                  | inr y ↦ let same : val' (8 + x) ≡ val (8 + x) = ground arith in rw same o
                ];
          },
          h,
        ),
  )
