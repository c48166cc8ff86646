-- ===== src/Floor/Staff.antt =====
-- What the waiter and the chef of semaphore_restaurant/src may change in what all know.
use so_projeto.Prelude.{
  ℕ, ◌+◌, ◌≤◌, ◌<◌, ◌≡◌, ◌⊎◌, Bool, false, Option, none, some, inl, inr, ◌==◌, ltb, update,
  Bool-cases, arith,
}
use so_projeto.Const.{food_request, wait_for_food}
use so_projeto.State.{FullStat, set_group_stat}
use so_projeto.System.{Pid, group, waiter, chef, set_at}
use so_projeto.Floor.{View, Lock, Floor, has_token}
use so_projeto.Floor.Locks.{keep}
use so_projeto.Floor.Moves.{no_desk}

-- The chef, or the waiter, and what the waiter has found.
abbrev pub staff : Bool → Option ℕ → View
staff b o = record { stage = 30; inside = b; desk = no_desk; job = none; target = o }

module _ {n : ℕ} {vs : Pid → View} {m : FullStat} {val : ℕ → ℕ} (i : Floor n vs m val) where
  pub chef_moves :
      (u : View) (v : ℕ)
      → Lock (λ u. u.inside) (set_at vs chef u) v
      → has_token u.stage ≡ false
      → Floor n (set_at vs chef u) m (update val 1 v)
  chef_moves u v l t = record {
    region = l;
    token = keep i.token chef u (λ h. ground arith);
    groups = i.groups;
    tables = i.tables;
    waiting = i.waiting;
    bounded = i.bounded;
    range = i.range;
    settled = i.settled;
    flight = i.flight;
    distinct = i.distinct;
    job = i.job;
    target = i.target;
    empty = i.empty;
    member = λ g lt.
        let same : update val 1 v (8 + g) ≡ val (8 + g) = ground arith in rw same (i.member g lt);
  }

  pub waiter_views :
      (u : View)
      → Lock (λ u. u.inside) (set_at vs waiter u) (val 1)
      → has_token u.stage ≡ false
      → ((g : ℕ) → u.target ≡ some g → (g < n) × (5 ≤ (vs (group g)).stage))
      → Floor n (set_at vs waiter u) m val
  waiter_views u l t found = record {
    region = l;
    token = keep i.token waiter u (λ h. ground arith);
    groups = i.groups;
    tables = i.tables;
    waiting = i.waiting;
    bounded = i.bounded;
    range = i.range;
    settled = i.settled;
    flight = i.flight;
    distinct = i.distinct;
    job = i.job;
    target = found;
    empty = i.empty;
    member = i.member;
  }

  pub waiter_moves :
      (u : View) (v : ℕ)
      → Lock (λ u. u.inside) (set_at vs waiter u) v
      → has_token u.stage ≡ false
      → ((g : ℕ) → u.target ≡ some g → (g < n) × (5 ≤ (vs (group g)).stage))
      → Floor n (set_at vs waiter u) m (update val 1 v)
  waiter_moves u v l t found = record {
    region = l;
    token = keep i.token waiter u (λ h. ground arith);
    groups = i.groups;
    tables = i.tables;
    waiting = i.waiting;
    bounded = i.bounded;
    range = i.range;
    settled = i.settled;
    flight = i.flight;
    distinct = i.distinct;
    job = i.job;
    target = found;
    empty = i.empty;
    member = λ g lt.
        let same : update val 1 v (8 + g) ≡ val (8 + g) = ground arith in rw same (i.member g lt);
  }

  -- The waiter writes the state of a group that sits, or has sat.
  pub served : (g v : ℕ) → g < n → 5 ≤ (vs (group g)).stage → Floor n vs (set_group_stat g v m) val
  served g v lt late = record {
    region = i.region;
    token = i.token;
    groups = i.groups;
    tables = i.tables;
    waiting = i.waiting;
    bounded = i.bounded;
    range = i.range;
    settled = i.settled;
    flight = i.flight;
    distinct = i.distinct;
    job = i.job;
    target = i.target;
    empty = λ h le. let d : g == h ≡ false = ground arith in rw d (i.empty h le);
    member = λ h lh.
        let o = i.member h lh in
        elim (Bool-cases (g == h)) [
          | inl d ↦ record {
            before = o.before;
            called = o.called;
            sits = o.sits;
            pays = o.pays;
            waits = o.waits;
            home = λ a. absurd (ground arith);
            here = λ a b. absurd (ground arith);
            asks = o.asks;
            bills = o.bills;
            over = o.over;
          }
          | inr d ↦ rw d o
        ];
  }

  -- A group in a state that it has after it has been seated sits, or has sat.
  pub late :
      (g : ℕ)
      → (m.st.group_stat g ≡ food_request) ⊎ (m.st.group_stat g ≡ wait_for_food)
      → (g < n) × (5 ≤ (vs (group g)).stage)
  late g e = elim (Bool-cases (ltb g n)) [
    | inl lt ↦
        let o = i.member g (ground arith) in
        (
          ground arith,
          elim (Bool-cases (ltb (vs (group g)).stage 5)) [
            | inl early ↦ absurd (ground (arith, o.home, o.here))
            | inr y ↦ ground arith
          ],
        )
    | inr ge ↦ absurd (ground (arith, i.empty g))
  ]
