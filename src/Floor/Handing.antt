-- ===== src/Floor/Handing.antt =====
-- A group of semaphore_restaurant/src/semSharedMemGroup.c hands its request over, and is called to a table.
use so_projeto.Prelude.{
  ℕ, suc, ◌+◌, ◌-◌, ◌≤◌, ◌<◌, ◌≡◌, ◌≢◌, ◌⊎◌, refl, sym, ap, ◌∙◌, true, false, Option, none, some,
  inl, inr, ◌==◌, update, Bool-cases, Option-cases, arith,
}
use so_projeto.Const.{num_tables, max_groups, tablereq, billreq}
use so_projeto.State.{FullStat, Request}
use so_projeto.Waiter.{request}
use so_projeto.SharedData.{receptionist_req, wait_for_table, sem_index}
use so_projeto.Process.{Proc, down, up, read}
use so_projeto.System.{Pid, group, receptionist, set_at}
use so_projeto.Ghost.{Ok, Numbered}
use so_projeto.Floor.{View, Floor, IsValid}
use so_projeto.Floor.Locks.{keep, give}
use so_projeto.Floor.Group.{group_moves}
use so_projeto.Floor.Steps.{floor, at_own}
use so_projeto.Floor.Moves.{at, calm_moves}

module _ (n g : ℕ) (lt : g < n) (few : n ≤ max_groups) {A : Type 0} (c : Proc A)
    (Q : A → View → Type 0) where
  module _ (s s' t : ℕ)
      (w : ((s ≡ 3) × (s' ≡ 4) × (t ≡ tablereq)) ⊎ ((s ≡ 7) × (s' ≡ 8) × (t ≡ billreq))) where
    handed :
        (vs : Pid → View) (m : FullStat) (val : ℕ → ℕ)
        → vs (group g) ≡ at s true
        → Floor n vs m val
        → m.receptionist_request ≡ request t g
    handed vs m val e i =
        let o = i.member g lt in
        elim w [ inl x ↦ ground (arith, o.asks) | inr x ↦ ground (arith, o.bills) ]

    handed-IsValid :
        (vs : Pid → View) (m : FullStat) (val : ℕ → ℕ)
        → vs (group g) ≡ at s true
        → Floor n vs m val
        → IsValid n (set_at vs (group g) (at s' true)) (request t g)
    handed-IsValid vs m val e i =
        let o = i.member g lt in
        let self : g == g ≡ true = ground arith in
        elim w [
          | inl (x, y, z) ↦ (lt, inl (z, rw self y, (o.before (ground arith)).0))
          | inr (x, y, z) ↦
              (lt, inr (z, rw self (omega arith), (o.sits (ground arith) (ground arith)).0))
        ]

    handed-distinct :
        (vs : Pid → View) (m : FullStat) (val : ℕ → ℕ)
        → vs (group g) ≡ at s true
        → Floor n vs m val
        → (q : Request) → (vs receptionist).job ≡ some q
        → q.req_group ≢ g
    handed-distinct vs m val e i q j same =
        let (lq, v) = i.job q j in
        let here : (vs (group q.req_group)).stage ≡ s = ground arith in
        elim v [ inl x ↦ ground arith | inr x ↦ ground arith ]

    pub hands :
        Ok (floor n) (group g) c Q (at s' true)
        → Ok (floor n) (group g) (up receptionist_req c) Q (at s true)
    unfolding sem_index Ok
    hands h = (
      2,
      record { number = refl; small = refl; positive = ground arith; below = ground arith },
      λ vs m val e i.
          let o = i.member g lt in
          let val' = update val 2 (suc (val 2)) in
          let more : val' 2 + val' 3 ≡ suc (val 2 + val 3) = ground arith in
          let same : val' (8 + g) ≡ val (8 + g) = ground arith in
          let asked = handed vs m val e i in
          (
            at s' true,
            group_moves i lt (record {
              region = keep i.region (group g) (at s' true) (λ t. ground arith);
              token = rw more (give i.token (group g) (at s' true) (ground arith) (ground arith));
              same_groups = refl;
              same_tables = refl;
              same_waiting = refl;
              stats = λ h d. refl;
              request = inl refl;
              calls = λ h d. ground arith;
              flight = λ f. rw asked (handed-IsValid vs m val e i);
              distinct = λ f q j. rw asked (handed-distinct vs m val e i q j);
              asked = λ a b. ground arith;
              paid = λ a. ground arith;
              seated = λ a. ground arith;
              member = rw same (record {
                before = λ a. absurd (ground arith);
                called = λ a b. absurd (ground (arith, o.before));
                sits = λ a b. absurd (ground arith);
                pays = λ a b. (o.sits (ground arith) (ground arith)).1;
                waits = λ a. absurd (ground (arith, o.waits a, o.before, o.sits));
                home = λ a. absurd (ground arith);
                here = λ a b. o.here (ground arith) (ground arith);
                asks = λ a. absurd (ground arith);
                bills = λ a. absurd (ground arith);
                over = λ a. ground (arith, o.over);
              });
            }),
            h,
          ),
    )

  wait-Numbered : Numbered n (wait_for_table g) (8 + g)
  unfolding sem_index
  wait-Numbered = record {
    number = ground arith;
    small = ground arith;
    positive = ground arith;
    below = ground arith;
  }

  pub is_called :
      Ok (floor n) (group g) c Q (at 5 false)
      → Ok (floor n) (group g) (down (wait_for_table g) c) Q (at 4 false)
  unfolding Ok
  is_called h = (
    8 + g,
    wait-Numbered,
    λ vs m val e i pos.
        let o = i.member g lt in
        let val' = update val (8 + g) (val (8 + g) - 1) in
        let at_other : (j : ℕ) → j < 8 → val' j ≡ val j = λ j lj. ground arith in
        let sits = o.called (ground arith) pos in
        (
          at 5 false,
          calm_moves n vs m m val val' g (at 5 false) i
              (record {
                region =
                    rw (at_other 1 (omega arith))
                      (keep i.region (group g) (at 5 false) (λ t. ground arith));
                token =
                    rw (at_other 2 (omega arith), at_other 3 (omega arith))
                      (keep i.token (group g) (at 5 false) (λ t. ground arith));
                same_groups = refl;
                same_tables = refl;
                same_waiting = refl;
                stats = λ h d. refl;
                request = inl refl;
                calls = λ h d. ground arith;
                unsignalled = ground arith;
                asked = λ a b. absurd (ground arith);
                paid = λ a. ground arith;
                seated = λ a. ground arith;
                member = record {
                  before = λ a. absurd (ground arith);
                  called = λ a b. absurd (ground arith);
                  sits = λ a b. sits;
                  pays = λ a b. absurd (ground arith);
                  waits = λ a. absurd (ground arith);
                  home = λ a. absurd (ground arith);
                  here = λ a b. absurd (ground arith);
                  asks = λ a. absurd (ground arith);
                  bills = λ a. absurd (ground arith);
                  over = λ a. ground (arith, o.over);
                };
              })
              lt,
          h,
        ),
  )

module _ (n g : ℕ) (lt : g < n) {A : Type 0} (Q : A → View → Type 0) where
  untabled :
      (vs : Pid → View) (m : FullStat) (val : ℕ → ℕ) (s : ℕ)
      → ((5 ≤ s) × (s < 9))
      → vs (group g) ≡ at s true
      → Floor n vs m val
      → m.assigned_table g ≢ none
  untabled vs m val s b e i h =
      let o = i.member g lt in
      let h' : (vs receptionist).desk.tables g ≡ none = ap (λ a. a g) (sym i.tables) ∙ h in
      elim (Bool-cases (s == 8)) [
        | inl y ↦ o.pays (ground arith) (ground arith) h'
        | inr y ↦ (o.sits (ground arith) (ground arith)).1 h'
      ]

  -- A group that sits reads its table.
  pub reads_table :
      (s : ℕ) (f : Option ℕ → Proc A)
      → ((5 ≤ s) × (s < 9))
      → ((t : ℕ) → t < num_tables → Ok (floor n) (group g) (f (some t)) Q (at s true))
      → Ok (floor n) (group g) (read (λ m. f (m.assigned_table g))) Q (at s true)
  unfolding Ok
  reads_table s f b h = λ vs m val e i. (
    at s true,
    at_own vs (group g) (at s true) e i,
    let o = i.member g lt in
        elim (Option-cases (m.assigned_table g)) [
          | inl none_there ↦ absurd (untabled vs m val s b e i none_there)
          | inr (t, et) ↦ rw et (h t (i.bounded g t (ap (λ a. a g) (sym i.tables) ∙ et)))
        ],
  )
