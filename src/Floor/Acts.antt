-- ===== src/Floor/Acts.antt =====
-- What a group of semaphore_restaurant/src/semSharedMemGroup.c tells the receptionist, and learns.
use so_projeto.Prelude.{ℕ, ◌+◌, ◌-◌, ◌≤◌, ◌<◌, ◌≡◌, ◌⊎◌, refl, true, false, inl, inr, update, arith}
use so_projeto.Const.{atreception, tablereq, billreq}
use so_projeto.State.{set_group_stat, set_receptionist_request}
use so_projeto.SharedData.{receptionist_request_possible, sem_index}
use so_projeto.Process.{Proc, down, write}
use so_projeto.System.{group}
use so_projeto.Ghost.{Ok}
use so_projeto.Floor.{View}
use so_projeto.Floor.Locks.{keep, take}
use so_projeto.Floor.Steps.{floor}
use so_projeto.Floor.Moves.{at, calm_moves}

module _ (n g : ℕ) (lt : g < n) {A : Type 0} (c : Proc A) (Q : A → View → Type 0) where
  module _ (s s' : ℕ) (w : ((s ≡ 0) × (s' ≡ 1)) ⊎ ((s ≡ 5) × (s' ≡ 6))) where
    pub takes_token :
        Ok (floor n) (group g) c Q (at s' false)
        → Ok (floor n) (group g) (down receptionist_request_possible c) Q (at s false)
    unfolding sem_index Ok
    takes_token h = (
      3,
      record { number = refl; small = refl; positive = ground arith; below = ground arith },
      λ vs m val e i pos.
          let o = i.member g lt in
          let val' = update val 3 (val 3 - 1) in
          let free : 0 < val 2 + val 3 = omega arith in
          let less : val' 2 + val' 3 ≡ val 2 + val 3 - 1 = ground arith in
          let same : val' (8 + g) ≡ val (8 + g) = ground arith in
          (
            at s' false,
            calm_moves n vs m m val val' g (at s' false) i
                (record {
                  region = keep i.region (group g) (at s' false) (λ t. ground arith);
                  token = rw less (take i.token (group g) (at s' false) free);
                  same_groups = refl;
                  same_tables = refl;
                  same_waiting = refl;
                  stats = λ h d. refl;
                  request = inl refl;
                  calls = λ h d. ground arith;
                  unsignalled = refl;
                  asked = λ a b. ground arith;
                  paid = λ a. ground arith;
                  seated = λ a. ground arith;
                  member = rw same (record {
                    before = λ a. o.before (ground arith);
                    called = λ a b. absurd (ground arith);
                    sits = λ a b. o.sits (ground arith) (ground arith);
                    pays = λ a b. absurd (ground arith);
                    waits = λ a. absurd (ground (arith, o.waits a));
                    home = λ a. o.home (ground arith);
                    here = λ a b. absurd (ground arith);
                    asks = λ a. absurd (ground arith);
                    bills = λ a. absurd (ground arith);
                    over = λ a. ground (arith, o.over);
                  });
                })
                lt,
            h,
          ),
    )

  -- The state of the group, at the reception or later.
  pub writes_stat :
      (s s' v : ℕ)
      → ((s ≡ 1) × (s' ≡ 2) × (v ≡ atreception)) ⊎ ((5 ≤ s) × (s ≡ s'))
      → Ok (floor n) (group g) c Q (at s' true)
      → Ok (floor n) (group g) (write (set_group_stat g v) c) Q (at s true)
  unfolding Ok
  writes_stat s s' v w h = λ vs m val e i.
      let o = i.member g lt in
      (
        at s' true,
        calm_moves n vs m (set_group_stat g v m) val val g (at s' true) i
            (record {
              region = keep i.region (group g) (at s' true) (λ t. ground arith);
              token = keep i.token (group g) (at s' true) (λ t. ground arith);
              same_groups = refl;
              same_tables = refl;
              same_waiting = refl;
              stats = λ h d. ground arith;
              request = inl refl;
              calls = λ h d. refl;
              unsignalled = refl;
              asked = λ a b. ground arith;
              paid = λ a. ground arith;
              seated = λ a. ground arith;
              member = record {
                before = λ a. o.before (ground arith);
                called = λ a b. absurd (ground arith);
                sits = λ a b. o.sits (ground arith) (ground arith);
                pays = λ a b. o.pays (ground arith) (ground arith);
                waits = λ a. absurd (ground (arith, o.waits a));
                home = λ a. absurd (ground arith);
                here = λ a b. ground arith;
                asks = λ a. absurd (ground arith);
                bills = λ a. ground (arith, o.bills);
                over = λ a. ground (arith, o.over);
              };
            })
            lt,
        h,
      )

  pub writes_request :
      (s s' t : ℕ)
      → ((s ≡ 2) × (s' ≡ 3) × (t ≡ tablereq)) ⊎ ((s ≡ 6) × (s' ≡ 7) × (t ≡ billreq))
      → Ok (floor n) (group g) c Q (at s' true)
      → Ok (floor n) (group g) (write (set_receptionist_request t g) c) Q (at s true)
  unfolding Ok
  writes_request s s' t w h = λ vs m val e i.
      let o = i.member g lt in
      (
        at s' true,
        calm_moves n vs m (set_receptionist_request t g m) val val g (at s' true) i
            (record {
              region = keep i.region (group g) (at s' true) (λ t. ground arith);
              token = keep i.token (group g) (at s' true) (λ t. ground arith);
              same_groups = refl;
              same_tables = refl;
              same_waiting = refl;
              stats = λ h d. refl;
              request = inr (ground arith);
              calls = λ h d. refl;
              unsignalled = refl;
              asked = λ a b. ground arith;
              paid = λ a. ground arith;
              seated = λ a. ground arith;
              member = record {
                before = λ a. o.before (ground arith);
                called = λ a b. absurd (ground arith);
                sits = λ a b. o.sits (ground arith) (ground arith);
                pays = λ a b. absurd (ground arith);
                waits = λ a. absurd (ground (arith, o.waits a));
                home = λ a. absurd (ground arith);
                here = λ a b. o.here (ground arith) (ground arith);
                asks = λ a. ground arith;
                bills = λ a. ground arith;
                over = λ a. ground (arith, o.over);
              };
            })
            lt,
        h,
      )
