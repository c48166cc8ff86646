-- ===== src/Floor/Answering.antt =====
-- The writes of the receptionist of semaphore_restaurant/src/semSharedMemReceptionist.c
-- within an answer.
use so_projeto.Prelude.{
  ℕ, ◌+◌, ◌≤◌, ◌<◌, ◌≡◌, ◌≢◌, refl, ap, true, Option, none, some, update, arith,
}
use so_projeto.Const.{num_tables, toarrive, attable, wait, done}
use so_projeto.State.{FullStat, Request, set_assigned_table, set_groups_waiting}
use so_projeto.Process.{Proc, read, write}
use so_projeto.System.{Pid, group, receptionist}
use so_projeto.Ghost.{Ok}
use so_projeto.Floor.{View, Desk, Floor, InFlight}
use so_projeto.Floor.Steps.{floor, at_own}
use so_projeto.Floor.Clerk.{clerk}
use so_projeto.Floor.Answers.{noted, records}

-- What holds wherever the receptionist is inside of the critical region with that view.
abbrev pub Holding :
    ℕ → Desk → Option Request → ((Pid → View) → FullStat → (ℕ → ℕ) → Type 0) → Type 0
Holding n d j P =
    (vs : Pid → View) (m : FullStat) (val : ℕ → ℕ)
    → vs receptionist ≡ clerk 20 true d j
    → Floor n vs m val
    → P vs m val

-- The group has asked, and its request is no longer signalled.
abbrev pub HasAsked : ℕ → (Pid → View) → FullStat → (ℕ → ℕ) → Type 0
HasAsked g vs m val =
    ((vs (group g)).stage ≡ 4) × (InFlight vs val → g ≢ m.receptionist_request.req_group)

abbrev pub HasPaid : ℕ → (Pid → View) → FullStat → (ℕ → ℕ) → Type 0
HasPaid g vs m val =
    (8 ≤ (vs (group g)).stage) × (InFlight vs val → g ≢ m.receptionist_request.req_group)

module _ (n : ℕ) {A : Type 0} (c : Proc A) (Q : A → View → Type 0) (d : Desk) where
  pub assigns :
      (j : Option Request) (g t : ℕ)
      → g < n
      → t < num_tables
      → ((h u : ℕ) → d.tables h ≡ some u → u < num_tables)
      → Holding n d j (HasAsked g)
      → Ok
          (floor n)
          receptionist
          c
          Q
          (clerk 20 true (noted d g attable (update d.tables g (some t)) d.waiting) none)
      → Ok (floor n) receptionist (write (set_assigned_table g (some t)) c) Q (clerk 20 true d j)
  unfolding Ok
  assigns j g t lt lt' bound asked h = λ vs m val e i0.
      let d' = noted d g attable (update d.tables g (some t)) d.waiting in
      let i = at_own vs receptionist (clerk 20 true d j) e i0 in
      let (at, apart) = asked vs m val e i0 in
      let o = i.member g lt in
      let row : update d.tables g (some t) g ≡ some t = ground arith in
      (
        clerk 20 true d' none,
        records n vs m (set_assigned_table g (some t) m) val d d' j g attable i0 e lt (omega arith)
            refl (refl, ap (λ f. update f g (some t)) i.tables, i.waiting, refl, refl)
            (λ x y z. ground (arith, bound x y)) (λ x ne. ground arith) apart
            (rw row (record {
              before = λ a. absurd (ground arith);
              called = λ a b. (refl, λ x. ground arith);
              sits = λ a b. absurd (ground arith);
              pays = λ a b. absurd (ground arith);
              waits = λ a. absurd (ground arith);
              home = λ a. absurd (ground arith);
              here = o.here;
              asks = λ a. absurd (ground arith);
              bills = λ a. absurd (ground arith);
              over = λ a. ground (arith, o.over);
            })),
        h,
      )

  pub counts :
      (j : Option Request) (g : ℕ)
      → g < n
      → d.rec g ≡ toarrive
      → Holding n d j (HasAsked g)
      → Ok (floor n) receptionist c Q (clerk 20 true (noted d g wait d.tables (d.waiting + 1)) none)
      → Ok
          (floor n)
          receptionist
          (write (λ s. set_groups_waiting (s.groups_waiting + 1) s) c)
          Q
          (clerk 20 true d j)
  unfolding Ok
  counts j g lt new asked h = λ vs m val e i0.
      let d' = noted d g wait d.tables (d.waiting + 1) in
      let i = at_own vs receptionist (clerk 20 true d j) e i0 in
      let (at, apart) = asked vs m val e i0 in
      let o = i.member g lt in
      (
        clerk 20 true d' none,
        records n vs m (set_groups_waiting (m.groups_waiting + 1) m) val d d' j g wait i0 e lt
            (omega arith) refl (refl, i.tables, ap (λ k. k + 1) i.waiting, refl, refl) i.bounded
            (λ x ne. refl) apart
            (record {
              before = λ a. absurd (ground arith);
              called = λ a b. absurd (ground (arith, o.called a b));
              sits = λ a b. absurd (ground arith);
              pays = λ a b. absurd (ground arith);
              waits = λ a. at;
              home = λ a. absurd (ground arith);
              here = o.here;
              asks = λ a. absurd (ground arith);
              bills = λ a. absurd (ground arith);
              over = λ a. ground (arith, o.over);
            }),
        h,
      )

  pub clears :
      (j : Option Request) (g : ℕ)
      → g < n
      → ((h u : ℕ) → d.tables h ≡ some u → u < num_tables)
      → Holding n d j (HasPaid g)
      → Ok
          (floor n)
          receptionist
          c
          Q
          (clerk 20 true (noted d g done (update d.tables g none) d.waiting) none)
      → Ok (floor n) receptionist (write (set_assigned_table g none) c) Q (clerk 20 true d j)
  unfolding Ok
  clears j g lt bound paid h = λ vs m val e i0.
      let d' = noted d g done (update d.tables g none) d.waiting in
      let i = at_own vs receptionist (clerk 20 true d j) e i0 in
      let (at, apart) = paid vs m val e i0 in
      let o = i.member g lt in
      (
        clerk 20 true d' none,
        records n vs m (set_assigned_table g none m) val d d' j g done i0 e lt (omega arith) refl
            (refl, ap (λ f. update f g none) i.tables, i.waiting, refl, refl)
            (λ x y z. ground (arith, bound x y)) (λ x ne. ground arith) apart
            (record {
              before = λ a. absurd (omega arith);
              called = λ a b. absurd (omega arith);
              sits = λ a b. absurd (omega arith);
              pays = λ a b. absurd (ground (arith, i0.region.alone receptionist (group g)));
              waits = λ a. absurd (ground arith);
              home = λ a. absurd (omega arith);
              here = λ a b. absurd (omega arith);
              asks = λ a. absurd (omega arith);
              bills = λ a. absurd (omega arith);
              over = λ a. ground (arith, o.over);
            }),
        h,
      )

module _ (n : ℕ) {A B : Type 0} (Q : A → View → Type 0) (d : Desk) (j : Option Request) where
  -- A read of what the receptionist knows already.
  pub clerk_reads :
      (find : FullStat → B) (b : B) (f : B → Proc A)
      → Holding n d j (λ vs m val. find m ≡ b)
      → Ok (floor n) receptionist (f b) Q (clerk 20 true d j)
      → Ok (floor n) receptionist (read (λ m. f (find m))) Q (clerk 20 true d j)
  unfolding Ok
  clerk_reads find b f known h = λ vs m val e i.
      (clerk 20 true d j, at_own vs receptionist (clerk 20 true d j) e i, rw (known vs m val e i) h)
