-- ===== src/Floor/Clerk.antt =====
-- The steps of the receptionist of semaphore_restaurant/src/semSharedMemReceptionist.c between its
-- semaphores: a request is taken up, read, and the next one let in.
use so_projeto.Prelude.{
  ℕ, suc, ◌+◌, ◌-◌, ◌<◌, ◌≡◌, ◌⊎◌, refl, ap, subst, Bool, true, false, Option, none, some, inl, inr,
  update, arith,
}
use so_projeto.Const.{toarrive, attable, tablereq, billreq}
use so_projeto.State.{Request}
use so_projeto.SharedData.{mutex, receptionist_req, receptionist_request_possible, sem_index}
use so_projeto.Process.{Proc, down, up, read}
use so_projeto.System.{Pid, receptionist, set_at}
use so_projeto.Ghost.{Ok}
use so_projeto.Floor.{View, Desk, IsValid, IsSettled}
use so_projeto.Floor.Locks.{keep, take, give}
use so_projeto.Floor.Steps.{floor, at_own}
use so_projeto.Floor.Moves.{mutex-Numbered}

-- The receptionist at a stage, inside of the critical region or not, with what it has recorded and the
-- request that it has read.
abbrev pub clerk : ℕ → Bool → Desk → Option Request → View
clerk s b d j = record { stage = s; inside = b; desk = d; job = j; target = none }

module _ (n : ℕ) {A : Type 0} (c : Proc A) (Q : A → View → Type 0) (d : Desk) where
  pub takes_up :
      Ok (floor n) receptionist c Q (clerk 21 false d none)
      → Ok (floor n) receptionist (down receptionist_req c) Q (clerk 20 false d none)
  unfolding Ok sem_index
  takes_up h = (
    2,
    record { number = refl; small = refl; positive = ground arith; below = ground arith },
    λ vs m val e i0 pos.
        let u = clerk 21 false d none in
        let i = at_own vs receptionist (clerk 20 false d none) e i0 in
        let val' = update val 2 (val 2 - 1) in
        let less : val' 2 + val' 3 ≡ val 2 + val 3 - 1 = ground arith in
        (
          u,
          record {
            region = keep i0.region receptionist u (λ t. ground arith);
            token = rw less (take i0.token receptionist u (omega arith));
            groups = i.groups;
            tables = i.tables;
            waiting = i.waiting;
            bounded = i.bounded;
            range = i.range;
            settled = i.settled;
            flight = λ f. i.flight (inl pos);
            distinct = λ f q j. absurd (ground arith);
            job = λ q j. absurd (ground arith);
            target = i.target;
            empty = i.empty;
            member = λ g lt.
                let same : val' (8 + g) ≡ val (8 + g) = ground arith in rw same (i.member g lt);
          },
          h,
        ),
  )

  pub lets_in :
      (j : Option Request)
      → Ok (floor n) receptionist c Q (clerk 20 true d j)
      → Ok (floor n) receptionist (up receptionist_request_possible c) Q (clerk 22 true d j)
  unfolding Ok sem_index
  lets_in j h = (
    3,
    record { number = refl; small = refl; positive = ground arith; below = ground arith },
    λ vs m val e i0.
        let u = clerk 20 true d j in
        let i = at_own vs receptionist (clerk 22 true d j) e i0 in
        let val' = update val 3 (suc (val 3)) in
        let more : val' 2 + val' 3 ≡ suc (val 2 + val 3) = ground arith in
        let none_there : val 2 ≡ 0 = ground (arith, i0.token.free receptionist) in
        (
          u,
          record {
            region = keep i0.region receptionist u (λ t. ground arith);
            token = rw more (give i0.token receptionist u (ground arith) refl);
            groups = i.groups;
            tables = i.tables;
            waiting = i.waiting;
            bounded = i.bounded;
            range = i.range;
            settled = λ a. absurd (ground arith);
            flight = λ f. elim f [ inl lt ↦ absurd (omega arith) | inr x ↦ absurd (ground arith) ];
            distinct =
                λ f q j. elim f [ inl lt ↦ absurd (omega arith) | inr x ↦ absurd (ground arith) ];
            job = i.job;
            target = i.target;
            empty = i.empty;
            member = λ g lt.
                let same : val' (8 + g) ≡ val (8 + g) = ground arith in rw same (i.member g lt);
          },
          h,
        ),
  )

  -- What it has recorded is in order when it enters, and has to be when it leaves.
  pub clerk_enters :
      (s : ℕ) (j : Option Request)
      → (IsSettled n d → Ok (floor n) receptionist c Q (clerk s true d j))
      → Ok (floor n) receptionist (down mutex c) Q (clerk s false d j)
  unfolding Ok
  clerk_enters s j h = (
    1,
    mutex-Numbered n,
    λ vs m val e i0 pos.
        let u = clerk s true d j in
        let i = at_own vs receptionist (clerk s false d j) e i0 in
        let val' = update val 1 (val 1 - 1) in
        (
          u,
          record {
            region = take i0.region receptionist u pos;
            token = keep i0.token receptionist u (λ t. ground arith);
            groups = i.groups;
            tables = i.tables;
            waiting = i.waiting;
            bounded = i.bounded;
            range = i.range;
            settled = λ a. absurd (ground arith);
            flight = i.flight;
            distinct = i.distinct;
            job = i.job;
            target = i.target;
            empty = i.empty;
            member = λ g lt.
                let same : val' (8 + g) ≡ val (8 + g) = ground arith in rw same (i.member g lt);
          },
          h (i.settled refl),
        ),
  )

  pub clerk_leaves :
      (s : ℕ) (j : Option Request)
      → IsSettled n d
      → Ok (floor n) receptionist c Q (clerk s false d j)
      → Ok (floor n) receptionist (up mutex c) Q (clerk s true d j)
  unfolding Ok
  clerk_leaves s j o h = (
    1,
    mutex-Numbered n,
    λ vs m val e i0.
        let u = clerk s false d j in
        let i = at_own vs receptionist (clerk s true d j) e i0 in
        let val' = update val 1 (suc (val 1)) in
        (
          u,
          record {
            region = give i0.region receptionist u (ap (λ u. u.inside) e) refl;
            token = keep i0.token receptionist u (λ t. ground arith);
            groups = i.groups;
            tables = i.tables;
            waiting = i.waiting;
            bounded = i.bounded;
            range = i.range;
            settled = λ a. o;
            flight = i.flight;
            distinct = i.distinct;
            job = i.job;
            target = i.target;
            empty = i.empty;
            member = λ g lt.
                let same : val' (8 + g) ≡ val (8 + g) = ground arith in rw same (i.member g lt);
          },
          h,
        ),
  )

-- What the record of the receptionist has of the group whose request it answers.
abbrev pub IsAnswerable : ℕ → Desk → Request → Type 0
IsAnswerable n d q =
    (q.req_group < n)
    × (((q.req_type ≡ tablereq) × (d.rec q.req_group ≡ toarrive))
        ⊎ ((q.req_type ≡ billreq) × (d.rec q.req_group ≡ attable)))

answerable :
    (n : ℕ) (vs : Pid → View) (d : Desk) (q : Request)
    → IsValid n (set_at vs receptionist (clerk 21 true d none)) q
    → IsAnswerable n d q
answerable n vs d q (lt, inl (t, s, r)) = (lt, inl (t, r))
answerable n vs d q (lt, inr (t, s, r)) = (lt, inr (t, r))

module _ (n : ℕ) {A : Type 0} (Q : A → View → Type 0) (d : Desk) where
  pub reads_request :
      (f : Request → Proc A)
      → ((q : Request)
          → IsAnswerable n d q
          → Ok (floor n) receptionist (f q) Q (clerk 22 true d (some q)))
      → Ok (floor n) receptionist (read (λ m. f m.receptionist_request)) Q (clerk 21 true d none)
  unfolding Ok
  reads_request f h = λ vs m val e i0.
      let u = clerk 22 true d (some m.receptionist_request) in
      let i = at_own vs receptionist (clerk 21 true d none) e i0 in
      let none_there : val 2 ≡ 0 = ground (arith, i0.token.free receptionist) in
      (
        u,
        record {
          region = keep i0.region receptionist u (λ t. ground arith);
          token = keep i0.token receptionist u (λ t. ground arith);
          groups = i.groups;
          tables = i.tables;
          waiting = i.waiting;
          bounded = i.bounded;
          range = i.range;
          settled = λ a. absurd (ground arith);
          flight = λ f. elim f [ inl lt ↦ absurd (omega arith) | inr x ↦ absurd (ground arith) ];
          distinct =
              λ f q j. elim f [ inl lt ↦ absurd (omega arith) | inr x ↦ absurd (ground arith) ];
          job = λ q j.
              let same : m.receptionist_request ≡ q = cc in
              subst (IsValid n (set_at vs receptionist u)) same (i.flight (inr refl));
          target = i.target;
          empty = i.empty;
          member = i.member;
        },
        h m.receptionist_request (answerable n vs d m.receptionist_request (i.flight (inr refl))),
      )
