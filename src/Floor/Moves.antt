-- ===== src/Floor/Moves.antt =====
-- The steps of a group of semaphore_restaurant/src/semSharedMemGroup.c, each with what it tells.
use so_projeto.Prelude.{
  ℕ, suc, ◌+◌, ◌-◌, ◌≤◌, ◌<◌, ◌≡◌, ◌≢◌, ◌⊎◌, refl, ap, Bool, true, false, Option, none, some, inl,
  inr, update, arith,
}
use so_projeto.Const.{toarrive}
use so_projeto.State.{FullStat, Request}
use so_projeto.SharedData.{mutex, sem_index}
use so_projeto.Process.{Proc, down, up}
use so_projeto.System.{Pid, group, receptionist, set_at}
use so_projeto.Ghost.{Ok, Numbered}
use so_projeto.Floor.{View, Desk, Lock, Member, Floor, InFlight, IsValid, has_token}
use so_projeto.Floor.Locks.{keep, take, give}
use so_projeto.Floor.Group.{valid, group_moves}
use so_projeto.Floor.Steps.{floor}

abbrev pub no_desk : Desk
no_desk = record { rec = λ g. 0; tables = λ g. none; waiting = 0 }

-- A process that is no receptionist and no waiter, at a stage, inside of the critical region or not.
abbrev pub at : ℕ → Bool → View
at s b = record { stage = s; inside = b; desk = no_desk; job = none; target = none }

pub mutex-Numbered : (n : ℕ) → Numbered n mutex 1
unfolding sem_index
mutex-Numbered n = record {
  number = refl;
  small = refl;
  positive = ground arith;
  below = ground arith;
}

-- A move that signals nothing to the receptionist.
pub record IsCalm (n : ℕ) (vs : Pid → View) (m m' : FullStat) (val val' : ℕ → ℕ) (g : ℕ) (u : View)
    : Type 0 where
  pub region : Lock (λ u. u.inside) (set_at vs (group g) u) (val' 1)
  pub token : Lock (λ u. has_token u.stage) (set_at vs (group g) u) (val' 2 + val' 3)
  pub same_groups : m'.n_groups ≡ m.n_groups
  pub same_tables : m'.assigned_table ≡ m.assigned_table
  pub same_waiting : m'.groups_waiting ≡ m.groups_waiting
  pub stats : (h : ℕ) → h ≢ g → m'.st.group_stat h ≡ m.st.group_stat h
  -- The request is the same, or the group holds the token and nothing is signalled.
  pub request :
      (m'.receptionist_request ≡ m.receptionist_request) ⊎ (has_token (vs (group g)).stage ≡ true)
  pub calls : (h : ℕ) → h ≢ g → val' (8 + h) ≡ val (8 + h)
  pub unsignalled : val' 2 ≡ val 2
  pub asked : (vs (group g)).stage ≡ 4 → (vs receptionist).desk.rec g ≡ toarrive → u.stage ≡ 4
  pub paid : 8 ≤ (vs (group g)).stage → 8 ≤ u.stage
  pub seated : 5 ≤ (vs (group g)).stage → 5 ≤ u.stage
  pub member :
      Member g u
        (val' (8 + g))
        ((vs receptionist).desk.rec g)
        ((vs receptionist).desk.tables g)
        (m'.st.group_stat g)
        m'.receptionist_request

module _ (n : ℕ) (vs : Pid → View) (m m' : FullStat) (val val' : ℕ → ℕ) (g : ℕ) (u : View)
    (i : Floor n vs m val) (w : IsCalm n vs m m' val val' g u) where
  nothing_signalled :
      has_token (vs (group g)).stage ≡ true → ¬ InFlight (set_at vs (group g) u) val'
  nothing_signalled t (inl lt) = ground (arith, i.token.free (group g), w.unsignalled)
  nothing_signalled t (inr e) = ground (arith, i.token.alone (group g) receptionist t)

  before_move : InFlight (set_at vs (group g) u) val' → InFlight vs val
  before_move (inl lt) = inl (omega (arith, w.unsignalled))
  before_move (inr e) = inr e

  calm_flight :
      InFlight (set_at vs (group g) u) val'
      → IsValid n (set_at vs (group g) u) m'.receptionist_request
  calm_flight f = elim w.request [
    | inl same ↦
        rw same (valid n vs g u m.receptionist_request w.asked w.paid (i.flight (before_move f)))
    | inr t ↦ absurd (nothing_signalled t f)
  ]

  calm_distinct :
      InFlight (set_at vs (group g) u) val'
      → (q : Request) → (vs receptionist).job ≡ some q
      → q.req_group ≢ m'.receptionist_request.req_group
  calm_distinct f = elim w.request [
    | inl same ↦ rw same (i.distinct (before_move f))
    | inr t ↦ absurd (nothing_signalled t f)
  ]

  pub calm_moves : g < n → Floor n (set_at vs (group g) u) m' val'
  calm_moves lt = group_moves i lt (record {
    region = w.region;
    token = w.token;
    same_groups = w.same_groups;
    same_tables = w.same_tables;
    same_waiting = w.same_waiting;
    stats = w.stats;
    request = w.request;
    calls = w.calls;
    flight = calm_flight;
    distinct = calm_distinct;
    asked = w.asked;
    paid = w.paid;
    seated = w.seated;
    member = w.member;
  })

-- The group stays at its stage, and its semaphore and the request as they are.
pub restaged :
    {g : ℕ} {u u' : View} {v r : ℕ} {o : Option ℕ} {stat : ℕ} {q : Request}
    → Member g u v r o stat q
    → u'.stage ≡ u.stage
    → (u'.stage ≡ 8 → u'.inside ≡ true → o ≢ none)
    → Member g u' v r o stat q
restaged o e p = record {
  before = rw e o.before;
  called = rw e o.called;
  sits = rw e o.sits;
  pays = p;
  waits = rw e o.waits;
  home = rw e o.home;
  here = rw e o.here;
  asks = rw e o.asks;
  bills = rw e o.bills;
  over = rw e o.over;
}

module _ (n g : ℕ) (lt : g < n) {A : Type 0} (c : Proc A) (Q : A → View → Type 0) where
  -- The two records of a move that touches neither the memory nor a token.
  plain :
      (vs : Pid → View) (m : FullStat) (val : ℕ → ℕ) (s s' v : ℕ) (b : Bool) (old : View)
      → vs (group g) ≡ old
      → old.stage ≡ s
      → s ≡ s' ⊎ ((s ≡ 8) × (s' ≡ 9))
      → (s' ≡ 8 → b ≡ true → (vs receptionist).desk.tables g ≢ none)
      → Floor n vs m val
      → Lock (λ u. u.inside) (set_at vs (group g) (at s' b)) v
      → Floor n (set_at vs (group g) (at s' b)) m (update val 1 v)
  plain vs m val s s' v b old e es w p i l =
      let o = i.member g lt in
      let same : update val 1 v (8 + g) ≡ val (8 + g) = ground arith in
      calm_moves n vs m m val (update val 1 v) g (at s' b) i
        (record {
          region = l;
          token = keep i.token (group g) (at s' b) (λ t. ground arith);
          same_groups = refl;
          same_tables = refl;
          same_waiting = refl;
          stats = λ h d. refl;
          request = inl refl;
          calls = λ h d. ground arith;
          unsignalled = refl;
          asked = λ a b. ground arith;
          paid = λ a. ground arith;
          seated = λ a. ground arith;
          member = rw same (elim w [
            | inl stays ↦ restaged o (ground arith) p
            | inr left ↦ record {
              before = λ a. absurd (ground arith);
              called = λ a b. absurd (ground arith);
              sits = λ a b. absurd (ground arith);
              pays = λ a b. absurd (ground arith);
              waits = λ a. absurd (ground (arith, o.waits a));
              home = λ a. absurd (ground arith);
              here = λ a b. absurd (ground arith);
              asks = λ a. absurd (ground arith);
              bills = λ a. absurd (ground arith);
              over = λ a. ground (arith, o.over);
            }
          ]);
        })
        lt

  pub enters :
      (s : ℕ)
      → s ≢ 8
      → Ok (floor n) (group g) c Q (at s true)
      → Ok (floor n) (group g) (down mutex c) Q (at s false)
  unfolding Ok
  enters s ne h = (
    1,
    mutex-Numbered n,
    λ vs m val e i pos. (
      at s true,
      plain vs m val s s (val 1 - 1) true (at s false) e refl (inl refl) (λ a b. absurd (ne a)) i
          (take i.region (group g) (at s true) pos),
      h,
    ),
  )

  pub leaves :
      (s s' : ℕ)
      → s ≡ s' ⊎ ((s ≡ 8) × (s' ≡ 9))
      → Ok (floor n) (group g) c Q (at s' false)
      → Ok (floor n) (group g) (up mutex c) Q (at s true)
  unfolding Ok
  leaves s s' w h = (
    1,
    mutex-Numbered n,
    λ vs m val e i. (
      at s' false,
      plain vs m val s s' (suc (val 1)) false (at s true) e refl w (λ a b. absurd (ground arith)) i
          (give i.region (group g) (at s' false) (ap (λ u. u.inside) e) refl),
      h,
    ),
  )
