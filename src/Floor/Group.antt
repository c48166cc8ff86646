-- ===== src/Floor/Group.antt =====
-- A step of a group of semaphore_restaurant/src/semSharedMemGroup.c keeps what all know, if it keeps
-- what is known of the group.
use so_projeto.Prelude.{
  ℕ, ◌+◌, ◌≤◌, ◌<◌, ◌≡◌, ◌≢◌, ◌⊎◌, subst, true, false, some, inl, inr, ◌==◌, ◌∙◌, Bool-cases, arith,
}
use so_projeto.Const.{toarrive}
use so_projeto.State.{FullStat, Request}
use so_projeto.System.{Pid, group, receptionist, set_at}
use so_projeto.Floor.{View, Lock, Member, Floor, InFlight, IsValid, has_token}

module _ (n : ℕ) (vs : Pid → View) (m m' : FullStat) (val val' : ℕ → ℕ) (g : ℕ) (u : View) where
  abbrev pub moved : Pid → View
  moved = set_at vs (group g) u

  -- What the step may do to the rest.
  pub record IsGroupMove : Type 0 where
    pub region : Lock (λ u. u.inside) moved (val' 1)
    pub token : Lock (λ u. has_token u.stage) moved (val' 2 + val' 3)
    pub same_groups : m'.n_groups ≡ m.n_groups
    pub same_tables : m'.assigned_table ≡ m.assigned_table
    pub same_waiting : m'.groups_waiting ≡ m.groups_waiting
    pub stats : (h : ℕ) → h ≢ g → m'.st.group_stat h ≡ m.st.group_stat h
    pub request :
        (m'.receptionist_request ≡ m.receptionist_request) ⊎ (has_token (vs (group g)).stage ≡ true)
    pub calls : (h : ℕ) → h ≢ g → val' (8 + h) ≡ val (8 + h)
    pub flight : InFlight moved val' → IsValid n moved m'.receptionist_request
    pub distinct :
        InFlight moved val'
        → (q : Request) → (vs receptionist).job ≡ some q
        → q.req_group ≢ m'.receptionist_request.req_group
    pub asked : (vs (group g)).stage ≡ 4 → (vs receptionist).desk.rec g ≡ toarrive → u.stage ≡ 4
    pub paid : 8 ≤ (vs (group g)).stage → 8 ≤ u.stage
    pub seated : 5 ≤ (vs (group g)).stage → 5 ≤ u.stage
    pub member :
        Member g u
          (val' (8 + g))
          ((vs receptionist).desk.rec g)
          ((vs receptionist).desk.tables g)
          (m'.st.group_stat g)
          m'.receptionist_request

-- A valid request stays valid while its group waits for the answer.
pub valid :
    (n : ℕ) (vs : Pid → View) (g : ℕ) (u : View) (q : Request)
    → ((vs (group g)).stage ≡ 4 → (vs receptionist).desk.rec g ≡ toarrive → u.stage ≡ 4)
    → (8 ≤ (vs (group g)).stage → 8 ≤ u.stage)
    → IsValid n vs q
    → IsValid n (set_at vs (group g) u) q
valid n vs g u q asked paid (lq, h) = (
  lq,
  elim (Bool-cases (g == q.req_group)) [
    | inl e ↦ elim h [
      | inl (t, s, r) ↦ inl (t, ground (arith, asked), r)
      | inr (t, s, r) ↦ inr (t, ground (arith, paid), r)
    ]
    | inr e ↦ rw e h
  ],
)

module _ {n : ℕ} {vs : Pid → View} {m m' : FullStat} {val val' : ℕ → ℕ} {g : ℕ} {u : View}
    (i : Floor n vs m val) (lt : g < n) (w : IsGroupMove n vs m m' val val' g u) where
  other :
      (h : ℕ)
      → h < n
      → g == h ≡ false
      → Member h
          (vs (group h))
          (val' (8 + h))
          ((vs receptionist).desk.rec h)
          ((vs receptionist).desk.tables h)
          (m'.st.group_stat h)
          m'.receptionist_request
  other h lh d =
      let o = i.member h lh in
      let ne : h ≢ g = ground arith in
      record {
        before = rw (w.calls h ne) o.before;
        called = rw (w.calls h ne) o.called;
        sits = o.sits;
        pays = o.pays;
        waits = o.waits;
        home = rw (w.stats h ne) o.home;
        here = rw (w.stats h ne) o.here;
        asks = λ e. elim w.request [
          | inl same ↦ same ∙ o.asks e
          | inr t ↦ absurd (ground (arith, i.token.alone (group g) (group h) t))
        ];
        over = o.over;
        bills = λ e. elim w.request [
          | inl same ↦ same ∙ o.bills e
          | inr t ↦ absurd (ground (arith, i.token.alone (group g) (group h) t))
        ];
      }

  abbrev Same : ℕ → Type 0
  Same h =
      Member h (set_at vs (group g) u (group h)) (val' (8 + h)) ((vs receptionist).desk.rec h)
        ((vs receptionist).desk.tables h) (m'.st.group_stat h) m'.receptionist_request

  here : (h : ℕ) → g ≡ h → Same h
  here h e = subst Same e (let d : g == g ≡ true = ground arith in rw d w.member)

  pub group_moves : Floor n (set_at vs (group g) u) m' val'
  group_moves = record {
    region = w.region;
    token = w.token;
    groups = w.same_groups ∙ i.groups;
    tables = w.same_tables ∙ i.tables;
    waiting = w.same_waiting ∙ i.waiting;
    bounded = i.bounded;
    range = i.range;
    settled = i.settled;
    flight = w.flight;
    distinct = w.distinct;
    job = λ q e. valid n vs g u q w.asked w.paid (i.job q e);
    target = λ h e. elim (Bool-cases (g == h)) [
      | inl d ↦ (ground (arith, i.target h e), ground (arith, i.target h e, w.seated))
      | inr d ↦ rw d (i.target h e)
    ];
    empty = λ h le. w.stats h (ground arith) ∙ i.empty h le;
    member = λ h lh. elim (Bool-cases (g == h)) [
      | inl d ↦ here h (ground arith)
      | inr d ↦ rw d (other h lh d)
    ];
  }
