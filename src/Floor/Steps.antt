-- ===== src/Floor/Steps.antt =====
-- The steps of the processes of semaphore_restaurant/src that tell the others nothing.
use so_projeto.Prelude.{
  ℕ, ◌+◌, ◌≤◌, ◌<◌, ◌≡◌, ◌⊎◌, refl, sym, ap, ◌∙◌, subst, false, inl, inr, Bool-cases, arith,
}
use mathlib.Core.Path.{fun_ext}
use so_projeto.Const.{done}
use so_projeto.State.{FullStat}
use so_projeto.SharedData.{SemId}
use so_projeto.Process.{Proc, ret, spinning, save, down, up, write}
use so_projeto.System.{Pid, group, waiter, chef, receptionist, set_at, same_pid, same_pid→eq}
use so_projeto.Ghost.{Contract, Ok, Numbered}
use so_projeto.Floor.{View, Floor}

abbrev pub MayFault : Pid → Type 0
MayFault (group g) = ⊥
MayFault waiter = Unit
MayFault chef = ⊥
MayFault receptionist = ⊥

-- The receptionist ends with every group done.
abbrev pub Ends : ℕ → Pid → View → Type 0
Ends n (group g) u = Unit
Ends n waiter u = Unit
Ends n chef u = Unit
Ends n receptionist u = (u.inside ≡ false) × ((g : ℕ) → g < n → u.desk.rec g ≡ done)

abbrev pub floor : ℕ → Contract View
floor n = record { groups = n; inv = Floor n; may_fault = MayFault; ends = Ends n }

-- The write is of other fields.
abbrev pub IsQuiet : (FullStat → FullStat) → Type 0
IsQuiet f =
    (m : FullStat)
    → ((f m).n_groups ≡ m.n_groups)
      × ((f m).assigned_table ≡ m.assigned_table)
      × ((f m).groups_waiting ≡ m.groups_waiting)
      × ((f m).st.group_stat ≡ m.st.group_stat)
      × ((f m).receptionist_request ≡ m.receptionist_request)

-- The number is of no semaphore that the invariant speaks of.
abbrev pub IsFar : ℕ → ℕ → Type 0
IsFar n j = ((4 ≤ j) × (j < 8)) ⊎ (8 + n ≤ j)

-- The field holds such a number.
pub record FarNumber (n : ℕ) (x : SemId) : Type 0 where
  pub place : ℕ
  pub numbered : Numbered n x place
  pub far : IsFar n place

own_view : (vs : Pid → View) (p q : Pid) → set_at vs p (vs p) q ≡ vs q
own_view vs p q = elim (Bool-cases (same_pid p q)) [
  | inl e ↦ rw e (ap vs (same_pid→eq p q e))
  | inr e ↦ rw e refl
]

pub at_own :
    {n : ℕ} {m : FullStat} {val : ℕ → ℕ} (vs : Pid → View) (p : Pid) (u : View)
    → vs p ≡ u
    → Floor n vs m val
    → Floor n (set_at vs p u) m val
at_own {n} {m} {val} vs p u e i =
    subst (λ v. Floor n (set_at vs p v) m val) e
      (subst (λ ws. Floor n ws m val) (sym (fun_ext (own_view vs p))) i)

pub quiet :
    {n : ℕ} {vs : Pid → View} {m m' : FullStat} {val val' : ℕ → ℕ}
    → Floor n vs m val
    → (m'.n_groups ≡ m.n_groups)
      × (m'.assigned_table ≡ m.assigned_table)
      × (m'.groups_waiting ≡ m.groups_waiting)
      × (m'.st.group_stat ≡ m.st.group_stat)
      × (m'.receptionist_request ≡ m.receptionist_request)
    → val' 1 ≡ val 1
    → val' 2 ≡ val 2
    → val' 3 ≡ val 3
    → ((g : ℕ) → g < n → val' (8 + g) ≡ val (8 + g))
    → Floor n vs m' val'
quiet {n} {vs} {m} {m'} {val} {val'} i (a, b, c, d, e) v1 v2 v3 v8 = record {
  region = rw v1 i.region;
  token = rw (v2, v3) i.token;
  groups = a ∙ i.groups;
  tables = b ∙ i.tables;
  waiting = c ∙ i.waiting;
  bounded = i.bounded;
  range = i.range;
  settled = i.settled;
  flight = rw (v2, e) i.flight;
  distinct = rw (v2, e) i.distinct;
  job = i.job;
  target = i.target;
  empty = rw d i.empty;
  member = λ g lt. rw (v8 g lt, d, e) (i.member g lt);
}

module _ (n : ℕ) (p : Pid) {A : Type 0} (c : Proc A) (Q : A → View → Type 0) (u : View) where
  pub quiet_write :
      (f : FullStat → FullStat) → IsQuiet f → Ok (floor n) p c Q u → Ok (floor n) p (write f c) Q u
  unfolding Ok
  quiet_write f q h =
      λ vs m val e i. (u, at_own vs p u e (quiet i (q m) refl refl refl (λ g lt. refl)), h)

  pub quiet_up : (x : SemId) → FarNumber n x → Ok (floor n) p c Q u → Ok (floor n) p (up x c) Q u
  unfolding Ok
  quiet_up x b h = (
    b.place,
    b.numbered,
    λ vs m val e i. (
      u,
      at_own vs p u e (
          quiet i (refl, refl, refl, refl, refl) (ground (arith, b.far)) (ground (arith, b.far))
            (ground (arith, b.far)) (λ g lt. ground (arith, b.far))),
      h,
    ),
  )

  pub quiet_down :
      (x : SemId) → FarNumber n x → Ok (floor n) p c Q u → Ok (floor n) p (down x c) Q u
  unfolding Ok
  quiet_down x b h = (
    b.place,
    b.numbered,
    λ vs m val e i lt. (
      u,
      at_own vs p u e (
          quiet i (refl, refl, refl, refl, refl) (ground (arith, b.far)) (ground (arith, b.far))
            (ground (arith, b.far)) (λ g lt. ground (arith, b.far))),
      h,
    ),
  )

  pub saves : Ok (floor n) p c Q u → Ok (floor n) p (save c) Q u
  unfolding Ok
  saves h = h

pub returns :
    (n : ℕ) (p : Pid) {A : Type 0} (a : A) (Q : A → View → Type 0) (u : View)
    → Q a u
    → Ok (floor n) p (ret a) Q u
unfolding Ok
returns n p a Q u h = h

pub spins :
    (n : ℕ) (p : Pid) {A : Type 0} (Q : A → View → Type 0) (u : View) → Ok (floor n) p spinning Q u
unfolding Ok
spins n p Q u = tt
