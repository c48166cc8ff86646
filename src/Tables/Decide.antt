-- ===== src/Tables/Decide.antt =====
-- `decideTableOrWait` and `decideNextGroup` of
-- semaphore_restaurant/src/semSharedMemReceptionist.c against what they are to decide.
use so_projeto.Prelude.{
  ℕ, ◌≤◌, ◌<◌, ◌≡◌, ◌≢◌, ◌↔◌, refl, ap, true, false, not, Option, none, some, ltb, ◌==◌, holds_num,
  first, first-some, first-none, first_found, Bool-cases, Option-cases, inl, inr, arith,
}
use so_projeto.Const.{num_tables, atreception}
use so_projeto.State.{FullStat}
use so_projeto.Receptionist.{is_occupied, decide_table_or_wait}

-- A table is occupied exactly if it is assigned to one of the groups.
pub is_occupied-true :
    (s : FullStat) (t : ℕ)
    → is_occupied s t ≡ true
    → (g : ℕ) × (g < s.n_groups) × (s.assigned_table g ≡ some t)
unfolding is_occupied
is_occupied-true s t h =
    elim (Option-cases (first s.n_groups (λ g. holds_num (s.assigned_table g) t))) [
      | inl e ↦ ground arith
      | inr (g, e) ↦ let f = first-some s.n_groups _ g e in (g, f.below, ground (arith, f.passes))
    ]

pub is_occupied-false :
    (s : FullStat) (t g : ℕ)
    → is_occupied s t ≡ false
    → g < s.n_groups
    → s.assigned_table g ≢ some t
unfolding is_occupied
is_occupied-false s t g h lt e =
    let (k, ek) =
      first_found s.n_groups (λ i. holds_num (s.assigned_table i) t) g lt (ground arith) in
    ground arith

-- The table that a group at the reception is to have: the first that no group has.
pub record IsOffer (s : FullStat) (n t : ℕ) : Type 0 where
  pub present : s.st.group_stat n ≡ atreception
  pub exists : t < num_tables
  pub vacant : (g : ℕ) → g < s.n_groups → s.assigned_table g ≢ some t
  pub before : (u : ℕ) → u < t → (g : ℕ) × (g < s.n_groups) × (s.assigned_table g ≡ some u)

pub decide_table-IsOffer :
    (s : FullStat) (n t : ℕ) → decide_table_or_wait s n ≡ some t → IsOffer s n t
unfolding decide_table_or_wait
decide_table-IsOffer s n t h = elim (Bool-cases (s.st.group_stat n == atreception)) [
  | inl p ↦
      let f = first-some num_tables (λ u. not (is_occupied s u)) t (ground arith) in
      record {
        present = ground arith;
        exists = f.below;
        vacant = λ g lt. is_occupied-false s t g (ground (arith, f.passes)) lt;
        before = λ u lt. is_occupied-true s u (ground (arith, f.least u));
      }
  | inr p ↦ absurd (ground arith)
]

-- Without a table to offer, the group is not at the reception or every table is taken.
pub decide_none-taken :
    (s : FullStat) (n : ℕ)
    → decide_table_or_wait s n ≡ none
    → s.st.group_stat n ≡ atreception
    → (t : ℕ) → t < num_tables
    → (g : ℕ) × (g < s.n_groups) × (s.assigned_table g ≡ some t)
unfolding decide_table_or_wait
decide_none-taken s n h p t lt =
    is_occupied-true s t
      (ground (arith, first-none num_tables (λ u. not (is_occupied s u)) (ground arith) t lt))

-- Of two offers neither comes later.
offer-le : (s : FullStat) (n t u : ℕ) → IsOffer s n t → IsOffer s n u → t ≤ u
offer-le s n t u e f = elim (Bool-cases (ltb u t)) [
  | inl lt ↦ let (g, lg, eg) = e.before u (ground arith) in absurd (f.vacant g lg eg)
  | inr ge ↦ ground arith
]

offer_unique : (s : FullStat) (n t u : ℕ) → IsOffer s n t → IsOffer s n u → t ≡ u
offer_unique s n t u e f = omega (arith, offer-le s n t u e f, offer-le s n u t f e)

IsOffer-decide :
    (s : FullStat) (n t : ℕ) (o : Option ℕ)
    → decide_table_or_wait s n ≡ o
    → IsOffer s n t
    → o ≡ some t
IsOffer-decide s n t none e f =
    let (g, lt, eg) = decide_none-taken s n e f.present t f.exists in absurd (f.vacant g lt eg)
IsOffer-decide s n t (some u) e f = ap some (offer_unique s n u t (decide_table-IsOffer s n u e) f)

-- `decideTableOrWait` returns a table exactly if it is the first vacant one and the group is at the
-- reception.
pub decide_table_or_wait_iff :
    (s : FullStat) (n t : ℕ) → (decide_table_or_wait s n ≡ some t) ↔ IsOffer s n t
decide_table_or_wait_iff s n t = (decide_table-IsOffer s n t, IsOffer-decide s n t _ refl)
