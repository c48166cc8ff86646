-- ===== src/Floor/Serving.antt =====
-- The steps of the waiter and of the chef of semaphore_restaurant/src within what all know.
use so_projeto.Prelude.{
  ℕ, suc, ◌-◌, ◌≤◌, ◌<◌, ◌≡◌, ◌⊎◌, refl, sym, ap, ◌∙◌, subst, Bool, true, false, Option, none, some,
  inl, inr, Option-cases, arith,
}
use so_projeto.Const.{num_tables, food_request, wait_for_food}
use so_projeto.State.{FullStat, set_group_stat}
use so_projeto.SharedData.{mutex}
use so_projeto.Process.{Proc, down, up, read, write, fault}
use so_projeto.System.{Pid, group, waiter, chef}
use so_projeto.Ghost.{Ok}
use so_projeto.Floor.{View, Floor}
use so_projeto.Floor.Locks.{keep, take, give}
use so_projeto.Floor.Steps.{floor, at_own}
use so_projeto.Floor.Moves.{mutex-Numbered}
use so_projeto.Floor.Staff.{staff, chef_moves, waiter_views, waiter_moves, served, late}

module _ (n : ℕ) {A : Type 0} (c : Proc A) (Q : A → View → Type 0) where
  pub chef_enters :
      Ok (floor n) chef c Q (staff true none)
      → Ok (floor n) chef (down mutex c) Q (staff false none)
  unfolding Ok
  chef_enters h = (
    1,
    mutex-Numbered n,
    λ vs m val e i pos. (
      staff true none,
      chef_moves i (staff true none) (val 1 - 1) (take i.region chef (staff true none) pos) refl,
      h,
    ),
  )

  pub chef_leaves :
      Ok (floor n) chef c Q (staff false none) → Ok (floor n) chef (up mutex c) Q (staff true none)
  unfolding Ok
  chef_leaves h = (
    1,
    mutex-Numbered n,
    λ vs m val e i. (
      staff false none,
      chef_moves i (staff false none) (suc (val 1))
          (give i.region chef (staff false none) (ap (λ u. u.inside) e) refl) refl,
      h,
    ),
  )

  module _ (o : Option ℕ) where
    target_of :
        (vs : Pid → View) (m : FullStat) (val : ℕ → ℕ) (b : Bool)
        → vs waiter ≡ staff b o
        → Floor n vs m val
        → (g : ℕ) → o ≡ some g
        → (g < n) × (5 ≤ (vs (group g)).stage)
    target_of vs m val b e i g eg = i.target g (ap (λ u. u.target) e ∙ eg)

    pub waiter_enters :
        Ok (floor n) waiter c Q (staff true o)
        → Ok (floor n) waiter (down mutex c) Q (staff false o)
    unfolding Ok
    waiter_enters h = (
      1,
      mutex-Numbered n,
      λ vs m val e i pos. (
        staff true o,
        waiter_moves i (staff true o) (val 1 - 1) (take i.region waiter (staff true o) pos) refl
            (target_of vs m val false e i),
        h,
      ),
    )

    pub waiter_leaves :
        Ok (floor n) waiter c Q (staff false o) → Ok (floor n) waiter (up mutex c) Q (staff true o)
    unfolding Ok
    waiter_leaves h = (
      1,
      mutex-Numbered n,
      λ vs m val e i. (
        staff false o,
        waiter_moves i (staff false o) (suc (val 1))
            (give i.region waiter (staff false o) (ap (λ u. u.inside) e) refl) refl
            (target_of vs m val true e i),
        h,
      ),
    )

  pub waiter_serves :
      (g v : ℕ)
      → Ok (floor n) waiter c Q (staff true (some g))
      → Ok (floor n) waiter (write (set_group_stat g v) c) Q (staff true (some g))
  unfolding Ok
  waiter_serves g v h = λ vs m val e i.
      let (lt, late) = target_of (some g) vs m val true e i g refl in
      (staff true (some g), at_own vs waiter (staff true (some g)) e (served i g v lt late), h)

module _ (n : ℕ) {A : Type 0} (Q : A → View → Type 0) where
  -- The waiter looks for a group, and what it finds sits, or has sat.
  pub waiter_looks :
      (o : Option ℕ) (find : FullStat → Option ℕ) (f : Option ℕ → Proc A)
      → ((m : FullStat) (g : ℕ)
          → find m ≡ some g
          → (m.st.group_stat g ≡ food_request) ⊎ (m.st.group_stat g ≡ wait_for_food))
      → Ok (floor n) waiter (f none) Q (staff true none)
      → ((g : ℕ) → Ok (floor n) waiter (f (some g)) Q (staff true (some g)))
      → Ok (floor n) waiter (read (λ m. f (find m))) Q (staff true o)
  unfolding Ok
  waiter_looks o find f found h k = λ vs m val e i.
      let was : (vs waiter).inside ≡ true = ap (λ u. u.inside) e in
      elim (Option-cases (find m)) [
        | inl x ↦ (
          staff true none,
          waiter_views i (staff true none) (keep i.region waiter (staff true none) (λ h. was)) refl
              (λ g y. absurd (ground arith)),
          rw x h,
        )
        | inr (g, x) ↦ (
          staff true (some g),
          waiter_views i (staff true (some g))
              (keep i.region waiter (staff true (some g)) (λ h. was)) refl
              (λ h y.
                let same : g ≡ h = ground arith in
                subst (λ j. (j < n) × (5 ≤ (vs (group j)).stage)) same (late i g (found m g x))),
          rw x (k g),
        )
      ]

  -- The waiter reads the table of a group, if it has one.
  pub waiter_reads :
      (g : ℕ) (u : View) (f : Option ℕ → Proc A)
      → Ok (floor n) waiter (f none) Q u
      → ((t : ℕ) → t < num_tables → Ok (floor n) waiter (f (some t)) Q u)
      → Ok (floor n) waiter (read (λ m. f (m.assigned_table g))) Q u
  unfolding Ok
  waiter_reads g u f h k = λ vs m val e i. (
    u,
    at_own vs waiter u e i,
    elim (Option-cases (m.assigned_table g)) [
      | inl x ↦ rw x h
      | inr (t, x) ↦ rw x (k t (i.bounded g t (ap (λ a. a g) (sym i.tables) ∙ x)))
    ],
  )

  pub waiter_faults : (u : View) → Ok (floor n) waiter fault Q u
  unfolding Ok
  waiter_faults u = tt

  pub chef_reads :
      {B : Type 0} (u : View) (find : FullStat → B) (f : B → Proc A)
      → ((b : B) → Ok (floor n) chef (f b) Q u)
      → Ok (floor n) chef (read (λ m. f (find m))) Q u
  unfolding Ok
  chef_reads u find f h = λ vs m val e i. (u, at_own vs chef u e i, h (find m))
