-- ===== src/Tables/Next.antt =====
-- `decideNextGroup` of semaphore_restaurant/src/semSharedMemReceptionist.c: whom it calls.
use so_projeto.Prelude.{
  ℕ, ◌≤◌, ◌<◌, ◌≡◌, ◌↔◌, refl, ap, Bool, true, ◌&&◌, Option, none, some, ltb, ◌==◌, is_some,
  first-some, first-none, Bool-cases, Option-cases, inl, inr, arith,
}
use so_projeto.Const.{wait}
use so_projeto.State.{FullStat}
use so_projeto.Receptionist.{GroupRecord, decide_table_or_wait, decide_next_group}
use so_projeto.Tables.Decide.{IsOffer, decide_table-IsOffer, decide_table_or_wait_iff}

-- A group that the receptionist has sent to wait and that could be seated now.
pub record IsSeatable (rec : GroupRecord) (s : FullStat) (g : ℕ) : Type 0 where
  pub exists : g < s.n_groups
  pub waits : rec g ≡ wait
  pub table : ℕ
  pub offer : IsOffer s g table

abbrev passes : GroupRecord → FullStat → ℕ → Bool
passes rec s g = is_some (decide_table_or_wait s g) && rec g == wait

passes-IsSeatable :
    (rec : GroupRecord) (s : FullStat) (g : ℕ)
    → g < s.n_groups
    → passes rec s g ≡ true
    → IsSeatable rec s g
passes-IsSeatable rec s g lt h = elim (Option-cases (decide_table_or_wait s g)) [
  | inl e ↦ absurd (ground arith)
  | inr (t, e) ↦ record {
    exists = lt;
    waits = ground arith;
    table = t;
    offer = decide_table-IsOffer s g t e;
  }
]

IsSeatable-passes :
    (rec : GroupRecord) (s : FullStat) (g : ℕ) → IsSeatable rec s g → passes rec s g ≡ true
IsSeatable-passes rec s g h =
    ground (arith, h.waits, (decide_table_or_wait_iff s g h.table).1 h.offer)

-- The group called is the first that can be seated.
pub record IsCalled (rec : GroupRecord) (s : FullStat) (g : ℕ) : Type 0 where
  pub seatable : IsSeatable rec s g
  pub least : (h : ℕ) → h < g → ¬ IsSeatable rec s h

pub next-IsCalled :
    (rec : GroupRecord) (s : FullStat) (g : ℕ) → decide_next_group rec s ≡ some g → IsCalled rec s g
unfolding decide_next_group
next-IsCalled rec s g h =
    let f = first-some s.n_groups (passes rec s) g h in
    record {
      seatable = passes-IsSeatable rec s g f.below f.passes;
      least = λ j lt x. ground (arith, IsSeatable-passes rec s j x, f.least j);
    }

-- If nobody is called, nobody can be seated.
pub next_none :
    (rec : GroupRecord) (s : FullStat)
    → decide_next_group rec s ≡ none
    → (g : ℕ) → ¬ IsSeatable rec s g
unfolding decide_next_group
next_none rec s h g x =
    ground (arith, first-none s.n_groups (passes rec s) h g x.exists, IsSeatable-passes rec s g x)

called-le :
    (rec : GroupRecord) (s : FullStat) (g h : ℕ) → IsCalled rec s g → IsCalled rec s h → g ≤ h
called-le rec s g h c d = elim (Bool-cases (ltb h g)) [
  | inl lt ↦ absurd (c.least h (ground arith) d.seatable)
  | inr ge ↦ ground arith
]

called_unique :
    (rec : GroupRecord) (s : FullStat) (g h : ℕ) → IsCalled rec s g → IsCalled rec s h → g ≡ h
called_unique rec s g h c d = omega (arith, called-le rec s g h c d, called-le rec s h g d c)

IsCalled-next :
    (rec : GroupRecord) (s : FullStat) (g : ℕ) (o : Option ℕ)
    → decide_next_group rec s ≡ o
    → IsCalled rec s g
    → o ≡ some g
IsCalled-next rec s g none e c = absurd (next_none rec s e g c.seatable)
IsCalled-next rec s g (some h) e c = ap some (called_unique rec s h g (next-IsCalled rec s h e) c)

-- `decideNextGroup` returns a group exactly if it is the first that waits and can be seated.
pub decide_next_group_iff :
    (rec : GroupRecord) (s : FullStat) (g : ℕ)
    → (decide_next_group rec s ≡ some g) ↔ IsCalled rec s g
decide_next_group_iff rec s g = (next-IsCalled rec s g, IsCalled-next rec s g _ refl)
