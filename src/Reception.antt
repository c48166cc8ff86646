-- ===== src/Reception.antt =====
-- What the receptionist of semaphore_restaurant/src/semSharedMemReceptionist.c keeps true between
-- two requests, of its own record of the groups and of the shared memory together.
pub mod Arrive
pub mod Payment
use so_projeto.Prelude.{
  ℕ, ◌+◌, ◌≤◌, ◌<◌, ◌≡◌, refl, Option, none, some, ◌==◌, if◌then◌else◌, bit, update, total,
  total-update, total_pos, le-total, arith,
}
use mathlib.Core.Path.{fun_ext}
use so_projeto.Const.{num_tables, atreception, wait, attable}
use so_projeto.State.{FullStat}
use so_projeto.Receptionist.{GroupRecord}
use so_projeto.Tables.{IsSeated}

-- How many groups have been sent to wait.
unfoldable pub waiting_groups : ℕ → GroupRecord → ℕ
waiting_groups n rec = total n (λ g. bit (rec g == wait))

record_update :
    (rec : GroupRecord) (g v j : ℕ)
    → bit (update rec g v j == wait) ≡ update (λ i. bit (rec i == wait)) g (bit (v == wait)) j
record_update rec g v j = ground arith

pub waiting_groups-update :
    (n : ℕ) (rec : GroupRecord) (g v : ℕ)
    → g < n
    → waiting_groups n (update rec g v) + bit (rec g == wait)
      ≡ waiting_groups n rec + bit (v == wait)
unfolding waiting_groups
waiting_groups-update n rec g v lt =
    rw (fun_ext (record_update rec g v))
      (total-update n (λ i. bit (rec i == wait)) g (bit (v == wait)) lt)

pub waiting_groups-pos :
    (n : ℕ) (rec : GroupRecord) (g : ℕ) → g < n → rec g ≡ wait → 0 < waiting_groups n rec
unfolding waiting_groups
waiting_groups-pos n rec g lt e = ground (arith, le-total n (λ i. bit (rec i == wait)) g)

pub waiting_groups_some :
    (n : ℕ) (rec : GroupRecord) → 0 < waiting_groups n rec → (g : ℕ) × (g < n) × (rec g ≡ wait)
unfolding waiting_groups
waiting_groups_some n rec h =
    let (g, lt, p) = total_pos n (λ i. bit (rec i == wait)) h in (g, lt, ground arith)

abbrev pub IsTaken : FullStat → ℕ → Type 0
IsTaken s t = (h : ℕ) × (h < s.n_groups) × (s.assigned_table h ≡ some t)

pub record IsDesk (rec : GroupRecord) (s : FullStat) : Type 0 where
  pub seated : IsSeated s.n_groups s.assigned_table
  -- The record says `attable` of exactly the groups that have a table.
  pub has_table :
      (g : ℕ) → g < s.n_groups → rec g ≡ attable → (t : ℕ) × (s.assigned_table g ≡ some t)
  pub recorded : (g t : ℕ) → g < s.n_groups → s.assigned_table g ≡ some t → rec g ≡ attable
  pub counted : s.groups_waiting ≡ waiting_groups s.n_groups rec
  pub present : (g : ℕ) → g < s.n_groups → rec g ≡ wait → s.st.group_stat g ≡ atreception
  -- No table is vacant while a group waits.
  pub full : (g : ℕ) → g < s.n_groups → rec g ≡ wait → (t : ℕ) → t < num_tables → IsTaken s t
