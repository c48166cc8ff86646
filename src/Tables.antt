-- ===== src/Tables.antt =====
-- The tables of the restaurant: which groups sit where, as
-- semaphore_restaurant/src/semSharedMemReceptionist.c keeps it in `assignedTable`.
pub mod Decide
pub mod Next
pub mod Owner
pub mod Safety
use so_projeto.Prelude.{
  ℕ, suc, ◌-◌, ◌≤◌, ◌<◌, ◌≡◌, ◌≢◌, Option, none, some, ◌==◌, if◌then◌else◌, update, arith,
}
use so_projeto.Const.{num_tables}
use so_projeto.State.{FullStat}

-- No table has two groups, and there is no table but the restaurant's.
pub record IsSeated (n : ℕ) (v : ℕ → Option ℕ) : Type 0 where
  pub unique : (g h t : ℕ) → g < n → h < n → v g ≡ some t → v h ≡ some t → g ≡ h
  pub bounded : (g t : ℕ) → v g ≡ some t → t < num_tables

abbrev pub IsFree : ℕ → (ℕ → Option ℕ) → ℕ → Type 0
IsFree n v t = (h : ℕ) → h < n → v h ≢ some t

module _ {n : ℕ} {v : ℕ → Option ℕ} (s : IsSeated n v) where
  pub seat-IsSeated : (g t : ℕ) → IsFree n v t → t < num_tables → IsSeated n (update v g (some t))
  seat-IsSeated g t free lt = record {
    unique = λ a b u la lb ea eb. ground (arith, s.unique a b u, free a, free b);
    bounded = λ a u e. ground (arith, s.bounded a u);
  }

  pub vacate-IsSeated : (g : ℕ) → IsSeated n (update v g none)
  vacate-IsSeated g = record {
    unique = λ a b u la lb ea eb. ground (arith, s.unique a b u);
    bounded = λ a u e. ground (arith, s.bounded a u);
  }

  pub vacate-IsFree : (g t : ℕ) → g < n → v g ≡ some t → IsFree n (update v g none) t
  vacate-IsFree g t lt e h lh eh = ground (arith, s.unique g h t)

-- The memory shows the tables `v`, and the request at the reception names a group that exists.
pub record IsShown (n : ℕ) (v table : ℕ → Option ℕ) (n_groups sender : ℕ) : Type 0 where
  pub same : table ≡ v
  pub groups : n_groups ≡ n
  pub known : sender < suc (n - 1)
  pub seated : IsSeated n v

abbrev pub Shows : ℕ → (ℕ → Option ℕ) → FullStat → Type 0
Shows n v s = IsShown n v s.assigned_table s.n_groups s.receptionist_request.req_group
