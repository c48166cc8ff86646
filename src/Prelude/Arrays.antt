-- ===== src/Prelude/Arrays.antt =====
-- C arrays as functions of the index, with a write at one place, and sums over their first places.
use Prim.Native.Nat.{ℕ, zero, suc, ◌+◌, ◌≤◌, ◌<◌}
use mathlib.Core.Path.{◌≡◌, refl}
use native.Mathlib.Omega.{arith}
use mathlib.Core.Logic.{inl, inr}
use mathlib.Core.Bool.{false}
use mathlib.Core.List.{List, [], ◌∷◌}
use so_projeto.Prelude.Tests.{◌==◌, ltb, if◌then◌else◌, Bool-cases}

abbrev pub update {ℓ} : {A : Type ℓ} → (ℕ → A) → ℕ → A → ℕ → A
update f i a j = if i == j then a else f j

-- f 0 + … + f (k - 1)
unfoldable pub total : ℕ → (ℕ → ℕ) → ℕ
total zero f = 0
total (suc k) f = total k f + f k

pub total-update_of_le : (k : ℕ) (f : ℕ → ℕ) (i a : ℕ) → k ≤ i → total k (update f i a) ≡ total k f
unfolding total
total-update_of_le zero f i a h = refl
total-update_of_le (suc k) f i a h = ground (arith, total-update_of_le k f i a)

pub total-update :
    (k : ℕ) (f : ℕ → ℕ) (i a : ℕ) → i < k → total k (update f i a) + f i ≡ total k f + a
unfolding total
total-update zero f i a h = absurd (omega arith)
total-update (suc k) f i a h = elim (Bool-cases (i == k)) [
  | inl last ↦ ground (arith, total-update_of_le k f i a)
  | inr below ↦ ground (arith, total-update k f i a)
]

pub le-total : (k : ℕ) (f : ℕ → ℕ) (i : ℕ) → i < k → f i ≤ total k f
unfolding total
le-total zero f i h = absurd (omega arith)
le-total (suc k) f i h = elim (Bool-cases (i == k)) [
  | inl last ↦ ground arith
  | inr below ↦ ground (arith, le-total k f i)
]

pub total-eq_zero : (k : ℕ) (f : ℕ → ℕ) → ((i : ℕ) → f i ≡ 0) → total k f ≡ 0
unfolding total
total-eq_zero zero f h = refl
total-eq_zero (suc k) f h = omega (arith, total-eq_zero k f h, h k)

-- Two places hold no more than the whole.
pub add-le-total :
    (k : ℕ) (f : ℕ → ℕ) (i j : ℕ) → i < k → j < k → (i == j) ≡ false → f i + f j ≤ total k f
unfolding total
add-le-total zero f i j h h' d = absurd (omega arith)
add-le-total (suc k) f i j h h' d = elim (Bool-cases (i == k)) [
  | inl last ↦ ground (arith, le-total k f j)
  | inr below ↦ elim (Bool-cases (j == k)) [
    | inl last ↦ ground (arith, le-total k f i)
    | inr below' ↦ ground (arith, add-le-total k f i j)
  ]
]

-- A sum that is not 0 has a term that is not 0.
pub total_pos : (k : ℕ) (f : ℕ → ℕ) → 0 < total k f → (i : ℕ) × (i < k) × (0 < f i)
unfolding total
total_pos zero f h = absurd (omega arith)
total_pos (suc k) f h = elim (Bool-cases (ltb 0 (f k))) [
  | inl last ↦ (k, ground arith, ground arith)
  | inr none ↦ let (i, lt, p) = total_pos k f (ground arith) in (i, omega arith, p)
]

-- The number of items.
abbrev pub count {ℓ} : {A : Type ℓ} → List A → ℕ
count [] = 0
count (x ∷ xs) = suc (count xs)
