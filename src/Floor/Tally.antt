-- ===== src/Floor/Tally.antt =====
-- How many requests of each group the receptionist of
-- semaphore_restaurant/src/semSharedMemReceptionist.c has answered, by its record.
use so_projeto.Prelude.{
  ℕ, zero, suc, ◌+◌, ◌*◌, ◌≤◌, ◌<◌, ◌≡◌, inl, inr, if◌then◌else◌, ◌==◌, total, total-update, update,
  Bool-cases, arith,
}
use so_projeto.Const.{toarrive, done}
use so_projeto.Receptionist.{GroupRecord}
use mathlib.Core.Path.{fun_ext}

-- The requests of a group that have led to what is recorded of it.
abbrev pub share : ℕ → ℕ
share r = if r == toarrive then 0 else if r == done then 2 else 1

unfoldable pub answers : ℕ → GroupRecord → ℕ
answers n rec = total n (λ g. share (rec g))

share-update :
    (rec : GroupRecord) (g r h : ℕ)
    → share (update rec g r h) ≡ update (λ i. share (rec i)) g (share r) h
share-update rec g r h = ground arith

pub answers-update :
    (n : ℕ) (rec : GroupRecord) (g r : ℕ)
    → g < n
    → answers n (update rec g r) + share (rec g) ≡ answers n rec + share r
unfolding answers
answers-update n rec g r lt =
    rw (fun_ext (share-update rec g r)) (total-update n (λ i. share (rec i)) g (share r) lt)

answers-le : (n : ℕ) (rec : GroupRecord) → answers n rec ≤ n * 2
unfolding answers total
answers-le zero rec = omega arith
answers-le (suc n) rec = ground (arith, answers-le n rec)

-- All two requests of each group have been answered only if each is done.
pub answers_all :
    (n : ℕ) (rec : GroupRecord) → answers n rec ≡ n * 2 → (g : ℕ) → g < n → rec g ≡ done
unfolding answers total
answers_all zero rec e g lt = absurd (omega arith)
answers_all (suc n) rec e g lt = elim (Bool-cases (g == n)) [
  | inl last ↦ ground (arith, answers-le n rec)
  | inr below ↦ answers_all n rec (ground (arith, answers-le n rec)) g (ground arith)
]
