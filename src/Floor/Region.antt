-- ===== src/Floor/Region.antt =====
-- Who can be in the critical region of semaphore_restaurant/src, and who can go out of an array.
use so_projeto.Prelude.{
  ℕ, ◌≤◌, ◌<◌, ◌≡◌, refl, true, inl, inr, ltb, total, total_pos, Bool-cases, arith,
}
use so_projeto.Const.{max_groups}
use so_projeto.Semaphore.{Kernel, IsKernel}
use so_projeto.Process.{fault}
use so_projeto.System.{Pid, group, waiter, chef, receptionist, System, Config, Reached, is_pid}
use so_projeto.Tokens.{all_held}
use so_projeto.Floor.Safety.{no_table_missing, chef_in_range}

-- Who holds a token.
pub someone : (n : ℕ) (h : Pid → ℕ) → 0 < all_held n h → (p : Pid) × (is_pid n p ≡ true) × (0 < h p)
someone n h pos = elim (Bool-cases (ltb 0 (total n (λ g. h (group g))))) [
  | inl some_group ↦
      let (g, lt, e) = total_pos n (λ g. h (group g)) (ground arith) in (group g, ground arith, e)
  | inr no_group ↦ elim (Bool-cases (ltb 0 (h waiter))) [
    | inl w ↦ (waiter, refl, ground arith)
    | inr no_waiter ↦ elim (Bool-cases (ltb 0 (h chef))) [
      | inl e ↦ (chef, refl, ground arith)
      | inr no_chef ↦ (receptionist, refl, ground arith)
    ]
  ]
]

module _ {k : Kernel} (law : IsKernel k) (c : Config) (few : c.n_groups ≤ max_groups) {t : System}
    (r : Reached k c t) where
  pub only_waiter : (p : Pid) → is_pid c.n_groups p ≡ true → t.procs p ≡ fault → p ≡ waiter
  only_waiter (group g) u e = absurd ((no_table_missing law c few r).1 g (ground arith) e)
  only_waiter waiter u e = refl
  only_waiter chef u e = absurd (chef_in_range law c few r e)
  only_waiter receptionist u e = absurd ((no_table_missing law c few r).0 e)
