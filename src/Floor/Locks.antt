-- ===== src/Floor/Locks.antt =====
-- A semaphore, or two that hand the same token on, as a lock.
use so_projeto.Prelude.{
  ℕ, suc, ◌-◌, ◌<◌, ◌≡◌, ◌≢◌, ◌⊎◌, refl, subst, Bool, true, false, inl, inr, Bool-cases, arith,
}
use so_projeto.System.{Pid, set_at, same_pid, same_pid→eq}
use so_projeto.Floor.{View, Lock}

pub same_both : (p q r : Pid) → same_pid p q ≡ true → same_pid p r ≡ true → same_pid q r ≡ true
same_both p q r a b = subst (λ x. same_pid x r ≡ true) (same_pid→eq p q a) b

module _ (f : View → Bool) (vs : Pid → View) (p : Pid) (u : View) where
  -- Who holds it is the process that has moved, or held it before.
  holder :
      (q : Pid)
      → f (set_at vs p u q) ≡ true
      → ((same_pid p q ≡ true) × (f u ≡ true)) ⊎ ((same_pid p q ≡ false) × (f (vs q) ≡ true))
  holder q h = elim (Bool-cases (same_pid p q)) [
    | inl e ↦ inl (e, ground arith)
    | inr e ↦ inr (e, ground arith)
  ]

module _ {f : View → Bool} {vs : Pid → View} {v : ℕ} (l : Lock f vs v) (p : Pid) (u : View) where
  -- Nobody more holds it.
  pub keep : (f u ≡ true → f (vs p) ≡ true) → Lock f (set_at vs p u) v
  keep h = record {
    most = l.most;
    free = λ q lt. elim (Bool-cases (same_pid p q)) [
      | inl e ↦ rw e (ground (arith, h, l.free p lt))
      | inr e ↦ rw e (l.free q lt)
    ];
    alone = λ q r a b. elim (holder f vs p u q a) [
      | inl (e, x) ↦ elim (holder f vs p u r b) [
        | inl (d, y) ↦ same_both p q r e d
        | inr (d, y) ↦ absurd (ground (arith, l.alone p r (h x) y))
      ]
      | inr (e, x) ↦ elim (holder f vs p u r b) [
        | inl (d, y) ↦ absurd (ground (arith, l.alone p q (h y) x))
        | inr (d, y) ↦ l.alone q r x y
      ]
    ];
  }

  pub take : 0 < v → Lock f (set_at vs p u) (v - 1)
  take lt = record {
    most = omega (arith, l.most);
    free = λ q lt'. absurd (omega (arith, l.most));
    alone = λ q r a b. elim (holder f vs p u q a) [
      | inl (e, x) ↦ elim (holder f vs p u r b) [
        | inl (d, y) ↦ same_both p q r e d
        | inr (d, y) ↦ absurd (ground (arith, l.free r lt))
      ]
      | inr (e, x) ↦ absurd (ground (arith, l.free q lt))
    ];
  }

  given : f (vs p) ≡ true → f u ≡ false → (q : Pid) → f (set_at vs p u q) ≢ true
  given a b q h = elim (holder f vs p u q h) [
    | inl (e, x) ↦ ground arith
    | inr (e, x) ↦ ground (arith, l.alone p q a x)
  ]

  not_true : (b : Bool) → b ≢ true → b ≡ false
  not_true true h = absurd (h refl)
  not_true false h = refl

  pub give : f (vs p) ≡ true → f u ≡ false → Lock f (set_at vs p u) (suc v)
  give a b = record {
    most = ground (arith, l.most, l.free p);
    free = λ q lt. not_true (f (set_at vs p u q)) (given a b q);
    alone = λ q r x y. absurd (given a b q x);
  }
