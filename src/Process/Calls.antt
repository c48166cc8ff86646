-- ===== src/Process/Calls.antt =====
-- How often a program calls semDown and semUp on some semaphores, whatever it reads.
use so_projeto.Prelude.{ℕ, ◌+◌, ◌-◌, ◌≤◌, ◌≡◌, Bool, bit, arith, subst}
use so_projeto.State.{FullStat}
use so_projeto.SharedData.{SemId}
use so_projeto.Process.{Proc, ret, down, up, read, write, save, exited, fault, spinning, ◌>>=◌}

-- The calls that count: downs, and ups, of semaphores.
pub record Counted : Type 0 where
  pub downs : SemId → Bool
  pub ups : SemId → Bool

-- On every path to its end the program makes exactly `k` of the calls. A path that does not come to
-- the end is not counted.
abbrev pub Makes : {A : Type 0} → Counted → ℕ → Proc A → Type 0
Makes c k (ret a) = k ≡ 0
Makes c k (down i p) = (bit (c.downs i) ≤ k) × Makes c (k - bit (c.downs i)) p
Makes c k (up i p) = (bit (c.ups i) ≤ k) × Makes c (k - bit (c.ups i)) p
Makes c k (read f) = (s : FullStat) → Makes c k (f s)
Makes c k (write g p) = Makes c k p
Makes c k (save p) = Makes c k p
Makes c k exited = Unit
Makes c k fault = Unit
Makes c k spinning = Unit

module _ {A B : Type 0} (c : Counted) (q : A → Proc B) (k : ℕ) (h : (a : A) → Makes c k (q a)) where
  pub Makes-bind : (j n : ℕ) (p : Proc A) → n ≡ j + k → Makes c j p → Makes c n (p >>= q)
  Makes-bind j n (ret a) s e = subst (λ x. Makes c x (q a)) (omega arith) (h a)
  Makes-bind j n (down i p) s m = (
    omega (arith, m.0),
    Makes-bind (j - bit (c.downs i)) (n - bit (c.downs i)) p (omega (arith, m.0)) m.1,
  )
  Makes-bind j n (up i p) s m = (
    omega (arith, m.0),
    Makes-bind (j - bit (c.ups i)) (n - bit (c.ups i)) p (omega (arith, m.0)) m.1,
  )
  Makes-bind j n (read f) s m = λ x. Makes-bind j n (f x) s (m x)
  Makes-bind j n (write g p) s m = Makes-bind j n p s m
  Makes-bind j n (save p) s m = Makes-bind j n p s m
  Makes-bind j n exited s m = tt
  Makes-bind j n fault s m = tt
  Makes-bind j n spinning s m = tt
