-- ===== src/Prelude/Scan.antt =====
-- A `for` loop that leaves at the first index which passes a test.
use Prim.Native.Nat.{ℕ, zero, suc, ◌+◌, ◌≤◌, ◌<◌}
use mathlib.Core.Path.{◌≡◌, refl}
use mathlib.Core.Logic.{inl, inr}
use mathlib.Core.Bool.{Bool, true, false}
use mathlib.Core.Option.{Option, none, some}
use native.Mathlib.Omega.{arith}
use so_projeto.Prelude.Tests.{◌==◌, if◌then◌else◌, Bool-cases}

-- for (; rounds > 0; i++, rounds--) if (test (i)) return i;
unfoldable pub first_from : ℕ → ℕ → (ℕ → Bool) → Option ℕ
first_from zero i test = none
first_from (suc rounds) i test =
    let rest = first_from rounds (i + 1) test in if test i then some i else rest

-- for (i = 0; i < n; i++) if (test (i)) return i;
unfoldable pub first : ℕ → (ℕ → Bool) → Option ℕ
unfolding first_from
first n test = first_from n 0 test

pub record IsFirst (test : ℕ → Bool) (i n k : ℕ) : Type 0 where
  pub from : i ≤ k
  pub below : k < n
  pub passes : test k ≡ true
  pub least : (j : ℕ) → i ≤ j → j < k → test j ≡ false

first_from-some :
    (r i : ℕ) (test : ℕ → Bool) (k : ℕ) → first_from r i test ≡ some k → IsFirst test i (i + r) k
unfolding first_from
first_from-some zero i test k h = ground arith
first_from-some (suc r) i test k h = elim (Bool-cases (test i)) [
  | inl t ↦ record {
    from = ground arith;
    below = ground arith;
    passes = ground arith;
    least = λ j ge lt. ground arith;
  }
  | inr f ↦
      let rest = first_from-some r (i + 1) test k (ground arith) in
      record {
        from = omega (arith, rest.from);
        below = omega (arith, rest.below);
        passes = rest.passes;
        least = λ j ge lt. elim (Bool-cases (j == i)) [
          | inl here ↦ ground arith
          | inr later ↦ rest.least j (ground arith) lt
        ];
      }
]

first_from-none :
    (r i : ℕ) (test : ℕ → Bool)
    → first_from r i test ≡ none
    → (j : ℕ) → i ≤ j
    → j < i + r
    → test j ≡ false
unfolding first_from
first_from-none zero i test h j ge lt = absurd (omega arith)
first_from-none (suc r) i test h j ge lt = elim (Bool-cases (j == i)) [
  | inl here ↦ ground arith
  | inr later ↦ first_from-none r (i + 1) test (ground arith) j (ground arith) (omega arith)
]

-- The index found passes, and is the least that does.
pub first-some : (n : ℕ) (test : ℕ → Bool) (k : ℕ) → first n test ≡ some k → IsFirst test 0 n k
unfolding first
first-some n test k h =
    let f = first_from-some n 0 test k h in
    record { from = f.from; below = omega (arith, f.below); passes = f.passes; least = f.least }

-- If none is found, none passes.
pub first-none : (n : ℕ) (test : ℕ → Bool) → first n test ≡ none → (j : ℕ) → j < n → test j ≡ false
unfolding first
first-none n test h j lt = first_from-none n 0 test h j (omega arith) (omega arith)

-- If one passes, one is found.
pub first_found :
    (n : ℕ) (test : ℕ → Bool) (j : ℕ) → j < n → test j ≡ true → (k : ℕ) × (first n test ≡ some k)
first_found n test j lt t = go (first n test) refl
  where
    go : (o : Option ℕ) → first n test ≡ o → (k : ℕ) × (first n test ≡ some k)
    go none e = ground (arith, first-none n test e j lt)
    go (some k) e = (k, e)

first_from_cong :
    (r i : ℕ) (f g : ℕ → Bool)
    → ((j : ℕ) → i ≤ j → j < i + r → f j ≡ g j)
    → first_from r i f ≡ first_from r i g
unfolding first_from
first_from_cong zero i f g h = refl
first_from_cong (suc r) i f g h =
    ground (arith, h i, first_from_cong r (i + 1) f g (λ j ge lt. h j (omega arith) (omega arith)))

-- Two tests that agree find the same.
pub first_cong : (n : ℕ) (f g : ℕ → Bool) → ((j : ℕ) → j < n → f j ≡ g j) → first n f ≡ first n g
unfolding first
first_cong n f g h = first_from_cong n 0 f g (λ j ge lt. h j (omega arith))
