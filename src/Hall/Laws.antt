-- ===== src/Hall/Laws.antt =====
-- What every run of the hall keeps true.
use so_projeto.Prelude.{
  ℕ, ◌+◌, ◌<◌, ◌≡◌, ◌≢◌, refl, Bool, false, List, [], ◌∷◌, ◌++◌, ◌==◌, bit, update, inl, inr,
  Bool-cases, arith,
}
use so_projeto.SharedData.{SemId, wait_for_table}
use so_projeto.Hall.{
  Place, outside, queued, gone, seated, Hall, Ask, IsFull, Visit, takes_table, queues_up, leaves,
  passes_on, Visits, opening, then_visit,
}

-- How often a group has been called to a table.
abbrev pub is_call : ℕ → SemId → Bool
is_call g (wait_for_table h) = g == h
is_call g _ = false

unfoldable pub calls : ℕ → List SemId → ℕ
calls g [] = 0
calls g (i ∷ is) = bit (is_call g i) + calls g is

abbrev pub has_sat : Place → ℕ
has_sat outside = 0
has_sat queued = 0
has_sat gone = 1
has_sat (seated t) = 1

calls-append : (g : ℕ) (xs ys : List SemId) → calls g (xs ++ ys) ≡ calls g xs + calls g ys
unfolding calls
calls-append g [] ys = omega arith
calls-append g (x ∷ xs) ys = ground (arith, calls-append g xs ys)

-- Nobody waits for a table that is free; two groups have no table in common; who has sat has been
-- called once, and nobody else has been called.
pub record IsOrderly (n : ℕ) (given : List SemId) (p : Hall) : Type 0 where
  pub busy : (g : ℕ) → g < n → p g ≡ queued → IsFull n p
  pub apart : (g h t : ℕ) → g < n → h < n → p g ≡ seated t → p h ≡ seated t → g ≡ h
  pub called_once : (g : ℕ) → calls g given ≡ has_sat (p g)

step-calls :
    (n : ℕ) (p q : Hall) (a : Ask) (more : List SemId) (g : ℕ)
    → Visit n p a more q
    → calls g more + has_sat (p g) ≡ has_sat (q g)
unfolding calls
step-calls n p q a more g (takes_table h t lt o f) = elim (Bool-cases (h == g)) [
  | inl e ↦ ground (arith, o)
  | inr e ↦ ground arith
]
step-calls n p q a more g (queues_up h lt o full) = elim (Bool-cases (h == g)) [
  | inl e ↦ ground (arith, o)
  | inr e ↦ ground arith
]
step-calls n p q a more g (leaves h t lt sits nobody) = elim (Bool-cases (h == g)) [
  | inl e ↦ ground (arith, sits)
  | inr e ↦ ground arith
]
step-calls n p q a more g (passes_on h t j lt sits first) = elim (Bool-cases (j == g)) [
  | inl e ↦ ground (arith, sits, first.queues)
  | inr e ↦ elim (Bool-cases (h == g)) [ inl f ↦ ground (arith, sits) | inr f ↦ ground arith ]
]

-- A table that is held stays held while others move, or is passed on.
keeps-IsFull :
    (n : ℕ) (p : Hall) (h : ℕ) (x : Place)
    → ((t : ℕ) → p h ≢ seated t)
    → IsFull n p
    → IsFull n (update p h x)
keeps-IsFull n p h x standing full t lt =
    let (j, lj, e) = full t lt in (j, lj, ground (arith, standing t))

passes-IsFull :
    (n : ℕ) (p : Hall) (g t h : ℕ)
    → p g ≡ seated t
    → p h ≡ queued
    → h < n
    → IsFull n p
    → IsFull n (update (update p g gone) h (seated t))
passes-IsFull n p g t h sits waits lh full u lu =
    let (j, lj, e) = full u lu in
    elim (Bool-cases (g == j)) [
      | inl same ↦ (h, lh, ground arith)
      | inr other ↦ (j, lj, ground arith)
    ]

stays_busy :
    (n : ℕ) (p q : Hall) (a : Ask) (more : List SemId)
    → ((g : ℕ) → g < n → p g ≡ queued → IsFull n p)
    → Visit n p a more q
    → (g : ℕ) → g < n
    → q g ≡ queued
    → IsFull n q
stays_busy n p q a more busy (takes_table h t lt o f) g lg e =
    let (j, lj, ej) = busy g lg (ground arith) t f.exists in absurd (f.free j lj ej)
stays_busy n p q a more busy (queues_up h lt o full) g lg e =
    keeps-IsFull n p h queued (λ t x. ground (arith, o)) full
stays_busy n p q a more busy (leaves h t lt sits nobody) g lg e =
    absurd (nobody g lg (ground arith))
stays_busy n p q a more busy (passes_on h t j lt sits first) g lg e =
    passes-IsFull n p h t j sits first.queues first.exists (busy g lg (ground arith))

stay_apart :
    (n : ℕ) (p q : Hall) (a : Ask) (more : List SemId)
    → ((g h t : ℕ) → g < n → h < n → p g ≡ seated t → p h ≡ seated t → g ≡ h)
    → Visit n p a more q
    → (g h t : ℕ) → g < n
    → h < n
    → q g ≡ seated t
    → q h ≡ seated t
    → g ≡ h
stay_apart n p q a more apart (takes_table j u lt o f) g h t lg lh eg eh =
    ground (arith, apart g h t lg lh, f.free g lg, f.free h lh)
stay_apart n p q a more apart (queues_up j lt o full) g h t lg lh eg eh =
    ground (arith, apart g h t lg lh)
stay_apart n p q a more apart (leaves j u lt sits nobody) g h t lg lh eg eh =
    ground (arith, apart g h t lg lh)
stay_apart n p q a more apart (passes_on j u k lt sits first) g h t lg lh eg eh =
    ground (arith, apart g h t lg lh, apart g j t lg lt, apart h j t lh lt)

pub Visits-IsOrderly :
    (n : ℕ) (asks : List Ask) (given : List SemId) (p : Hall)
    → Visits n asks given p
    → IsOrderly n given p
unfolding calls
Visits-IsOrderly n asks given p opening = record {
  busy = λ g lg e. absurd (ground arith);
  apart = λ g h t lg lh eg eh. absurd (ground arith);
  called_once = λ g. refl;
}
Visits-IsOrderly n asks given p
      (then_visit {asks = xs} {given = is} {p = before} a more run visit) =
    let o = Visits-IsOrderly n xs is before run in
    record {
      busy = stays_busy n before p a more o.busy visit;
      apart = stay_apart n before p a more o.apart visit;
      called_once = λ g.
          rw (calls-append g is more, o.called_once g)
            (ground (arith, step-calls n before p a more g visit));
    }
