-- ===== src/Logging/Digits.antt =====
-- The decimal numbers of semaphore_restaurant/src/logging.c, read back.
use so_projeto.Prelude.{
  ℕ, zero, suc, ◌+◌, ◌-◌, ◌*◌, ◌/◌, ◌%◌, ◌≤◌, ◌<◌, ◌≡◌, refl, Bool, false, ◌||◌, List, [], ◌∷◌,
  ◌++◌, ltb, ◌==◌, inl, inr, Bool-cases, Option, none, some, arith,
}
use so_projeto.Logging.{length, digits, table_text}

abbrev pub ten_to : ℕ → ℕ
ten_to zero = 1
ten_to (suc k) = 10 * ten_to k

abbrev pub number_from : ℕ → List ℕ → ℕ
number_from n [] = n
number_from n (c ∷ cs) = number_from (n * 10 + (c - 48)) cs

number_from-append :
    (n c : ℕ) (cs : List ℕ) → number_from n (cs ++ (c ∷ [])) ≡ number_from n cs * 10 + (c - 48)
number_from-append n c [] = refl
number_from-append n c (d ∷ ds) = number_from-append (n * 10 + (d - 48)) c ds

pub number-digits : (fuel n : ℕ) → n < ten_to fuel → number_from 0 (digits fuel n) ≡ n
unfolding digits
number-digits zero n lt = omega arith
number-digits (suc fuel) n lt = elim (Bool-cases (ltb n 10)) [
  | inl small ↦ ground arith
  | inr large ↦ ground (
    arith,
    number_from-append 0 (48 + n % 10) (digits fuel (n / 10)),
    number-digits fuel (n / 10) (omega arith),
  )
]

pub length-append : (xs ys : List ℕ) → length (xs ++ ys) ≡ length xs + length ys
length-append [] ys = omega arith
length-append (x ∷ xs) ys = omega (arith, length-append xs ys)

pub length-digits : (fuel w n : ℕ) → n < ten_to (suc w) → length (digits fuel n) ≤ suc w
unfolding digits
length-digits zero w n lt = omega arith
length-digits (suc fuel) zero n lt = ground arith
length-digits (suc fuel) (suc w) n lt = elim (Bool-cases (ltb n 10)) [
  | inl small ↦ ground arith
  | inr large ↦ ground (
    arith,
    length-append (digits fuel (n / 10)) ((48 + n % 10) ∷ []),
    length-digits fuel w (n / 10) (omega arith),
  )
]

-- What separates the words of a line.
abbrev pub is_blank : ℕ → Bool
is_blank c = c == 32 || c == 10

-- Without a separator in it.
abbrev pub IsSolid : List ℕ → Type 0
IsSolid [] = Unit
IsSolid (c ∷ cs) = (is_blank c ≡ false) × IsSolid cs

IsSolid-append : (xs : List ℕ) (c : ℕ) → IsSolid xs → is_blank c ≡ false → IsSolid (xs ++ (c ∷ []))
IsSolid-append [] c h e = (e, tt)
IsSolid-append (x ∷ xs) c h e = (h.0, IsSolid-append xs c h.1 e)

pub digits-IsSolid : (fuel n : ℕ) → IsSolid (digits fuel n)
unfolding digits
digits-IsSolid zero n = tt
digits-IsSolid (suc fuel) n = elim (Bool-cases (ltb n 10)) [
  | inl small ↦ rw small (ground arith, tt)
  | inr large ↦ rw large (
      IsSolid-append (digits fuel (n / 10)) (48 + n % 10) (digits-IsSolid fuel (n / 10))
        (ground arith))
]

pub table_text-IsSolid : (o : Option ℕ) → IsSolid (table_text o)
table_text-IsSolid none = (refl, tt)
table_text-IsSolid (some t) = digits-IsSolid 10 t
