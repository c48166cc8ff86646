-- ===== src/ConfigFile/Numbers.antt =====
-- Numbers that fscanf reads in `main` of semaphore_restaurant/src/probSemSharedMemRestaurant.c.
use so_projeto.Prelude.{
  ℕ, zero, suc, ◌+◌, ◌-◌, ◌*◌, ◌/◌, ◌%◌, ◌≤◌, ◌<◌, ◌≡◌, refl, Bool, true, false, some, [], ◌∷◌,
  ◌++◌, ltb, inl, inr, Bool-cases, ℤ, pos, negsuc, arith,
}
use so_projeto.Logging.{digits, decimal}
use so_projeto.Logging.Digits.{ten_to, number_from, number-digits}
use so_projeto.CommandLine.{Text, digit, is_space, scan_digits, to_int, to_long, print_int}
use so_projeto.CommandLine.Decimal.{
  IsNumeral, IsInt, skip_leading, sign_leading, digit-numeral, digits-IsNumeral,
}
use so_projeto.ConfigFile.{scan_int, scan_signed}

-- It begins with a digit.
abbrev StartsNumeral : Text → Type 0
StartsNumeral [] = ⊥
StartsNumeral (c ∷ cs) = (48 ≤ c) × (c ≤ 57)

StartsNumeral-append : (cs ds : Text) → StartsNumeral cs → StartsNumeral (cs ++ ds)
StartsNumeral-append [] ds h = absurd h
StartsNumeral-append (c ∷ cs) ds h = h

digits-StartsNumeral : (fuel n : ℕ) → n < ten_to (suc fuel) → StartsNumeral (digits (suc fuel) n)
unfolding digits
digits-StartsNumeral zero n lt = elim (Bool-cases (ltb n 10)) [
  | inl small ↦ rw small (omega arith, ground arith)
  | inr large ↦ absurd (ground arith)
]
digits-StartsNumeral (suc fuel) n lt = elim (Bool-cases (ltb n 10)) [
  | inl small ↦ rw small (omega arith, ground arith)
  | inr large ↦ rw large (
      StartsNumeral-append (digits (suc fuel) (n / 10)) ((48 + n % 10) ∷ [])
        (digits-StartsNumeral fuel (n / 10) (omega arith)))
]

-- What follows a number begins with a blank.
abbrev pub StartsBlank : Text → Type 0
StartsBlank [] = ⊥
StartsBlank (c ∷ cs) = is_space c ≡ true

scan_digits-before :
    (n : ℕ) (cs rest : Text)
    → IsNumeral cs
    → StartsBlank rest
    → scan_digits 10 n (cs ++ rest) ≡ (number_from n cs, rest)
unfolding scan_digits digit
scan_digits-before n [] [] h b = absurd b
scan_digits-before n [] (c ∷ cs) h b = ground arith
scan_digits-before n (c ∷ cs) rest (lo, hi, h) b =
    ground (arith, digit-numeral c lo hi, scan_digits-before (n * 10 + (c - 48)) cs rest h b)

-- The sign and the digits of a number, before what follows it.
scan_signed-before :
    (minus : Bool) (cs rest : Text)
    → StartsNumeral cs
    → IsNumeral cs
    → StartsBlank rest
    → scan_signed (minus, cs ++ rest) ≡ (some (to_int (to_long minus (number_from 0 cs))), rest)
scan_signed-before minus [] rest s h b = absurd s
scan_signed-before minus (c ∷ cs) rest s h b =
    rw (digit-numeral c h.0 h.1) (rw (scan_digits-before 0 (c ∷ cs) rest h b) refl)

scan_numeral :
    (cs rest : Text)
    → StartsNumeral cs
    → IsNumeral cs
    → StartsBlank rest
    → (scan_int (cs ++ rest) ≡ (some (to_int (to_long false (number_from 0 cs))), rest))
      × (scan_int (b'-' ∷ (cs ++ rest)) ≡ (some (to_int (to_long true (number_from 0 cs))), rest))
unfolding scan_int
scan_numeral [] rest s h b = absurd s
scan_numeral (c ∷ cs) rest s h b = (
  rw (skip_leading c (cs ++ rest) (omega (arith, h.0)))
      (rw (sign_leading c (cs ++ rest) h.0) (scan_signed-before false (c ∷ cs) rest s h b)),
  rw (skip_leading b'-' (c ∷ cs ++ rest) (omega arith))
      (scan_signed-before true (c ∷ cs) rest s h b),
)

pub scan_int-print_int :
    (z : ℤ) (rest : Text)
    → IsInt z
    → StartsBlank rest
    → scan_int (print_int z ++ rest) ≡ (some z, rest)
unfolding to_int
scan_int-print_int (pos n) rest h b = ground (
  arith,
  (scan_numeral (decimal n) rest (digits-StartsNumeral 9 n (omega arith)) (digits-IsNumeral 10 n)
      b).0,
  number-digits 10 n (omega arith),
)
scan_int-print_int (negsuc n) rest h b = ground (
  arith,
  (scan_numeral (decimal (suc n)) rest (digits-StartsNumeral 9 (suc n) (omega arith))
      (digits-IsNumeral 10 (suc n)) b).1,
  number-digits 10 (suc n) (omega arith),
)
