-- ===== src/CommandLine/Decimal.antt =====
-- A number that sprintf prints with `%d` is what strtol with base 0 reads in the `main` functions of
-- semaphore_restaurant/src.
use so_projeto.Prelude.{
  ℕ, zero, suc, ◌+◌, ◌-◌, ◌*◌, ◌/◌, ◌%◌, ◌≤◌, ◌<◌, ◌≡◌, refl, Bool, true, false, some, [], ◌∷◌,
  ◌++◌, ltb, inl, inr, Bool-cases, ℤ, pos, negsuc, arith,
}
use so_projeto.Logging.{digits, decimal}
use so_projeto.Logging.Digits.{ten_to, number_from, number-digits}
use so_projeto.CommandLine.{
  Text, digit, scan_digits, skip_spaces, take_sign, take_base, starts_with_digit, after_sign,
  strtol, to_int, to_long, negate, print_int,
}

-- Decimal digits only.
abbrev pub IsNumeral : Text → Type 0
IsNumeral [] = Unit
IsNumeral (c ∷ cs) = (48 ≤ c) × (c ≤ 57) × IsNumeral cs

pub digit-numeral : (c : ℕ) → 48 ≤ c → c ≤ 57 → digit 10 c ≡ some (c - 48)
unfolding digit
digit-numeral c le ge = ground arith

scan_digits-numeral :
    (n : ℕ) (cs : Text) → IsNumeral cs → scan_digits 10 n cs ≡ (number_from n cs, [])
unfolding scan_digits
scan_digits-numeral n [] h = refl
scan_digits-numeral n (c ∷ cs) (lo, hi, h) =
    rw (digit-numeral c lo hi, scan_digits) (scan_digits-numeral (n * 10 + (c - 48)) cs h)

IsNumeral-append : (cs : Text) (d : ℕ) → IsNumeral cs → d < 10 → IsNumeral (cs ++ ((48 + d) ∷ []))
IsNumeral-append [] d h lt = (omega arith, omega arith, tt)
IsNumeral-append (c ∷ cs) d (lo, hi, h) lt = (lo, hi, IsNumeral-append cs d h lt)

pub digits-IsNumeral : (fuel n : ℕ) → IsNumeral (digits fuel n)
unfolding digits
digits-IsNumeral zero n = tt
digits-IsNumeral (suc fuel) n = elim (Bool-cases (ltb n 10)) [
  | inl small ↦ rw small (omega arith, ground arith, tt)
  | inr large ↦ rw large (
      IsNumeral-append (digits fuel (n / 10)) (n % 10) (digits-IsNumeral fuel (n / 10))
        (omega arith))
]

-- A number that is not 0 begins with another digit than 0.
abbrev IsLeading : Text → Type 0
IsLeading [] = ⊥
IsLeading (c ∷ cs) = (49 ≤ c) × (c ≤ 57)

IsLeading-append : (cs ds : Text) → IsLeading cs → IsLeading (cs ++ ds)
IsLeading-append [] ds h = absurd h
IsLeading-append (c ∷ cs) ds h = h

digits-IsLeading : (fuel n : ℕ) → 0 < n → n < ten_to fuel → IsLeading (digits fuel n)
unfolding digits
digits-IsLeading zero n lo hi = absurd (omega arith)
digits-IsLeading (suc fuel) n lo hi = elim (Bool-cases (ltb n 10)) [
  | inl small ↦ rw small (omega arith, ground arith)
  | inr large ↦ rw large (
      IsLeading-append (digits fuel (n / 10)) ((48 + n % 10) ∷ [])
        (digits-IsLeading fuel (n / 10) (ground arith) (omega arith)))
]

scan_leading : (cs : Text) → IsLeading cs → IsNumeral cs → take_base cs ≡ (10, cs)
scan_leading [] h g = absurd h
scan_leading (c ∷ cs) (lo, hi) g = ground arith

starts_leading : (cs : Text) → IsLeading cs → starts_with_digit 10 cs ≡ true
starts_leading [] h = absurd h
starts_leading (c ∷ cs) (lo, hi) = rw (digit-numeral c (omega arith) hi) refl

-- Past the sign there is a digit other than 0.
after_sign-leading :
    (text cs : Text) (minus : Bool)
    → IsLeading cs
    → IsNumeral cs
    → after_sign text (minus, cs) ≡ (to_long minus (number_from 0 cs), [])
after_sign-leading text cs minus h g =
    rw (scan_leading cs h g) (rw (starts_leading cs h) (rw (scan_digits-numeral 0 cs g) refl))

pub skip_leading : (c : ℕ) (cs : Text) → 45 ≤ c → skip_spaces (c ∷ cs) ≡ c ∷ cs
unfolding skip_spaces
skip_leading c cs lo = ground arith

pub sign_leading : (c : ℕ) (cs : Text) → 48 ≤ c → take_sign (c ∷ cs) ≡ (false, c ∷ cs)
sign_leading c cs lo = ground arith

strtol-leading :
    (cs : Text)
    → IsLeading cs
    → IsNumeral cs
    → (strtol cs ≡ (to_long false (number_from 0 cs), []))
      × (strtol (b'-' ∷ cs) ≡ (to_long true (number_from 0 cs), []))
unfolding strtol
strtol-leading [] h g = absurd h
strtol-leading (c ∷ cs) h g = (
  rw (skip_leading c cs (omega arith)) (
      rw (sign_leading c cs (omega (arith, h.0))) (after_sign-leading (c ∷ cs) (c ∷ cs) false h g)),
  rw (skip_leading b'-' (c ∷ cs) (omega arith))
      (after_sign-leading (b'-' ∷ c ∷ cs) (c ∷ cs) true h g),
)

-- An `int`.
abbrev pub IsInt : ℤ → Type 0
IsInt (pos n) = n < 2147483648
IsInt (negsuc n) = n < 2147483648

strtol-digits :
    (n : ℕ)
    → 0 < n
    → n ≤ 2147483648
    → (strtol (decimal n) ≡ (pos n, [])) × (strtol (b'-' ∷ decimal n) ≡ (negate n, []))
strtol-digits n lo hi =
    let (plus, minus) =
      strtol-leading (decimal n) (digits-IsLeading 10 n lo (omega arith)) (digits-IsNumeral 10 n) in
    let e = number-digits 10 n (omega arith) in (ground (arith, plus, e), ground (arith, minus, e))

-- Every `int` that is printed is read back to the last byte, and the casts leave it as it is.
pub strtol-print_int : (z : ℤ) → IsInt z → (strtol (print_int z) ≡ (z, [])) × (to_int z ≡ z)
unfolding to_int strtol skip_spaces scan_digits digit digits
strtol-print_int (pos zero) h = (refl, refl)
strtol-print_int (pos (suc n)) h =
    ((strtol-digits (suc n) (omega arith) (omega arith)).0, ground arith)
strtol-print_int (negsuc n) h =
    ((strtol-digits (suc n) (omega arith) (omega arith)).1, ground arith)
