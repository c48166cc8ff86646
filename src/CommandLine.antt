-- ===== src/CommandLine.antt =====
-- Numbers on a command line, as the `main` functions of semaphore_restaurant/src write them (sprintf with
-- `%d`) and read them (strtol with base 0). A text is the list of its bytes, without the final NUL.
pub mod Decimal
use so_projeto.Prelude.{
  ℕ, zero, suc, ◌+◌, ◌-◌, ◌*◌, ◌%◌, Bool, true, false, ◌&&◌, ◌||◌, not, Option, none, some, is_some,
  List, [], ◌∷◌, ◌++◌, ℤ, pos, negsuc, ltb, ◌==◌, if◌then◌else◌,
}
use so_projeto.Logging.{decimal}

abbrev pub Text : Type 0
Text = List ℕ

abbrev pub within : ℕ → ℕ → ℕ → Bool
within lo hi c = not (ltb c lo) && not (ltb hi c)

abbrev pub is_space : ℕ → Bool
is_space c = c == b' ' || within 9 13 c

unfoldable pub skip_spaces : Text → Text
skip_spaces [] = []
skip_spaces (c ∷ cs) = let rest = skip_spaces cs in if is_space c then rest else c ∷ cs

-- The value of a digit or letter, and of a digit in a base.
abbrev pub letter_value : ℕ → Option ℕ
letter_value c =
    if within b'0' b'9' c
    then some (c - b'0')
    else if within b'a' b'z' c
    then some (c - b'a' + 10)
    else if within b'A' b'Z' c
    then some (c - b'A' + 10)
    else none

abbrev pub below_base : ℕ → Option ℕ → Option ℕ
below_base base none = none
below_base base (some d) = if ltb d base then some d else none

unfoldable pub digit : ℕ → ℕ → Option ℕ
digit base c = below_base base (letter_value c)

-- The digits at the front, onto the value so far, and what follows them.
unfoldable pub scan_digits : ℕ → ℕ → Text → ℕ × Text
scan_digits base n [] = (n, [])
scan_digits base n (c ∷ cs) = elim (digit base c) [
  | none ↦ (n, c ∷ cs)
  | some d ↦ scan_digits base (n * base + d) cs
]

abbrev pub starts_with_digit : ℕ → Text → Bool
starts_with_digit base [] = false
starts_with_digit base (c ∷ cs) = is_some (digit base c)

-- The sign, true for a minus.
abbrev pub take_sign : Text → Bool × Text
take_sign [] = (false, [])
take_sign (c ∷ cs) =
    if c == b'-' then (true, cs) else if c == b'+' then (false, cs) else (false, c ∷ cs)

-- The base that a prefix stands for, if strtol is asked for base 0.
abbrev pub hex_or_octal : Text → ℕ × Text
hex_or_octal [] = (8, b'0' ∷ [])
hex_or_octal (x ∷ cs) =
    if (x == b'x' || x == b'X') && starts_with_digit 16 cs then (16, cs) else (8, b'0' ∷ x ∷ cs)

abbrev pub take_base : Text → ℕ × Text
take_base [] = (10, [])
take_base (c ∷ cs) = if c == b'0' then hex_or_octal cs else (10, c ∷ cs)

-- -n, as a `long` of 64 bits, which strtol keeps in range.
abbrev pub negate : ℕ → ℤ
negate zero = pos 0
negate (suc n) = negsuc n

abbrev pub to_long : Bool → ℕ → ℤ
to_long false n = pos (if ltb n 9223372036854775808 then n else 9223372036854775807)
to_long true n = if ltb n 9223372036854775808 then negate n else negsuc 9223372036854775807

-- With no digit the value is 0 and nothing has been read.
abbrev pub value_of : Text → Bool → ℕ × Text → ℤ × Text
value_of text minus (base, digits) =
    if starts_with_digit base digits
    then (let (n, rest) = scan_digits base 0 digits in (to_long minus n, rest))
    else (pos 0, text)

abbrev pub after_sign : Text → Bool × Text → ℤ × Text
after_sign text (minus, rest) = value_of text minus (take_base rest)

-- strtol (text, &tinp, 0): the value, and the text at `tinp`.
unfoldable pub strtol : Text → ℤ × Text
strtol text = after_sign text (take_sign (skip_spaces text))

-- (unsigned int), and its conversion to `int`.
abbrev pub int_of_word : ℕ → ℤ
int_of_word w = if ltb w 2147483648 then pos w else negsuc (4294967295 - w)

unfoldable pub to_int : ℤ → ℤ
to_int (pos n) = int_of_word (n % 4294967296)
to_int (negsuc n) = int_of_word (4294967295 - n % 4294967296)

-- sprintf (…, "%d", …)
abbrev pub print_int : ℤ → Text
print_int (pos n) = decimal n
print_int (negsuc n) = b'-' ∷ decimal (suc n)
