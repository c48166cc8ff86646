-- ===== src/ConfigFile.antt =====
-- How `main` of semaphore_restaurant/src/probSemSharedMemRestaurant.c reads config.txt with fscanf. The
-- results of fscanf are ignored there: what it does not assign stays 0, as in a new block.
pub mod Numbers
pub mod RoundTrip
pub mod Overrun
use so_projeto.Prelude.{
  ℕ, zero, suc, ◌+◌, Bool, true, false, Option, none, some, List, [], ◌∷◌, ◌++◌, ℤ, pos, negsuc,
  ltb, ◌==◌, if◌then◌else◌, update,
}
use so_projeto.Const.{max_groups}
use so_projeto.CommandLine.{
  Text, skip_spaces, scan_digits, starts_with_digit, take_sign, to_long, to_int,
}

-- "%*[^\n]"
unfoldable pub drop_line : Text → Text
drop_line [] = []
drop_line (c ∷ cs) = let rest = drop_line cs in if c == b'\n' then c ∷ cs else rest

abbrev pub scan_signed : Bool × Text → Option ℤ × Text
scan_signed (minus, digits) =
    if starts_with_digit 10 digits
    then (let (n, rest) = scan_digits 10 0 digits in (some (to_int (to_long minus n)), rest))
    else (none, digits)

-- "%d": the number that is assigned, if there is one, and what has not been read.
unfoldable pub scan_int : Text → Option ℤ × Text
scan_int text = scan_signed (take_sign (skip_spaces text))

-- The arrays `startTime` and `eatTime`.
pub record Times : Type 0 where
  pub start : ℕ → ℤ
  pub eat : ℕ → ℤ

abbrev pub no_times : Times
no_times = record { start = λ g. pos 0; eat = λ g. pos 0 }

-- An assignment past the end of an array is `none`.
abbrev pub set_start : ℕ → ℤ → Times → Option Times
set_start g z t = if ltb g max_groups then some (record t { start = update t.start g z }) else none

abbrev pub set_eat : ℕ → ℤ → Times → Option Times
set_eat g z t = if ltb g max_groups then some (record t { eat = update t.eat g z }) else none

abbrev pub and_text : Text → Option Times → Option (Times × Text)
and_text text none = none
and_text text (some t) = some (t, text)

abbrev pub second_time : ℕ → Times → Option ℤ × Text → Option (Times × Text)
second_time g t (none, text) = some (t, text)
second_time g t (some z, text) = and_text text (set_eat g z t)

abbrev pub after_first : ℕ → Text → Option Times → Option (Times × Text)
after_first g text none = none
after_first g text (some t) = second_time g t (scan_int (skip_spaces text))

abbrev pub first_time : ℕ → Times → Option ℤ × Text → Option (Times × Text)
first_time g t (none, text) = some (t, text)
first_time g t (some z, text) = after_first g text (set_start g z t)

-- fscanf (fp, "%d %d", &startTime[g], &eatTime[g])
unfoldable pub read_pair : ℕ → Times → Text → Option (Times × Text)
read_pair g t text = first_time g t (scan_int text)

abbrev pub carry_on : (Times → Text → Option Times) → Option (Times × Text) → Option Times
carry_on next none = none
carry_on next (some (t, text)) = next t text

-- The loop from g on, with the rounds that are left.
unfoldable pub read_pairs : ℕ → ℕ → Times → Text → Option Times
read_pairs zero g t text = some t
read_pairs (suc left) g t text = carry_on (read_pairs left (g + 1)) (read_pair g t text)

abbrev pub rounds_of : ℤ → ℕ
rounds_of (pos n) = n
rounds_of (negsuc n) = 0

abbrev pub with_groups : ℤ → Option Times → Option (ℤ × Times)
with_groups n none = none
with_groups n (some t) = some (n, t)

-- "%d " assigns nGroups and skips what is blank; without a number nGroups stays 0.
abbrev pub after_groups : Option ℤ × Text → Option (ℤ × Times)
after_groups (none, text) = some (pos 0, no_times)
after_groups (some n, text) =
    with_groups n (read_pairs (rounds_of n) 0 no_times (drop_line (skip_spaces text)))

-- nGroups and the arrays, or `none` where an array has been overrun.
unfoldable pub read_config : Text → Option (ℤ × Times)
read_config text = after_groups (scan_int (drop_line text))
