-- ===== src/Logging.antt =====
-- semaphore_restaurant/src/logging.c: the text of the log, as lists of character codes. Opening and
-- closing the file, or writing to stdout, is not modelled.
pub mod Digits
pub mod Words
pub mod Lines
pub mod Width
pub mod Small
pub mod Queue
pub mod Saved
use Prim.Native.Char.{code}
use Prim.Native.String.{String}
use so_projeto.Prelude.{
  ℕ, zero, suc, ◌+◌, ◌-◌, ◌/◌, ◌%◌, Option, none, some, List, [], ◌∷◌, ◌++◌, ltb, if◌then◌else◌,
}
use so_projeto.State.{FullStat}

abbrev pub blank : ℕ
blank = 32

abbrev pub newline : ℕ
newline = 10

abbrev pub length : List ℕ → ℕ
length [] = 0
length (x ∷ xs) = suc (length xs)

-- The digits of a number, on fuel. An int has at most 10.
unfoldable pub digits : ℕ → ℕ → List ℕ
digits zero n = []
digits (suc fuel) n =
    let rest = digits fuel (n / 10) in
    if ltb n 10 then (48 + n) ∷ [] else rest ++ ((48 + n % 10) ∷ [])

abbrev pub decimal : ℕ → List ℕ
decimal n = digits 10 n

abbrev pub blanks : ℕ → List ℕ
blanks zero = []
blanks (suc k) = blank ∷ blanks k

-- A conversion of printf with a width, `%4d` or `%4s`.
abbrev pub pad : ℕ → List ℕ → List ℕ
pad width text = blanks (width - length text) ++ text

-- for (g = 0; g < n; g++) fprintf (…);
abbrev pub for_groups {ℓ} : {A : Type ℓ} → ℕ → (ℕ → List A) → List A
for_groups zero f = []
for_groups (suc n) f = f 0 ++ for_groups n (λ g. f (suc g))

-- A table, or "." in its place.
abbrev pub table_text : Option ℕ → List ℕ
table_text (some t) = decimal t
table_text none = 46 ∷ []

-- `saveState`: the line that it appends.
unfoldable pub save_state_line : FullStat → List ℕ
save_state_line s =
    pad 3 (decimal s.st.chef_stat)
    ++ (pad 3 (decimal s.st.waiter_stat)
        ++ (pad 3 (decimal s.st.receptionist_stat)
            ++ (blank
                ∷ (for_groups s.n_groups (λ g. pad 4 (decimal (s.st.group_stat g)))
                    ++ (pad 5 (decimal s.groups_waiting)
                        ++ (for_groups s.n_groups (λ g. pad 4 (table_text (s.assigned_table g)))
                            ++ (newline ∷ [])))))))

-- `%02d`
abbrev pub two_digits : ℕ → List ℕ
two_digits g = if ltb g 10 then 48 ∷ decimal g else decimal g

-- `printHeader`: CH, WT, RC, then G00, G01, …, gWT, T00, T01, …
unfoldable pub print_header : FullStat → List ℕ
print_header s =
    pad 3 (67 ∷ 72 ∷ [])
    ++ (pad 3 (87 ∷ 84 ∷ [])
        ++ (pad 3 (82 ∷ 67 ∷ [])
            ++ (blank
                ∷ (for_groups s.n_groups (λ g. blank ∷ 71 ∷ two_digits g)
                    ++ (pad 5 (103 ∷ 87 ∷ 84 ∷ [])
                        ++ (for_groups s.n_groups (λ g. blank ∷ 84 ∷ two_digits g)
                            ++ (newline ∷ [])))))))

abbrev pub codes : String → List ℕ
codes String.[] = []
codes (String.◌∷◌ c cs) = code c ∷ codes cs

-- `createLog`, for what it writes.
unfoldable pub create_log : FullStat → List ℕ
create_log s =
    pad 31 (blank ∷ [])
    ++ (codes "Restaurant - Description of the internal state"
        ++ (newline ∷ newline ∷ print_header s))

-- The lines of the states that have been saved, and the file: `main` creates it and each call of
-- `saveState` appends to it.
abbrev pub lines_text : List FullStat → List ℕ
lines_text [] = []
lines_text (s ∷ ss) = save_state_line s ++ lines_text ss

abbrev pub log_text : FullStat → List FullStat → List ℕ
log_text s saved = create_log s ++ lines_text saved
