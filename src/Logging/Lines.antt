-- ===== src/Logging/Lines.antt =====
-- A line of the log of semaphore_restaurant/src/logging.c, read back word by word.
use so_projeto.Prelude.{
  ℕ, zero, suc, ◌+◌, ◌/◌, ◌%◌, ◌<◌, ◌≡◌, refl, ap, ◌∙◌, Bool, false, List, [], ◌∷◌, ◌++◌,
  if◌then◌else◌, Option, none, some, map, ◌==◌, Bool-cases, inl, inr, ltb, arith,
}
use so_projeto.State.{FullStat}
use so_projeto.Logging.{length, for_groups, digits, decimal, table_text, save_state_line}
use so_projeto.Logging.Digits.{
  number_from, number-digits, ten_to, length-digits, length-append, digits-IsSolid,
  table_text-IsSolid,
}
use so_projeto.Logging.Words.{
  words, Reads, IsWordIn, Reads-newline, Reads-blank, Reads-pad, Reads-for_groups,
}

-- Every number is narrower than its column. A table is a number or none.
pub record IsPrintable (s : FullStat) : Type 0 where
  pub chef : s.st.chef_stat < 100
  pub waiter : s.st.waiter_stat < 100
  pub receptionist : s.st.receptionist_stat < 100
  pub group : (g : ℕ) → g < s.n_groups → s.st.group_stat g < 1000
  pub queue : s.groups_waiting < 10000
  pub table : (g t : ℕ) → g < s.n_groups → s.assigned_table g ≡ some t → t < 1000

-- "." stands for no number.
abbrev pub is_dot : List ℕ → Bool
is_dot [] = false
is_dot (c ∷ cs) = c == 46

abbrev pub read_word : List ℕ → Option ℕ
read_word w = if is_dot w then none else some (number_from 0 w)

is_dot-append : (xs : List ℕ) (c : ℕ) → is_dot xs ≡ false → is_dot (xs ++ ((48 + c) ∷ [])) ≡ false
is_dot-append [] c h = ground arith
is_dot-append (x ∷ xs) c h = h

is_dot-digits : (fuel n : ℕ) → is_dot (digits fuel n) ≡ false
unfolding digits
is_dot-digits zero n = refl
is_dot-digits (suc fuel) n = elim (Bool-cases (ltb n 10)) [
  | inl small ↦ rw small (ground arith)
  | inr large ↦
      rw large (is_dot-append (digits fuel (n / 10)) (n % 10) (is_dot-digits fuel (n / 10)))
]

read_decimal : (n : ℕ) → n < 10000000000 → read_word (decimal n) ≡ some n
read_decimal n lt = rw (is_dot-digits 10 n) (ap some (number-digits 10 n lt))

read_table : (o : Option ℕ) → ((t : ℕ) → o ≡ some t → t < 1000) → read_word (table_text o) ≡ o
read_table none lt = refl
read_table (some t) lt = read_decimal t (omega (arith, lt t refl))

digits_nonempty : (fuel n : ℕ) → 0 < length (digits (suc fuel) n)
unfolding digits
digits_nonempty fuel n = ground (arith, length-append (digits fuel (n / 10)) ((48 + n % 10) ∷ []))

decimal-IsWordIn : (w n : ℕ) → n < ten_to (suc w) → IsWordIn (suc (suc w)) (decimal n)
decimal-IsWordIn w n lt = record {
  solid = digits-IsSolid 10 n;
  nonempty = digits_nonempty 9 n;
  narrow = omega (arith, length-digits 10 w n lt);
}

table_text-IsWordIn : (o : Option ℕ) → ((t : ℕ) → o ≡ some t → t < 1000) → IsWordIn 4 (table_text o)
table_text-IsWordIn none lt = record {
  solid = table_text-IsSolid none;
  nonempty = omega arith;
  narrow = omega arith;
}
table_text-IsWordIn (some t) lt = decimal-IsWordIn 2 t (lt t refl)

map-for_groups :
    (n : ℕ) (text : ℕ → List ℕ) (v : ℕ → Option ℕ) (ws : List (List ℕ)) (vs : List (Option ℕ))
    → ((g : ℕ) → g < n → read_word (text g) ≡ v g)
    → map read_word ws ≡ vs
    → map read_word (for_groups n (λ g. text g ∷ []) ++ ws) ≡ for_groups n (λ g. v g ∷ []) ++ vs
map-for_groups zero text v ws vs h e = e
map-for_groups (suc n) text v ws vs h e = rw (h 0 (omega arith)) (
    ap (λ x. v 0 ∷ x)
      (map-for_groups n (λ g. text (suc g)) (λ g. v (suc g)) ws vs (λ g lt. h (suc g) (omega arith))
        e))

module _ (s : FullStat) where
  abbrev table_words : List (List ℕ)
  table_words = for_groups s.n_groups (λ g. table_text (s.assigned_table g) ∷ []) ++ []

  abbrev line_words : List (List ℕ)
  line_words =
      decimal s.st.chef_stat
      ∷ decimal s.st.waiter_stat
      ∷ decimal s.st.receptionist_stat
      ∷ (for_groups s.n_groups (λ g. decimal (s.st.group_stat g) ∷ [])
          ++ (decimal s.groups_waiting ∷ table_words))

  line-Reads : IsPrintable s → Reads (save_state_line s) line_words
  unfolding save_state_line
  line-Reads p = Reads-pad (decimal-IsWordIn 1 s.st.chef_stat p.chef) (
      Reads-pad (decimal-IsWordIn 1 s.st.waiter_stat p.waiter) (
        Reads-pad (decimal-IsWordIn 1 s.st.receptionist_stat p.receptionist) (
          Reads-blank (
            Reads-for_groups s.n_groups
              (λ g lt. decimal-IsWordIn 2 (s.st.group_stat g) (p.group g lt))
              (Reads-pad (decimal-IsWordIn 3 s.groups_waiting p.queue) (
                Reads-for_groups s.n_groups
                  (λ g lt. table_text-IsWordIn (s.assigned_table g) (λ t e. p.table g t lt e))
                  Reads-newline))))))

  -- The line that `saveState` writes has, word by word, the states of the chef, the waiter, the
  -- receptionist and the groups, the number of groups that wait, and the table of each group or ".",
  -- if each number is narrower than its column.
  pub save_state-read :
      IsPrintable s
      → map read_word (words (save_state_line s))
        ≡ some s.st.chef_stat
          ∷ some s.st.waiter_stat
          ∷ some s.st.receptionist_stat
          ∷ (for_groups s.n_groups (λ g. some (s.st.group_stat g) ∷ [])
              ++ (some s.groups_waiting
                  ∷ (for_groups s.n_groups (λ g. s.assigned_table g ∷ []) ++ [])))
  save_state-read p =
      ap (map read_word) ((line-Reads p).splits [])
      ∙ (rw (read_decimal s.st.chef_stat (omega (arith, p.chef))) (
          rw (read_decimal s.st.waiter_stat (omega (arith, p.waiter))) (
            rw (read_decimal s.st.receptionist_stat (omega (arith, p.receptionist))) (
              ap
                (λ x. some s.st.chef_stat ∷ some s.st.waiter_stat ∷ some s.st.receptionist_stat ∷ x)
                groups))))
    where
      tables :
          map read_word table_words ≡ for_groups s.n_groups (λ g. s.assigned_table g ∷ []) ++ []
      tables =
          map-for_groups s.n_groups (λ g. table_text (s.assigned_table g)) s.assigned_table [] []
            (λ g lt. read_table (s.assigned_table g) (λ t e. p.table g t lt e)) refl

      groups :
          map read_word (
            for_groups s.n_groups (λ g. decimal (s.st.group_stat g) ∷ [])
            ++ (decimal s.groups_waiting ∷ table_words))
          ≡ for_groups s.n_groups (λ g. some (s.st.group_stat g) ∷ [])
            ++ (some s.groups_waiting
                ∷ (for_groups s.n_groups (λ g. s.assigned_table g ∷ []) ++ []))
      groups =
          map-for_groups s.n_groups (λ g. decimal (s.st.group_stat g))
            (λ g. some (s.st.group_stat g)) _ _
            (λ g lt. read_decimal (s.st.group_stat g) (omega (arith, p.group g lt)))
            (rw (read_decimal s.groups_waiting (omega (arith, p.queue)))
              (ap (λ x. some s.groups_waiting ∷ x) tables))
