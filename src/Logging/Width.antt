-- ===== src/Logging/Width.antt =====
-- The width of the columns of semaphore_restaurant/src/logging.c.
use so_projeto.Prelude.{
  ℕ, zero, suc, ◌+◌, ◌-◌, ◌*◌, ◌≤◌, ◌<◌, ◌≡◌, refl, List, [], ◌∷◌, ◌++◌, Option, none, some,
  Bool-cases, inl, inr, ltb, arith,
}
use so_projeto.State.{FullStat}
use so_projeto.Logging.{
  blank, newline, length, blanks, pad, for_groups, digits, decimal, table_text, two_digits,
  save_state_line, print_header,
}
use so_projeto.Logging.Digits.{ten_to, length-digits, length-append}
use so_projeto.Logging.Lines.{IsPrintable}

length-blanks : (k : ℕ) → length (blanks k) ≡ k
length-blanks zero = refl
length-blanks (suc k) = omega (arith, length-blanks k)

length-pad : (w : ℕ) (text : List ℕ) → length text ≤ w → length (pad w text) ≡ w
length-pad w text le =
    omega (arith, length-append (blanks (w - length text)) text, length-blanks (w - length text))

length-for_groups :
    (n w : ℕ) (text : ℕ → List ℕ)
    → ((g : ℕ) → g < n → length (text g) ≡ w)
    → length (for_groups n text) ≡ n * w
length-for_groups zero w text h = omega arith
length-for_groups (suc n) w text h = omega (
  arith,
  length-append (text 0) (for_groups n (λ g. text (suc g))),
  h 0 (omega arith),
  length-for_groups n w (λ g. text (suc g)) (λ g lt. h (suc g) (omega arith)),
)

length-two_digits : (g : ℕ) → g < 100 → length (two_digits g) ≡ 2
unfolding digits
length-two_digits g lt = elim (Bool-cases (ltb g 10)) [
  | inl small ↦ ground arith
  | inr large ↦ ground arith
]

-- The columns, each with its width.
length-columns :
    (a b c d : List ℕ) (n : ℕ) (f h : ℕ → List ℕ)
    → length a ≡ 3
    → length b ≡ 3
    → length c ≡ 3
    → ((g : ℕ) → g < n → length (f g) ≡ 4)
    → length d ≡ 5
    → ((g : ℕ) → g < n → length (h g) ≡ 4)
    → length
        (a ++ (b ++ (c ++ (blank ∷ (for_groups n f ++ (d ++ (for_groups n h ++ (newline ∷ []))))))))
      ≡ 16 + 8 * n
length-columns a b c d n f h la lb lc lf ld lh =
    let tables = for_groups n h ++ (newline ∷ []) in
    let groups = for_groups n f ++ (d ++ tables) in
    omega (
      arith,
      length-append a (b ++ (c ++ (blank ∷ groups))),
      length-append b (c ++ (blank ∷ groups)),
      length-append c (blank ∷ groups),
      length-append (for_groups n f) (d ++ tables),
      length-append d tables,
      length-append (for_groups n h) (newline ∷ []),
      length-for_groups n 4 f lf,
      length-for_groups n 4 h lh,
      la,
      lb,
      lc,
      ld,
    )

length-decimal_column : (w n : ℕ) → n < ten_to (suc w) → length (pad (suc w) (decimal n)) ≡ suc w
length-decimal_column w n lt = length-pad (suc w) (decimal n) (length-digits 10 w n lt)

length-table_column :
    (o : Option ℕ) → ((t : ℕ) → o ≡ some t → t < 1000) → length (pad 4 (table_text o)) ≡ 4
length-table_column none lt = refl
length-table_column (some t) lt = length-decimal_column 3 t (omega (arith, lt t refl))

module _ (s : FullStat) where
  pub header_width : s.n_groups ≤ 100 → length (print_header s) ≡ 16 + 8 * s.n_groups
  unfolding print_header
  header_width le =
      length-columns (pad 3 (67 ∷ 72 ∷ [])) (pad 3 (87 ∷ 84 ∷ [])) (pad 3 (82 ∷ 67 ∷ []))
        (pad 5 (103 ∷ 87 ∷ 84 ∷ [])) s.n_groups (λ g. blank ∷ 71 ∷ two_digits g)
        (λ g. blank ∷ 84 ∷ two_digits g) refl refl refl
        (λ g lt. omega (arith, length-two_digits g (omega arith))) refl
        λ g lt. omega (arith, length-two_digits g (omega arith))

  line_width : IsPrintable s → length (save_state_line s) ≡ 16 + 8 * s.n_groups
  unfolding save_state_line
  line_width p =
      length-columns (pad 3 (decimal s.st.chef_stat)) (pad 3 (decimal s.st.waiter_stat))
        (pad 3 (decimal s.st.receptionist_stat)) (pad 5 (decimal s.groups_waiting)) s.n_groups
        (λ g. pad 4 (decimal (s.st.group_stat g))) (λ g. pad 4 (table_text (s.assigned_table g)))
        (length-decimal_column 2 s.st.chef_stat (omega (arith, p.chef)))
        (length-decimal_column 2 s.st.waiter_stat (omega (arith, p.waiter)))
        (length-decimal_column 2 s.st.receptionist_stat (omega (arith, p.receptionist)))
        (λ g lt. length-decimal_column 3 (s.st.group_stat g) (omega (arith, p.group g lt)))
        (length-decimal_column 4 s.groups_waiting (omega (arith, p.queue)))
        λ g lt. length-table_column (s.assigned_table g) (λ t e. p.table g t lt e)

  -- With at most 100 groups, a line whose numbers are narrower than their columns is as long as the
  -- header: 16 characters and 8 for each group.
  pub line_as_wide_as_header :
      s.n_groups ≤ 100
      → IsPrintable s
      → (length (save_state_line s) ≡ length (print_header s))
        × (length (print_header s) ≡ 16 + 8 * s.n_groups)
  line_as_wide_as_header le p = (omega (arith, line_width p, header_width le), header_width le)
