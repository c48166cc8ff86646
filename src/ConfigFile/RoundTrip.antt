-- ===== src/ConfigFile/RoundTrip.antt =====
-- A file in the form of semaphore_restaurant/run/config.txt is read back.
use so_projeto.Prelude.{
  count, ℕ, ◌+◌, ◌-◌, ◌≤◌, ◌<◌, ◌≡◌, ◌≢◌, refl, ap, ◌∙◌, false, some, List, [], ◌∷◌, ◌++◌, ltb,
  ◌==◌, if◌then◌else◌, inl, inr, Bool-cases, ℤ, pos, update, arith,
}
use so_projeto.Const.{max_groups}
use so_projeto.CommandLine.{Text, is_space, skip_spaces, print_int}
use so_projeto.CommandLine.Decimal.{IsInt}
use so_projeto.ConfigFile.{
  drop_line, scan_int, Times, no_times, read_pair, read_pairs, read_config, with_groups,
}
use so_projeto.ConfigFile.Numbers.{StartsBlank, scan_int-print_int}

-- A start time and a time to eat for each group.
abbrev pub Entries : Type 0
Entries = List (ℤ × ℤ)

-- The lines of the groups, each behind the end of the line before.
abbrev pub entries_text : Entries → Text
entries_text [] = []
entries_text ((a, b) ∷ es) = print_int a ++ (b' ' ∷ (print_int b ++ (b'\n' ∷ entries_text es)))

-- A title, the number of groups, a title, and the lines.
abbrev pub config_text : Text → Text → Entries → Text
config_text title title' es =
    title
    ++ (b'\n' ∷ (print_int (pos (count es)) ++ (b'\n' ∷ (title' ++ (b'\n' ∷ entries_text es)))))

-- The times of the groups in order, and 0 beyond.
abbrev pub start_of : Entries → ℕ → ℤ
start_of [] i = pos 0
start_of ((a, b) ∷ es) i = if i == 0 then a else start_of es (i - 1)

abbrev pub eat_of : Entries → ℕ → ℤ
eat_of [] i = pos 0
eat_of ((a, b) ∷ es) i = if i == 0 then b else eat_of es (i - 1)

abbrev pub IsEntries : Entries → Type 0
IsEntries [] = Unit
IsEntries ((a, b) ∷ es) = IsInt a × IsInt b × IsEntries es

-- Without an end of line.
abbrev pub IsLine : Text → Type 0
IsLine [] = Unit
IsLine (c ∷ cs) = (c ≢ b'\n') × IsLine cs

abbrev pub StartsVisible : Text → Type 0
StartsVisible [] = ⊥
StartsVisible (c ∷ cs) = is_space c ≡ false

drop_line-line : (cs rest : Text) → IsLine cs → drop_line (cs ++ (b'\n' ∷ rest)) ≡ b'\n' ∷ rest
unfolding drop_line
drop_line-line [] rest h = refl
drop_line-line (c ∷ cs) rest (ne, h) = ground (arith, drop_line-line cs rest h)

scan_int-newline : (text : Text) → scan_int (b'\n' ∷ text) ≡ scan_int text
unfolding scan_int skip_spaces
scan_int-newline text = refl

skip_spaces-newline :
    (cs rest : Text) → StartsVisible cs → skip_spaces (b'\n' ∷ (cs ++ rest)) ≡ cs ++ rest
unfolding skip_spaces
skip_spaces-newline [] rest h = absurd h
skip_spaces-newline (c ∷ cs) rest h = rw h refl

-- What the loop leaves in the arrays from `g` on.
abbrev stored : ℕ → Entries → Times → Times
stored g [] t = t
stored g ((a, b) ∷ es) t =
    stored (g + 1) es (record { start = update t.start g a; eat = update t.eat g b })

skip_spaces_twice : (text : Text) → skip_spaces (skip_spaces text) ≡ skip_spaces text
unfolding skip_spaces
skip_spaces_twice [] = refl
skip_spaces_twice (c ∷ cs) = elim (Bool-cases (is_space c)) [
  | inl blank ↦ rw blank (skip_spaces_twice cs)
  | inr visible ↦ rw visible (rw visible refl)
]

scan_int-skip_spaces : (text : Text) → scan_int (skip_spaces text) ≡ scan_int text
unfolding scan_int
scan_int-skip_spaces text = rw (skip_spaces_twice text) refl

scan_int-blank :
    (z : ℤ) (rest : Text)
    → IsInt z
    → StartsBlank rest
    → scan_int (skip_spaces (b' ' ∷ (print_int z ++ rest))) ≡ (some z, rest)
unfolding skip_spaces
scan_int-blank z rest h b =
    scan_int-skip_spaces (print_int z ++ rest) ∙ scan_int-print_int z rest h b

pub read_pair-entry :
    (g : ℕ) (t : Times) (a b : ℤ) (rest : Text)
    → g < max_groups
    → IsInt a
    → IsInt b
    → read_pair g t (b'\n' ∷ (print_int a ++ (b' ' ∷ (print_int b ++ (b'\n' ∷ rest)))))
      ≡ some (record { start = update t.start g a; eat = update t.eat g b }, b'\n' ∷ rest)
unfolding read_pair scan_int skip_spaces
read_pair-entry g t a b rest lt ha hb =
    rw (scan_int-print_int a (b' ' ∷ (print_int b ++ (b'\n' ∷ rest))) ha refl)
      (ground (arith, scan_int-blank b (b'\n' ∷ rest) hb refl))

read_pairs-entries :
    (es : Entries) (g : ℕ) (t : Times)
    → g + count es ≤ max_groups
    → IsEntries es
    → read_pairs (count es) g t (b'\n' ∷ entries_text es) ≡ some (stored g es t)
unfolding read_pairs
read_pairs-entries [] g t le h = refl
read_pairs-entries ((a, b) ∷ es) g t le h =
    rw (read_pair-entry g t a b (entries_text es) (omega arith) h.0 h.1) (
      read_pairs-entries es (g + 1) (record { start = update t.start g a; eat = update t.eat g b })
        (omega arith) h.2)

stored-start :
    (es : Entries) (g : ℕ) (t : Times)
    → ((k : ℕ) → g ≤ k → t.start k ≡ pos 0)
    → (k : ℕ) → (stored g es t).start k ≡ (if ltb k g then t.start k else start_of es (k - g))
stored-start [] g t z k = elim (Bool-cases (ltb k g)) [
  | inl below ↦ ground arith
  | inr above ↦ ground (arith, z k)
]
stored-start ((a, b) ∷ es) g t z k = ground (
  arith,
  stored-start es (g + 1) (record { start = update t.start g a; eat = update t.eat g b })
      (λ j le. ground (arith, z j)) k,
)

stored-eat :
    (es : Entries) (g : ℕ) (t : Times)
    → ((k : ℕ) → g ≤ k → t.eat k ≡ pos 0)
    → (k : ℕ) → (stored g es t).eat k ≡ (if ltb k g then t.eat k else eat_of es (k - g))
stored-eat [] g t z k = elim (Bool-cases (ltb k g)) [
  | inl below ↦ ground arith
  | inr above ↦ ground (arith, z k)
]
stored-eat ((a, b) ∷ es) g t z k = ground (
  arith,
  stored-eat es (g + 1) (record { start = update t.start g a; eat = update t.eat g b })
      (λ j le. ground (arith, z j)) k,
)

-- The scans up to the loop.
pub read_config-entries :
    (title title' : Text) (es : Entries)
    → IsLine title
    → IsLine title'
    → StartsVisible title'
    → count es < 2147483648
    → read_config (config_text title title' es)
      ≡ with_groups (pos (count es)) (read_pairs (count es) 0 no_times (b'\n' ∷ entries_text es))
unfolding read_config scan_int skip_spaces
read_config-entries title title' es l l' v h = rw (drop_line-line title _ l) (
    rw (scan_int-print_int (pos (count es)) (b'\n' ∷ (title' ++ (b'\n' ∷ entries_text es))) h refl)
      (rw (skip_spaces-newline title' (b'\n' ∷ entries_text es) v)
        (rw (drop_line-line title' (entries_text es) l') refl)))

-- A file with at most MAXGROUPS entries of `int`s, whose titles are single lines and whose second
-- title begins with no blank, is read to the number of its entries and their times, with 0 beyond.
pub read_config-config_text :
    (title title' : Text) (es : Entries)
    → IsLine title
    → IsLine title'
    → StartsVisible title'
    → IsEntries es
    → count es ≤ max_groups
    → (t : Times) × (read_config (config_text title title' es) ≡ some (pos (count es), t))
      × ((g : ℕ) → (t.start g ≡ start_of es g) × (t.eat g ≡ eat_of es g))
read_config-config_text title title' es l l' v h le = (
  stored 0 es no_times,
  read_config-entries title title' es l l' v (omega arith)
      ∙ ap (with_groups (pos (count es))) (read_pairs-entries es 0 no_times (omega arith) h),
  λ g. (
    ground (arith, stored-start es 0 no_times (λ k le'. refl) g),
    ground (arith, stored-eat es 0 no_times (λ k le'. refl) g),
  ),
)
