-- ===== src/ConfigFile/Overrun.antt =====
-- A config file of semaphore_restaurant with more groups than the arrays have room for.
use so_projeto.Prelude.{
  count, ℕ, ◌+◌, ◌≤◌, ◌<◌, ◌≡◌, refl, ap, ◌∙◌, none, [], ◌∷◌, ◌++◌, ltb, inl, inr, Bool-cases, ℤ,
  pos, update, arith,
}
use so_projeto.Const.{max_groups}
use so_projeto.CommandLine.{Text, skip_spaces, print_int}
use so_projeto.CommandLine.Decimal.{IsInt}
use so_projeto.ConfigFile.{
  scan_int, Times, no_times, read_pair, read_pairs, read_config, with_groups,
}
use so_projeto.ConfigFile.Numbers.{scan_int-print_int}
use so_projeto.ConfigFile.RoundTrip.{
  Entries, entries_text, config_text, IsEntries, IsLine, StartsVisible, read_pair-entry,
  read_config-entries,
}

-- A line that is one too many.
read_pair-overrun :
    (g : ℕ) (t : Times) (a : ℤ) (rest : Text)
    → max_groups ≤ g
    → IsInt a
    → read_pair g t (b'\n' ∷ (print_int a ++ (b' ' ∷ rest))) ≡ none
unfolding read_pair scan_int skip_spaces
read_pair-overrun g t a rest ge ha = rw (scan_int-print_int a (b' ' ∷ rest) ha refl) (ground arith)

read_pairs-overrun :
    (es : Entries) (g : ℕ) (t : Times)
    → g ≤ max_groups
    → max_groups < g + count es
    → IsEntries es
    → read_pairs (count es) g t (b'\n' ∷ entries_text es) ≡ none
unfolding read_pairs
read_pairs-overrun [] g t le gt h = absurd (omega arith)
read_pairs-overrun ((a, b) ∷ es) g t le gt h = elim (Bool-cases (ltb g max_groups)) [
  | inl inside ↦ rw (read_pair-entry g t a b (entries_text es) (ground arith) h.0 h.1) (
      read_pairs-overrun es (g + 1) (record { start = update t.start g a; eat = update t.eat g b })
        (ground arith) (omega arith) h.2)
  | inr outside ↦
      rw (read_pair-overrun g t a (print_int b ++ (b'\n' ∷ entries_text es)) (ground arith) h.0)
        refl
]

-- `main` does not compare nGroups with MAXGROUPS: a file of the same form with more entries makes it
-- write past the end of `startTime`.
pub read_config-overrun :
    (title title' : Text) (es : Entries)
    → IsLine title
    → IsLine title'
    → StartsVisible title'
    → IsEntries es
    → max_groups < count es
    → count es < 2147483648
    → read_config (config_text title title' es) ≡ none
read_config-overrun title title' es l l' v h gt lt =
    read_config-entries title title' es l l' v lt
    ∙ ap (with_groups (pos (count es)))
        (read_pairs-overrun es 0 no_times (omega arith) (omega arith) h)
