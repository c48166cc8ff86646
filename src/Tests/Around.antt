-- ===== src/Tests/Around.antt =====
-- config.txt, and the run of `main` around the restaurant, under the system calls of SystemV.
use so_projeto.Prelude.{ℕ, zero, suc, ◌≡◌, refl, Option, none, some, [], ◌∷◌, ℤ, pos, arith}
use so_projeto.CommandLine.{Text, skip_spaces, digit, scan_digits, to_int}
use so_projeto.ConfigFile.{Times, read_config}
use so_projeto.ConfigFile.RoundTrip.{
  Entries, config_text, start_of, eat_of, read_config-config_text,
}
use so_projeto.ConfigFile.Overrun.{read_config-overrun}
use so_projeto.Simulation.{Log}
use so_projeto.Tests.Files.{paper, desk}
use so_projeto.ConfigFile.{drop_line, scan_int, read_pair, read_pairs}
use so_projeto.CommandLine.{skip_spaces, scan_digits, digit}
use so_projeto.Tests.Starting.{text_of}

-- semaphore_restaurant/run/config.txt
abbrev entries : Entries
entries =
    (pos 50000, pos 100000)
    ∷ (pos 10000, pos 600000)
    ∷ (pos 10000, pos 200000)
    ∷ (pos 20000, pos 100000)
    ∷ (pos 25000, pos 100000)
    ∷ []

abbrev title : Text
title = text_of "#ngroups"

abbrev times_title : Text
times_title = text_of "#startTime timeToEat"

read_config-config_text_example :
    (t : Times) × (read_config (config_text title times_title entries) ≡ some (pos 5, t))
    × ((g : ℕ) → (t.start g ≡ start_of entries g) × (t.eat g ≡ eat_of entries g))
read_config-config_text_example =
    read_config-config_text title times_title entries (omega arith) (omega arith) refl (omega arith)
      (omega arith)

-- The file as it is, with a blank at the end of two lines and none after the last.
abbrev config_file : Text
config_file =
    text_of
      "#ngroups\n5\n#startTime timeToEat\n50000 100000 \n10000 600000\n10000 200000 \n20000 100000\n25000 100000"

abbrev groups_in : Option (ℤ × Times) → Option ℤ
groups_in none = none
groups_in (some (n, t)) = some n

config_groups : groups_in (read_config config_file) ≡ some (pos 5)
unfolding read_config drop_line scan_int read_pair read_pairs skip_spaces scan_digits digit to_int
config_groups = refl

-- One group more than the arrays have room for.
abbrev many : ℕ → Entries
many zero = []
many (suc k) = (pos k, pos k) ∷ many k

read_config-overrun_example : read_config (config_text title times_title (many 17)) ≡ none
read_config-overrun_example =
    read_config-overrun title times_title (many 17) (omega arith) (omega arith) refl (omega arith)
      (omega arith) (omega arith)

abbrev small_file : Text
small_file = text_of "#n\n1\n#times\n3 4\n"

abbrev times_in : Option (ℤ × Times) → Times
times_in none = record { start = λ g. pos 0; eat = λ g. pos 0 }
times_in (some (n, t)) = t

-- The log goes to a file that held something else.
abbrev log_used : Log
log_used = record { calls = paper; name = text_of "log"; before = desk }
