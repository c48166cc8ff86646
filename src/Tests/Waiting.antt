-- ===== src/Tests/Waiting.antt =====
-- The waiter's theorems and those of the log, at a restaurant where groups sit and one waits.
use so_projeto.Prelude.{map, ◌*◌, ◌+◌, ◌≡◌, refl, Option, none, some, [], ◌∷◌, arith}
use so_projeto.Const.{food_request, wait_for_food, foodready}
use so_projeto.State.{FullStat, Request, set_group_stat, set_waiter_request}
use so_projeto.Process.Alone.{finished, alone}
use so_projeto.Waiter.{poll, take_food_to_table}
use so_projeto.Waiter.Poll.{NoneIn, poll_events, Finds, poll-Finds}
use so_projeto.Waiter.Serve.{delivered, delivery_events, FindsAgain, served_without_cooking}
use so_projeto.System.{initial_state}
use so_projeto.Logging.{length, save_state_line, print_header}
use so_projeto.Logging.Words.{words}
use so_projeto.Logging.Lines.{read_word, IsPrintable, save_state-read}
use so_projeto.Logging.Width.{line_as_wide_as_header}
use so_projeto.Tests.Receiving.{busy}

-- Groups 2 and 3 sit and wait for food, and the chef has signalled.
abbrev hungry : FullStat
hungry =
    set_waiter_request foodready 0
      (set_group_stat 3 wait_for_food (set_group_stat 2 wait_for_food busy))

nobody_asks : NoneIn food_request hungry
unfolding initial_state
nobody_asks g lt e = ground arith

served_without_cooking_example :
    (alone (take_food_to_table 2) hungry
      ≡ finished tt (delivered 2 hungry) (delivery_events 2 0 hungry))
    × FindsAgain hungry 2 3 (delivered 2 hungry)
unfolding initial_state
served_without_cooking_example =
    served_without_cooking hungry 2 3 0 refl (omega arith) (omega arith) refl nobody_asks refl

poll-Finds_example :
    (found : Option Request) × (s' : FullStat) × (alone poll hungry ≡ finished found s' poll_events)
    × (Finds hungry found s')
poll-Finds_example = poll-Finds hungry

busy-IsPrintable : IsPrintable busy
unfolding initial_state
busy-IsPrintable = record {
  chef = omega arith;
  waiter = omega arith;
  receptionist = omega arith;
  group = λ g lt. ground arith;
  queue = omega arith;
  table = λ g t lt e. ground arith;
}

save_state-read_example :
    map read_word (words (save_state_line busy))
    ≡ some 0
      ∷ some 0
      ∷ some 0
      ∷ some 1
      ∷ some 1
      ∷ some 2
      ∷ some 1
      ∷ some 2
      ∷ some 1
      ∷ none
      ∷ none
      ∷ some 0
      ∷ some 1
      ∷ none
      ∷ []
unfolding initial_state
save_state-read_example = save_state-read busy busy-IsPrintable

line_as_wide_as_header_example :
    (length (save_state_line busy) ≡ length (print_header busy))
    × (length (print_header busy) ≡ 16 + 8 * 5)
unfolding initial_state
line_as_wide_as_header_example = line_as_wide_as_header busy (omega arith) busy-IsPrintable
