-- ===== src/LogFile.antt =====
-- The files that semaphore_restaurant/src/logging.c writes: openLog, closeLog and what createLog and
-- saveState do with them. Messages on stderr are left out.
pub mod Laws
use so_projeto.Prelude.{Bool, true, false, Option, none, some, List, [], ◌∷◌, ◌++◌}
use so_projeto.State.{FullStat}
use so_projeto.CommandLine.{Text}
use so_projeto.Logging.{save_state_line, create_log}

-- What has come to stdout, and the files by their names.
pub record Output : Type 0 where
  pub stdout : Text
  pub files : Text → Option Text

pub data Mode : Type 0 where
  writing appending : Mode

-- The calls: fopen, which is `none` where it returns NULL; and fprintf up to fclose, of a text to the
-- file, false where fclose returns EOF.
pub record Stdio : Type 0 where
  pub fopen : Output → Text → Mode → Option Output
  pub fclose : Output → Text → Text → Bool × Output

-- The stream that `openLog` returns, or its exit.
pub data Stream : Type 0 where
  to_stdout : Stream
  to_file : (name : Text) → Output → Stream
  no_stream : Stream

abbrev pub file_opened : Text → Option Output → Stream
file_opened name none = no_stream
file_opened name (some w) = to_file name w

unfoldable pub open_log : Stdio → Output → Text → Mode → Stream
open_log c w [] mode = to_stdout
open_log c w (b ∷ name) mode = file_opened (b ∷ name) (c.fopen w (b ∷ name) mode)

-- `none` is an exit.
abbrev pub file_closed : Bool × Output → Option Output
file_closed (true, w) = some w
file_closed (false, w) = none

-- A text that is written, and `closeLog`.
unfoldable pub write_and_close : Stdio → Output → Text → Stream → Option Output
write_and_close c w text to_stdout = some (record w { stdout = w.stdout ++ text })
write_and_close c w text (to_file name u) = file_closed (c.fclose u name text)
write_and_close c w text no_stream = none

unfoldable pub create_log_file : Stdio → Text → FullStat → Output → Option Output
create_log_file c name s w = write_and_close c w (create_log s) (open_log c w name writing)

unfoldable pub save_state_file : Stdio → Text → FullStat → Output → Option Output
save_state_file c name s w = write_and_close c w (save_state_line s) (open_log c w name appending)

abbrev pub and_then : (Output → Option Output) → Option Output → Option Output
and_then next none = none
and_then next (some w) = next w

-- The calls of saveState for the states, in order.
unfoldable pub save_states : Stdio → Text → List FullStat → Output → Option Output
save_states c name [] w = some w
save_states c name (s ∷ ss) w = and_then (save_states c name ss) (save_state_file c name s w)

-- The whole log, for the states that main and then the processes save: createLog once, then saveState.
unfoldable pub log_run : Stdio → Text → FullStat → List FullStat → Output → Option Output
log_run c name s ss w = and_then (save_states c name ss) (create_log_file c name s w)
