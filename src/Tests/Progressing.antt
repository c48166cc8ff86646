-- ===== src/Tests/Progressing.antt =====
-- The log, in runs of the restaurant with five groups.
use so_projeto.Prelude.{suc, ◌+◌, ◌*◌, ◌≡◌, List, ◌++◌, count, arith}
use so_projeto.Logging.{length, log_text}
use so_projeto.Logging.Saved.{All, IsLogged, log_fits}
use so_projeto.System.{Pid, group, receptionist, initial_state}
use so_projeto.Tests.Kernel.{sysv-IsKernel}
use so_projeto.Tests.Runs.{five_groups, after, reached, times}

-- Group 1 has been seated.
abbrev seating : List Pid
seating = times 7 (group 1) ++ times 20 receptionist

log_fits_example :
    All (IsLogged 5) (after seating).log
    × (length (log_text (initial_state five_groups) (after seating).log)
        ≡ 79 + suc (count (after seating).log) * (16 + 8 * 5))
log_fits_example = log_fits sysv-IsKernel five_groups (omega arith) (reached seating)
