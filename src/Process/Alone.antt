-- ===== src/Process/Alone.antt =====
-- What a program does where nothing comes between its steps, as inside the critical region, and
-- where each semaphore that it takes is to be had and the log can be written.
use so_projeto.Prelude.{List, [], ◌∷◌}
use so_projeto.State.{FullStat}
use so_projeto.SharedData.{SemId}
use so_projeto.Process.{Proc, ret, down, up, read, write, save, exited, fault, spinning}

-- The calls on semaphores and the states saved, in order.
pub data Event : Type 0 where
  took : SemId → Event
  gave : SemId → Event
  saved : FullStat → Event

pub data Outcome (A : Type 0) : Type 0 where
  finished : A → FullStat → List Event → Outcome A
  stopped : Outcome A

abbrev pub before : {A : Type 0} → Event → Outcome A → Outcome A
before e (finished a s es) = finished a s (e ∷ es)
before e stopped = stopped

abbrev pub alone : {A : Type 0} → Proc A → FullStat → Outcome A
alone (ret a) s = finished a s []
alone (down i p) s = before (took i) (alone p s)
alone (up i p) s = before (gave i) (alone p s)
alone (read f) s = alone (f s) s
alone (write g p) s = alone p (g s)
alone (save p) s = before (saved s) (alone p s)
alone exited s = stopped
alone fault s = stopped
alone spinning s = stopped
