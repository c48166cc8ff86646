-- ===== src/Semaphore/Barrier.antt =====
-- Calls of semaphore_restaurant/src/semaphore.c that undo one another.
use mathlib.Core.Path.{fun_ext}
use so_projeto.Prelude.{ℕ, suc, ◌-◌, ◌≤◌, ◌≡◌, some, update, arith}
use so_projeto.Semaphore.{SemSet, Kernel, IsKernel, success, semvmx, ushort, sem_down, sem_up}
use so_projeto.Semaphore.Laws.{IsDown-success}

restored : (f : ℕ → ℕ) (i v : ℕ) → f i ≡ suc v → update (update f i v) i (suc (update f i v i)) ≡ f
restored f i v e = fun_ext λ j. ground arith

-- Under a kernel that keeps its promises, a down that succeeds, of a semaphore that is in its range, is
-- undone by an up of the same semaphore.
pub up-down :
    {k : Kernel}
    → IsKernel k
    → (i : ℕ) (s s' : SemSet) → s.value (ushort i) ≤ semvmx
    → sem_down k s i ≡ some (success s')
    → sem_up k s' i ≡ some (success s)
unfolding sem_up
up-down law i s s' le e =
    let d = IsDown-success law i s s' e in
    let v : ℕ = s.value (ushort i) - 1 in
    let low : SemSet = record s { value = update s.value (ushort i) v } in
    rw d.after (
      ground (
        arith,
        d.counted,
        d.positive,
        law.give low (ushort i) d.inside,
        restored s.value (ushort i) v,
      ))
