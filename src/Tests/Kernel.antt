-- ===== src/Tests/Kernel.antt =====
-- A kernel as semop(2) and semget(2) describe it, for the calls that the restaurant makes.
use mathlib.Core.Path.{fun_ext}
use so_projeto.Prelude.{
  true, ℕ, suc, ◌+◌, ◌-◌, ◌≡◌, refl, List, [], ◌∷◌, ℤ, pos, negsuc, ltb, if◌then◌else◌, update,
  arith,
}
use so_projeto.Semaphore.{
  Kernel, IsKernel, SemSet, Sembuf, SemResult, success, blocked, failure, semvmx,
}

-- One operation on a semaphore of the set.
abbrev pub apply : SemSet → ℕ → ℤ → SemResult
apply s i (pos k) =
    if ltb semvmx (s.value i + k)
    then failure
    else success (record s { value = update s.value i (s.value i + k) })
apply s i (negsuc k) =
    if ltb k (s.value i)
    then success (record s { value = update s.value i (s.value i - suc k) })
    else blocked

abbrev pub apply_in : SemSet → Sembuf → SemResult
apply_in s b = if ltb b.sem_num s.size then apply s b.sem_num b.sem_op else failure

-- Several operations are done together or not at all.
abbrev pub apply_all : SemSet → List Sembuf → SemResult
apply_all s [] = success s
apply_all s (b ∷ bs) = elim (apply_in s b) [
  | success s' ↦ apply_all s' bs
  | blocked ↦ blocked
  | failure ↦ failure
]

abbrev pub sysv : Kernel
sysv = record {
  semop = apply_all;
  semget = λ n. record { size = n; value = λ i. 0 };
  log_works = λ i. true;
}

up_after_down :
    (f : ℕ → ℕ) (i v : ℕ)
    → f i ≡ suc v
    → update (update f i (f i - 1)) i (update f i (f i - 1) i + 1) ≡ f
up_after_down f i v e = fun_ext λ j. ground arith

pub sysv-IsKernel : IsKernel sysv
sysv-IsKernel = record {
  take = λ s i v lt e. ground arith;
  sleep = λ s i lt e. ground arith;
  give = λ s i lt room. ground arith;
  full = λ s i lt over. ground arith;
  outside = λ s b ge. ground arith;
  pass = λ s i v lt e room. ground (arith, up_after_down s.value i v e);
  queue = λ s i lt e. ground arith;
  created_size = λ n. refl;
  created_value = λ n i. refl;
}
