-- ===== src/Semaphore/Laws.antt =====
-- What `semDown` and `semUp` of semaphore_restaurant/src/semaphore.c do to the values of a set.
use so_projeto.Prelude.{ℕ, suc, ◌-◌, ◌<◌, ◌≡◌, ◌≢◌, Option, none, some, update, arith}
use so_projeto.Semaphore.{
  SemSet, SemResult, Kernel, IsKernel, success, failure, semvmx, sem_down, sem_up, ushort,
  minus_one, plus_one,
}

-- What a successful down or up tells of the set before and after.
pub record IsDown (i : ℕ) (s s' : SemSet) : Type 0 where
  pub counted : 0 < i
  pub inside : ushort i < s.size
  pub positive : 0 < s.value (ushort i)
  pub after : s' ≡ record s { value = update s.value (ushort i) (s.value (ushort i) - 1) }

pub record IsUp (i : ℕ) (s s' : SemSet) : Type 0 where
  pub counted : 0 < i
  pub inside : ushort i < s.size
  pub room : s.value (ushort i) < semvmx
  pub after : s' ≡ record s { value = update s.value (ushort i) (suc (s.value (ushort i))) }

module _ {kernel : Kernel} (law : IsKernel kernel) where
  pub IsDown-success :
      (i : ℕ) (s s' : SemSet) → sem_down kernel s i ≡ some (success s') → IsDown i s s'
  unfolding sem_down
  IsDown-success i s s' h = ground (
    arith,
    law.outside s (minus_one (ushort i)),
    law.sleep s (ushort i),
    law.take s (ushort i) (s.value (ushort i) - 1),
  )

  pub IsUp-success : (i : ℕ) (s s' : SemSet) → sem_up kernel s i ≡ some (success s') → IsUp i s s'
  unfolding sem_up
  IsUp-success i s s' h =
      ground
        (arith, law.outside s (plus_one (ushort i)), law.full s (ushort i), law.give s (ushort i))

  -- On a semaphore of the set, semDown does not fail, and semUp does not while the value may rise.
  pub sem_down_works :
      (i : ℕ) (s : SemSet) (r : Option SemResult)
      → 0 < i
      → ushort i ≡ i
      → i < s.size
      → sem_down kernel s i ≡ r
      → (r ≢ none) × (r ≢ some failure)
  unfolding sem_down
  sem_down_works i s r pos small lt e = ground (arith, law.sleep s i, law.take s i (s.value i - 1))

  pub sem_up_works :
      (i : ℕ) (s : SemSet) (r : Option SemResult)
      → 0 < i
      → ushort i ≡ i
      → i < s.size
      → s.value i < semvmx
      → sem_up kernel s i ≡ r
      → (r ≢ none) × (r ≢ some failure)
  unfolding sem_up
  sem_up_works i s r pos small lt room e = ground (arith, law.give s i)
