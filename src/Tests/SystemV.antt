-- ===== src/Tests/SystemV.antt =====
-- System calls as their manual pages describe them, for the calls on blocks, sets and children.
use so_projeto.Prelude.{
  ℕ, zero, suc, ◌+◌, ◌<◌, ◌≡◌, ◌≢◌, refl, sym, ap, inl, inr, Bool, true, false, Option, none, some,
  [], ◌∷◌, ℤ, if◌then◌else◌, update, Bool-cases, Option-cases, holds_num, arith,
}
use so_projeto.Ipc.{Names, Objects, Calls, same_int, find, drop_key}
use so_projeto.Ipc.Laws.{IsCalls, ChildrenEnd, IsFresh, IsOnly, same_int→eq}
use so_projeto.Simulation.Cleanup.{IsRoomy}
use so_projeto.Tests.Kernel.{sysv, sysv-IsKernel}

-- Above every identifier in use.
abbrev pub new_id : Names → ℕ
new_id [] = 1
new_id ((k, id) ∷ names) = id + new_id names

new_id_lem : (names : Names) (key : ℤ) (id : ℕ) → find names key ≡ some id → id < new_id names
unfolding find
new_id_lem [] key id e = cc
new_id_lem ((k, id') ∷ names) key id e = elim (Bool-cases (same_int k key)) [
  | inl same ↦ ground (arith, new_id_pos names)
  | inr other ↦ ground (arith, new_id_lem names key id)
]
  where
    new_id_pos : (names : Names) → 0 < new_id names
    new_id_pos [] = omega arith
    new_id_pos ((k, id) ∷ names) = omega (arith, new_id_pos names)

new_id-IsFresh : (names : Names) → IsFresh names (new_id names)
new_id-IsFresh names key e = absurd (omega (arith, new_id_lem names key (new_id names) e))

-- The first key of the list that has the identifier among all the names.
abbrev pub key_of : Names → Names → ℕ → Option ℤ
key_of names [] id = none
key_of names ((k, i) ∷ rest) id =
    let later = key_of names rest id in if holds_num (find names k) id then some k else later

abbrev pub remove : Names → ℕ → Option ℤ → Names
remove names id none = names
remove names id (some k) = drop_key k names

key_of-holds :
    (names rest : Names) (id : ℕ) (k : ℤ) → key_of names rest id ≡ some k → find names k ≡ some id
key_of-holds names [] id k e = cc
key_of-holds names ((k', i) ∷ rest) id k e = elim (Bool-cases (holds_num (find names k') id)) [
  | inl here ↦ ground arith
  | inr later ↦ ground (arith, key_of-holds names rest id k)
]

key_of-some :
    (names rest : Names) (id : ℕ) (key : ℤ)
    → find names key ≡ some id
    → find rest key ≢ none
    → key_of names rest id ≢ none
unfolding find
key_of-some names [] id key e ne = absurd (ne refl)
key_of-some names ((k, i) ∷ rest) id key e ne = elim (Bool-cases (same_int k key)) [
  | inl same ↦ ground (arith, same_int→eq k key same)
  | inr other ↦ ground (arith, key_of-some names rest id key e)
]

remove_lem :
    (names : Names) (key : ℤ) (id : ℕ)
    → IsOnly names key id
    → remove names id (key_of names names id) ≡ drop_key key names
remove_lem names key id o = elim (Option-cases (key_of names names id)) [
  | inl nobody ↦
      absurd (key_of-some names names id key o.named (λ e. ground (arith, o.named)) nobody)
  | inr (k, e) ↦ rw e (
      ap (λ x. drop_key x names)
        (sym (same_int→eq key k (o.alone k (key_of-holds names names id k e)))))
]

abbrev block_made : Objects → ℤ → Option ℕ → Option ℕ × Objects
block_made w key (some id) = (none, w)
block_made w key none =
    (some (new_id w.blocks), record w { blocks = (key, new_id w.blocks) ∷ w.blocks })

abbrev set_made : Objects → ℤ → ℕ → Option ℕ → Option ℕ × Objects
set_made w key size (some id) = (none, w)
set_made w key size none = (
  some (new_id w.sets),
  record w {
    sets = (key, new_id w.sets) ∷ w.sets;
    semaphores = update w.semaphores (new_id w.sets) (sysv.semget size);
  },
)

abbrev waited : Objects → ℕ → Bool × Objects
waited w zero = (false, w)
waited w (suc m) = (true, record w { children = m })

abbrev pub system : Calls
system = record {
  kernel = sysv;
  shmget = λ w key size create.
      if create then block_made w key (find w.blocks key) else (find w.blocks key, w);
  shmat = λ w shmid. some 4096;
  shmdt = λ w add. true;
  shmctl = λ w id. (true, record w { blocks = remove w.blocks id (key_of w.blocks w.blocks id) });
  semget = λ w key size create.
      if create then set_made w key size (find w.sets key) else (find w.sets key, w);
  semctl = λ w id. (true, record w { sets = remove w.sets id (key_of w.sets w.sets id) });
  fork = λ w. (true, record w { children = suc w.children });
  wait = λ w. waited w w.children;
}

pub system-IsCalls : IsCalls system
system-IsCalls = record {
  kernel = sysv-IsKernel;
  block_taken = λ w key size id e. rw e refl;
  block_made = λ w key size e. inr (new_id w.blocks, new_id-IsFresh w.blocks, rw e refl);
  block_found = λ w key. refl;
  block_removed = λ w key id o. rw (remove_lem w.blocks key id o) refl;
  set_taken = λ w key size id e. rw e refl;
  set_made = λ w key size e. inr (new_id w.sets, new_id-IsFresh w.sets, rw e refl);
  set_found = λ w key. refl;
  set_removed = λ w key id o. rw (remove_lem w.sets key id o) refl;
  forked = λ w. inr refl;
  nobody = λ w e. rw e refl;
}

pub system-ChildrenEnd : ChildrenEnd system
system-ChildrenEnd w m e = (w.semaphores, rw e refl)

pub system-IsRoomy : (w : Objects) → IsRoomy system w
system-IsRoomy w = record {
  block = λ key size e f. ground arith;
  set = λ w' key size same e f. ground (arith, ap (λ names. find names key) same);
  child = λ w' e. cc;
  map = λ w' shmid e. cc;
  unmap = λ w' add. refl;
}
