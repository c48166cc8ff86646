-- ===== src/Ipc/Laws.antt =====
-- What the manual pages promise of the calls in semaphore_restaurant/src/sharedMemory.c and
-- semaphore.c, and the life of a block and of a set under one key.
use so_projeto.Prelude.{
  ℕ, suc, ◌≡◌, ◌≢◌, ◌⊎◌, refl, subst, inl, inr, true, false, none, some, ℤ, pos, negsuc, [], ◌∷◌,
  if◌then◌else◌, Bool-cases, update, arith,
}
use so_projeto.Semaphore.{IsKernel, SemSet}
use so_projeto.Ipc.{Objects, Calls, same_int, Names, find, drop_key, shmem_create}

-- No key has the identifier.
abbrev pub IsFresh : Names → ℕ → Type 0
IsFresh names id = (key : ℤ) → find names key ≢ some id

-- The key has the identifier, and no other key has it.
pub record IsOnly (names : Names) (key : ℤ) (id : ℕ) : Type 0 where
  pub named : find names key ≡ some id
  pub alone : (key' : ℤ) → find names key' ≡ some id → same_int key key' ≡ true

pub same_int_self : (k : ℤ) → same_int k k ≡ true
same_int_self (pos n) = ground arith
same_int_self (negsuc n) = ground arith

pub put-IsOnly :
    (names : Names) (key : ℤ) (id : ℕ) → IsFresh names id → IsOnly ((key, id) ∷ names) key id
unfolding find
put-IsOnly names key id fresh = record {
  named = rw (same_int_self key) refl;
  alone = λ key' e. elim (Bool-cases (same_int key key')) [
    | inl same ↦ same
    | inr other ↦ absurd (fresh key' (ground arith))
  ];
}

pub same_int→eq : (k l : ℤ) → same_int k l ≡ true → k ≡ l
same_int→eq k l h = ground arith

pub find-drop_key :
    (names : Names) (key k : ℤ)
    → find (drop_key key names) k ≡ (if same_int key k then none else find names k)
unfolding find drop_key
find-drop_key [] key k = ground arith
find-drop_key ((k', id) ∷ names) key k =
    ground (arith, find-drop_key names key k, same_int→eq k' key, same_int→eq k' k)

-- The names of the other keys stay when a name is added and dropped.
pub dropped :
    (names : Names) (key : ℤ) (id : ℕ)
    → find names key ≡ none
    → (k : ℤ) → find (drop_key key ((key, id) ∷ names)) k ≡ find names k
unfolding find
dropped names key id free k =
    ground (arith, find-drop_key ((key, id) ∷ names) key k, same_int→eq key k)

-- shmget(2), shmctl(2), semget(2), semctl(2), fork(2), wait(2). To create may fail for want of room.
pub record IsCalls (c : Calls) : Type 0 where
  pub kernel : IsKernel c.kernel
  pub block_taken :
      (w : Objects) (key : ℤ) (size id : ℕ)
      → find w.blocks key ≡ some id
      → c.shmget w key size true ≡ (none, w)
  pub block_made :
      (w : Objects) (key : ℤ) (size : ℕ)
      → find w.blocks key ≡ none
      → (c.shmget w key size true ≡ (none, w))
        ⊎ ((id : ℕ) × IsFresh w.blocks id
            × (c.shmget w key size true ≡ (some id, record w { blocks = (key, id) ∷ w.blocks })))
  pub block_found : (w : Objects) (key : ℤ) → c.shmget w key 1 false ≡ (find w.blocks key, w)
  pub block_removed :
      (w : Objects) (key : ℤ) (id : ℕ)
      → IsOnly w.blocks key id
      → c.shmctl w id ≡ (true, record w { blocks = drop_key key w.blocks })
  pub set_taken :
      (w : Objects) (key : ℤ) (size id : ℕ)
      → find w.sets key ≡ some id
      → c.semget w key size true ≡ (none, w)
  pub set_made :
      (w : Objects) (key : ℤ) (size : ℕ)
      → find w.sets key ≡ none
      → (c.semget w key size true ≡ (none, w))
        ⊎ ((id : ℕ) × IsFresh w.sets id
            × (c.semget w key size true ≡ (
              some id,
              record w {
                sets = (key, id) ∷ w.sets;
                semaphores = update w.semaphores id (c.kernel.semget size);
              },
            )))
  pub set_found : (w : Objects) (key : ℤ) → c.semget w key 1 false ≡ (find w.sets key, w)
  pub set_removed :
      (w : Objects) (key : ℤ) (id : ℕ)
      → IsOnly w.sets key id
      → c.semctl w id ≡ (true, record w { sets = drop_key key w.sets })
  pub forked :
      (w : Objects)
      → (c.fork w ≡ (false, w)) ⊎ (c.fork w ≡ (true, record w { children = suc w.children }))
  pub nobody : (w : Objects) → w.children ≡ 0 → c.wait w ≡ (false, w)

-- Every child of `main` ends: wait(2) returns as long as there is one that has not been waited for.
abbrev pub ChildrenEnd : Calls → Type 0
ChildrenEnd c =
    (w : Objects) (m : ℕ)
    → w.children ≡ suc m
    → (values : ℕ → SemSet) × (c.wait w ≡ (true, record w { semaphores = values; children = m }))

module _ {c : Calls} (law : IsCalls c) (w : Objects) (key : ℤ) where
  pub created_block :
      (size id : ℕ) (w' : Objects)
      → find w.blocks key ≡ none
      → shmem_create c w key size ≡ (some id, w')
      → IsFresh w.blocks id × (w' ≡ record w { blocks = (key, id) ∷ w.blocks })
  unfolding shmem_create
  created_block size id w' free e = elim (law.block_made w key size free) [
    | inl full ↦ cc
    | inr (id', fresh, made) ↦ (subst (IsFresh w.blocks) (cc) fresh, cc)
  ]
