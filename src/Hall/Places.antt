-- ===== src/Hall/Places.antt =====
-- How `groupRecord` of semaphore_restaurant/src/semSharedMemReceptionist.c and the memory show a hall.
use so_projeto.Prelude.{
  ℕ, ◌<◌, ◌≡◌, refl, Option, none, some, List, [], ◌∷◌, ◌==◌, update, inl, inr, Bool-cases, arith,
}
use so_projeto.Const.{atreception, toarrive, wait, attable, done}
use so_projeto.State.{FullStat}
use so_projeto.SharedData.{SemId, mutex}
use so_projeto.Process.Alone.{Event, took, gave, saved}
use so_projeto.Receptionist.{GroupRecord}
use so_projeto.Tables.Decide.{IsOffer}
use so_projeto.Hall.{
  Place, outside, queued, gone, seated, Hall, Ask, arrives, pays, IsHeld, IsFirstFree,
}

-- A place as the receptionist's record of the group and the memory's table of it show it.
abbrev pub IsAt : Place → ℕ → Option ℕ → Type 0
IsAt outside r o = (r ≡ toarrive) × (o ≡ none)
IsAt queued r o = (r ≡ wait) × (o ≡ none)
IsAt gone r o = (r ≡ done) × (o ≡ none)
IsAt (seated t) r o = (r ≡ attable) × (o ≡ some t)

abbrev pub IsHall : Hall → GroupRecord → FullStat → Type 0
IsHall p rec s = (g : ℕ) → g < s.n_groups → IsAt (p g) (rec g) (s.assigned_table g)

pub IsAt-table : (x : Place) (r t : ℕ) (o : Option ℕ) → IsAt x r o → o ≡ some t → x ≡ seated t
IsAt-table outside r t o h e = absurd (ground arith)
IsAt-table queued r t o h e = absurd (ground arith)
IsAt-table gone r t o h e = absurd (ground arith)
IsAt-table (seated u) r t o h e = ground arith

pub table-IsAt :
    (x : Place) (r t : ℕ) (o : Option ℕ) → IsAt x r o → x ≡ seated t → (r ≡ attable) × (o ≡ some t)
table-IsAt outside r t o h e = absurd (ground arith)
table-IsAt queued r t o h e = absurd (ground arith)
table-IsAt gone r t o h e = absurd (ground arith)
table-IsAt (seated u) r t o h e = ground arith

pub IsAt-wait : (x : Place) (r : ℕ) (o : Option ℕ) → IsAt x r o → r ≡ wait → x ≡ queued
IsAt-wait outside r o h e = absurd (ground arith)
IsAt-wait queued r o h e = refl
IsAt-wait gone r o h e = absurd (ground arith)
IsAt-wait (seated u) r o h e = absurd (ground arith)

pub wait-IsAt : (x : Place) (r : ℕ) (o : Option ℕ) → IsAt x r o → x ≡ queued → r ≡ wait
wait-IsAt outside r o h e = absurd (ground arith)
wait-IsAt queued r o h e = h.0
wait-IsAt gone r o h e = absurd (ground arith)
wait-IsAt (seated u) r o h e = absurd (ground arith)

pub outside-IsAt :
    (x : Place) (r : ℕ) (o : Option ℕ) → IsAt x r o → r ≡ toarrive → (x ≡ outside) × (o ≡ none)
outside-IsAt outside r o h e = (refl, h.1)
outside-IsAt queued r o h e = absurd (ground arith)
outside-IsAt gone r o h e = absurd (ground arith)
outside-IsAt (seated u) r o h e = absurd (ground arith)

-- What has been given, but for the mutex.
abbrev pub unless_mutex : SemId → List SemId → List SemId
unless_mutex mutex is = is
unless_mutex i is = i ∷ is

abbrev pub signals : List Event → List SemId
signals [] = []
signals (took i ∷ es) = signals es
signals (gave i ∷ es) = unless_mutex i (signals es)
signals (saved s ∷ es) = signals es

-- A group asks for a table once, from the reception, and pays once it has a table.
abbrev pub MayAsk : GroupRecord → FullStat → Ask → Type 0
MayAsk rec s (arrives g) = (g < s.n_groups) × (rec g ≡ toarrive) × (s.st.group_stat g ≡ atreception)
MayAsk rec s (pays g) = (g < s.n_groups) × (rec g ≡ attable)

pub IsAt-update :
    (p : Hall) (rec : GroupRecord) (tables : ℕ → Option ℕ) (g : ℕ) (x : Place) (r : ℕ)
    (o : Option ℕ) (h : ℕ)
    → IsAt x r o
    → IsAt (p h) (rec h) (tables h)
    → IsAt (update p g x h) (update rec g r h) (update tables g o h)
IsAt-update p rec tables g x r o h new old = elim (Bool-cases (g == h)) [
  | inl e ↦ rw e new
  | inr e ↦ rw e old
]

module _ (p : Hall) (rec : GroupRecord) (s : FullStat) (a : IsHall p rec s) where
  pub held :
      (t : ℕ) → (h : ℕ) × (h < s.n_groups) × (s.assigned_table h ≡ some t) → IsHeld s.n_groups p t
  held t (h, lh, e) = (h, lh, IsAt-table (p h) (rec h) t (s.assigned_table h) (a h lh) e)

  pub offer-IsFirstFree : (g t : ℕ) → IsOffer s g t → IsFirstFree s.n_groups p t
  offer-IsFirstFree g t o = record {
    exists = o.exists;
    free = λ h lh e. o.vacant h lh (table-IsAt (p h) (rec h) t (s.assigned_table h) (a h lh) e).1;
    before = λ u lt. held u (o.before u lt);
  }
