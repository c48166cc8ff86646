-- ===== src/Hall/Day.antt =====
-- The requests that the receptionist of semaphore_restaurant/src/semSharedMemReceptionist.c serves one
-- after the other, with what the other processes do in between.
use so_projeto.Prelude.{ℕ, ◌<◌, ◌≡◌, refl, sym, ◌∙◌, List, [], ◌∷◌, ◌++◌, total-eq_zero, arith}
use so_projeto.Const.{toarrive, wait, atreception}
use so_projeto.State.{FullStat}
use so_projeto.SharedData.{SemId}
use so_projeto.Process.Alone.{Event, finished, alone}
use so_projeto.Receptionist.{GroupRecord, handle}
use so_projeto.System.{Config, initial_state}
use so_projeto.Reception.{IsDesk, waiting_groups}
use so_projeto.Hall.{outside, Hall, Ask, request_of, Visits, opening, then_visit}
use so_projeto.Hall.Places.{IsHall, MayAsk, signals}
use so_projeto.Hall.Desk.{handle_refines}

-- What the other processes may write between two requests: all but the tables, the number of groups
-- and that of those that wait; and a group that waits for a table stays at the reception.
pub record IsElsewhere (rec : GroupRecord) (s u : FullStat) : Type 0 where
  pub same_tables : u.assigned_table ≡ s.assigned_table
  pub same_groups : u.n_groups ≡ s.n_groups
  pub same_waiting : u.groups_waiting ≡ s.groups_waiting
  pub still_there :
      (g : ℕ)
      → g < s.n_groups
      → rec g ≡ wait
      → s.st.group_stat g ≡ atreception
      → u.st.group_stat g ≡ atreception

-- What has been asked and given since main filled in the memory, with the receptionist's record and
-- the memory then.
pub data Day (c : Config) : List Ask → List SemId → GroupRecord → FullStat → Type 0 where
  opens : Day c [] [] (λ g. toarrive) (initial_state c)
  others :
      {asks : List Ask} {given : List SemId} {rec : GroupRecord} {s : FullStat} (u : FullStat)
      → Day c asks given rec s
      → IsElsewhere rec s u
      → Day c asks given rec u
  serves :
      {asks : List Ask} {given : List SemId} {rec rec' : GroupRecord} {s s' : FullStat} (ask : Ask)
      (es : List Event)
      → Day c asks given rec s
      → MayAsk rec s ask
      → alone (handle rec (request_of ask)) s ≡ finished rec' s' es
      → Day c (asks ++ (ask ∷ [])) (given ++ signals es) rec' s'

-- A hall that the day has led to.
pub record IsShown (c : Config) (asks : List Ask) (given : List SemId) (rec : GroupRecord)
    (s : FullStat) : Type 0 where
  pub hall : Hall
  pub visits : Visits c.n_groups asks given hall
  pub shown : IsHall hall rec s
  pub desk : IsDesk rec s
  pub groups : s.n_groups ≡ c.n_groups

pub elsewhere-IsDesk :
    (rec : GroupRecord) (s u : FullStat) → IsElsewhere rec s u → IsDesk rec s → IsDesk rec u
elsewhere-IsDesk rec s u e d = record {
  seated = rw (e.same_tables, e.same_groups) d.seated;
  has_table = rw (e.same_tables, e.same_groups) d.has_table;
  recorded = rw (e.same_tables, e.same_groups) d.recorded;
  counted = rw (e.same_waiting, e.same_groups) d.counted;
  present = λ g lt w.
      let lt' : g < s.n_groups = ground (arith, e.same_groups) in
      e.still_there g lt' w (d.present g lt' w);
  full = rw (e.same_tables, e.same_groups) d.full;
}

-- One outcome is the other.
finished-injective :
    {A : Type 0} {a b : A} {s u : FullStat} {es fs : List Event}
    → finished a s es ≡ finished b u fs
    → (a ≡ b) × (s ≡ u) × (es ≡ fs)
finished-injective e = (cc, cc, cc)

nobody_waits_yet : (n : ℕ) → waiting_groups n (λ g. toarrive) ≡ 0
unfolding waiting_groups
nobody_waits_yet n = total-eq_zero n _ (λ g. refl)

pub opens-IsDesk : (c : Config) → IsDesk (λ g. toarrive) (initial_state c)
unfolding initial_state
opens-IsDesk c = record {
  seated = record { unique = λ g h t lg lh eg eh. ground arith; bounded = λ g t e. ground arith };
  has_table = λ g lt e. absurd (ground arith);
  recorded = λ g t lt e. absurd (ground arith);
  counted = rw (nobody_waits_yet c.n_groups) refl;
  present = λ g lt e. absurd (ground arith);
  full = λ g lt e. absurd (ground arith);
}

opens-IsShown : (c : Config) → IsShown c [] [] (λ g. toarrive) (initial_state c)
unfolding initial_state
opens-IsShown c = record {
  hall = λ g. outside;
  visits = opening;
  shown = λ g lt. (refl, refl);
  desk = opens-IsDesk c;
  groups = refl;
}

elsewhere-IsShown :
    (c : Config) (asks : List Ask) (given : List SemId) (rec : GroupRecord) (s u : FullStat)
    → IsElsewhere rec s u
    → IsShown c asks given rec s
    → IsShown c asks given rec u
elsewhere-IsShown c asks given rec s u e x = record {
  hall = x.hall;
  visits = x.visits;
  shown = rw (e.same_tables, e.same_groups) x.shown;
  desk = elsewhere-IsDesk rec s u e x.desk;
  groups = rw (e.same_groups) x.groups;
}

serves-IsShown :
    (c : Config) (asks : List Ask) (given : List SemId) (rec rec' : GroupRecord) (s s' : FullStat)
    (ask : Ask) (es : List Event)
    → IsShown c asks given rec s
    → MayAsk rec s ask
    → alone (handle rec (request_of ask)) s ≡ finished rec' s' es
    → IsShown c (asks ++ (ask ∷ [])) (given ++ signals es) rec' s'
serves-IsShown c asks given rec rec' s s' ask es x may h =
    let r = handle_refines x.hall rec s x.desk x.shown ask may in
    let (same_rec, same_state, same_events) = finished-injective (sym r.runs ∙ h) in
    record {
      hall = r.hall_after;
      visits = then_visit ask (signals es) x.visits (rw (sym x.groups, sym same_events) r.visit);
      shown = rw (sym same_rec, sym same_state) r.shown;
      desk = rw (sym same_rec, sym same_state) r.kept;
      groups = rw (sym same_state) (r.same_groups ∙ x.groups);
    }

-- Whatever the receptionist has served, and whatever the others wrote in between, the requests and
-- the semaphores given for them are those of a run of the hall that its record and the memory show.
pub Day-IsShown :
    {c : Config} {asks : List Ask} {given : List SemId} {rec : GroupRecord} {s : FullStat}
    → Day c asks given rec s
    → IsShown c asks given rec s
Day-IsShown {c} opens = opens-IsShown c
Day-IsShown {c} {asks} {given} {rec} (others {s = s} u day e) =
    elsewhere-IsShown c asks given rec s u e (Day-IsShown day)
Day-IsShown {c} {s = s'}
      (serves {asks = xs} {given = is} {rec = r} {rec' = r'} {s = t} ask es day may h) =
    serves-IsShown c xs is r r' t s' ask es (Day-IsShown day) may h
