-- ===== src/Floor/Served.antt =====
-- What the memory shows whenever nobody is in the critical region, under every interleaving.
use so_projeto.Prelude.{
  ℕ, ◌≤◌, ◌<◌, ◌≡◌, ◌≢◌, refl, sym, Option, none, some, inl, inr, ◌==◌, if◌then◌else◌, Bool-cases,
  arith,
}
use so_projeto.Const.{num_tables, max_groups, toarrive, wait, attable, done}
use so_projeto.State.{FullStat, Request}
use so_projeto.Semaphore.{Kernel, IsKernel}
use so_projeto.Receptionist.{GroupRecord}
use so_projeto.Reception.{IsDesk, IsTaken, waiting_groups_some}
use so_projeto.Hall.{Hall, Place, outside, queued, gone, seated, Ask, arrives, pays, request_of}
use so_projeto.Hall.Places.{IsAt, IsHall, MayAsk}
use so_projeto.Hall.Desk.{IsServed, handle_refines}
use so_projeto.Hall.Day.{elsewhere-IsDesk}
use so_projeto.System.{Pid, receptionist, System, Config, Reached}
use so_projeto.Floor.{View, Floor, IsValid, picture}
use so_projeto.Floor.Safety.{Reached-Kept}

-- Where the record and the tables put a group.
abbrev standing : ℕ → Place
standing r = if r == toarrive then outside else if r == wait then queued else gone

abbrev place_of : ℕ → Option ℕ → Place
place_of r none = standing r
place_of r (some t) = seated t

standing-IsAt : (r : ℕ) → r ≤ done → r ≢ attable → IsAt (standing r) r none
standing-IsAt r le ne = elim (Bool-cases (r == toarrive)) [
  | inl e ↦ rw e (ground arith, refl)
  | inr e ↦ elim (Bool-cases (r == wait)) [
    | inl f ↦ rw (e, f) (ground arith, refl)
    | inr f ↦ rw (e, f) (ground arith, refl)
  ]
]

place_of-IsAt :
    (r : ℕ) (o : Option ℕ)
    → r ≤ done
    → (r ≡ attable → (t : ℕ) × (o ≡ some t))
    → ((t : ℕ) → o ≡ some t → r ≡ attable)
    → IsAt (place_of r o) r o
place_of-IsAt r none le a b = standing-IsAt r le (λ e. let (t, x) = a e in absurd (ground arith))
place_of-IsAt r (some t) le a b = (b t refl, refl)

module _ {n : ℕ} {vs : Pid → View} {m : FullStat} {val : ℕ → ℕ} (i : Floor n vs m val)
    (free : 0 < val 1) where
  free-IsDesk : IsDesk (vs receptionist).desk.rec m
  free-IsDesk =
      elsewhere-IsDesk (vs receptionist).desk.rec (picture n (vs receptionist).desk) m
        (record {
          same_tables = i.tables;
          same_groups = i.groups;
          same_waiting = i.waiting;
          still_there = λ g lt w x.
              let o = i.member g lt in o.here (omega (arith, o.waits w)) (omega (arith, o.waits w));
        })
        (i.settled (i.region.free receptionist free))

  abbrev Record : GroupRecord
  Record = (vs receptionist).desk.rec

  abbrev Places : Hall
  Places g = place_of (Record g) (m.assigned_table g)

  free-IsHall : IsHall Places Record m
  free-IsHall g lt =
      place_of-IsAt (Record g) (m.assigned_table g) (i.range g) (free-IsDesk.has_table g lt)
        (λ t e. free-IsDesk.recorded g t lt e)

  -- A group that has asked has no table, and one that pays has.
  valid_ask :
      (q : Request) → IsValid n vs q → (ask : Ask) × (request_of ask ≡ q) × MayAsk Record m ask
  unfolding request_of
  valid_ask q (lt, inl (e, s, r)) =
      let o = i.member q.req_group lt in
      (
        arrives q.req_group,
        rw (sym e) refl,
        (rw i.groups lt, r, o.here (omega arith) (omega arith)),
      )
  valid_ask q (lt, inr (e, s, r)) = (pays q.req_group, rw (sym e) refl, (rw i.groups lt, r))

module _ {k : Kernel} (law : IsKernel k) (c : Config) (few : c.n_groups ≤ max_groups) {t : System}
    (r : Reached k c t) (free : 0 < t.sems.value 1) where
  abbrev at_rest : Floor c.n_groups (Reached-Kept law c few r).views t.mem t.sems.value
  at_rest = (Reached-Kept law c few r).now

  -- With at most MAXGROUPS groups and a kernel that keeps its promises, in every system that is reached
  -- while nobody is in the critical region: if groupsWaiting is not 0, every table has a group.
  pub no_idle_table : 0 < t.mem.groups_waiting → (u : ℕ) → u < num_tables → IsTaken t.mem u
  no_idle_table w u lu =
      let d = free-IsDesk at_rest free in
      let (g, lg, eg) =
        waiting_groups_some t.mem.n_groups (Record at_rest free) (omega (arith, d.counted)) in
      d.full g lg eg u lu

  -- With at most MAXGROUPS groups and a kernel that keeps its promises, in every system that is reached
  -- while nobody is in the critical region and a request has been signalled to the receptionist: with
  -- some record of the groups, the memory shows a hall and is in order, the request is one that the hall
  -- has an answer to, and the receptionist's handling of it from there is that visit of the hall.
  pub request_answered :
      0 < t.sems.value 2
      → (rec : GroupRecord) × (p : Hall) × (ask : Ask) × (request_of ask
          ≡ t.mem.receptionist_request)
        × IsHall p rec t.mem
        × IsDesk rec t.mem
        × MayAsk rec t.mem ask
        × IsServed p rec t.mem ask
  request_answered asked =
      let d = free-IsDesk at_rest free in
      let h = free-IsHall at_rest free in
      let (ask, e, may) =
        valid_ask at_rest free t.mem.receptionist_request (at_rest.flight (inl asked)) in
      (
        Record at_rest free,
        Places at_rest free,
        ask,
        e,
        h,
        d,
        may,
        handle_refines (Places at_rest free) (Record at_rest free) t.mem d h ask may,
      )
