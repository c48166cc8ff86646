-- ===== src/Floor.antt =====
-- What the processes of semaphore_restaurant/src know of each other while they are interleaved: where
-- each group is in its life, what the receptionist has recorded, and who is in the critical region.
pub mod Locks
pub mod Group
pub mod Steps
pub mod Moves
pub mod Acts
pub mod Handing
pub mod Life
pub mod Clerk
pub mod Answers
pub mod Answering
pub mod Telling
pub mod Known
pub mod Tally
pub mod Counter
pub mod Payments
pub mod Safety
pub mod Served
pub mod Closing
pub mod Region
pub mod Leaving
pub mod Staff
pub mod Serving
pub mod Service
pub mod Numbers
use so_projeto.Prelude.{
  ℕ, suc, ◌+◌, ◌≤◌, ◌<◌, ◌≡◌, ◌≢◌, ◌⊎◌, Bool, true, false, ◌&&◌, ◌||◌, Option, none, some, ltb,
  ◌==◌,
}
use so_projeto.Const.{
  num_tables, tablereq, billreq, gotorest, atreception, toarrive, wait, attable, done,
}
use so_projeto.State.{FullStat, Request, Stat}
use so_projeto.Waiter.{request}
use so_projeto.Receptionist.{GroupRecord}
use so_projeto.Reception.{IsDesk}
use so_projeto.System.{Pid, group, waiter, receptionist, same_pid}

-- What the receptionist alone writes: its record, the tables and the number of groups that wait.
pub record Desk : Type 0 where
  pub rec : GroupRecord
  pub tables : ℕ → Option ℕ
  pub waiting : ℕ

-- What a process knows. The stage of a group counts from 0: it has not asked for a request; 1 it
-- may write one; 2 it has written its state; 3 and its request; 4 it has signalled it; 5 it has been
-- called to a table; 6 it may write a request again; 7 it has written it; 8 it has signalled it; 9 it
-- has left the critical region after that. The receptionist is at 20, at 21 once it has taken a
-- request up, and at 22 once it has read it.
pub record View : Type 0 where
  pub stage : ℕ
  pub inside : Bool
  pub desk : Desk
  -- The request that the receptionist has read and not answered.
  pub job : Option Request
  -- The group that the waiter has found.
  pub target : Option ℕ

abbrev pub has_token : ℕ → Bool
has_token s = (ltb 0 s && ltb s 4) || (ltb 5 s && ltb s 8) || (ltb 20 s && ltb s 23)

-- At most one process holds what the semaphores of value `v` hand out, and none while `v` is 1.
pub record Lock (holds : View → Bool) (vs : Pid → View) (v : ℕ) : Type 0 where
  pub most : v ≤ 1
  pub free : (p : Pid) → 0 < v → holds (vs p) ≡ false
  pub alone : (p q : Pid) → holds (vs p) ≡ true → holds (vs q) ≡ true → same_pid p q ≡ true

-- A group `g` with its view, the value of its `waitForTable`, its place in the record, its table, its
-- state and the request at the reception.
pub record Member (g : ℕ) (u : View) (v r : ℕ) (o : Option ℕ) (stat : ℕ) (q : Request)
    : Type 0 where
  pub before : u.stage < 4 → (r ≡ toarrive) × (v ≡ 0)
  pub called : u.stage ≡ 4 → 0 < v → (r ≡ attable) × (o ≢ none)
  pub sits : 5 ≤ u.stage → u.stage < 8 → (r ≡ attable) × (o ≢ none)
  pub pays : u.stage ≡ 8 → u.inside ≡ true → o ≢ none
  pub waits : r ≡ wait → u.stage ≡ 4
  pub home : u.stage < 2 → stat ≡ gotorest
  pub here : 2 ≤ u.stage → u.stage < 5 → stat ≡ atreception
  pub asks : u.stage ≡ 3 → q ≡ request tablereq g
  pub bills : u.stage ≡ 7 → q ≡ request billreq g
  pub over : r ≡ done → 8 ≤ u.stage

-- A request that the receptionist can answer.
abbrev pub IsValid : ℕ → (Pid → View) → Request → Type 0
IsValid n vs q =
    (q.req_group < n)
    × (((q.req_type ≡ tablereq)
          × ((vs (group q.req_group)).stage ≡ 4)
          × ((vs receptionist).desk.rec q.req_group ≡ toarrive))
        ⊎ ((q.req_type ≡ billreq)
            × (8 ≤ (vs (group q.req_group)).stage)
            × ((vs receptionist).desk.rec q.req_group ≡ attable)))

-- The tables and the record, with every group at the reception.
abbrev pub picture : ℕ → Desk → FullStat
picture n d = record {
  st = record {
    receptionist_stat = 0;
    waiter_stat = 0;
    chef_stat = 0;
    group_stat = λ g. atreception;
  };
  n_groups = n;
  groups_waiting = d.waiting;
  start_time = λ g. 0;
  eat_time = λ g. 0;
  assigned_table = d.tables;
  food_order = 0;
  food_group = 0;
  receptionist_request = request 0 0;
  waiter_request = request 0 0;
}

abbrev pub IsSettled : ℕ → Desk → Type 0
IsSettled n d = IsDesk d.rec (picture n d)

-- A request has been signalled, and the receptionist has not read it.
abbrev pub InFlight : (Pid → View) → (ℕ → ℕ) → Type 0
InFlight vs val = (0 < val 2) ⊎ ((vs receptionist).stage ≡ 21)

pub record Floor (n : ℕ) (vs : Pid → View) (m : FullStat) (val : ℕ → ℕ) : Type 0 where
  pub region : Lock (λ u. u.inside) vs (val 1)
  pub token : Lock (λ u. has_token u.stage) vs (val 2 + val 3)
  pub groups : m.n_groups ≡ n
  pub tables : m.assigned_table ≡ (vs receptionist).desk.tables
  pub waiting : m.groups_waiting ≡ (vs receptionist).desk.waiting
  pub bounded : (g t : ℕ) → (vs receptionist).desk.tables g ≡ some t → t < num_tables
  pub range : (g : ℕ) → (vs receptionist).desk.rec g ≤ done
  pub settled : (vs receptionist).inside ≡ false → IsSettled n (vs receptionist).desk
  pub flight : InFlight vs val → IsValid n vs m.receptionist_request
  pub distinct :
      InFlight vs val
      → (q : Request) → (vs receptionist).job ≡ some q
      → q.req_group ≢ m.receptionist_request.req_group
  pub job : (q : Request) → (vs receptionist).job ≡ some q → IsValid n vs q
  pub target : (g : ℕ) → (vs waiter).target ≡ some g → (g < n) × (5 ≤ (vs (group g)).stage)
  pub empty : (g : ℕ) → n ≤ g → m.st.group_stat g ≡ gotorest
  pub member :
      (g : ℕ)
      → g < n
      → Member g
          (vs (group g))
          (val (8 + g))
          ((vs receptionist).desk.rec g)
          ((vs receptionist).desk.tables g)
          (m.st.group_stat g)
          m.receptionist_request
