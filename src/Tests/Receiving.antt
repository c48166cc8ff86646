-- ===== src/Tests/Receiving.antt =====
-- The receptionist's theorems, at a restaurant where groups arrive, sit and wait.
use so_projeto.Prelude.{
  ℕ, ◌+◌, ◌<◌, ◌≡◌, ◌≢◌, ◌⊎◌, ◌↔◌, refl, none, some, List, ◌==◌, inl, inr, Bool-cases, update,
  total, arith,
}
use so_projeto.Const.{atreception, toarrive, wait, attable, done}
use so_projeto.State.{FullStat, set_group_stat, set_assigned_table}
use so_projeto.Process.Alone.{Event, finished, alone}
use so_projeto.Receptionist.{
  GroupRecord, decide_table_or_wait, decide_next_group, provide_table_or_waiting_room,
  receive_payment,
}
use so_projeto.System.{initial_state}
use so_projeto.Tables.Decide.{IsOffer, decide_table_or_wait_iff}
use so_projeto.Tables.Next.{IsCalled, decide_next_group_iff}
use so_projeto.Reception.{IsDesk, waiting_groups}
use so_projeto.Reception.Arrive.{arrival_handled, seated_events}
use so_projeto.Reception.Payment.{payment_handled, IsPassedOn, paid_events}
use so_projeto.Tests.Runs.{five_groups, running}

-- Group 2 has arrived, and every table is vacant.
abbrev arrived : FullStat
arrived = set_group_stat 2 atreception (initial_state five_groups)

decide_table_or_wait_iff_example : (decide_table_or_wait arrived 2 ≡ some 0) ↔ IsOffer arrived 2 0
decide_table_or_wait_iff_example = decide_table_or_wait_iff arrived 2 0

decide_next_group_iff_example :
    (decide_next_group (λ g. wait) arrived ≡ some 2) ↔ IsCalled (λ g. wait) arrived 2
decide_next_group_iff_example = decide_next_group_iff (λ g. wait) arrived 2

abbrev nobody_yet : GroupRecord
nobody_yet = λ g. toarrive

nobody_waits : waiting_groups 5 nobody_yet ≡ 0
unfolding waiting_groups total
nobody_waits = refl

arrived-IsDesk : IsDesk nobody_yet arrived
unfolding initial_state running
arrived-IsDesk = record {
  seated = record { unique = λ g h t lg lh eg eh. cc; bounded = λ g t e. cc };
  has_table = λ g lt e. cc;
  recorded = λ g t lt e. cc;
  counted = omega (arith, nobody_waits);
  present = λ g lt e. cc;
  full = λ g lt e. cc;
}

arrival_handled_example :
    (rec' : GroupRecord) × (s' : FullStat) × (es : List Event) × (alone
        (provide_table_or_waiting_room nobody_yet 2)
        arrived
      ≡ finished rec' s' es)
    × (IsDesk rec' s')
    × (((t : ℕ) × (IsOffer arrived 2 t)
          × (s'.assigned_table 2 ≡ some t)
          × (rec' 2 ≡ attable)
          × (es ≡ seated_events nobody_yet 2 arrived))
        ⊎ ((rec' 2 ≡ wait)
            × (s'.assigned_table 2 ≡ none)
            × (s'.groups_waiting ≡ arrived.groups_waiting + 1)))
unfolding running
arrival_handled_example = arrival_handled arrived-IsDesk (omega arith) refl refl

-- Groups 2 and 3 sit, and group 4 waits.
abbrev pub busy : FullStat
busy =
    record (set_assigned_table 3 (some 1)
      (set_assigned_table 2 (some 0) (set_group_stat 4 atreception arrived))) { groups_waiting = 1 }

abbrev pub busy_record : GroupRecord
busy_record = update (update (update nobody_yet 2 attable) 3 attable) 4 wait

one_waits : waiting_groups 5 busy_record ≡ 1
unfolding waiting_groups total
one_waits = refl

pub busy-IsDesk : IsDesk busy_record busy
unfolding initial_state
busy-IsDesk = record {
  seated = record { unique = λ g h t lg lh eg eh. ground arith; bounded = λ g t e. ground arith };
  has_table = λ g lt e. elim (Bool-cases (g == 2)) [
    | inl two ↦ (0, ground arith)
    | inr other ↦ (1, ground arith)
  ];
  recorded = λ g t lt e. ground arith;
  counted = omega (arith, one_waits);
  present = λ g lt e. ground arith;
  full = λ g lt e t lt'. elim (Bool-cases (t == 0)) [
    | inl first ↦ (2, ground arith, ground arith)
    | inr second ↦ (3, ground arith, ground arith)
  ];
}

payment_handled_example :
    (t : ℕ) × (busy.assigned_table 2 ≡ some t)
    × (rec' : GroupRecord) × (s' : FullStat) × (es : List Event) × (alone
          (receive_payment busy_record 2)
          busy
        ≡ finished rec' s' es)
    × (IsDesk rec' s')
    × (s'.assigned_table 2 ≡ none)
    × (rec' 2 ≡ done)
    × (((h : ℕ) × IsPassedOn busy_record 2 busy t rec' s' es h)
        ⊎ (((h : ℕ) → h < busy.n_groups → busy_record h ≢ wait)
            × ((h : ℕ) → h < busy.n_groups → s'.assigned_table h ≢ some t)
            × (es ≡ paid_events busy_record 2 busy t)))
unfolding initial_state
payment_handled_example = payment_handled busy-IsDesk (omega arith) refl
