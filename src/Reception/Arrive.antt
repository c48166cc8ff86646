-- ===== src/Reception/Arrive.antt =====
-- `provideTableOrWaitingRoom` of semaphore_restaurant/src/semSharedMemReceptionist.c.
use so_projeto.Prelude.{
  ℕ, ◌+◌, ◌<◌, ◌≡◌, ◌≢◌, ◌⊎◌, refl, inl, inr, Option, none, some, List, [], ◌∷◌, ◌==◌, update,
  Bool-cases, Option-cases, arith,
}
use so_projeto.Const.{num_tables, atreception, assigntable, toarrive, wait, attable}
use so_projeto.State.{FullStat, set_receptionist_stat, set_assigned_table, set_groups_waiting}
use so_projeto.SharedData.{mutex, wait_for_table}
use so_projeto.Process.Alone.{Event, took, gave, saved, finished, alone}
use so_projeto.Receptionist.{GroupRecord, decide_table_or_wait, provide_table_or_waiting_room}
use so_projeto.Tables.{seat-IsSeated}
use so_projeto.Tables.Decide.{IsOffer, decide_table-IsOffer, decide_none-taken}
use so_projeto.Reception.{IsDesk, IsTaken, waiting_groups-update}

module _ (rec : GroupRecord) (g : ℕ) (s : FullStat) where
  -- The group gets the table `t`, and is told.
  abbrev pub seated_state : ℕ → FullStat
  seated_state t = set_assigned_table g (some t) (set_receptionist_stat assigntable s)

  abbrev pub seated_events : List Event
  seated_events =
      took mutex
      ∷ saved (set_receptionist_stat assigntable s)
      ∷ gave (wait_for_table g)
      ∷ gave mutex
      ∷ []

  pub provide_offer :
      (t : ℕ)
      → rec g ≡ toarrive
      → decide_table_or_wait s g ≡ some t
      → alone (provide_table_or_waiting_room rec g) s
        ≡ finished (update rec g attable) (seated_state t) seated_events
  unfolding provide_table_or_waiting_room
  provide_offer t e o = rw (e, o)

  pub provide_none :
      rec g ≡ toarrive
      → decide_table_or_wait s g ≡ none
      → alone (provide_table_or_waiting_room rec g) s
        ≡ finished
            (update rec g wait)
            (set_groups_waiting (s.groups_waiting + 1) s)
            (took mutex ∷ gave mutex ∷ [])
  unfolding provide_table_or_waiting_room
  provide_none e o = rw (e, o)

  -- A request of a group that has arrived before changes nothing.
  pub provide_again :
      rec g ≢ toarrive
      → alone (provide_table_or_waiting_room rec g) s
        ≡ finished rec s (took mutex ∷ gave mutex ∷ [])
  unfolding provide_table_or_waiting_room
  provide_again e = ground arith

module _ {rec : GroupRecord} {g : ℕ} {s : FullStat} (d : IsDesk rec s) (lt : g < s.n_groups) where
  no_table : rec g ≡ toarrive → (t : ℕ) → s.assigned_table g ≢ some t
  no_table e t h = ground (arith, d.recorded g t lt h)

  untabled : rec g ≡ toarrive → (o : Option ℕ) → s.assigned_table g ≡ o → s.assigned_table g ≡ none
  untabled e none h = h
  untabled e (some t) h = absurd (no_table e t h)

  still-IsTaken : (t u : ℕ) → rec g ≡ toarrive → IsTaken s u → IsTaken (seated_state rec g s t) u
  still-IsTaken t u e (h, lh, eh) = (h, lh, ground (arith, no_table e u))

  pub seat-IsDesk :
      (t : ℕ)
      → rec g ≡ toarrive
      → IsOffer s g t
      → IsDesk (update rec g attable) (seated_state rec g s t)
  seat-IsDesk t e o = record {
    seated = seat-IsSeated d.seated g t o.vacant o.exists;
    has_table = λ h lh eh. elim (Bool-cases (g == h)) [
      | inl same ↦ (t, ground arith)
      | inr other ↦ let (u, eu) = d.has_table h lh (ground arith) in (u, ground arith)
    ];
    recorded = λ h u lh eh. ground (arith, d.recorded h u lh);
    counted = ground (arith, d.counted, waiting_groups-update s.n_groups rec g attable lt);
    present = λ h lh eh. ground (arith, d.present h lh);
    full = λ h lh eh u lu. still-IsTaken t u e (d.full h lh (ground arith) u lu);
  }

  pub wait-IsDesk :
      rec g ≡ toarrive
      → s.st.group_stat g ≡ atreception
      → ((t : ℕ) → t < num_tables → IsTaken s t)
      → IsDesk (update rec g wait) (set_groups_waiting (s.groups_waiting + 1) s)
  wait-IsDesk e p taken = record {
    seated = d.seated;
    has_table = λ h lh eh. d.has_table h lh (ground arith);
    recorded = λ h u lh eh. ground (arith, d.recorded h u lh, no_table e u);
    counted = ground (arith, d.counted, waiting_groups-update s.n_groups rec g wait lt);
    present = λ h lh eh. ground (arith, d.present h lh);
    full = λ h lh eh. taken;
  }

  -- While the receptionist's invariant holds, a group that arrives, and has written that it is at the
  -- reception, is given the first vacant table and told, or is recorded and counted as waiting if
  -- every table is taken. The operation ends, and the invariant holds again.
  pub arrival_handled :
      rec g ≡ toarrive
      → s.st.group_stat g ≡ atreception
      → (rec' : GroupRecord) × (s' : FullStat) × (es : List Event) × (alone
            (provide_table_or_waiting_room rec g)
            s
          ≡ finished rec' s' es)
        × (IsDesk rec' s')
        × (((t : ℕ) × (IsOffer s g t)
              × (s'.assigned_table g ≡ some t)
              × (rec' g ≡ attable)
              × (es ≡ seated_events rec g s))
            ⊎ ((rec' g ≡ wait)
                × (s'.assigned_table g ≡ none)
                × (s'.groups_waiting ≡ s.groups_waiting + 1)))
  arrival_handled e p = elim (Option-cases (decide_table_or_wait s g)) [
    | inl o ↦ (
      update rec g wait,
      set_groups_waiting (s.groups_waiting + 1) s,
      took mutex ∷ gave mutex ∷ [],
      provide_none rec g s e o,
      wait-IsDesk e p (decide_none-taken s g o p),
      inr (ground arith, untabled e (s.assigned_table g) refl, refl),
    )
    | inr (t, o) ↦
        let offer = decide_table-IsOffer s g t o in
        (
          update rec g attable,
          seated_state rec g s t,
          seated_events rec g s,
          provide_offer rec g s t e o,
          seat-IsDesk t e offer,
          inl (t, offer, ground arith, ground arith, refl),
        )
  ]
