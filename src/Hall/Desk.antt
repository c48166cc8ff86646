-- ===== src/Hall/Desk.antt =====
-- `provideTableOrWaitingRoom` and `receivePayment` of
-- semaphore_restaurant/src/semSharedMemReceptionist.c against the hall.
use so_projeto.Prelude.{
  ℕ, ◌+◌, ◌<◌, ◌≡◌, refl, none, some, List, [], ◌∷◌, ltb, ◌==◌, update, inl, inr, Bool-cases,
  Option-cases, arith,
}
use so_projeto.Const.{atreception, toarrive, wait, attable, done}
use so_projeto.State.{FullStat, set_groups_waiting}
use so_projeto.SharedData.{mutex}
use so_projeto.Process.Alone.{Event, took, gave, finished, alone}
use so_projeto.Receptionist.{
  GroupRecord, handle, decide_table_or_wait, provide_table_or_waiting_room, receive_payment,
}
use so_projeto.Tables.Decide.{decide_table-IsOffer, decide_none-taken}
use so_projeto.Tables.Next.{IsCalled, next-IsCalled}
use so_projeto.Reception.{IsDesk}
use so_projeto.Reception.Arrive.{
  seated_state, seated_events, provide_offer, provide_none, seat-IsDesk, wait-IsDesk,
}
use so_projeto.Reception.Payment.{
  paid_state, paid_record, called_state, call_events, paid_events, receive_call, receive_no_call,
  waiting-IsSeatable, paid-IsDesk, call-IsDesk, nobody_waits, somebody_called,
}
use so_projeto.Hall.{
  queued, gone, seated, Hall, Ask, arrives, pays, request_of, IsFirstQueued, Visit, takes_table,
  queues_up, leaves, passes_on,
}
use so_projeto.Hall.Places.{
  IsAt, IsHall, IsAt-table, IsAt-wait, wait-IsAt, outside-IsAt, IsAt-update, signals, MayAsk, held,
  offer-IsFirstFree,
}

-- What the code does on a request is a visit of the hall.
pub record IsServed (p : Hall) (rec : GroupRecord) (s : FullStat) (ask : Ask) : Type 0 where
  pub record_after : GroupRecord
  pub state_after : FullStat
  pub events : List Event
  pub hall_after : Hall
  pub runs : alone (handle rec (request_of ask)) s ≡ finished record_after state_after events
  pub same_groups : state_after.n_groups ≡ s.n_groups
  pub visit : Visit s.n_groups p ask (signals events) hall_after
  pub shown : IsHall hall_after record_after state_after
  pub kept : IsDesk record_after state_after

handle-arrives :
    (rec : GroupRecord) (g : ℕ)
    → handle rec (request_of (arrives g)) ≡ provide_table_or_waiting_room rec g
unfolding handle request_of
handle-arrives rec g = refl

handle-pays : (rec : GroupRecord) (g : ℕ) → handle rec (request_of (pays g)) ≡ receive_payment rec g
unfolding handle request_of
handle-pays rec g = refl

module _ (p : Hall) (rec : GroupRecord) (s : FullStat) (d : IsDesk rec s) (a : IsHall p rec s) where
  queued_shown :
      (g h : ℕ)
      → s.assigned_table g ≡ none
      → IsAt (p h) (rec h) (s.assigned_table h)
      → IsAt (update p g queued h) (update rec g wait h) (s.assigned_table h)
  queued_shown g h untabled old = elim (Bool-cases (g == h)) [
    | inl e ↦ rw e (refl, ground arith)
    | inr e ↦ rw e old
  ]

  arrival-IsServed :
      (g : ℕ)
      → g < s.n_groups
      → rec g ≡ toarrive
      → s.st.group_stat g ≡ atreception
      → IsServed p rec s (arrives g)
  arrival-IsServed g lt r e =
      let (o, untabled) = outside-IsAt (p g) (rec g) (s.assigned_table g) (a g lt) r in
      elim (Option-cases (decide_table_or_wait s g)) [
        | inl none_left ↦ record {
          record_after = update rec g wait;
          state_after = set_groups_waiting (s.groups_waiting + 1) s;
          events = took mutex ∷ gave mutex ∷ [];
          hall_after = update p g queued;
          runs = rw (handle-arrives rec g) (provide_none rec g s r none_left);
          same_groups = refl;
          visit =
              queues_up g lt o (λ t lu. held p rec s a t (decide_none-taken s g none_left e t lu));
          shown = λ h lh. queued_shown g h untabled (a h lh);
          kept = wait-IsDesk d lt r e (decide_none-taken s g none_left e);
        }
        | inr (t, found) ↦ record {
          record_after = update rec g attable;
          state_after = seated_state rec g s t;
          events = seated_events rec g s;
          hall_after = update p g (seated t);
          runs = rw (handle-arrives rec g) (provide_offer rec g s t r found);
          same_groups = refl;
          visit =
              takes_table g t lt o
                (offer-IsFirstFree p rec s a g t (decide_table-IsOffer s g t found));
          shown = λ h lh.
              IsAt-update p rec s.assigned_table g (seated t) attable (some t) h (refl, refl)
                (a h lh);
          kept = seat-IsDesk d lt t r (decide_table-IsOffer s g t found);
        }
      ]

  queued_waits : (h : ℕ) → h < s.n_groups → p h ≡ queued → rec h ≡ wait
  queued_waits h lh e = wait-IsAt (p h) (rec h) (s.assigned_table h) (a h lh) e

  paid_shown :
      (g h : ℕ)
      → h < s.n_groups
      → IsAt (update p g gone h) (paid_record rec g s h) ((paid_state rec g s).assigned_table h)
  paid_shown g h lh = IsAt-update p rec s.assigned_table g gone done none h (refl, refl) (a h lh)

  called_first :
      (g t h : ℕ)
      → g < s.n_groups
      → rec g ≡ attable
      → s.assigned_table g ≡ some t
      → IsCalled (paid_record rec g s) (paid_state rec g s) h
      → IsFirstQueued s.n_groups p h
  called_first g t h lt at e called = record {
    exists = called.seatable.exists;
    queues =
        IsAt-wait (p h) (rec h) (s.assigned_table h) (a h called.seatable.exists)
          (ground (arith, called.seatable.waits));
    least = λ j lj q.
        let below : j < s.n_groups = omega (arith, called.seatable.exists) in
        called.least j lj (waiting-IsSeatable d lt t at e j below (queued_waits j below q));
  }

  payment-IsServed : (g : ℕ) → g < s.n_groups → rec g ≡ attable → IsServed p rec s (pays g)
  payment-IsServed g lt at =
      let (t, e) = d.has_table g lt at in
      let sits = IsAt-table (p g) (rec g) t (s.assigned_table g) (a g lt) e in
      elim (Bool-cases (ltb 0 s.groups_waiting)) [
        | inl w ↦
            let (h, o) = somebody_called d lt t at e (ground arith) in
            let called = next-IsCalled (paid_record rec g s) (paid_state rec g s) h o in
            record {
              record_after = update (paid_record rec g s) h attable;
              state_after = called_state rec g s t h;
              events = call_events rec g s t h;
              hall_after = update (update p g gone) h (seated t);
              runs = rw (handle-pays rec g) (receive_call rec g s t h e (ground arith) o);
              same_groups = refl;
              visit = passes_on g t h lt sits (called_first g t h lt at e called);
              shown = λ j lj.
                  IsAt-update (update p g gone) (paid_record rec g s)
                    (paid_state rec g s).assigned_table h (seated t) attable (some t) j (refl, refl)
                    (paid_shown g j lj);
              kept = call-IsDesk d lt t at e h called.seatable.exists called.seatable.waits;
            }
        | inr w ↦
            let nobody = nobody_waits d lt t at e (ground arith) in
            record {
              record_after = paid_record rec g s;
              state_after = paid_state rec g s;
              events = paid_events rec g s t;
              hall_after = update p g gone;
              runs = rw (handle-pays rec g) (receive_no_call rec g s t e (inl (ground arith)));
              same_groups = refl;
              visit = leaves g t lt sits (λ h lh q. nobody h lh (queued_waits h lh q));
              shown = paid_shown g;
              kept = paid-IsDesk d lt t at e nobody;
            }
      ]

  -- While the receptionist's invariant holds and its record and the memory show a hall, a request of a
  -- group that has not asked yet and is at the reception, or that is recorded as being at a table and
  -- pays, is served to the end: the semaphores that the code gives, in order, and where the groups are
  -- then are those of a visit of the hall, and the invariant holds again.
  pub handle_refines : (ask : Ask) → MayAsk rec s ask → IsServed p rec s ask
  handle_refines (arrives g) (lt, r, e) = arrival-IsServed g lt r e
  handle_refines (pays g) (lt, at) = payment-IsServed g lt at
