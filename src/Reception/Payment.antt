-- ===== src/Reception/Payment.antt =====
-- `receivePayment` of semaphore_restaurant/src/semSharedMemReceptionist.c.
use so_projeto.Prelude.{
  ℕ, ◌+◌, ◌-◌, ◌<◌, ◌≡◌, ◌≢◌, ◌⊎◌, refl, inl, inr, true, false, none, some, List, [], ◌∷◌, ltb,
  ◌==◌, update, Bool-cases, Option-cases, arith,
}
use so_projeto.Const.{recvpay, wait, attable, done}
use so_projeto.State.{FullStat, set_receptionist_stat, set_assigned_table, set_groups_waiting}
use so_projeto.SharedData.{mutex, wait_for_table, table_done}
use so_projeto.Process.Alone.{Event, took, gave, saved, finished, stopped, alone}
use so_projeto.Receptionist.{GroupRecord, decide_table_or_wait, decide_next_group, receive_payment}
use so_projeto.Tables.{seat-IsSeated, vacate-IsSeated, vacate-IsFree}
use so_projeto.Tables.Decide.{decide_table-IsOffer, decide_none-taken}
use so_projeto.Tables.Next.{IsCalled, IsSeatable, next-IsCalled, next_none}
use so_projeto.Reception.{
  IsDesk, IsTaken, waiting_groups-update, waiting_groups-pos, waiting_groups_some,
}

module _ (rec : GroupRecord) (g : ℕ) (s : FullStat) where
  -- The group has paid and its table is vacant.
  abbrev pub paid_state : FullStat
  paid_state = set_assigned_table g none (set_receptionist_stat recvpay s)

  abbrev pub paid_record : GroupRecord
  paid_record = update rec g done

  -- The group `h` is called to the table.
  abbrev pub called_state : ℕ → ℕ → FullStat
  called_state t h =
      set_groups_waiting (s.groups_waiting - 1) (set_assigned_table h (some t) paid_state)

  -- What the receptionist does, with a call of the group `h` or without.
  abbrev pub call_events : ℕ → ℕ → List Event
  call_events t h =
      took mutex
      ∷ saved (set_receptionist_stat recvpay s)
      ∷ gave (table_done t)
      ∷ gave (wait_for_table h)
      ∷ gave mutex
      ∷ []

  abbrev pub paid_events : ℕ → List Event
  paid_events t =
      took mutex ∷ saved (set_receptionist_stat recvpay s) ∷ gave (table_done t) ∷ gave mutex ∷ []

  pub receive_call :
      (t h : ℕ)
      → s.assigned_table g ≡ some t
      → 0 < s.groups_waiting
      → decide_next_group paid_record paid_state ≡ some h
      → alone (receive_payment rec g) s
        ≡ finished (update paid_record h attable) (called_state t h) (call_events t h)
  unfolding receive_payment
  receive_call t h e w n = let p : ltb 0 s.groups_waiting ≡ true = ground arith in rw (e, p, n)

  pub receive_no_call :
      (t : ℕ)
      → s.assigned_table g ≡ some t
      → (s.groups_waiting ≡ 0) ⊎ (decide_next_group paid_record paid_state ≡ none)
      → alone (receive_payment rec g) s ≡ finished paid_record paid_state (paid_events t)
  unfolding receive_payment
  receive_no_call t e w = elim w [
    | inl z ↦ let p : ltb 0 s.groups_waiting ≡ false = ground arith in rw (e, p)
    | inr n ↦ elim (Bool-cases (ltb 0 s.groups_waiting)) [
      | inl p ↦ rw (e, p, n)
      | inr p ↦ rw (e, p)
    ]
  ]

  -- A group without a table sends the receptionist out of the array `tableDone`.
  pub receive_payment_untabled :
      s.assigned_table g ≡ none → alone (receive_payment rec g) s ≡ stopped
  unfolding receive_payment
  receive_payment_untabled e = rw e

-- What becomes of the table `t` of the group `g` that pays: the first group that waits, `h`, gets
-- it and is told.
pub record IsPassedOn (rec : GroupRecord) (g : ℕ) (s : FullStat) (t : ℕ) (rec' : GroupRecord)
    (s' : FullStat) (es : List Event) (h : ℕ) : Type 0 where
  pub called : IsCalled (paid_record rec g s) (paid_state rec g s) h
  pub given : s'.assigned_table h ≡ some t
  pub noted : rec' h ≡ attable
  pub fewer : s'.groups_waiting + 1 ≡ s.groups_waiting
  pub told : es ≡ call_events rec g s t h

module _ {rec : GroupRecord} {g : ℕ} {s : FullStat} (d : IsDesk rec s) (lt : g < s.n_groups) where
  module _ (t : ℕ) (at : rec g ≡ attable) (e : s.assigned_table g ≡ some t) where
    vacant : (h : ℕ) → h < s.n_groups → (paid_state rec g s).assigned_table h ≢ some t
    vacant = vacate-IsFree d.seated g t lt e

    -- Whoever waits could have the vacant table.
    pub waiting-IsSeatable :
        (h : ℕ)
        → h < s.n_groups
        → rec h ≡ wait
        → IsSeatable (paid_record rec g s) (paid_state rec g s) h
    waiting-IsSeatable h lh eh = elim (Option-cases (decide_table_or_wait (paid_state rec g s) h)) [
      | inl o ↦
          let (j, lj, ej) =
            decide_none-taken (paid_state rec g s) h o (d.present h lh eh) t
              (d.seated.bounded g t e) in
          absurd (vacant j lj ej)
      | inr (u, o) ↦ record {
        exists = lh;
        waits = ground arith;
        table = u;
        offer = decide_table-IsOffer (paid_state rec g s) h u o;
      }
    ]

    pub paid-IsDesk :
        ((h : ℕ) → h < s.n_groups → rec h ≢ wait)
        → IsDesk (paid_record rec g s) (paid_state rec g s)
    paid-IsDesk nobody = record {
      seated = vacate-IsSeated d.seated g;
      has_table = λ h lh eh. let (u, eu) = d.has_table h lh (ground arith) in (u, ground arith);
      recorded = λ h u lh eh. ground (arith, d.recorded h u lh);
      counted = ground (arith, d.counted, waiting_groups-update s.n_groups rec g done lt);
      present = λ h lh eh. d.present h lh (ground arith);
      full = λ h lh eh. absurd (nobody h lh (ground arith));
    }

    module _ (h : ℕ) (lh : h < s.n_groups) (eh : paid_record rec g s h ≡ wait) where
      called_untabled : (u : ℕ) → s.assigned_table h ≢ some u
      called_untabled u eu = ground (arith, d.recorded h u lh eu)

      call-IsTaken : (u : ℕ) → IsTaken s u → IsTaken (called_state rec g s t h) u
      call-IsTaken u (j, lj, ej) = elim (Bool-cases (u == t)) [
        | inl same ↦ (h, lh, ground arith)
        | inr other ↦ (j, lj, ground (arith, called_untabled u))
      ]

      pub call-IsDesk : IsDesk (update (paid_record rec g s) h attable) (called_state rec g s t h)
      call-IsDesk = record {
        seated = seat-IsSeated (vacate-IsSeated d.seated g) h t vacant (d.seated.bounded g t e);
        has_table = λ j lj ej. elim (Bool-cases (h == j)) [
          | inl same ↦ (t, ground arith)
          | inr other ↦ let (u, eu) = d.has_table j lj (ground arith) in (u, ground arith)
        ];
        recorded = λ j u lj ej. ground (arith, d.recorded j u lj);
        counted = ground (
          arith,
          d.counted,
          waiting_groups-update s.n_groups rec g done lt,
          waiting_groups-update s.n_groups (paid_record rec g s) h attable lh,
        );
        present = λ j lj ej. d.present j lj (ground arith);
        full = λ j lj ej u lu. call-IsTaken u (d.full j lj (ground arith) u lu);
      }

    -- Without a group that waits, nobody is called.
    pub nobody_waits : s.groups_waiting ≡ 0 → (h : ℕ) → h < s.n_groups → rec h ≢ wait
    nobody_waits z h lh eh = omega (arith, d.counted, waiting_groups-pos s.n_groups rec h lh eh)

    -- Where a group waits, one is called.
    pub somebody_called :
        0 < s.groups_waiting
        → (h : ℕ) × (decide_next_group (paid_record rec g s) (paid_state rec g s) ≡ some h)
    somebody_called w =
        elim (Option-cases (decide_next_group (paid_record rec g s) (paid_state rec g s))) [
          | inl o ↦
              let (h, lh, eh) = waiting_groups_some s.n_groups rec (omega (arith, d.counted)) in
              absurd (next_none _ _ o h (waiting-IsSeatable h lh eh))
          | inr called ↦ called
        ]

  -- While the receptionist's invariant holds, a group that is recorded as being at a table and pays
  -- is acknowledged, loses the table, and is recorded as done; the first group that waits gets it and
  -- is told, or nobody waits and it stays vacant. The operation ends, and the invariant holds again.
  pub payment_handled :
      rec g ≡ attable
      → (t : ℕ) × (s.assigned_table g ≡ some t)
        × (rec' : GroupRecord) × (s' : FullStat) × (es : List Event) × (alone
              (receive_payment rec g)
              s
            ≡ finished rec' s' es)
        × (IsDesk rec' s')
        × (s'.assigned_table g ≡ none)
        × (rec' g ≡ done)
        × (((h : ℕ) × IsPassedOn rec g s t rec' s' es h)
            ⊎ (((h : ℕ) → h < s.n_groups → rec h ≢ wait)
                × ((h : ℕ) → h < s.n_groups → s'.assigned_table h ≢ some t)
                × (es ≡ paid_events rec g s t)))
  payment_handled at =
      let (t, e) = d.has_table g lt at in
      elim (Bool-cases (ltb 0 s.groups_waiting)) [
        | inl w ↦
            let (h, o) = somebody_called t at e (ground arith) in
            let called = next-IsCalled (paid_record rec g s) (paid_state rec g s) h o in
            (
              t,
              e,
              update (paid_record rec g s) h attable,
              called_state rec g s t h,
              call_events rec g s t h,
              receive_call rec g s t h e (ground arith) o,
              call-IsDesk t at e h called.seatable.exists called.seatable.waits,
              ground (arith, called.seatable.waits),
              ground (arith, called.seatable.waits),
              inl (
                h,
                record {
                  called = called;
                  given = ground arith;
                  noted = ground arith;
                  fewer = ground arith;
                  told = refl;
                },
              ),
            )
        | inr w ↦
            let nobody = nobody_waits t at e (ground arith) in
            (
              t,
              e,
              paid_record rec g s,
              paid_state rec g s,
              paid_events rec g s t,
              receive_no_call rec g s t e (inl (ground arith)),
              paid-IsDesk t at e nobody,
              ground arith,
              ground arith,
              inr (nobody, vacant t at e, refl),
            )
      ]
