-- ===== src/Tables/Owner.antt =====
-- The receptionist of semaphore_restaurant/src/semSharedMemReceptionist.c is the only writer of
-- `assignedTable`, and what it writes keeps the tables apart.
use so_projeto.Prelude.{
  ℕ, zero, suc, ◌-◌, ◌<◌, ◌≡◌, refl, Bool, true, false, Option, none, some, ltb, ◌==◌, update, inl,
  inr, Bool-cases, arith,
}
use so_projeto.Const.{num_tables, done, toarrive, tablereq, billreq}
use so_projeto.State.{FullStat, Request}
use so_projeto.Process.{Proc}
use so_projeto.Receptionist.{
  GroupRecord, decide_table_or_wait, wait_for_group, provide, provide_if,
  provide_table_or_waiting_room, seat, seat_if, pay, receive_payment, handle, receptionist_loop,
}
use so_projeto.Ownership.{Owns, Done, Owns-bind}
use so_projeto.Tables.{IsSeated, IsFree, seat-IsSeated, vacate-IsSeated, vacate-IsFree, Shows}
use so_projeto.Tables.Decide.{decide_table-IsOffer}

abbrev Tables : Type 0
Tables = ℕ → Option ℕ

abbrev IsGroup : ℕ → ℕ → Type 0
IsGroup n g = g < suc (n - 1)

module _ (n : ℕ) where
  abbrev Safe {ℓ} : {A : Type 0} → Proc A → (A → Tables → Type ℓ) → Tables → Type ℓ
  Safe c Q v = Owns (Shows n) c Q v

  abbrev Any : {A : Type 0} → A → Tables → Type 0
  Any a v = Unit

  wait_for_group-Safe : (v : Tables) → Safe wait_for_group (λ req u. IsGroup n req.req_group) v
  unfolding wait_for_group
  wait_for_group-Safe v = (v, λ s h. h, λ s h. h.known)

  -- A free table is written for a group.
  seat_free :
      {v : Tables} (s : FullStat) (g t : ℕ)
      → Shows n v s
      → IsFree n v t
      → t < num_tables
      → Shows n
          (update v g (some t))
          (record s { assigned_table = update s.assigned_table g (some t) })
  seat_free s g t h free lt = record {
    same = rw h.same;
    groups = h.groups;
    known = h.known;
    seated = seat-IsSeated h.seated g t free lt;
  }

  offer-IsFree :
      {v : Tables} (s : FullStat) (g t : ℕ)
      → Shows n v s
      → decide_table_or_wait s g ≡ some t
      → (IsFree n v t) × (t < num_tables)
  offer-IsFree s g t h e =
      let o = decide_table-IsOffer s g t e in
      (λ j lt x. o.vacant j (rw h.groups lt) (rw h.same x), o.exists)

  provide-Safe :
      (rec : GroupRecord) (g : ℕ) (v : Tables) (o : Option ℕ)
      → ((t : ℕ) → o ≡ some t → (IsFree n v t) × (t < num_tables))
      → Safe (provide rec g o) Any v
  provide-Safe rec g v (some t) free =
      let (f, lt) = free t refl in
      (v, λ s h. h, (update v g (some t), λ s h. seat_free s g t h f lt, tt))
  provide-Safe rec g v none free = (v, λ s h. h, tt)

  provide_if-Safe :
      (b : Bool) (rec : GroupRecord) (g : ℕ) (v : Tables) → Safe (provide_if b rec g) Any v
  provide_if-Safe true rec g v = λ s h. provide-Safe rec g v _ (λ t e. offer-IsFree s g t h e)
  provide_if-Safe false rec g v = tt

  provide_table-Safe :
      (rec : GroupRecord) (g : ℕ) (v : Tables) → Safe (provide_table_or_waiting_room rec g) Any v
  unfolding provide_table_or_waiting_room
  provide_table-Safe rec g v =
      Owns-bind (Shows n) (provide_if (rec g == toarrive) rec g) _ Any Any v
        (provide_if-Safe (rec g == toarrive) rec g v) (λ a u x. tt)

  -- The table that has become vacant goes to the group that is called.
  seat-Safe :
      (rec : GroupRecord) (t : ℕ) (v : Tables) (o : Option ℕ)
      → IsFree n v t
      → t < num_tables
      → Safe (seat rec (some t) o) Any v
  seat-Safe rec t v (some g) free lt =
      (update v g (some t), λ s h. seat_free s g t h free lt, (update v g (some t), λ s h. h, tt))
  seat-Safe rec t v none free lt = tt

  seat_if-Safe :
      (b : Bool) (rec : GroupRecord) (t : ℕ) (v : Tables)
      → IsFree n v t
      → t < num_tables
      → Safe (seat_if b rec (some t)) Any v
  seat_if-Safe true rec t v free lt = λ s h. seat-Safe rec t v _ free lt
  seat_if-Safe false rec t v free lt = tt

  pay-Safe :
      (rec : GroupRecord) (g : ℕ) (v : Tables) (o : Option ℕ)
      → IsSeated n v
      → IsGroup n g
      → v g ≡ o
      → Safe (pay rec g o) Any v
  pay-Safe rec g v none seated lt e = tt
  pay-Safe rec g v (some t) seated lt e = (
    update v g none,
    λ s h. record {
      same = rw h.same;
      groups = h.groups;
      known = h.known;
      seated = vacate-IsSeated h.seated g;
    },
    λ s h.
        seat_if-Safe (ltb 0 s.groups_waiting) (update rec g done) t (update v g none)
          (λ j lj x. vacate-IsFree seated g t (omega arith) e j lj x) (seated.bounded g t e),
  )

  receive_payment-Safe :
      (rec : GroupRecord) (g : ℕ) (v : Tables) → IsGroup n g → Safe (receive_payment rec g) Any v
  unfolding receive_payment
  receive_payment-Safe rec g v lt = (
    v,
    λ s h. h,
    λ s h.
        Owns-bind (Shows n) (pay rec g (s.assigned_table g)) _ Any Any v
          (pay-Safe rec g v (s.assigned_table g) h.seated lt (rw h.same)) (λ a u x. tt),
  )

  handle-Safe :
      (rec : GroupRecord) (req : Request) (v : Tables)
      → IsGroup n req.req_group
      → Safe (handle rec req) Any v
  unfolding handle
  handle-Safe rec req v lt = elim (Bool-cases (req.req_type == tablereq)) [
    | inl e ↦ rw e (provide_table-Safe rec req.req_group v)
    | inr e ↦ rw e (elim (Bool-cases (req.req_type == billreq)) [
      | inl f ↦ rw f (receive_payment-Safe rec req.req_group v lt)
      | inr f ↦ rw f tt
    ])
  ]

  -- The receptionist keeps the tables apart, whatever the requests say.
  pub receptionist_loop-Safe :
      (left : ℕ) (rec : GroupRecord) (v : Tables)
      → Owns (Shows n) (receptionist_loop left rec) (Done (Shows n)) v
  unfolding receptionist_loop
  receptionist_loop-Safe zero rec v = tt
  receptionist_loop-Safe (suc left) rec v =
      Owns-bind (Shows n) wait_for_group _ (λ req u. IsGroup n req.req_group) (Done (Shows n)) v
        (wait_for_group-Safe v)
        λ req u lt.
          Owns-bind (Shows n) (handle rec req) _ Any (Done (Shows n)) u (handle-Safe rec req u lt)
            λ rec' w x. receptionist_loop-Safe left rec' w
