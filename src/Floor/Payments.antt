-- ===== src/Floor/Payments.antt =====
-- `receivePayment` of semaphore_restaurant/src/semSharedMemReceptionist.c, and its loop.
use so_projeto.Prelude.{
  ℕ, zero, suc, ◌+◌, ◌*◌, ◌-◌, ◌≤◌, ◌<◌, ◌≡◌, refl, sym, ap, ◌∙◌, subst, Bool, true, false, none,
  some, inl, inr, ltb, ◌==◌, update, arith,
}
use so_projeto.Const.{num_tables, max_groups, tablereq, billreq, attable, done}
use so_projeto.State.{Request}
use so_projeto.SharedData.{mutex}
use so_projeto.Process.{Proc, ret, ◌>>=◌, ◌>>◌, sem_up}
use so_projeto.Receptionist.{
  GroupRecord, decide_next_group, wait_for_group, seat, seat_if, pay, receive_payment, handle,
  receptionist_loop,
}
use so_projeto.Tables.Next.{IsCalled, next-IsCalled}
use so_projeto.Reception.Payment.{
  paid_state, paid_record, called_state, paid-IsDesk, call-IsDesk, nobody_waits, somebody_called,
}
use so_projeto.System.{receptionist}
use so_projeto.Ghost.{Ok}
use so_projeto.Ghost.Bind.{Ok-bind}
use so_projeto.Floor.{View, Desk, picture, IsSettled}
use so_projeto.Floor.Steps.{floor, Ends, quiet_write, quiet_up, saves, returns}
use so_projeto.Floor.Numbers.{done-FarNumber}
use so_projeto.Floor.Clerk.{clerk, clerk_enters, clerk_leaves, IsAnswerable}
use so_projeto.Floor.Answers.{noted}
use so_projeto.Floor.Answering.{assigns, clears, clerk_reads}
use so_projeto.Floor.Telling.{uncounts, tells}
use so_projeto.Floor.Tally.{answers, answers-update, answers_all}
use so_projeto.Floor.Known.{job-HasPaid, wait-HasAsked, next_known, next_same}
use so_projeto.Floor.Counter.{Answered, Taken, waits-Ok, settles, provide-Ok}

abbrev Finished : GroupRecord → Proc GroupRecord
Finished rec = do sem_up mutex; ret rec

-- What is recorded once the group has paid, and once the next one has its table.
abbrev after_paying : Desk → ℕ → Desk
after_paying d g = noted d g done (update d.tables g none) d.waiting

abbrev after_call : Desk → ℕ → ℕ → ℕ → Desk
after_call d g t h =
    let d' = after_paying d g in noted d' h attable (update d'.tables h (some t)) d'.waiting

module _ (n : ℕ) (few : n ≤ max_groups) (d : Desk) (q : Request) (lt : q.req_group < n)
    (o : IsSettled n d) (sits : d.rec q.req_group ≡ attable) (t : ℕ)
    (has : d.tables q.req_group ≡ some t) where
  abbrev Paid : Desk
  Paid = after_paying d q.req_group

  abbrev Settled : GroupRecord → View → Type 0
  Settled = Answered n (answers n d.rec + 1)

  paid_answers : answers n Paid.rec ≡ answers n d.rec + 1
  paid_answers = ground (arith, answers-update n d.rec q.req_group done)

  paid_tables : (h u : ℕ) → Paid.tables h ≡ some u → u < num_tables
  paid_tables h u e = ground (arith, o.seated.bounded h u)

  nobody_called :
      ltb 0 d.waiting ≡ false
      → Ok (floor n) receptionist (ret Paid.rec >>= Finished) Settled (clerk 20 true Paid none)
  nobody_called w =
      clerk_leaves n _ _ Paid 20 none
        (settles n few Paid (paid_state d.rec q.req_group (picture n d)) refl refl refl
          (paid-IsDesk o lt t sits has (nobody_waits o lt t sits has (ground arith))))
        (returns n receptionist Paid.rec _ _ (Paid, refl, refl, paid_answers))

  calls :
      (h : ℕ)
      → IsCalled
          (paid_record d.rec q.req_group (picture n d))
          (paid_state d.rec q.req_group (picture n d))
          h
      → Ok
          (floor n)
          receptionist
          (seat Paid.rec (some t) (some h) >>= Finished)
          Settled
          (clerk 20 true Paid none)
  calls h c =
      let d2 = after_call d q.req_group t h in
      let d3 : Desk = record d2 { waiting = d2.waiting - 1 } in
      let lh = c.seatable.exists in
      assigns n _ _ Paid none h t lh (o.seated.bounded q.req_group t has) paid_tables
        (wait-HasAsked n Paid h lh c.seatable.waits)
        (tells n _ _ d2 h t few lh (ground arith) (ground arith) (
          uncounts n _ _ d2 (
            clerk_leaves n _ _ d3 20 none
              (settles n few d3 (called_state d.rec q.req_group (picture n d) t h) refl refl refl
                (call-IsDesk o lt t sits has h lh c.seatable.waits))
              (returns n receptionist (update Paid.rec h attable) _ _ (
                d3,
                refl,
                refl,
                ground
                    (arith, paid_answers, answers-update n Paid.rec h attable lh, c.seatable.waits),
              )))))

  called_next :
      ltb 0 d.waiting ≡ true
      → Ok
          (floor n)
          receptionist
          (seat_if true Paid.rec (some t) >>= Finished)
          Settled
          (clerk 20 true Paid none)
  called_next w =
      let (h, e) = somebody_called o lt t sits has (ground arith) in
      let same : decide_next_group Paid.rec (picture n Paid) ≡ some h =
        next_same Paid.rec (picture n Paid) (paid_state d.rec q.req_group (picture n d)) refl refl
          (λ g lg w. refl)
        ∙ e in
      clerk_reads n _ Paid none (decide_next_group Paid.rec) (some h)
        (λ x. seat Paid.rec (some t) x >>= Finished)
        (λ vs m val a i. next_known n Paid vs m val a i ∙ same) (calls h (next-IsCalled _ _ h e))

  next_group :
      (b : Bool)
      → ltb 0 d.waiting ≡ b
      → Ok
          (floor n)
          receptionist
          (seat_if b Paid.rec (some t) >>= Finished)
          Settled
          (clerk 20 true Paid none)
  next_group true w = called_next w
  next_group false w = nobody_called w

  pays-Ok :
      Ok
        (floor n)
        receptionist
        (pay d.rec q.req_group (some t) >>= Finished)
        Settled
        (clerk 20 true d (some q))
  pays-Ok =
      quiet_up n receptionist _ _ _ _ (done-FarNumber n few t (o.seated.bounded q.req_group t has))
        (clears n _ _ d (some q) q.req_group lt o.seated.bounded (job-HasPaid n d q sits) (
          clerk_reads n _ Paid none (λ s. ltb 0 s.groups_waiting) (ltb 0 d.waiting)
            (λ b. seat_if b Paid.rec (some t) >>= Finished)
            (λ vs m val e i. ap (λ k. ltb 0 k) (i.waiting ∙ ap (λ u. u.desk.waiting) e))
            (next_group (ltb 0 d.waiting) refl)))

module _ (n : ℕ) (few : n ≤ max_groups) where
  payment-Ok :
      (d : Desk) (q : Request)
      → q.req_group < n
      → d.rec q.req_group ≡ attable
      → Ok
          (floor n)
          receptionist
          (receive_payment d.rec q.req_group)
          (Answered n (answers n d.rec + 1))
          (clerk 20 false d (some q))
  unfolding receive_payment
  payment-Ok d q lt sits = clerk_enters n _ _ d 20 (some q) λ o.
      let (t, has) = o.has_table q.req_group lt sits in
      quiet_write n receptionist _ _ _ _ (λ m. (refl, refl, refl, refl, refl))
        (saves n receptionist _ _ _ (
          clerk_reads n _ d (some q) (λ s. s.assigned_table q.req_group) (some t)
            (λ table. pay d.rec q.req_group table >>= Finished)
            (λ vs m val e i. ap (λ f. f q.req_group) (i.tables ∙ ap (λ u. u.desk.tables) e) ∙ has)
            (pays-Ok n few d q lt o sits t has)))

  handle-Ok :
      (d : Desk) (q : Request)
      → IsAnswerable n d q
      → Ok
          (floor n)
          receptionist
          (handle d.rec q)
          (Answered n (answers n d.rec + 1))
          (clerk 20 false d (some q))
  unfolding handle
  handle-Ok d q (lt, inl (e, r)) =
      let is : (q.req_type == tablereq) ≡ true = ground arith in rw is (provide-Ok n few d q lt r)
  handle-Ok d q (lt, inr (e, r)) =
      let not_table : (q.req_type == tablereq) ≡ false = ground arith in
      let is : (q.req_type == billreq) ≡ true = ground arith in
      rw (not_table, is) (payment-Ok d q lt r)

  -- The receptionist is out of the region, and every group is done.
  abbrev Closed : {A : Type 0} → A → View → Type 0
  Closed a u = Ends n receptionist u

  loop_on :
      (left k : ℕ) (rec : GroupRecord) (u : View)
      → k + left ≡ n * 2
      → ((d : Desk)
          → answers n d.rec + left ≡ n * 2
          → Ok (floor n) receptionist (receptionist_loop left d.rec) Closed (clerk 20 false d none))
      → Answered n k rec u
      → Ok (floor n) receptionist (receptionist_loop left rec) Closed u
  loop_on left k rec u sum rest (d, e, f, c) =
      subst (Ok (floor n) receptionist (receptionist_loop left rec) Closed) (sym f) (
        subst
          (λ r. Ok (floor n) receptionist (receptionist_loop left r) Closed (clerk 20 false d none))
          e (rest d (omega (arith, sum, c, ap (answers n) e))))

  pub receptionist_loop-Ok :
      (left : ℕ) (d : Desk)
      → answers n d.rec + left ≡ n * 2
      → Ok (floor n) receptionist (receptionist_loop left d.rec) Closed (clerk 20 false d none)
  unfolding receptionist_loop
  receptionist_loop-Ok zero d sum =
      returns n receptionist tt _ _ (refl, answers_all n d.rec (omega (arith, sum)))
  receptionist_loop-Ok (suc left) d sum =
      Ok-bind (floor n) receptionist wait_for_group
        (λ req. handle d.rec req >>= receptionist_loop left) (Taken n d) Closed
        (clerk 20 false d none) (waits-Ok n few d)
        λ req u (may, e).
          subst (Ok (floor n) receptionist (handle d.rec req >>= receptionist_loop left) Closed)
            (sym e)
            (Ok-bind (floor n) receptionist (handle d.rec req) (receptionist_loop left)
              (Answered n (answers n d.rec + 1)) Closed (clerk 20 false d (some req))
              (handle-Ok d req may)
              λ rec' v a.
                loop_on left (answers n d.rec + 1) rec' v (omega (arith, sum))
                  (receptionist_loop-Ok left) a)
