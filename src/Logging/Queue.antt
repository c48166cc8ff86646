-- ===== src/Logging/Queue.antt =====
-- How many groups wait in semaphore_restaurant: the receptionist alone counts them.
use so_projeto.Prelude.{
  ℕ, zero, suc, ◌+◌, ◌-◌, ◌≤◌, ◌≡◌, refl, sym, subst, Bool, true, false, Option, none, some, ltb,
  ◌==◌, inl, inr, Bool-cases, update, arith,
}
use so_projeto.Const.{tablereq, billreq, toarrive, done}
use so_projeto.State.{FullStat, Request, set_groups_waiting}
use so_projeto.Receptionist.{
  GroupRecord, wait_for_group, provide, provide_if, provide_table_or_waiting_room, seat, seat_if,
  pay, receive_payment, handle, receptionist_loop,
}
use so_projeto.Ownership.{Owns, Done, Owns-bind}
use so_projeto.Logging.Small.{Small, receptionist-IsSmall, elsewhere}

module _ (most : ℕ) where
  -- The receptionist counts at most one group more for each request.
  abbrev Grown : ℕ → GroupRecord → ℕ → Type 0
  Grown v rec u = u ≤ v + 1

  grow :
      (v : ℕ)
      → v + 1 ≤ most
      → (s : FullStat) → Small most v s
      → Small most (v + 1) (set_groups_waiting (s.groups_waiting + 1) s)
  grow v le s h = record {
    chef = h.chef;
    waiter = h.waiter;
    receptionist = h.receptionist;
    group = h.group;
    queue = omega (arith, h.queue);
    bound = le;
  }

  shrink :
      (v : ℕ) (s : FullStat)
      → Small most v s
      → Small most v (set_groups_waiting (s.groups_waiting - 1) s)
  shrink v s h = record {
    chef = h.chef;
    waiter = h.waiter;
    receptionist = h.receptionist;
    group = h.group;
    queue = omega (arith, h.queue);
    bound = h.bound;
  }

  module _ (v : ℕ) (le : v + 1 ≤ most) where
    provide-Owns :
        (rec : GroupRecord) (g : ℕ) (o : Option ℕ) → Owns (Small most) (provide rec g o) (Grown v) v
    provide-Owns rec g (some t) =
        (v, receptionist-IsSmall most 1 (omega arith) v, (v, elsewhere most v, omega arith))
    provide-Owns rec g none = (v + 1, grow v le, omega arith)

    provide_if-Owns :
        (b : Bool) (rec : GroupRecord) (g : ℕ) → Owns (Small most) (provide_if b rec g) (Grown v) v
    provide_if-Owns true rec g = λ s h. provide-Owns rec g _
    provide_if-Owns false rec g = omega arith

    provide_table-Owns :
        (rec : GroupRecord) (g : ℕ)
        → Owns (Small most) (provide_table_or_waiting_room rec g) (Grown v) v
    unfolding provide_table_or_waiting_room
    provide_table-Owns rec g =
        Owns-bind (Small most) (provide_if (rec g == toarrive) rec g) _ (Grown v) (Grown v) v
          (provide_if-Owns (rec g == toarrive) rec g) (λ a u x. x)

    seat-Owns : (rec : GroupRecord) (t o : Option ℕ) → Owns (Small most) (seat rec t o) (Grown v) v
    seat-Owns rec t (some g) = (v, elsewhere most v, (v, shrink v, omega arith))
    seat-Owns rec t none = omega arith

    seat_if-Owns :
        (b : Bool) (rec : GroupRecord) (t : Option ℕ)
        → Owns (Small most) (seat_if b rec t) (Grown v) v
    seat_if-Owns true rec t = λ s h. seat-Owns rec t _
    seat_if-Owns false rec t = omega arith

    pay-Owns :
        (rec : GroupRecord) (g : ℕ) (o : Option ℕ) → Owns (Small most) (pay rec g o) (Grown v) v
    pay-Owns rec g none = tt
    pay-Owns rec g (some t) = (
      v,
      elsewhere most v,
      λ s h. seat_if-Owns (ltb 0 s.groups_waiting) (update rec g done) (some t),
    )

    receive_payment-Owns :
        (rec : GroupRecord) (g : ℕ) → Owns (Small most) (receive_payment rec g) (Grown v) v
    unfolding receive_payment
    receive_payment-Owns rec g = (
      v,
      receptionist-IsSmall most 2 (omega arith) v,
      λ s h.
          Owns-bind (Small most) (pay rec g (s.assigned_table g)) _ (Grown v) (Grown v) v
            (pay-Owns rec g (s.assigned_table g)) (λ a u x. x),
    )

    handle-Owns :
        (rec : GroupRecord) (req : Request) → Owns (Small most) (handle rec req) (Grown v) v
    unfolding handle
    handle-Owns rec req = elim (Bool-cases (req.req_type == tablereq)) [
      | inl e ↦ rw e (provide_table-Owns rec req.req_group)
      | inr e ↦ rw e (elim (Bool-cases (req.req_type == billreq)) [
        | inl f ↦ rw f (receive_payment-Owns rec req.req_group)
        | inr f ↦ rw f (omega arith)
      ])
    ]

    wait_for_group-Owns : Owns (Small most) wait_for_group (λ req u. u ≡ v) v
    unfolding wait_for_group
    wait_for_group-Owns = (v, receptionist-IsSmall most 0 (omega arith) v, λ s h. refl)

  pub receptionist-Owns :
      (left : ℕ) (rec : GroupRecord) (v : ℕ)
      → v + left ≤ most
      → Owns (Small most) (receptionist_loop left rec) (Done (Small most)) v
  unfolding receptionist_loop
  receptionist-Owns zero rec v le = tt
  receptionist-Owns (suc left) rec v le =
      Owns-bind (Small most) wait_for_group _ (λ req u. u ≡ v) (Done (Small most)) v
        (wait_for_group-Owns v (omega arith))
        λ req u e.
          Owns-bind (Small most) (handle rec req) _ (Grown v) (Done (Small most)) u
            (subst (λ x. Owns (Small most) (handle rec req) (Grown v) x) (sym e)
              (handle-Owns v (omega arith) rec req))
            λ rec' w g. receptionist-Owns left rec' w (omega arith)
