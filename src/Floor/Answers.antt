-- ===== src/Floor/Answers.antt =====
-- What the receptionist of semaphore_restaurant/src/semSharedMemReceptionist.c records and writes when
-- it answers a request.
use so_projeto.Prelude.{
  ℕ, ◌+◌, ◌≤◌, ◌<◌, ◌≡◌, ◌≢◌, sym, ap, ◌∙◌, subst, true, Option, none, some, inl, inr, ◌==◌, update,
  Bool-cases, arith,
}
use so_projeto.Const.{num_tables, done}
use so_projeto.State.{FullStat, Request}
use so_projeto.System.{Pid, group, receptionist, set_at}
use so_projeto.Floor.{View, Desk, Member, Floor, InFlight, IsValid}
use so_projeto.Floor.Locks.{keep}
use so_projeto.Floor.Steps.{at_own}
use so_projeto.Floor.Clerk.{clerk}

-- What is recorded of one group changes, and the request that has been read is answered.
abbrev pub noted : Desk → ℕ → ℕ → (ℕ → Option ℕ) → ℕ → Desk
noted d g r tables waiting = record { rec = update d.rec g r; tables = tables; waiting = waiting }

module _ (n : ℕ) (vs : Pid → View) (d d' : Desk) (j : Option Request) (g r : ℕ) where
  abbrev Now : Pid → View
  Now = set_at vs receptionist (clerk 20 true d j)

  abbrev Then : Pid → View
  Then = set_at vs receptionist (clerk 20 true d' none)

  IsValid-other :
      d'.rec ≡ update d.rec g r
      → (q : Request) → q.req_group ≢ g
      → IsValid n Now q
      → IsValid n Then q
  IsValid-other same q ne (lt, h) =
      let kept : d'.rec q.req_group ≡ d.rec q.req_group =
        ap (λ f. f q.req_group) same ∙ ground arith in
      (lt, elim h [ inl (t, s, x) ↦ inl (t, s, kept ∙ x) | inr (t, s, x) ↦ inr (t, s, kept ∙ x) ])

module _ (n : ℕ) (vs : Pid → View) (m m' : FullStat) (val : ℕ → ℕ) (d d' : Desk)
    (j : Option Request) (g r : ℕ) (i0 : Floor n vs m val)
    (e : vs receptionist ≡ clerk 20 true d j) where
  -- The group is at the stage of a request that is not signalled; what is written of it fits, and
  -- nothing is written of the others.
  pub records :
      g < n
      → r ≤ done
      → d'.rec ≡ update d.rec g r
      → (m'.n_groups ≡ m.n_groups)
        × (m'.assigned_table ≡ d'.tables)
        × (m'.groups_waiting ≡ d'.waiting)
        × (m'.st.group_stat ≡ m.st.group_stat)
        × (m'.receptionist_request ≡ m.receptionist_request)
      → ((h t : ℕ) → d'.tables h ≡ some t → t < num_tables)
      → ((h : ℕ) → h ≢ g → d'.tables h ≡ d.tables h)
      → (InFlight vs val → g ≢ m.receptionist_request.req_group)
      → Member g
          (vs (group g))
          (val (8 + g))
          r
          (d'.tables g)
          (m.st.group_stat g)
          m.receptionist_request
      → Floor n (Then n vs d d' j g r) m' val
  records lt le rec' (a, b, c, s, q) bound tables' apart member' =
      let u = clerk 20 true d' none in
      let own : d'.rec g ≡ r = ap (λ f. f g) rec' ∙ ground arith in
      let here : (h : ℕ)
          → g ≡ h
          → Member h (vs (group h)) (val (8 + h)) (d'.rec h) (d'.tables h) (m'.st.group_stat h)
              m'.receptionist_request =
        λ h x.
          subst
            (λ h.
              Member h (vs (group h)) (val (8 + h)) (d'.rec h) (d'.tables h) (m'.st.group_stat h)
                m'.receptionist_request)
            x (rw (own, s, q) member') in
      let i = at_own vs receptionist (clerk 20 true d j) e i0 in
      let back : InFlight (Then n vs d d' j g r) val → InFlight vs val =
        λ f. elim f [ inl x ↦ inl x | inr x ↦ absurd (ground arith) ] in
      let now : InFlight (Then n vs d d' j g r) val → InFlight (Now n vs d d' j g r) val =
        λ f. elim f [ inl x ↦ inl x | inr x ↦ absurd (ground arith) ] in
      record {
        region = keep i0.region receptionist u (λ t. ap (λ u. u.inside) e);
        token = keep i0.token receptionist u (λ t. ground arith);
        groups = a ∙ i.groups;
        tables = b;
        waiting = c;
        bounded = bound;
        range = λ h. ground (arith, ap (λ f. f h) rec', i.range h);
        settled = λ x. absurd (ground arith);
        flight = λ f. rw q (
            IsValid-other n vs d d' j g r rec' m.receptionist_request (λ x. apart (back f) (sym x))
              (i.flight (now f)));
        distinct = λ f x y. absurd (ground arith);
        job = λ x y. absurd (ground arith);
        target = i.target;
        empty = rw s i.empty;
        member = λ h lh. elim (Bool-cases (g == h)) [
          | inl x ↦ here h (ground arith)
          | inr x ↦
              let ne : h ≢ g = ground arith in
              let rest : d'.rec h ≡ d.rec h = ap (λ f. f h) rec' ∙ ground arith in
              rw (rest, tables' h ne, s, q) (i.member h lh)
        ];
      }
