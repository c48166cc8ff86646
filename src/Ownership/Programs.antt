-- ===== src/Ownership/Programs.antt =====
-- A program that is not the owner's leaves the invariant alone if its parts do.
use so_projeto.Prelude.{ℕ, zero, suc, Option, none, some, inl, inr, ltb, ◌==◌, Bool-cases}
use so_projeto.Const.{max_groups, foodreq, foodready, food_request, wait_for_food}
use so_projeto.State.{FullStat, Request, set_group_stat}
use so_projeto.Process.{Proc}
use so_projeto.SharedData.{SemId}
use so_projeto.Group.{
  down_at, up_at, check_in_at_reception, order_food, wait_food, check_out_at_reception, group_life,
  group_main,
}
use so_projeto.Chef.{wait_for_order_step, process_order, chef_loop}
use so_projeto.Waiter.{
  announce, found_or, first_in_state, take_request, inform_chef_of, take_food_to_table, poll,
  poll_loop, wait_for_client_or_chef, serve, waiter_loop,
}
use so_projeto.Receptionist.{GroupRecord, wait_for_group, handle, receptionist_loop}
use so_projeto.Ownership.{Leaves, Leaves-bind}

module _ {V : Type 0} (holds : V → FullStat → Type 0) where
  pub down_at-Leaves : (array : ℕ → SemId) (o : Option ℕ) → Leaves holds (down_at array o)
  down_at-Leaves array none = tt
  down_at-Leaves array (some t) = tt

  pub up_at-Leaves : (array : ℕ → SemId) (o : Option ℕ) → Leaves holds (up_at array o)
  up_at-Leaves array none = tt
  up_at-Leaves array (some t) = tt

  pub group_main-Leaves :
      (id : ℕ)
      → Leaves holds (check_in_at_reception id)
      → Leaves holds (order_food id)
      → Leaves holds (wait_food id)
      → Leaves holds (check_out_at_reception id)
      → Leaves holds (group_main id)
  unfolding group_main group_life
  group_main-Leaves id a b c d = elim (Bool-cases (ltb id max_groups)) [
    | inl e ↦ rw e (
        Leaves-bind holds (check_in_at_reception id) _ a λ _.
          Leaves-bind holds (order_food id) _ b λ _. Leaves-bind holds (wait_food id) _ c λ _. d)
    | inr e ↦ rw e tt
  ]

  pub chef_loop-Leaves :
      (left : ℕ)
      → Leaves holds wait_for_order_step
      → ((last : ℕ) → Leaves holds (process_order last))
      → Leaves holds (chef_loop left)
  unfolding chef_loop
  chef_loop-Leaves zero a b = tt
  chef_loop-Leaves (suc left) a b =
      Leaves-bind holds wait_for_order_step _ a
        λ last. Leaves-bind holds (process_order last) _ (b last) λ _. chef_loop-Leaves left a b

  take_request-Leaves :
      (o : Option ℕ)
      → ((i : ℕ) (v : V) (s : FullStat) → holds v s → holds v (set_group_stat i wait_for_food s))
      → Leaves holds (take_request o)
  take_request-Leaves none h = λ s. tt
  take_request-Leaves (some i) h = (h i, tt)

  pub poll-Leaves :
      ((i : ℕ) (v : V) (s : FullStat) → holds v s → holds v (set_group_stat i wait_for_food s))
      → Leaves holds poll
  unfolding poll
  poll-Leaves h = λ s.
      Leaves-bind holds (take_request (first_in_state food_request s)) _
        (take_request-Leaves (first_in_state food_request s) h) (λ a. tt)

  pub serve-Leaves :
      (req : Request)
      → Leaves holds (inform_chef_of req.req_group)
      → Leaves holds (take_food_to_table req.req_group)
      → Leaves holds (serve req)
  unfolding serve
  serve-Leaves req a b = elim (Bool-cases (req.req_type == foodreq)) [
    | inl e ↦ rw e a
    | inr e ↦
        rw e (elim (Bool-cases (req.req_type == foodready)) [ inl f ↦ rw f b | inr f ↦ rw f tt ])
  ]

  found_or-Leaves :
      (c : Proc Request) (found : Option Request) → Leaves holds c → Leaves holds (found_or c found)
  found_or-Leaves c none h = h
  found_or-Leaves c (some req) h = tt

  poll_loop-Leaves : (rounds : ℕ) → Leaves holds poll → Leaves holds (poll_loop rounds)
  unfolding poll_loop
  poll_loop-Leaves zero h = tt
  poll_loop-Leaves (suc rounds) h =
      Leaves-bind holds poll _ h
        λ found. found_or-Leaves (poll_loop rounds) found (poll_loop-Leaves rounds h)

  pub waiter_loop-Leaves :
      (rounds left : ℕ)
      → Leaves holds announce
      → Leaves holds poll
      → ((req : Request) → Leaves holds (serve req))
      → Leaves holds (waiter_loop rounds left)
  unfolding waiter_loop wait_for_client_or_chef
  waiter_loop-Leaves rounds zero a b c = tt
  waiter_loop-Leaves rounds (suc left) a b c =
      Leaves-bind holds (wait_for_client_or_chef rounds) _
        (Leaves-bind holds announce _ a λ _. poll_loop-Leaves rounds b)
        λ req. Leaves-bind holds (serve req) _ (c req) λ _. waiter_loop-Leaves rounds left a b c

  pub receptionist_loop-Leaves :
      (left : ℕ) (rec : GroupRecord)
      → Leaves holds wait_for_group
      → ((rec : GroupRecord) (req : Request) → Leaves holds (handle rec req))
      → Leaves holds (receptionist_loop left rec)
  unfolding receptionist_loop
  receptionist_loop-Leaves zero rec a b = tt
  receptionist_loop-Leaves (suc left) rec a b = Leaves-bind holds wait_for_group _ a λ req.
      Leaves-bind holds (handle rec req) _ (b rec req)
        λ rec'. receptionist_loop-Leaves left rec' a b
