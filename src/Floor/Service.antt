-- ===== src/Floor/Service.antt =====
-- The waiter and the chef of semaphore_restaurant/src keep what all know.
use so_projeto.Prelude.{
  ℕ, zero, suc, ◌≤◌, ◌≡◌, ◌⊎◌, refl, sym, subst, false, Option, none, some, inl, inr, ◌==◌,
  first-some, Bool-cases, arith,
}
use so_projeto.Const.{max_groups, food_request, wait_for_food, eat, cook, foodreq, foodready}
use so_projeto.State.{FullStat, Request, set_group_stat, set_chef_stat}
use so_projeto.SharedData.{mutex, order_received, request_received, food_arrived}
use so_projeto.Process.{Proc, ret, ◌>>=◌, ◌>>◌, sem_down, sem_up, assign, save_state}
use so_projeto.Group.{up_at}
use so_projeto.Waiter.{
  request, first_in_state, chef_signal, take_request, announce, found_or, poll, poll_loop,
  wait_for_client_or_chef, inform_chef_of, take_food_to_table, serve, waiter_loop,
}
use so_projeto.Chef.{wait_for_order_step, process_order, chef_loop}
use so_projeto.System.{waiter, chef}
use so_projeto.Ghost.{Ok}
use so_projeto.Ghost.Bind.{Ok-bind}
use so_projeto.Floor.{View}
use so_projeto.Floor.Steps.{floor, quiet_write, quiet_up, quiet_down, saves, returns, spins}
use so_projeto.Floor.Numbers.{
  waiter_possible-FarNumber, waiter_request-FarNumber, wait_order-FarNumber,
  order_received-FarNumber, received-FarNumber, food-FarNumber,
}
use so_projeto.Floor.Staff.{staff}
use so_projeto.Floor.Serving.{
  chef_enters, chef_leaves, waiter_enters, waiter_leaves, waiter_serves, waiter_looks, waiter_reads,
  waiter_faults, chef_reads,
}

abbrev pub IsOut : {A : Type 0} → A → View → Type 0
IsOut a u = (o : Option ℕ) × (u ≡ staff false o)

abbrev Found : Option Request → View → Type 0
Found none u = u ≡ staff false none
Found (some req) u = u ≡ staff false (some req.req_group)

abbrev FoundOne : Request → View → Type 0
FoundOne req u = u ≡ staff false (some req.req_group)

module _ (n : ℕ) (few : n ≤ max_groups) where
  announce-Ok : (o : Option ℕ) → Ok (floor n) waiter announce IsOut (staff false o)
  unfolding announce
  announce-Ok o = waiter_enters n _ _ o (
      quiet_write n waiter _ _ _ _ (λ m. (refl, refl, refl, refl, refl))
        (saves n waiter _ _ _ (
          waiter_leaves n _ _ o (
            quiet_up n waiter _ _ _ _ (waiter_possible-FarNumber n)
              (returns n waiter tt _ _ (o, refl))))))

  abbrev done : Option Request → Proc (Option Request)
  done found = do sem_up mutex; ret found

  asking_found :
      (m : FullStat) (g : ℕ)
      → first_in_state food_request m ≡ some g
      → (m.st.group_stat g ≡ food_request) ⊎ (m.st.group_stat g ≡ wait_for_food)
  unfolding first_in_state
  asking_found m g e = let f = first-some max_groups _ g e in inl (ground (arith, f.passes))

  signalled_found :
      (m : FullStat) (g : ℕ)
      → chef_signal m ≡ some g
      → (m.st.group_stat g ≡ food_request) ⊎ (m.st.group_stat g ≡ wait_for_food)
  unfolding chef_signal first_in_state
  signalled_found m g e = elim (Bool-cases (m.waiter_request.req_type == foodready)) [
    | inl y ↦
        let f = first-some max_groups (λ j. m.st.group_stat j == wait_for_food) g (ground arith) in
        inr (ground (arith, f.passes))
    | inr y ↦ absurd (ground arith)
  ]

  abbrev ready_request : Option ℕ → Option Request
  ready_request none = none
  ready_request (some i) = some (request foodready i)

  poll-Ok : (o : Option ℕ) → Ok (floor n) waiter poll Found (staff false o)
  unfolding poll
  poll-Ok o = waiter_enters n _ _ o (
      waiter_looks n _ o (first_in_state food_request) (λ asking. take_request asking >>= done)
        asking_found
        (waiter_looks n _ none chef_signal
          (λ ready. done (elim ready [ none ↦ none | some i ↦ some (request foodready i) ]))
          signalled_found (waiter_leaves n _ _ none (returns n waiter none _ _ refl))
          (λ g.
            waiter_leaves n _ _ (some g) (returns n waiter (some (request foodready g)) _ _ refl)))
        (λ g.
          waiter_serves n _ _ g wait_for_food
            (waiter_leaves n _ _ (some g) (returns n waiter (some (request foodreq g)) _ _ refl))))

  found_or-Ok :
      (c : Proc Request) (found : Option Request) (u : View)
      → Found found u
      → Ok (floor n) waiter c FoundOne (staff false none)
      → Ok (floor n) waiter (found_or c found) FoundOne u
  found_or-Ok c none u e h = subst (Ok (floor n) waiter c FoundOne) (sym e) h
  found_or-Ok c (some req) u e h = returns n waiter req _ _ e

  poll_loop-Ok :
      (rounds : ℕ) (o : Option ℕ) → Ok (floor n) waiter (poll_loop rounds) FoundOne (staff false o)
  unfolding poll_loop
  poll_loop-Ok zero o = spins n waiter _ _
  poll_loop-Ok (suc rounds) o =
      Ok-bind (floor n) waiter poll (found_or (poll_loop rounds)) Found FoundOne (staff false o)
        (poll-Ok o) λ found u e. found_or-Ok (poll_loop rounds) found u e (poll_loop-Ok rounds none)

  waits-Ok :
      (rounds : ℕ) (o : Option ℕ)
      → Ok (floor n) waiter (wait_for_client_or_chef rounds) FoundOne (staff false o)
  unfolding wait_for_client_or_chef
  waits-Ok rounds o =
      Ok-bind (floor n) waiter announce (λ _. poll_loop rounds) IsOut FoundOne (staff false o)
        (announce-Ok o)
        λ a u (o', e).
          subst (Ok (floor n) waiter (poll_loop rounds) FoundOne) (sym e) (poll_loop-Ok rounds o')

  informs-Ok : (g : ℕ) → Ok (floor n) waiter (inform_chef_of g) IsOut (staff false (some g))
  unfolding inform_chef_of
  informs-Ok g = waiter_enters n _ _ (some g) (
      quiet_write n waiter _ _ _ _ (λ m. (refl, refl, refl, refl, refl))
        (saves n waiter _ _ _ (
          quiet_write n waiter _ _ _ _ (λ m. (refl, refl, refl, refl, refl))
            (quiet_up n waiter _ _ _ _ (wait_order-FarNumber n) (
              waiter_leaves n _ _ (some g) (
                quiet_down n waiter _ _ _ _ (order_received-FarNumber n) (
                  waiter_reads n _ g _ (up_at request_received) (waiter_faults n _ _) (λ t lt.
                    quiet_up n waiter _ _ _ _ (received-FarNumber n few t lt)
                      (returns n waiter tt _ _ (some g, refl))))))))))

  abbrev brings : ℕ → Option ℕ → Proc (Unit {0})
  brings g table = do
    up_at food_arrived table
    sem_up mutex
    sem_down mutex
    assign (set_group_stat g eat)
    save_state
    sem_up mutex

  takes-Ok : (g : ℕ) → Ok (floor n) waiter (take_food_to_table g) IsOut (staff false (some g))
  unfolding take_food_to_table
  takes-Ok g = waiter_enters n _ _ (some g) (
      quiet_write n waiter _ _ _ _ (λ m. (refl, refl, refl, refl, refl))
        (saves n waiter _ _ _ (
          waiter_reads n _ g _ (brings g) (waiter_faults n _ _) (λ t lt.
            quiet_up n waiter _ _ _ _ (food-FarNumber n few t lt) (
              waiter_leaves n _ _ (some g) (
                waiter_enters n _ _ (some g) (
                  waiter_serves n _ _ g eat (
                    saves n waiter _ _ _ (
                      waiter_leaves n _ _ (some g) (returns n waiter tt _ _ (some g, refl)))))))))))

  serve-Ok :
      (req : Request) → Ok (floor n) waiter (serve req) IsOut (staff false (some req.req_group))
  unfolding serve
  serve-Ok req = elim (Bool-cases (req.req_type == foodreq)) [
    | inl e ↦ rw e (informs-Ok req.req_group)
    | inr e ↦ rw e (elim (Bool-cases (req.req_type == foodready)) [
      | inl f ↦ rw f (takes-Ok req.req_group)
      | inr f ↦ rw f (returns n waiter tt _ _ (some req.req_group, refl))
    ])
  ]

  pub waiter_loop-Ok :
      (rounds left : ℕ) (o : Option ℕ)
      → Ok (floor n) waiter (waiter_loop rounds left) IsOut (staff false o)
  unfolding waiter_loop
  waiter_loop-Ok rounds zero o = returns n waiter tt _ _ (o, refl)
  waiter_loop-Ok rounds (suc left) o =
      Ok-bind (floor n) waiter (wait_for_client_or_chef rounds)
        (λ req. serve req >> waiter_loop rounds left) FoundOne IsOut (staff false o)
        (waits-Ok rounds o)
        λ req u e.
          subst (Ok (floor n) waiter (serve req >> waiter_loop rounds left) IsOut) (sym e) (
            Ok-bind (floor n) waiter (serve req) (λ _. waiter_loop rounds left) IsOut IsOut
              (staff false (some req.req_group)) (serve-Ok req)
              λ a v (o', d).
                subst (Ok (floor n) waiter (waiter_loop rounds left) IsOut) (sym d)
                  (waiter_loop-Ok rounds left o'))

  chef_takes-Ok :
      Ok (floor n) chef wait_for_order_step (λ a u. u ≡ staff false none) (staff false none)
  unfolding wait_for_order_step
  chef_takes-Ok = quiet_down n chef _ _ _ _ (wait_order-FarNumber n) (
      chef_enters n _ _ (
        chef_reads n _ _ (λ s. s.food_group) cooks
          (λ last.
            quiet_write n chef _ _ _ _ (λ m. (refl, refl, refl, refl, refl))
              (saves n chef _ _ _ (
                quiet_up n chef _ _ _ _ (order_received-FarNumber n)
                  (chef_leaves n _ _ (returns n chef last _ _ refl)))))))
    where
      cooks : ℕ → Proc ℕ
      cooks last = do
        assign (set_chef_stat cook)
        save_state
        sem_up order_received
        sem_up mutex
        ret last

  chef_cooks-Ok :
      (last : ℕ)
      → Ok (floor n) chef (process_order last) (λ a u. u ≡ staff false none) (staff false none)
  unfolding process_order
  chef_cooks-Ok last = quiet_down n chef _ _ _ _ (waiter_possible-FarNumber n) (
      chef_enters n _ _ (
        quiet_write n chef _ _ _ _ (λ m. (refl, refl, refl, refl, refl))
          (quiet_up n chef _ _ _ _ (waiter_request-FarNumber n) (
            quiet_write n chef _ _ _ _ (λ m. (refl, refl, refl, refl, refl))
              (saves n chef _ _ _ (chef_leaves n _ _ (returns n chef tt _ _ refl)))))))

  pub chef_loop-Ok :
      (left : ℕ)
      → Ok (floor n) chef (chef_loop left) (λ a u. u ≡ staff false none) (staff false none)
  unfolding chef_loop
  chef_loop-Ok zero = returns n chef tt _ _ refl
  chef_loop-Ok (suc left) =
      Ok-bind (floor n) chef wait_for_order_step (λ last. process_order last >> chef_loop left)
        (λ a u. u ≡ staff false none) _ (staff false none) chef_takes-Ok
        λ last u e. subst (Ok (floor n) chef (process_order last >> chef_loop left) _) (sym e) (
          Ok-bind (floor n) chef (process_order last) (λ _. chef_loop left)
            (λ a u. u ≡ staff false none) _ (staff false none) (chef_cooks-Ok last)
            λ a v d. subst (Ok (floor n) chef (chef_loop left) _) (sym d) (chef_loop-Ok left))
