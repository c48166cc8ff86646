-- ===== src/Floor/Life.antt =====
-- The life of a group of semaphore_restaurant/src/semSharedMemGroup.c keeps what all know.
use so_projeto.Prelude.{
  ℕ, ◌≤◌, ◌<◌, ◌≡◌, refl, sym, subst, true, false, Option, inl, inr, ltb, arith,
}
use so_projeto.Const.{
  max_groups, atreception, tablereq, billreq, food_request, wait_for_food, eat, checkout, leaving,
}
use so_projeto.State.{set_group_stat}
use so_projeto.SharedData.{mutex, request_received, food_arrived, table_done}
use so_projeto.Process.{Proc, ◌>>◌, sem_down, sem_up, assign, save_state}
use so_projeto.Group.{
  check_in_at_reception, order_food, wait_food, check_out_at_reception, group_life, group_main,
  down_at,
}
use so_projeto.System.{Pid, group}
use so_projeto.Ghost.{Ok}
use so_projeto.Ghost.Bind.{Ok-bind}
use so_projeto.Floor.{View}
use so_projeto.Floor.Steps.{floor, quiet_write, quiet_up, quiet_down, saves, returns}
use so_projeto.Floor.Numbers.{
  waiter_possible-FarNumber, waiter_request-FarNumber, received-FarNumber, food-FarNumber,
  done-FarNumber,
}
use so_projeto.Floor.Moves.{at, enters, leaves}
use so_projeto.Floor.Acts.{takes_token, writes_stat, writes_request}
use so_projeto.Floor.Handing.{hands, is_called, reads_table}

abbrev pub AtStage : {A : Type 0} → ℕ → A → View → Type 0
AtStage s a u = u ≡ at s false

module _ (n g : ℕ) (lt : g < n) (few : n ≤ max_groups) where
  check_in-Ok : Ok (floor n) (group g) (check_in_at_reception g) (AtStage 5) (at 0 false)
  unfolding check_in_at_reception
  check_in-Ok = takes_token n g lt _ _ 0 1 (inl (refl, refl)) (
      enters n g lt _ _ 1 (omega arith) (
        writes_stat n g lt _ _ 1 2 atreception (inl (refl, refl, refl)) (
          saves n p _ _ _ (
            writes_request n g lt _ _ 2 3 tablereq (inl (refl, refl, refl)) (
              hands n g lt few _ _ 3 4 tablereq (inl (refl, refl, refl)) (
                leaves n g lt _ _ 4 4 (inl refl)
                  (is_called n g lt few _ _ (returns n p tt _ _ refl))))))))
    where
      p : Pid
      p = group g

  order-Ok : Ok (floor n) (group g) (order_food g) (AtStage 5) (at 5 false)
  unfolding order_food
  order-Ok = quiet_down n p _ _ _ _ (waiter_possible-FarNumber n) (
      enters n g lt _ _ 5 (omega arith) (
        writes_stat n g lt _ _ 5 5 food_request (inr (omega arith, refl)) (
          saves n p _ _ _ (
            quiet_write n p _ _ _ _ (λ m. (refl, refl, refl, refl, refl))
              (quiet_up n p _ _ _ _ (waiter_request-FarNumber n) (
                reads_table n g lt _ 5 (λ table. sem_up mutex >> down_at request_received table)
                  (omega arith, omega arith)
                  (λ t lt'. leaves n g lt _ _ 5 5 (inl refl) (
                    quiet_down n p _ _ _ _ (received-FarNumber n few t lt')
                      (returns n p tt _ _ refl)))))))))
    where
      p : Pid
      p = group g

  wait-Ok : Ok (floor n) (group g) (wait_food g) (AtStage 5) (at 5 false)
  unfolding wait_food
  wait-Ok = enters n g lt _ _ 5 (omega arith) (
      writes_stat n g lt _ _ 5 5 wait_for_food (inr (omega arith, refl)) (
        saves n p _ _ _ (
          reads_table n g lt _ 5 eats (omega arith, omega arith)
            (λ t lt'. leaves n g lt _ _ 5 5 (inl refl) (
              quiet_down n p _ _ _ _ (food-FarNumber n few t lt') (
                enters n g lt _ _ 5 (omega arith) (
                  writes_stat n g lt _ _ 5 5 eat (inr (omega arith, refl)) (
                    saves n p _ _ _
                      (leaves n g lt _ _ 5 5 (inl refl) (returns n p tt _ _ refl))))))))))
    where
      p : Pid
      p = group g

      eats : Option ℕ → Proc (Unit {0})
      eats table = do
        sem_up mutex
        down_at food_arrived table
        sem_down mutex
        assign (set_group_stat g eat)
        save_state
        sem_up mutex

  check_out-Ok : Ok (floor n) (group g) (check_out_at_reception g) (AtStage 9) (at 5 false)
  unfolding check_out_at_reception
  check_out-Ok = takes_token n g lt _ _ 5 6 (inr (refl, refl)) (
      enters n g lt _ _ 6 (omega arith) (
        writes_stat n g lt _ _ 6 6 checkout (inr (omega arith, refl)) (
          saves n p _ _ _ (
            writes_request n g lt _ _ 6 7 billreq (inr (refl, refl, refl)) (
              hands n g lt few _ _ 7 8 billreq (inr (refl, refl, refl)) (
                reads_table n g lt _ 8 goes (omega arith, omega arith)
                  (λ t lt'. leaves n g lt _ _ 8 9 (inr (refl, refl)) (
                    quiet_down n p _ _ _ _ (done-FarNumber n few t lt') (
                      enters n g lt _ _ 9 (omega arith) (
                        writes_stat n g lt _ _ 9 9 leaving (inr (omega arith, refl)) (
                          saves n p _ _ _
                            (leaves n g lt _ _ 9 9 (inl refl) (returns n p tt _ _ refl)))))))))))))
    where
      p : Pid
      p = group g

      goes : Option ℕ → Proc (Unit {0})
      goes table = do
        sem_up mutex
        down_at table_done table
        sem_down mutex
        assign (set_group_stat g leaving)
        save_state
        sem_up mutex

  pub group_main-Ok : Ok (floor n) (group g) (group_main g) (AtStage 9) (at 0 false)
  unfolding group_main group_life
  group_main-Ok =
      let e : ltb g max_groups ≡ true = ground arith in
      rw e (
        Ok-bind (floor n) (group g) (check_in_at_reception g) _ (AtStage 5) (AtStage 9) (at 0 false)
          check_in-Ok
          λ a u e. subst (Ok (floor n) (group g) _ (AtStage 9)) (sym e) (
            Ok-bind (floor n) (group g) (order_food g) _ (AtStage 5) (AtStage 9) (at 5 false)
              order-Ok
              λ a u e. subst (Ok (floor n) (group g) _ (AtStage 9)) (sym e) (
                Ok-bind (floor n) (group g) (wait_food g) _ (AtStage 5) (AtStage 9) (at 5 false)
                  wait-Ok
                  λ a u e. subst (Ok (floor n) (group g) _ (AtStage 9)) (sym e) check_out-Ok)))
