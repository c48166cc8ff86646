-- ===== src/Floor/Counter.antt =====
-- The receptionist of semaphore_restaurant/src/semSharedMemReceptionist.c keeps what all know, and its
-- own record in order.
use so_projeto.Prelude.{
  ℕ, ◌+◌, ◌≤◌, ◌<◌, ◌≡◌, refl, true, false, Option, none, some, ◌==◌, update, arith,
}
use so_projeto.Const.{max_groups, toarrive, wait, attable}
use so_projeto.State.{FullStat, Request, set_groups_waiting}
use so_projeto.SharedData.{mutex, receptionist_request_possible}
use so_projeto.Process.{Proc, ret, ◌>>=◌, ◌>>◌, sem_up}
use so_projeto.Receptionist.{
  GroupRecord, decide_table_or_wait, wait_for_group, provide, provide_table_or_waiting_room,
}
use so_projeto.Tables.Decide.{decide_table-IsOffer, decide_none-taken}
use so_projeto.Reception.{IsDesk}
use so_projeto.Reception.Arrive.{seated_state, seat-IsDesk, wait-IsDesk}
use so_projeto.Hall.Day.{elsewhere-IsDesk}
use so_projeto.System.{receptionist}
use so_projeto.Ghost.{Ok}
use so_projeto.Floor.{View, Desk, picture, IsSettled}
use so_projeto.Floor.Steps.{floor, quiet_write, saves, returns}
use so_projeto.Floor.Clerk.{
  clerk, takes_up, lets_in, clerk_enters, clerk_leaves, reads_request, IsAnswerable,
}
use so_projeto.Floor.Answers.{noted}
use so_projeto.Floor.Answering.{assigns, counts, clerk_reads}
use so_projeto.Floor.Telling.{tells}
use so_projeto.Floor.Tally.{answers, answers-update}
use so_projeto.Floor.Known.{job-HasAsked, table_known}

-- The record that the code goes on with is the one that is known, `k` requests of `n` groups have been
-- answered, and none is left.
abbrev pub Answered : ℕ → ℕ → GroupRecord → View → Type 0
Answered n k rec u = (d : Desk) × (d.rec ≡ rec) × (u ≡ clerk 20 false d none) × (answers n rec ≡ k)

abbrev pub Taken : ℕ → Desk → Request → View → Type 0
Taken n d q u = IsAnswerable n d q × (u ≡ clerk 20 false d (some q))

module _ (n : ℕ) (few : n ≤ max_groups) where
  pub waits-Ok :
      (d : Desk) → Ok (floor n) receptionist wait_for_group (Taken n d) (clerk 20 false d none)
  unfolding wait_for_group
  waits-Ok d = clerk_enters n _ _ d 20 none λ o.
      quiet_write n receptionist _ _ _ _ (λ m. (refl, refl, refl, refl, refl))
        (saves n receptionist _ _ _ (
          clerk_leaves n _ _ d 20 none o (
            takes_up n _ _ d (
              clerk_enters n _ _ d 21 none λ o'. reads_request n _ d lets λ q may.
                lets_in n _ _ d (some q) (
                  clerk_leaves n _ _ d 20 (some q) o'
                    (returns n receptionist q _ _ (may, refl)))))))
    where
      lets : Request → Proc Request
      lets req = do sem_up receptionist_request_possible; sem_up mutex; ret req

  -- The picture of what is recorded is in order where a state with the same tables is.
  pub settles :
      (d : Desk) (s : FullStat)
      → d.tables ≡ s.assigned_table
      → n ≡ s.n_groups
      → d.waiting ≡ s.groups_waiting
      → IsDesk d.rec s
      → IsSettled n d
  settles d s a b c h =
      elsewhere-IsDesk d.rec s (picture n d)
        (record {
          same_tables = a;
          same_groups = b;
          same_waiting = c;
          still_there = λ g lt w x. refl;
        })
        h

  module _ (d : Desk) (q : Request) (lt : q.req_group < n) (o : IsSettled n d) where
    abbrev Finished : GroupRecord → Proc GroupRecord
    Finished rec = do sem_up mutex; ret rec

    seats :
        d.rec q.req_group ≡ toarrive
        → (x : Option ℕ) → decide_table_or_wait (picture n d) q.req_group ≡ x
        → Ok
            (floor n)
            receptionist
            (provide d.rec q.req_group x >>= Finished)
            (Answered n (answers n d.rec + 1))
            (clerk 20 true d (some q))
    seats new none e =
        let d' = noted d q.req_group wait d.tables (d.waiting + 1) in
        counts n _ _ d (some q) q.req_group lt new (job-HasAsked n d q new) (
          clerk_leaves n _ _ d' 20 none
            (settles d' (set_groups_waiting (d.waiting + 1) (picture n d)) refl refl refl
              (wait-IsDesk o lt new refl (decide_none-taken (picture n d) q.req_group e refl)))
            (returns n receptionist (update d.rec q.req_group wait) _ _
              (d', refl, refl, ground (arith, answers-update n d.rec q.req_group wait))))
    seats new (some t) e =
        let d' = noted d q.req_group attable (update d.tables q.req_group (some t)) d.waiting in
        let offer = decide_table-IsOffer (picture n d) q.req_group t e in
        quiet_write n receptionist _ _ _ _ (λ m. (refl, refl, refl, refl, refl))
          (saves n receptionist _ _ _ (
            assigns n _ _ d (some q) q.req_group t lt offer.exists o.seated.bounded
              (job-HasAsked n d q new)
              (tells n _ _ d' q.req_group t few lt (ground arith) (ground arith) (
                clerk_leaves n _ _ d' 20 none
                  (settles d' (seated_state d.rec q.req_group (picture n d) t) refl refl refl
                    (seat-IsDesk o lt t new offer))
                  (returns n receptionist (update d.rec q.req_group attable) _ _ (
                    d',
                    refl,
                    refl,
                    ground (arith, answers-update n d.rec q.req_group attable),
                  ))))))

  pub provide-Ok :
      (d : Desk) (q : Request)
      → q.req_group < n
      → d.rec q.req_group ≡ toarrive
      → Ok
          (floor n)
          receptionist
          (provide_table_or_waiting_room d.rec q.req_group)
          (Answered n (answers n d.rec + 1))
          (clerk 20 false d (some q))
  unfolding provide_table_or_waiting_room
  provide-Ok d q lt new =
      let first_time : (d.rec q.req_group == toarrive) ≡ true = ground arith in
      clerk_enters n _ _ d 20 (some q) λ o. rw first_time (
        clerk_reads n _ d (some q) (λ s. decide_table_or_wait s q.req_group)
          (decide_table_or_wait (picture n d) q.req_group)
          (λ table. provide d.rec q.req_group table >>= Finished d q lt o) (table_known n d q new)
          (seats d q lt o new (decide_table_or_wait (picture n d) q.req_group) refl))
