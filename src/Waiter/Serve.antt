-- ===== src/Waiter/Serve.antt =====
-- `takeFoodToTable` and `informChef` of semaphore_restaurant/src/semSharedMemWaiter.c, and a signal
-- of the chef that is found twice.
use so_projeto.Prelude.{ℕ, ◌<◌, ◌≡◌, ◌≢◌, Option, none, some, List, [], ◌∷◌, arith}
use so_projeto.Const.{
  max_groups, foodreq, foodready, cook, food_request, wait_for_food, eat, take_to_table,
  inform_chef,
}
use so_projeto.State.{Request, FullStat, set_group_stat, set_waiter_stat, set_waiter_request}
use so_projeto.SharedData.{mutex, food_arrived, wait_order, order_received, request_received}
use so_projeto.Process.Alone.{Event, took, gave, saved, finished, stopped, alone}
use so_projeto.Waiter.{request, poll, inform_chef_of, take_food_to_table, serve}
use so_projeto.Waiter.Poll.{NoneIn, Finds, asked, ready, not_ready, nobody, poll-Finds, poll_events}

-- The memory after a delivery, and after an order.
abbrev pub at_table : FullStat → FullStat
at_table s = set_waiter_stat take_to_table s

abbrev pub delivered : ℕ → FullStat → FullStat
delivered g s = set_group_stat g eat (at_table s)

abbrev pub informing : FullStat → FullStat
informing s = set_waiter_stat inform_chef s

abbrev pub delivery_events : ℕ → ℕ → FullStat → List Event
delivery_events g t s =
    took mutex
    ∷ saved (at_table s)
    ∷ gave (food_arrived t)
    ∷ gave mutex
    ∷ took mutex
    ∷ saved (delivered g s)
    ∷ gave mutex
    ∷ []

-- Of a group with a table the waiter serves either request: it passes an order on, waits for the
-- chef and acknowledges it at the group's table, or brings the food there and notes that the group
-- eats. Without a table it leaves the array of semaphores. No other process steps in between.
serve_lem :
    (g : ℕ) (s : FullStat)
    → ((t : ℕ)
        → s.assigned_table g ≡ some t
        → (alone (serve (request foodreq g)) s
            ≡ finished tt (set_waiter_request cook g (informing s)) (
                took mutex
                ∷ saved (informing s)
                ∷ gave wait_order
                ∷ gave mutex
                ∷ took order_received
                ∷ gave (request_received t)
                ∷ []))
          × (alone (serve (request foodready g)) s
              ≡ finished tt (delivered g s) (delivery_events g t s)))
      × (s.assigned_table g ≡ none
          → (alone (serve (request foodreq g)) s ≡ stopped)
            × (alone (serve (request foodready g)) s ≡ stopped))
unfolding serve inform_chef_of take_food_to_table
serve_lem g s = (λ t e. (rw e, rw e), λ e. (rw e, rw e))

module _ (s : FullStat) (g h : ℕ) where
  -- The waiter finds the signal again, for another group.
  abbrev pub FindsAgain : FullStat → Type 0
  FindsAgain s' =
      (k : ℕ) × (k ≢ g)
      × (s'.st.group_stat k ≡ wait_for_food)
      × (alone poll s' ≡ finished (some (request foodready k)) s' poll_events)

  again :
      h < max_groups
      → h ≢ g
      → s.st.group_stat h ≡ wait_for_food
      → NoneIn food_request s
      → s.waiter_request.req_type ≡ foodready
      → {found : Option Request} {s' : FullStat} → Finds (delivered g s) found s'
      → alone poll (delivered g s) ≡ finished found s' poll_events
      → FindsAgain (delivered g s)
  again lt ne w quiet r (asked k f) e = absurd (quiet k f.exists (ground (arith, f.here)))
  again lt ne w quiet r (ready k q r' f) e = (k, ground (arith, f.here), f.here, e)
  again lt ne w quiet r (not_ready q nr) e = absurd (nr r)
  again lt ne w quiet r (nobody q n) e = absurd (n h lt (ground arith))

  -- The signal FOODREADY stays in the request when the food is delivered. So if two groups wait for
  -- food, the one served has a table, none asks, and the request says FOODREADY, the waiter serves one
  -- and finds the signal again at once for another, with no step of another process between.
  pub served_without_cooking :
      (t : ℕ)
      → s.assigned_table g ≡ some t
      → h < max_groups
      → h ≢ g
      → s.st.group_stat h ≡ wait_for_food
      → NoneIn food_request s
      → s.waiter_request.req_type ≡ foodready
      → (alone (take_food_to_table g) s ≡ finished tt (delivered g s) (delivery_events g t s))
        × FindsAgain (delivered g s)
  unfolding take_food_to_table
  served_without_cooking t e lt ne w quiet r =
      let (found, s', p, f) = poll-Finds (delivered g s) in (rw e, again lt ne w quiet r f p)
