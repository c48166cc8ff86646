-- ===== src/Tables/Safety.antt =====
-- In every system that is reached, no two groups have the same table.
use so_projeto.Prelude.{◌≤◌, ℕ, ◌*◌, ◌<◌, ◌≡◌, refl, true, false, Option, none, arith}
use so_projeto.Const.{max_groups, toarrive}
use so_projeto.State.{FullStat}
use so_projeto.SharedData.{request_received, food_arrived, table_done}
use so_projeto.Semaphore.{Kernel, IsKernel}
use so_projeto.Group.{
  check_in_at_reception, order_food, wait_food, check_out_at_reception, group_main, down_at, up_at,
}
use so_projeto.Chef.{wait_for_order_step, process_order, chef_loop, chef_main}
use so_projeto.Waiter.{announce, inform_chef_of, take_food_to_table, waiter_loop}
use so_projeto.System.{
  Pid, group, waiter, chef, receptionist, System, Config, Reached, is_pid, same_pid, initial_state,
  initial_procs,
}
use so_projeto.Ownership.{Owns, Leaves, Leaves-bind, Done}
use so_projeto.Ownership.Run.{Reached-Owned}
use so_projeto.Ownership.Programs.{
  poll-Leaves, serve-Leaves, down_at-Leaves, up_at-Leaves, group_main-Leaves, chef_loop-Leaves,
  waiter_loop-Leaves,
}
use so_projeto.Tables.{IsSeated, IsShown, Shows}
use so_projeto.Tables.Owner.{receptionist_loop-Safe}

module _ (n : ℕ) where
  -- A write of other fields, and a group's write of its request.
  abbrev elsewhere : (v : ℕ → Option ℕ) (s : FullStat) → Shows n v s → Shows n v s
  elsewhere v s h = h

  group_main-Leaves_tables : (g : ℕ) → g < n → Leaves (Shows n) (group_main g)
  unfolding check_in_at_reception order_food wait_food check_out_at_reception
  group_main-Leaves_tables g lt =
      group_main-Leaves holds g (elsewhere, (asks, tt))
        (elsewhere, (elsewhere, λ s. down_at-Leaves holds request_received (s.assigned_table g)))
        (
          elsewhere,
          λ s.
              Leaves-bind holds (down_at food_arrived (s.assigned_table g)) _
                (down_at-Leaves holds food_arrived (s.assigned_table g)) (λ a. (elsewhere, tt)),
        )
        (
          elsewhere,
          (
            asks,
            λ s.
                Leaves-bind holds (down_at table_done (s.assigned_table g)) _
                  (down_at-Leaves holds table_done (s.assigned_table g)) (λ a. (elsewhere, tt)),
          ),
        )
    where
      holds : (ℕ → Option ℕ) → FullStat → Type 0
      holds = Shows n

      asks :
          (v : ℕ → Option ℕ) (s : FullStat)
          → Shows n v s
          → IsShown n v s.assigned_table s.n_groups g
      asks v s h = record {
        same = h.same;
        groups = h.groups;
        known = omega arith;
        seated = h.seated;
      }

  waiter-Leaves : (rounds left : ℕ) → Leaves (Shows n) (waiter_loop rounds left)
  unfolding announce inform_chef_of take_food_to_table
  waiter-Leaves rounds left =
      waiter_loop-Leaves holds rounds left (elsewhere, tt) (poll-Leaves holds (λ i. elsewhere))
        λ req.
          serve-Leaves holds req
            (
              elsewhere,
              (
                elsewhere,
                λ s. up_at-Leaves holds request_received (s.assigned_table req.req_group),
              ),
            )
            (
              elsewhere,
              λ s.
                  Leaves-bind holds (up_at food_arrived (s.assigned_table req.req_group)) _
                    (up_at-Leaves holds food_arrived (s.assigned_table req.req_group))
                    (λ a. (elsewhere, tt)),
            )
    where
      holds : (ℕ → Option ℕ) → FullStat → Type 0
      holds = Shows n

  chef-Leaves : (left : ℕ) → Leaves (Shows n) (chef_loop left)
  unfolding wait_for_order_step process_order
  chef-Leaves left =
      chef_loop-Leaves (Shows n) left (λ s. (elsewhere, tt)) (λ last. (elsewhere, (elsewhere, tt)))

  others-Leaves :
      (rounds : ℕ) (q : Pid)
      → is_pid n q ≡ true
      → same_pid receptionist q ≡ false
      → Leaves (Shows n) (initial_procs rounds n q)
  unfolding initial_procs chef_main
  others-Leaves rounds (group g) u d = group_main-Leaves_tables g (ground arith)
  others-Leaves rounds waiter u d = waiter-Leaves rounds (n * 2)
  others-Leaves rounds chef u d = chef-Leaves n
  others-Leaves rounds receptionist u d = cc

  receptionist-Owns :
      (rounds : ℕ) (v : ℕ → Option ℕ)
      → Owns (Shows n) (initial_procs rounds n receptionist) (Done (Shows n)) v
  unfolding initial_procs
  receptionist-Owns rounds v = receptionist_loop-Safe n (n * 2) (λ g. toarrive) v

-- The receptionist's tables, and the number of groups, are those of the memory.
pub Reached-Shows :
    {k : Kernel}
    → IsKernel k
    → (c : Config) {t : System} → Reached k c t
    → (v : ℕ → Option ℕ) × Shows c.n_groups v t.mem
unfolding initial_state
Reached-Shows law c {t} r =
    let o =
      Reached-Owned (Shows c.n_groups) law c receptionist (λ g. none)
        (record {
          same = refl;
          groups = refl;
          known = omega arith;
          seated = record { unique = λ g h a lg lh eg eh. cc; bounded = λ g a e. cc };
        })
        (λ rounds. receptionist-Owns c.n_groups rounds (λ g. none)) (others-Leaves c.n_groups) r in
    (o.view, o.now)

-- With at most MAXGROUPS groups and a kernel that keeps its promises, in every system that is reached,
-- no two groups have the same table, and every table that a group has is one of the restaurant's.
pub tables_distinct :
    {k : Kernel}
    → IsKernel k
    → (c : Config) {t : System} → c.n_groups ≤ max_groups
    → Reached k c t
    → IsSeated c.n_groups t.mem.assigned_table
tables_distinct law c {t} le r = let (v, h) = Reached-Shows law c r in rw h.same h.seated
