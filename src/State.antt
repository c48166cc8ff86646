-- ===== src/State.antt =====
-- semaphore_restaurant/src/probDataStruct.h: the state that the processes share.
-- An array is a function of the index; a table is `some t`, and the value -1 is `none`. The index of a
-- group is below `n_groups`, which is at most MAXGROUPS in what the processes work on (Config of System), so
-- none of them reaches past the 16 places that an array has; the values there stand for nothing.
use so_projeto.Prelude.{ℕ, Option, update}

-- `request`
pub record Request : Type 0 where
  pub req_type : ℕ
  pub req_group : ℕ

-- `STAT`
pub record Stat : Type 0 where
  pub receptionist_stat : ℕ
  pub waiter_stat : ℕ
  pub chef_stat : ℕ
  pub group_stat : ℕ → ℕ

-- `FULL_STAT`
pub record FullStat : Type 0 where
  pub st : Stat
  pub n_groups : ℕ
  pub groups_waiting : ℕ
  pub start_time : ℕ → ℕ
  pub eat_time : ℕ → ℕ
  pub assigned_table : ℕ → Option ℕ
  pub food_order : ℕ
  pub food_group : ℕ
  pub receptionist_request : Request
  pub waiter_request : Request

-- Assignments to one field.
abbrev pub set_group_stat : ℕ → ℕ → FullStat → FullStat
set_group_stat g v s = record s { st = record s.st { group_stat = update s.st.group_stat g v } }

abbrev pub set_receptionist_stat : ℕ → FullStat → FullStat
set_receptionist_stat v s = record s { st = record s.st { receptionist_stat = v } }

abbrev pub set_waiter_stat : ℕ → FullStat → FullStat
set_waiter_stat v s = record s { st = record s.st { waiter_stat = v } }

abbrev pub set_chef_stat : ℕ → FullStat → FullStat
set_chef_stat v s = record s { st = record s.st { chef_stat = v } }

abbrev pub set_assigned_table : ℕ → Option ℕ → FullStat → FullStat
set_assigned_table g t s = record s { assigned_table = update s.assigned_table g t }

abbrev pub set_groups_waiting : ℕ → FullStat → FullStat
set_groups_waiting v s = record s { groups_waiting = v }

abbrev pub set_receptionist_request : ℕ → ℕ → FullStat → FullStat
set_receptionist_request t g s = record s {
  receptionist_request = record { req_type = t; req_group = g };
}

abbrev pub set_waiter_request : ℕ → ℕ → FullStat → FullStat
set_waiter_request t g s = record s { waiter_request = record { req_type = t; req_group = g } }
