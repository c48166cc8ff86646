-- ===== src/Tokens/Mutex.antt =====
-- The critical region: the semaphore `mutex`, taken and given back by every process.
use so_projeto.Prelude.{ℕ, ◌≤◌, ◌<◌, ◌≡◌, refl, Bool, true, false, some, ◌==◌, arith}
use so_projeto.Const.{max_groups}
use so_projeto.Semaphore.{ushort}
use so_projeto.SharedData.{SemId, mutex, sem_index}
use so_projeto.Group.{check_in_at_reception, order_food, wait_food, check_out_at_reception}
use so_projeto.Chef.{wait_for_order_step, process_order}
use so_projeto.Waiter.{announce, poll, inform_chef_of, take_food_to_table, serve}
use so_projeto.Receptionist.{wait_for_group, provide_table_or_waiting_room, receive_payment, handle}
use so_projeto.System.{Pid, waiter}
use so_projeto.Tokens.{Protocol}
use so_projeto.Tokens.Programs.{Parts}

abbrev pub is_mutex : SemId → Bool
is_mutex mutex = true
is_mutex _ = false

-- Reads need the token too; the waiter reads a group's table without it.
abbrev pub ReadOk : Pid → ℕ → Type 0
ReadOk waiter k = Unit
ReadOk p k = 0 < k

abbrev pub num_is_mutex : ℕ → Bool
num_is_mutex i = i == 1

pub mutex_low : (i : ℕ) → num_is_mutex i ≡ true → i < 8
mutex_low i h = ground arith

pub mutex_agree :
    (n : ℕ) (x : SemId) {i : ℕ}
    → n ≤ max_groups
    → sem_index n x ≡ some i
    → num_is_mutex (ushort i) ≡ is_mutex x
unfolding sem_index
mutex_agree n x le e = ground arith

abbrev pub mutex_protocol : Protocol
mutex_protocol = record {
  counts = is_mutex;
  counts_num = num_is_mutex;
  low = mutex_low;
  agree = mutex_agree;
  may_read = ReadOk;
  may_write = λ p g k. 0 < k;
  may_save = λ k. 0 < k;
  may_down = λ k. k ≡ 0;
  may_rest = λ k. k ≡ 0;
}

-- Each part of a program begins and ends outside of the critical region.
pub mutex_parts : Parts mutex_protocol (λ p. 0)
unfolding check_in_at_reception order_food wait_food check_out_at_reception wait_for_order_step
    process_order announce poll serve inform_chef_of take_food_to_table wait_for_group handle
    provide_table_or_waiting_room receive_payment
mutex_parts = record {
  resting = λ p. refl;
  check_in = λ g id. ground arith;
  order = λ g id. ground arith;
  wait = λ g id. ground arith;
  check_out = λ g id. ground arith;
  take_order = ground arith;
  process = λ last. ground arith;
  announcing = ground arith;
  polling = ground arith;
  serving = λ req. ground arith;
  waiting = ground arith;
  handling = λ rec req. ground arith;
}
