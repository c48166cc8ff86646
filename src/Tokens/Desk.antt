-- ===== src/Tokens/Desk.antt =====
-- The request to the receptionist: `receptionistRequestPossible` and `receptionistReq` hold one
-- token between them, and only the process that holds it writes the request.
use so_projeto.Prelude.{
  ℕ, ◌+◌, ◌≤◌, ◌<◌, ◌≡◌, ◌⊎◌, refl, ap, subst, inl, inr, Bool, true, false, ◌||◌, some, ◌==◌, total,
  total-eq_zero, Bool-cases, arith,
}
use so_projeto.Const.{max_groups}
use so_projeto.State.{Request, FullStat}
use so_projeto.Semaphore.{Kernel, IsKernel, SemSet, ushort}
use so_projeto.Semaphore
use so_projeto.SharedData.{SemId, receptionist_req, receptionist_request_possible, sem_index}
use so_projeto.Process.{Proc, ret, down, up, read, write, save, exited, fault, spinning}
use so_projeto.Group.{check_in_at_reception, order_food, wait_food, check_out_at_reception}
use so_projeto.Chef.{wait_for_order_step, process_order}
use so_projeto.Waiter.{announce, poll, inform_chef_of, take_food_to_table, serve}
use so_projeto.Receptionist.{wait_for_group, provide_table_or_waiting_room, receive_payment, handle}
use so_projeto.System.{
  Pid, System, Config, Reached, World, is_pid, step, move, proc_step, on_sem_mem, on_save_mem,
}
use so_projeto.Tokens.{Protocol, Tok}
use so_projeto.Tokens.Programs.{Parts}
use so_projeto.Tokens.Reached.{Reached-Balanced}
use so_projeto.Tokens.Run.{le-all_held}

abbrev pub is_desk : SemId → Bool
is_desk receptionist_req = true
is_desk receptionist_request_possible = true
is_desk _ = false

abbrev pub num_is_desk : ℕ → Bool
num_is_desk i = (i == 2) || (i == 3)

pub desk_low : (i : ℕ) → num_is_desk i ≡ true → i < 8
desk_low i h = ground arith

pub desk_agree :
    (n : ℕ) (x : SemId) {i : ℕ}
    → n ≤ max_groups
    → sem_index n x ≡ some i
    → num_is_desk (ushort i) ≡ is_desk x
unfolding sem_index
desk_agree n x le e = ground arith

-- The write is of other fields.
abbrev pub KeepsRequest : (FullStat → FullStat) → Type 0
KeepsRequest g = (s : FullStat) → (g s).receptionist_request ≡ s.receptionist_request

abbrev pub desk_protocol : Protocol
desk_protocol = record {
  counts = is_desk;
  counts_num = num_is_desk;
  low = desk_low;
  agree = desk_agree;
  may_read = λ p k. Unit;
  may_write = λ p g k. (0 < k) ⊎ KeepsRequest g;
  may_save = λ k. Unit;
  may_down = λ k. Unit;
  may_rest = λ k. Unit;
}

pub desk_parts : Parts desk_protocol (λ p. 0)
unfolding check_in_at_reception order_food wait_food check_out_at_reception wait_for_order_step
    process_order announce poll serve inform_chef_of take_food_to_table wait_for_group handle
    provide_table_or_waiting_room receive_payment
desk_parts = record {
  resting = λ p. tt;
  check_in = λ g id. ground arith;
  order = λ g id. ground arith;
  wait = λ g id. ground arith;
  check_out = λ g id. ground arith;
  take_order = ground arith;
  process = λ last. ground arith;
  announcing = ground arith;
  polling = ground arith;
  serving = λ req. ground arith;
  waiting = ground arith;
  handling = λ rec req. ground arith;
}

abbrev request_of : FullStat → Request
request_of s = s.receptionist_request

-- A process without the token leaves the request as it is.
step-request :
    (k : Kernel) (n : ℕ) (p : Pid) (c : Proc (Unit {0})) (w : World)
    → Tok desk_protocol p c (λ a j. Unit {0}) 0
    → (proc_step k n c w).1.mem.receptionist_request ≡ w.mem.receptionist_request
unfolding proc_step
step-request k n p (ret a) w h = refl
step-request k n p (down x c) w h =
    ap request_of (on_sem_mem (Semaphore.sem_down k) (down x c) c w (sem_index n x))
step-request k n p (up x c) w h =
    ap request_of (on_sem_mem (Semaphore.sem_up k) (up x c) c w (sem_index n x))
step-request k n p (read f) w h = refl
step-request k n p (write g c) w h = elim h.0 [ inl lt ↦ absurd (omega arith) | inr e ↦ e w.mem ]
step-request k n p (save c) w h = ap request_of (on_save_mem c w (k.log_works w.tries))
step-request k n p exited w h = refl
step-request k n p fault w h = refl
step-request k n p spinning w h = refl

module _ {k : Kernel} (law : IsKernel k) (c : Config) {t : System}
    (le : c.n_groups ≤ max_groups) where
  -- With at most MAXGROUPS groups and a kernel that keeps its promises, in every system that is
  -- reached the two semaphores of the request to the receptionist add up to at most 1.
  one_request : Reached k c t → t.sems.value 2 + t.sems.value 3 ≤ 1
  unfolding total
  one_request r =
      let b = Reached-Balanced law c le desk_parts r in
      omega (arith, b.sum, total-eq_zero c.n_groups (λ g. 0) (λ g. refl))

  pending_unheld :
      (r : Reached k c t) (p : Pid)
      → 0 < t.sems.value 2
      → is_pid c.n_groups p ≡ true
      → (Reached-Balanced law c le desk_parts r).held p ≡ 0
  unfolding total
  pending_unheld r p lt u =
      let b = Reached-Balanced law c le desk_parts r in
      omega (
        arith,
        b.sum,
        total-eq_zero c.n_groups (λ g. 0) (λ g. refl),
        le-all_held c.n_groups b.held p u,
      )

  -- With at most MAXGROUPS groups and a kernel that keeps its promises: a request that has been
  -- signalled to the receptionist, and that it has not taken up yet, is not overwritten. No step of
  -- any process changes it.
  pub pending_request_kept :
      Reached k c t
      → (p : Pid) → 0 < t.sems.value 2
      → (step k c.n_groups t p).mem.receptionist_request ≡ t.mem.receptionist_request
  unfolding step move
  pending_request_kept r p lt = elim (Bool-cases (is_pid c.n_groups p)) [
    | inl u ↦
        let b = Reached-Balanced law c le desk_parts r in
        rw u (
          step-request k c.n_groups p (t.procs p) t.world (
            subst (Tok desk_protocol p (t.procs p) (λ a j. Unit {0})) (pending_unheld r p lt u)
              (b.keeps p)))
    | inr u ↦ rw u
  ]
