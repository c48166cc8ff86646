-- ===== src/Tokens/Programs.antt =====
-- A protocol is kept by the whole programs if it is kept by their parts. Between two parts each
-- process holds the tokens that `rest` gives it.
use so_projeto.Prelude.{
  ℕ, zero, suc, ◌*◌, ◌≡◌, refl, subst, sym, Option, none, some, inl, inr, ltb, Bool-cases,
}
use so_projeto.Const.{max_groups, toarrive}
use so_projeto.State.{Request}
use so_projeto.Process.{Proc, ◌>>=◌}
use so_projeto.Group.{
  check_in_at_reception, order_food, wait_food, check_out_at_reception, group_life, group_main,
}
use so_projeto.Chef.{wait_for_order_step, process_order, chef_loop, chef_main}
use so_projeto.Waiter.{
  announce, found_or, poll, poll_loop, wait_for_client_or_chef, serve, waiter_loop,
}
use so_projeto.Receptionist.{GroupRecord, wait_for_group, handle, receptionist_loop}
use so_projeto.System.{Pid, group, waiter, chef, receptionist, initial_procs}
use so_projeto.Tokens.{Protocol, Tok}
use so_projeto.Tokens.Bind.{Tok-bind, Tok-weaken}

-- The program begins and ends with the tokens that its process has between two parts.
abbrev pub Rests : {A : Type 0} → Protocol → (Pid → ℕ) → Pid → Proc A → Type 0
Rests P rest p c = Tok P p c (λ a k. k ≡ rest p) (rest p)

pub record Parts (P : Protocol) (rest : Pid → ℕ) : Type 0 where
  pub resting : (p : Pid) → P.may_rest (rest p)
  pub check_in : (g id : ℕ) → Rests P rest (group g) (check_in_at_reception id)
  pub order : (g id : ℕ) → Rests P rest (group g) (order_food id)
  pub wait : (g id : ℕ) → Rests P rest (group g) (wait_food id)
  pub check_out : (g id : ℕ) → Rests P rest (group g) (check_out_at_reception id)
  pub take_order : Rests P rest chef wait_for_order_step
  pub process : (last : ℕ) → Rests P rest chef (process_order last)
  pub announcing : Rests P rest waiter announce
  pub polling : Rests P rest waiter poll
  pub serving : (req : Request) → Rests P rest waiter (serve req)
  pub waiting : Rests P rest receptionist wait_for_group
  pub handling : (rec : GroupRecord) (req : Request) → Rests P rest receptionist (handle rec req)

module _ {P : Protocol} {rest : Pid → ℕ} (parts : Parts P rest) where
  open parts use {
    resting, check_in, order, wait, check_out, take_order, process, announcing, polling, serving,
    waiting, handling,
  }

  then-Rests :
      {A B : Type 0} (p : Pid) (c : Proc A) (f : A → Proc B)
      → Rests P rest p c
      → ((a : A) → Rests P rest p (f a))
      → Rests P rest p (c >>= f)
  then-Rests p c f h t =
      Tok-bind P p c f (λ a k. k ≡ rest p) (λ a k. k ≡ rest p) (rest p) h (λ a j e. rw e (t a))

  group_main-Rests : (g id : ℕ) → Rests P rest (group g) (group_main id)
  unfolding group_main group_life
  group_main-Rests g id = elim (Bool-cases (ltb id max_groups)) [
    | inl e ↦ rw e (
        then-Rests p (check_in_at_reception id) _ (check_in g id) λ _.
          then-Rests p (order_food id) _ (order g id)
            λ _. then-Rests p (wait_food id) _ (wait g id) λ _. check_out g id)
    | inr e ↦ rw e tt
  ]
    where
      p : Pid
      p = group g

  chef_loop-Rests : (left : ℕ) → Rests P rest chef (chef_loop left)
  unfolding chef_loop
  chef_loop-Rests zero = refl
  chef_loop-Rests (suc left) =
      then-Rests chef wait_for_order_step _ take_order
        λ last. then-Rests chef (process_order last) _ (process last) λ _. chef_loop-Rests left

  found_or-Rests :
      (c : Proc Request) (found : Option Request)
      → Rests P rest waiter c
      → Rests P rest waiter (found_or c found)
  found_or-Rests c none h = h
  found_or-Rests c (some req) h = refl

  poll_loop-Rests : (rounds : ℕ) → Rests P rest waiter (poll_loop rounds)
  unfolding poll_loop
  poll_loop-Rests zero = resting waiter
  poll_loop-Rests (suc rounds) =
      then-Rests waiter poll _ polling
        λ found. found_or-Rests (poll_loop rounds) found (poll_loop-Rests rounds)

  wait_for_client_or_chef-Rests :
      (rounds : ℕ) → Rests P rest waiter (wait_for_client_or_chef rounds)
  unfolding wait_for_client_or_chef
  wait_for_client_or_chef-Rests rounds =
      then-Rests waiter announce _ announcing λ _. poll_loop-Rests rounds

  waiter_loop-Rests : (rounds left : ℕ) → Rests P rest waiter (waiter_loop rounds left)
  unfolding waiter_loop
  waiter_loop-Rests rounds zero = refl
  waiter_loop-Rests rounds (suc left) =
      then-Rests waiter (wait_for_client_or_chef rounds) _ (wait_for_client_or_chef-Rests rounds)
        λ req. then-Rests waiter (serve req) _ (serving req) λ _. waiter_loop-Rests rounds left

  receptionist_loop-Rests :
      (left : ℕ) (rec : GroupRecord) → Rests P rest receptionist (receptionist_loop left rec)
  unfolding receptionist_loop
  receptionist_loop-Rests zero rec = refl
  receptionist_loop-Rests (suc left) rec = then-Rests receptionist wait_for_group _ waiting λ req.
      then-Rests receptionist (handle rec req) _ (handling rec req)
        λ rec'. receptionist_loop-Rests left rec'

  initial_procs-Rests : (rounds n : ℕ) (p : Pid) → Rests P rest p (initial_procs rounds n p)
  unfolding initial_procs chef_main
  initial_procs-Rests rounds n (group g) = group_main-Rests g g
  initial_procs-Rests rounds n waiter = waiter_loop-Rests rounds (n * 2)
  initial_procs-Rests rounds n chef = chef_loop-Rests n
  initial_procs-Rests rounds n receptionist = receptionist_loop-Rests (n * 2) (λ g. toarrive)

  -- The programs that `main` starts keep to the protocol.
  pub initial_procs-keeps :
      (rounds n : ℕ) (p : Pid) → Tok P p (initial_procs rounds n p) (λ a k. P.may_rest k) (rest p)
  initial_procs-keeps rounds n p =
      Tok-weaken P p (initial_procs rounds n p) (λ a k. k ≡ rest p) (λ a k. P.may_rest k) (rest p)
        (λ a j e. subst P.may_rest (sym e) (resting p)) (initial_procs-Rests rounds n p)
