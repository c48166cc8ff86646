-- ===== src/Ghost/Bind.antt =====
-- A sequence of programs keeps the invariant if each does.
use so_projeto.Process.{Proc, ret, down, up, read, write, save, exited, fault, spinning, ◌>>=◌}
use so_projeto.System.{Pid}
use so_projeto.Ghost.{Contract, Ok}

module _ {V : Type 0} (C : Contract V) (p : Pid) where
  pub Ok-bind :
      {A B : Type 0} (c : Proc A) (f : A → Proc B) (R : A → V → Type 0) (Q : B → V → Type 0) (u : V)
      → Ok C p c R u
      → ((a : A) (v : V) → R a v → Ok C p (f a) Q v)
      → Ok C p (c >>= f) Q u
  unfolding Ok
  Ok-bind (ret a) f R Q u h t = t a u h
  Ok-bind (down x c) f R Q u (j, e, h) t = (
    j,
    e,
    λ vs m val w i lt. let (v, i', k) = h vs m val w i lt in (v, i', Ok-bind c f R Q v k t),
  )
  Ok-bind (up x c) f R Q u (j, e, h) t =
      (j, e, λ vs m val w i. let (v, i', k) = h vs m val w i in (v, i', Ok-bind c f R Q v k t))
  Ok-bind (read g) f R Q u h t =
      λ vs m val w i. let (v, i', k) = h vs m val w i in (v, i', Ok-bind (g m) f R Q v k t)
  Ok-bind (write g c) f R Q u h t =
      λ vs m val w i. let (v, i', k) = h vs m val w i in (v, i', Ok-bind c f R Q v k t)
  Ok-bind (save c) f R Q u h t = Ok-bind c f R Q u h t
  Ok-bind exited f R Q u h t = h
  Ok-bind fault f R Q u h t = h
  Ok-bind spinning f R Q u h t = tt

  -- How it ends may be told in less.
  pub Ok-weaken :
      {A : Type 0} (c : Proc A) (Q R : A → V → Type 0) (u : V)
      → ((a : A) (v : V) → Q a v → R a v)
      → Ok C p c Q u
      → Ok C p c R u
  unfolding Ok
  Ok-weaken (ret a) Q R u t h = t a u h
  Ok-weaken (down x c) Q R u t (j, e, h) = (
    j,
    e,
    λ vs m val w i lt. let (v, i', k) = h vs m val w i lt in (v, i', Ok-weaken c Q R v t k),
  )
  Ok-weaken (up x c) Q R u t (j, e, h) =
      (j, e, λ vs m val w i. let (v, i', k) = h vs m val w i in (v, i', Ok-weaken c Q R v t k))
  Ok-weaken (read g) Q R u t h =
      λ vs m val w i. let (v, i', k) = h vs m val w i in (v, i', Ok-weaken (g m) Q R v t k)
  Ok-weaken (write g c) Q R u t h =
      λ vs m val w i. let (v, i', k) = h vs m val w i in (v, i', Ok-weaken c Q R v t k)
  Ok-weaken (save c) Q R u t h = Ok-weaken c Q R u t h
  Ok-weaken exited Q R u t h = h
  Ok-weaken fault Q R u t h = h
  Ok-weaken spinning Q R u t h = tt
