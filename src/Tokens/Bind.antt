-- ===== src/Tokens/Bind.antt =====
-- A protocol is kept by a sequence of programs if it is kept by each.
use so_projeto.Prelude.{ℕ}
use so_projeto.Process.{Proc, ret, down, up, read, write, save, exited, fault, spinning, ◌>>=◌}
use so_projeto.System.{Pid}
use so_projeto.Tokens.{Protocol, Tok}

pub Tok-bind :
    (P : Protocol) {A B : Type 0} (p : Pid) (c : Proc A) (f : A → Proc B) (R : A → ℕ → Type 0)
    (Q : B → ℕ → Type 0) (k : ℕ)
    → Tok P p c R k
    → ((a : A) (j : ℕ) → R a j → Tok P p (f a) Q j)
    → Tok P p (c >>= f) Q k
Tok-bind P p (ret a) f R Q k h t = t a k h
Tok-bind P p (down x c) f R Q k h t = (h.0, Tok-bind P p c f R Q _ h.1 t)
Tok-bind P p (up x c) f R Q k h t = (h.0, Tok-bind P p c f R Q _ h.1 t)
Tok-bind P p (read g) f R Q k h t = (h.0, λ s. Tok-bind P p (g s) f R Q k (h.1 s) t)
Tok-bind P p (write g c) f R Q k h t = (h.0, Tok-bind P p c f R Q k h.1 t)
Tok-bind P p (save c) f R Q k h t = (h.0, Tok-bind P p c f R Q k h.1 t)
Tok-bind P p exited f R Q k h t = tt
Tok-bind P p fault f R Q k h t = tt
Tok-bind P p spinning f R Q k h t = h

pub Tok-weaken :
    (P : Protocol) {A : Type 0} (p : Pid) (c : Proc A) (Q : A → ℕ → Type 0) (R : A → ℕ → Type 0)
    (k : ℕ)
    → ((a : A) (j : ℕ) → Q a j → R a j)
    → Tok P p c Q k
    → Tok P p c R k
Tok-weaken P p (ret a) Q R k f h = f a k h
Tok-weaken P p (down x c) Q R k f h = (h.0, Tok-weaken P p c Q R _ f h.1)
Tok-weaken P p (up x c) Q R k f h = (h.0, Tok-weaken P p c Q R _ f h.1)
Tok-weaken P p (read g) Q R k f h = (h.0, λ s. Tok-weaken P p (g s) Q R k f (h.1 s))
Tok-weaken P p (write g c) Q R k f h = (h.0, Tok-weaken P p c Q R k f h.1)
Tok-weaken P p (save c) Q R k f h = (h.0, Tok-weaken P p c Q R k f h.1)
Tok-weaken P p exited Q R k f h = tt
Tok-weaken P p fault Q R k f h = tt
Tok-weaken P p spinning Q R k f h = h
