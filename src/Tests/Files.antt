-- ===== src/Tests/Files.antt =====
-- Files as a function of the name, and the log of a run in one of them.
use so_projeto.Prelude.{
  ◌≡◌, refl, subst, sym, ap, Bool, true, false, ◌&&◌, Option, none, some, [], ◌∷◌, ◌++◌, ◌==◌,
  if◌then◌else◌, inl, inr, Bool-cases, arith,
}
use so_projeto.CommandLine.{Text}
use so_projeto.Logging.{log_text}
use so_projeto.LogFile.{Output, Mode, writing, appending, Stdio, log_run}
use so_projeto.LogFile.Laws.{Holds, IsStdio, IsWorking, log_run_lem}
use so_projeto.System.{initial_state}
use so_projeto.Tests.Runs.{five_groups}

pub same_text : Text → Text → Bool
same_text [] [] = true
same_text (x ∷ xs) [] = false
same_text [] (y ∷ ys) = false
same_text (x ∷ xs) (y ∷ ys) = x == y && same_text xs ys

abbrev put : Output → Text → Text → Output
put w name text = record w { files = λ m. if same_text m name then some text else w.files m }

abbrev held : Option Text → Text
held none = []
held (some text) = text

abbrev start_text : Mode → Option Text → Text
start_text writing old = []
start_text appending old = held old

abbrev pub paper : Stdio
paper = record {
  fopen = λ w name mode. some (put w name (start_text mode (w.files name)));
  fclose = λ w name more. (true, put w name (held (w.files name) ++ more));
}

same_text_self : (xs : Text) → same_text xs xs ≡ true
unfolding same_text
same_text_self [] = refl
same_text_self (x ∷ xs) = ground (arith, same_text_self xs)

same_text_eq : (xs ys : Text) → same_text xs ys ≡ true → xs ≡ ys
unfolding same_text
same_text_eq [] [] h = refl
same_text_eq (x ∷ xs) [] h = absurd (ground arith)
same_text_eq [] (y ∷ ys) h = absurd (ground arith)
same_text_eq (x ∷ xs) (y ∷ ys) h = ground (arith, same_text_eq xs ys)

put-Holds : (w : Output) (name text : Text) → Holds w (put w name text) name text
put-Holds w name text = record {
  content = rw (same_text_self name) refl;
  others = λ m d. elim (Bool-cases (same_text m name)) [
    | inl e ↦ absurd (d (same_text_eq m name e))
    | inr e ↦ rw e refl
  ];
  same_stdout = refl;
}

kept :
    (w u : Output) (name text : Text)
    → w.files name ≡ some text
    → some (put w name (held (w.files name))) ≡ some u
    → put w name text ≡ u
kept w u name text h e = let p : held (w.files name) ≡ text = rw h refl in cc

added :
    (w u : Output) (name text more : Text)
    → w.files name ≡ some text
    → put w name (held (w.files name) ++ more) ≡ u
    → put w name (text ++ more) ≡ u
added w u name text more h e = rw (sym e, h) refl

pub paper-IsStdio : IsStdio paper
paper-IsStdio = record {
  truncates = λ w u name e.
      (let p : put w name [] ≡ u = cc in subst (λ v. Holds w v name []) p (put-Holds w name []));
  keeps = λ w u name text h e.
      (let p : put w name text ≡ u = kept w u name text h e in
        subst (λ v. Holds w v name text) p (put-Holds w name text));
  adds = λ w u name text more h e.
      (let p : put w name (text ++ more) ≡ u = added w u name text more h (ap (λ x. x.1) e) in
        subst (λ v. Holds w v name (text ++ more)) p (put-Holds w name (text ++ more)));
}

pub paper-IsWorking : IsWorking paper
paper-IsWorking = record { opens = λ w name mode. (_, refl); closes = λ w name more. (_, refl) }

-- A file that held something else, and the log of two states.
abbrev pub desk : Output
desk = record { stdout = []; files = λ m. some (b'?' ∷ []) }

abbrev name : Text
name = b'l' ∷ b'o' ∷ b'g' ∷ []

log_run_lem_example :
    ((u : Output) × (log_run paper name
          (initial_state five_groups)
          (initial_state five_groups ∷ [])
          desk
        ≡ some u)
      × Holds desk u name (log_text (initial_state five_groups) (initial_state five_groups ∷ [])))
    × (log_run paper [] (initial_state five_groups) (initial_state five_groups ∷ []) desk
        ≡ some (record desk {
          stdout = log_text (initial_state five_groups) (initial_state five_groups ∷ []);
        }))
log_run_lem_example =
    log_run_lem paper-IsStdio paper-IsWorking b'l' (b'o' ∷ b'g' ∷ []) (initial_state five_groups)
      (initial_state five_groups ∷ []) desk
