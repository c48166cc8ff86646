-- ===== src/LogFile/Laws.antt =====
-- What the log of semaphore_restaurant/src/logging.c holds in the end.
use so_projeto.Prelude.{ℕ, ◌≡◌, ◌≢◌, refl, sym, ◌∙◌, true, some, List, [], ◌∷◌, ◌++◌}
use mathlib.Core.List.{append-nil, append_assoc}
use so_projeto.State.{FullStat}
use so_projeto.CommandLine.{Text}
use so_projeto.Logging.{save_state_line, create_log, lines_text, log_text}
use so_projeto.LogFile.{
  Output, Mode, writing, appending, Stdio, open_log, write_and_close, create_log_file,
  save_state_file, save_states, log_run,
}

-- The file is another's, or the text of this one.
pub record Holds (w u : Output) (name text : Text) : Type 0 where
  pub content : u.files name ≡ some text
  pub others : (m : Text) → m ≢ name → u.files m ≡ w.files m
  pub same_stdout : u.stdout ≡ w.stdout

-- The manual pages of fopen and fclose, for calls that succeed: "w" makes the file empty, "a" keeps what
-- it holds, and what has been printed is at its end once it is closed.
pub record IsStdio (c : Stdio) : Type 0 where
  pub truncates : (w u : Output) (name : Text) → c.fopen w name writing ≡ some u → Holds w u name []
  pub keeps :
      (w u : Output) (name text : Text)
      → w.files name ≡ some text
      → c.fopen w name appending ≡ some u
      → Holds w u name text
  pub adds :
      (w u : Output) (name text more : Text)
      → w.files name ≡ some text
      → c.fclose w name more ≡ (true, u)
      → Holds w u name (text ++ more)

-- No call fails.
pub record IsWorking (c : Stdio) : Type 0 where
  pub opens :
      (w : Output) (name : Text) (mode : Mode) → (u : Output) × (c.fopen w name mode ≡ some u)
  pub closes : (w : Output) (name more : Text) → (u : Output) × (c.fclose w name more ≡ (true, u))

Holds-trans :
    (w u v : Output) (name text more : Text)
    → Holds w u name text
    → Holds u v name more
    → Holds w v name more
Holds-trans w u v name text more a b = record {
  content = b.content;
  others = λ m d. b.others m d ∙ a.others m d;
  same_stdout = b.same_stdout ∙ a.same_stdout;
}

all_shown :
    (c : Stdio) (ss : List FullStat) (w : Output)
    → save_states c [] ss w ≡ some (record w { stdout = w.stdout ++ lines_text ss })
unfolding save_states save_state_file open_log write_and_close
all_shown c [] w = rw (append-nil w.stdout) refl
all_shown c (s ∷ ss) w =
    rw (sym (append_assoc w.stdout (save_state_line s) (lines_text ss)))
      (all_shown c ss (record w { stdout = w.stdout ++ save_state_line s }))

shown :
    (c : Stdio) (s : FullStat) (ss : List FullStat) (w : Output)
    → log_run c [] s ss w ≡ some (record w { stdout = w.stdout ++ log_text s ss })
unfolding log_run create_log_file open_log write_and_close
shown c s ss w =
    rw (sym (append_assoc w.stdout (create_log s) (lines_text ss)))
      (all_shown c ss (record w { stdout = w.stdout ++ create_log s }))

module _ {c : Stdio} (law : IsStdio c) (works : IsWorking c) (b : ℕ) (rest : Text) where
  created :
      (s : FullStat) (w : Output)
      → (u : Output) × (create_log_file c (b ∷ rest) s w ≡ some u)
        × Holds w u (b ∷ rest) (create_log s)
  unfolding create_log_file open_log write_and_close
  created s w =
      let (v, e) = works.opens w (b ∷ rest) writing in
      let (u, f) = works.closes v (b ∷ rest) (create_log s) in
      let h = law.truncates w v (b ∷ rest) e in
      (
        u,
        rw (e, f) refl,
        Holds-trans w v u (b ∷ rest) [] (create_log s) h
            (law.adds v u (b ∷ rest) [] (create_log s) h.content f),
      )

  saved :
      (s : FullStat) (w : Output) (text : Text)
      → w.files (b ∷ rest) ≡ some text
      → (u : Output) × (save_state_file c (b ∷ rest) s w ≡ some u)
        × Holds w u (b ∷ rest) (text ++ save_state_line s)
  unfolding save_state_file open_log write_and_close
  saved s w text held =
      let (v, e) = works.opens w (b ∷ rest) appending in
      let (u, f) = works.closes v (b ∷ rest) (save_state_line s) in
      let h = law.keeps w v (b ∷ rest) text held e in
      (
        u,
        rw (e, f) refl,
        Holds-trans w v u (b ∷ rest) text (text ++ save_state_line s) h
            (law.adds v u (b ∷ rest) text (save_state_line s) h.content f),
      )

  all_saved :
      (ss : List FullStat) (v w : Output) (text : Text)
      → Holds v w (b ∷ rest) text
      → (u : Output) × (save_states c (b ∷ rest) ss w ≡ some u)
        × Holds v u (b ∷ rest) (text ++ lines_text ss)
  unfolding save_states
  all_saved [] v w text h = (w, refl, rw (append-nil text) h)
  all_saved (s ∷ ss) v w text h =
      let (x, e, hx) = saved s w text h.content in
      let (u, f, hu) =
        all_saved ss v x (text ++ save_state_line s)
          (Holds-trans v w x (b ∷ rest) text (text ++ save_state_line s) h hx) in
      (u, rw (e, f) refl, rw (sym (append_assoc text (save_state_line s) (lines_text ss))) hu)

  -- While no call fails, the file holds in the end what createLog and then each saveState has written,
  -- in order and with nothing of what it held before; stdout and the other files are as they were.
  -- Without a name all of it comes to stdout instead.
  pub log_run_lem :
      (s : FullStat) (ss : List FullStat) (w : Output)
      → ((u : Output) × (log_run c (b ∷ rest) s ss w ≡ some u)
          × Holds w u (b ∷ rest) (log_text s ss))
        × (log_run c [] s ss w ≡ some (record w { stdout = w.stdout ++ log_text s ss }))
  unfolding log_run
  log_run_lem s ss w =
      let (v, e, hv) = created s w in
      let (u, f, hu) = all_saved ss w v (create_log s) hv in
      ((u, rw (e, f) refl, hu), shown c s ss w)

pub log_run_works :
    {c : Stdio}
    → IsStdio c
    → IsWorking c
    → (name : Text) (s : FullStat) (ss : List FullStat) (w : Output)
    → (u : Output) × (log_run c name s ss w ≡ some u)
log_run_works {c} law works [] s ss w = (_, shown c s ss w)
log_run_works law works (b ∷ rest) s ss w =
    let (u, e, h) = (log_run_lem law works b rest s ss w).0 in (u, e)
