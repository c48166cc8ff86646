-- ===== src/Logging/Words.antt =====
-- The words of a line of the log, as run/filter_log.awk of semaphore_restaurant splits it.
use mathlib.Core.List.{append-nil, append_assoc}
use so_projeto.Prelude.{
  ℕ, zero, suc, ◌-◌, ◌<◌, ◌≡◌, refl, sym, ap, subst, ◌∙◌, List, [], ◌∷◌, ◌++◌, if◌then◌else◌, arith,
}
use so_projeto.Logging.{blank, newline, length, blanks, pad, for_groups}
use so_projeto.Logging.Digits.{is_blank, IsSolid}

abbrev pub flush : List ℕ → List (List ℕ)
flush [] = []
flush (c ∷ cs) = (c ∷ cs) ∷ []

-- The words of a text, after the letters of a word that has begun.
unfoldable pub split_from : List ℕ → List ℕ → List (List ℕ)
split_from begun [] = flush begun
split_from begun (c ∷ cs) =
    let rest = split_from (if is_blank c then [] else begun ++ (c ∷ [])) cs in
    if is_blank c then flush begun ++ rest else rest

abbrev pub words : List ℕ → List (List ℕ)
words text = split_from [] text

-- Whatever has begun ends there, and the words follow.
pub record Reads (text : List ℕ) (ws : List (List ℕ)) : Type 0 where
  pub splits : (begun : List ℕ) → split_from begun text ≡ flush begun ++ ws

pub Reads-newline : Reads (newline ∷ []) []
unfolding split_from
Reads-newline = record { splits = λ begun. refl }

pub Reads-blank : {text : List ℕ} {ws : List (List ℕ)} → Reads text ws → Reads (blank ∷ text) ws
unfolding split_from
Reads-blank r = record { splits = λ begun. rw (r.splits []) refl }

split_from-solid :
    (xs ys begun : List ℕ) → IsSolid xs → split_from begun (xs ++ ys) ≡ split_from (begun ++ xs) ys
unfolding split_from
split_from-solid [] ys begun h = rw append-nil refl
split_from-solid (x ∷ xs) ys begun h = rw h.0 (
    split_from-solid xs ys (begun ++ (x ∷ [])) h.1
    ∙ ap (λ b. split_from b ys) (append_assoc begun (x ∷ []) xs))

split_from-blanks : (k : ℕ) (ys : List ℕ) → split_from [] (blanks k ++ ys) ≡ split_from [] ys
unfolding split_from
split_from-blanks zero ys = refl
split_from-blanks (suc k) ys = split_from-blanks k ys

-- A word that a column of the given width holds, with a blank before it.
pub record IsWordIn (width : ℕ) (word : List ℕ) : Type 0 where
  pub solid : IsSolid word
  pub nonempty : 0 < length word
  pub narrow : length word < width

flush-word : (word : List ℕ) → 0 < length word → flush word ≡ word ∷ []
flush-word [] lt = absurd (omega arith)
flush-word (c ∷ cs) lt = refl

padded :
    (k : ℕ) (word rest begun : List ℕ)
    → 0 < k
    → IsSolid word
    → split_from begun (blanks k ++ word ++ rest) ≡ flush begun ++ split_from word rest
unfolding split_from
padded zero word rest begun lt h = absurd (omega arith)
padded (suc k) word rest begun lt h =
    ap (λ w. flush begun ++ w)
      (ap (split_from []) (append_assoc (blanks k) word rest)
        ∙ split_from-blanks k (word ++ rest)
        ∙ split_from-solid word rest [] h)

pub Reads-pad :
    {width : ℕ} {word rest : List ℕ} {ws : List (List ℕ)}
    → IsWordIn width word
    → Reads rest ws
    → Reads (pad width word ++ rest) (word ∷ ws)
Reads-pad {width} {word} {rest} {ws} w r = record {
  splits = λ begun.
      padded (width - length word) word rest begun (omega (arith, w.narrow)) w.solid
      ∙ ap (λ x. flush begun ++ x) (r.splits word ∙ ap (λ x. x ++ ws) (flush-word word w.nonempty));
}

pub Reads-for_groups :
    (n : ℕ) {width : ℕ} {text : ℕ → List ℕ} {rest : List ℕ} {ws : List (List ℕ)}
    → ((g : ℕ) → g < n → IsWordIn width (text g))
    → Reads rest ws
    → Reads (for_groups n (λ g. pad width (text g)) ++ rest) (for_groups n (λ g. text g ∷ []) ++ ws)
Reads-for_groups zero {width} {text} {rest} f r = r
Reads-for_groups (suc n) {width} {text} {rest} {ws} f r =
    subst (λ x. Reads x (text 0 ∷ (for_groups n (λ g. text (suc g) ∷ []) ++ ws)))
      (sym (append_assoc (pad width (text 0)) (for_groups n (λ g. pad width (text (suc g)))) rest))
      (Reads-pad (f 0 (omega arith)) (Reads-for_groups n (λ g lt. f (suc g) (omega arith)) r))
