-- ===== src/Waiter/Poll.antt =====
-- One round of the loop of `waitForClientOrChef` of
-- semaphore_restaurant/src/semSharedMemWaiter.c, and what the signal of the chef stands for.
use so_projeto.Prelude.{
  ℕ, ◌<◌, ◌≡◌, ◌≢◌, refl, Option, none, some, List, [], ◌∷◌, ◌==◌, first-some, first-none, inl, inr,
  Bool-cases, arith,
}
use so_projeto.Const.{max_groups, foodreq, foodready, food_request, wait_for_food}
use so_projeto.State.{Request, FullStat, set_group_stat}
use so_projeto.SharedData.{mutex}
use so_projeto.Process.Alone.{Event, took, gave, finished, alone}
use so_projeto.Waiter.{request, first_in_state, chef_signal, poll}

-- The group `g` is the first of all MAXGROUPS that is in the state `v`.
pub record IsFirstIn (v : ℕ) (s : FullStat) (g : ℕ) : Type 0 where
  pub exists : g < max_groups
  pub here : s.st.group_stat g ≡ v
  pub least : (h : ℕ) → h < g → s.st.group_stat h ≢ v

abbrev pub NoneIn : ℕ → FullStat → Type 0
NoneIn v s = (g : ℕ) → g < max_groups → s.st.group_stat g ≢ v

IsFirstIn-some : (v : ℕ) (s : FullStat) (g : ℕ) → first_in_state v s ≡ some g → IsFirstIn v s g
unfolding first_in_state
IsFirstIn-some v s g e =
    let f = first-some max_groups (λ i. s.st.group_stat i == v) g e in
    record {
      exists = f.below;
      here = ground (arith, f.passes);
      least = λ h lt x. ground (arith, f.least h);
    }

first_in_none : (v : ℕ) (s : FullStat) → first_in_state v s ≡ none → NoneIn v s
unfolding first_in_state
first_in_none v s e g lt x =
    ground (arith, first-none max_groups (λ i. s.st.group_stat i == v) e g lt)

-- What a round is to find: a group that asks before the signal of the chef, and either for the first
-- group that it fits.
pub data Finds (s : FullStat) : Option Request → FullStat → Type 0 where
  asked :
      (g : ℕ)
      → IsFirstIn food_request s g
      → Finds s (some (request foodreq g)) (set_group_stat g wait_for_food s)
  ready :
      (g : ℕ)
      → NoneIn food_request s
      → s.waiter_request.req_type ≡ foodready
      → IsFirstIn wait_for_food s g
      → Finds s (some (request foodready g)) s
  not_ready : NoneIn food_request s → s.waiter_request.req_type ≢ foodready → Finds s none s
  nobody : NoneIn food_request s → NoneIn wait_for_food s → Finds s none s

abbrev pub poll_events : List Event
poll_events = took mutex ∷ gave mutex ∷ []

chef_signal-Finds :
    (s : FullStat) (o : Option ℕ)
    → NoneIn food_request s
    → chef_signal s ≡ o
    → Finds s (elim o [ none ↦ none | some i ↦ some (request foodready i) ]) s
unfolding chef_signal
chef_signal-Finds s none quiet e = elim (Bool-cases (s.waiter_request.req_type == foodready)) [
  | inl r ↦ nobody quiet (first_in_none wait_for_food s (ground arith))
  | inr r ↦ not_ready quiet (ground arith)
]
chef_signal-Finds s (some i) quiet e = elim (Bool-cases (s.waiter_request.req_type == foodready)) [
  | inl r ↦ ready i quiet (ground arith) (IsFirstIn-some wait_for_food s i (ground arith))
  | inr r ↦ absurd (ground arith)
]

abbrev Round : FullStat → Type 0
Round s =
    (found : Option Request) × (s' : FullStat) × (alone poll s ≡ finished found s' poll_events)
    × (Finds s found s')

Round-by : (s : FullStat) (o : Option ℕ) → first_in_state food_request s ≡ o → Round s
unfolding poll
Round-by s none e =
    (_, s, rw e, chef_signal-Finds s (chef_signal s) (first_in_none food_request s e) refl)
Round-by s (some g) e = (
  some (request foodreq g),
  set_group_stat g wait_for_food s,
  rw e,
  asked g (IsFirstIn-some food_request s g e),
)

-- With no other process between its steps, every round of the waiter ends and gives the critical
-- region back. It finds the first group that asks to order, and notes that it waits for food; else,
-- if the request says FOODREADY, the first group that waits for food; else nothing.
pub poll-Finds :
    (s : FullStat)
    → (found : Option Request) × (s' : FullStat) × (alone poll s ≡ finished found s' poll_events)
      × (Finds s found s')
poll-Finds s = Round-by s (first_in_state food_request s) refl
