-- ===== src/Scheduler/Results.antt =====
-- core/scheduler.py: what the loop of `run_dag` ends with, whatever the thread pool does.
use celestia_devtools.Prelude.{
  ℕ, ◌<◌, String, true, false, Option, none, some, List, [], ◌∷◌, ◌≡◌, ◌≢◌, refl, arith, inl, inr,
  Bool-cases, length, select,
}
use celestia_devtools.Dict.{Dict, lookup, insert, lookup-insert}
use celestia_devtools.Scheduler.Names.{Step, contains, sort_steps}
use celestia_devtools.Scheduler.Names.Laws.{
  Distinct-sort_steps, Elem-of_sort_steps, Distinct-select, Elem-of_select,
}
use celestia_devtools.Scheduler.{Pool, Status, skip_dep, Run, dispatch, sweep, settle}
use celestia_devtools.Scheduler.Settled.{Grows}
use celestia_devtools.Scheduler.Rounds.{Inv}
use celestia_devtools.Scheduler.Rounds.Passes.{
  load, dispatch-Inv, dispatch-load, settle-Inv, settle-load,
}

-- Documented behaviour of `concurrent.futures.wait(…, FIRST_COMPLETED)`: it returns with at least
-- one of the futures done, where there are any.
abbrev pub IsWait : Pool → Type 0
IsWait finished = (k : ℕ) (fs : List Step) → fs ≢ [] → select (finished k fs) fs ≢ []

-- The sweep gives `SKIP_DEP` to each name that it meets, and leaves the other names alone.
pub sweep_other :
    (n : String) (st : Dict Status) (l : List Step)
    → contains n l ≡ false
    → lookup n (sweep st l) ≡ lookup n st
unfolding sweep
sweep_other n st [] h = refl
sweep_other n st (s ∷ ss) h =
    ground (arith, sweep_other n (insert s.name skip_dep st) ss, lookup-insert s.name n skip_dep st)

pub sweep_in :
    (n : String) (st : Dict Status) (l : List Step)
    → contains n l ≡ true
    → lookup n (sweep st l) ≡ some skip_dep
unfolding sweep
sweep_in n st [] h = cc
sweep_in n st (s ∷ ss) h = elim (Bool-cases (contains n ss)) [
  | inl later ↦ sweep_in n (insert s.name skip_dep st) ss later
  | inr not_later ↦ ground (
    arith,
    sweep_other n (insert s.name skip_dep st) ss not_later,
    lookup-insert s.name n skip_dep st,
  )
]

pub sweep-Grows :
    (st : Dict Status) (l : List Step)
    → ((n : String) → contains n l ≡ true → lookup n st ≡ none)
    → Grows st (sweep st l)
sweep-Grows st l fresh n v h = elim (Bool-cases (contains n l)) [
  | inl there ↦ ground (arith, fresh n there)
  | inr other ↦ rw (sweep_other n st l other) h
]

module _ (runner : Step → Option String) (steps : List Step) where
  module _ (finished : Pool) where
    abbrev pub pass_of : Run → Run
    pass_of r = dispatch r (sort_steps r.remaining)

    pub pass-Inv : (r : Run) → Inv runner steps r → Inv runner steps (pass_of r)
    pass-Inv r inv =
        dispatch-Inv runner steps r (sort_steps r.remaining) inv
          (Distinct-sort_steps r.remaining inv.waiting) (λ s m. Elem-of_sort_steps s r.remaining m)

    abbrev pub next_of : ℕ → Run → Run
    next_of k r =
        settle runner (pass_of r) (select (finished k (pass_of r).futures) (pass_of r).futures)

    pub next-Inv : (k : ℕ) (r : Run) → Inv runner steps r → Inv runner steps (next_of k r)
    next-Inv k r inv =
        let after = pass-Inv r inv in
        settle-Inv runner steps (pass_of r) _ after (Distinct-select _ _ after.running)
          (λ s m. Elem-of_select (finished k (pass_of r).futures) s (pass_of r).futures m)

    length-pos_of_ne : (l : List Step) → l ≢ [] → 0 < length l
    length-pos_of_ne [] h = absurd (h refl)
    length-pos_of_ne (s ∷ ss) h = omega arith

    -- A round with a running future finishes one of them.
    pub next-load :
        (k : ℕ) (r : Run)
        → IsWait finished
        → Inv runner steps r
        → (pass_of r).futures ≢ []
        → load (next_of k r) < load r
    next-load k r waits inv busy =
        let after = pass-Inv r inv in
        omega (
          arith,
          dispatch-load runner steps r (sort_steps r.remaining)
              (Distinct-sort_steps r.remaining inv.waiting)
              (λ s m. Elem-of_sort_steps s r.remaining m),
          settle-load runner steps (pass_of r)
              (select (finished k (pass_of r).futures) (pass_of r).futures)
              (Distinct-select _ _ after.running)
              (λ s m. Elem-of_select (finished k (pass_of r).futures) s (pass_of r).futures m),
          length-pos_of_ne _ (waits k (pass_of r).futures busy),
        )
