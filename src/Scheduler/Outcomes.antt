-- ===== src/Scheduler/Outcomes.antt =====
-- core/scheduler.py: `run_dag` returns, and every step of the graph has the status that its
-- dependencies call for, but for those that a conditionally skipped step starves.
pub mod Waits
pub mod Fixpoint
pub mod Schedules
use celestia_devtools.Prelude.{
  ℕ, zero, suc, ◌≤◌, ◌<◌, String, Bool, true, false, Option, none, some, List, [], ◌∷◌, str_eq,
  eq_iff, eq_refl, subst, ◌≡◌, ◌≢◌, refl, sym, ap, arith, Elem, inl, inr, ◌⊎◌, Option-cases,
  Bool-cases, length, select, is_nil, if◌then◌else◌, ◌&&◌,
}
use celestia_devtools.Dict.{Dict, lookup, insert, lookup-insert}
use celestia_devtools.Scheduler.Names.{Step, Command, contains, discard, sort_steps, by_name}
use celestia_devtools.Scheduler.Names.Laws.{contains_of_Elem, Elem-of_sort_steps, Elem-sort_steps}
use celestia_devtools.Scheduler.{
  Pool, Status, fail, skip_dep, blocks, Run, dispatch_one, dispatch, sweep, settle, loop, run_dag,
  initial, DagResult, validate_steps, ready, outcome,
}
use celestia_devtools.Scheduler.Settled.{Grows, Settled, Settled-Grows, SomeBlocks}
use celestia_devtools.Scheduler.Rounds.{Inv}
use celestia_devtools.Scheduler.Rounds.Passes.{load}
use celestia_devtools.Scheduler.Results.{
  IsWait, sweep_in, sweep-Grows, pass_of, pass-Inv, next_of, next-Inv, next-load,
}
use celestia_devtools.Scheduler.Outcomes.Waits.{
  WaitsOn, IsConditional, dispatch-WaitsOn, dispatch-Added, Elem-of_dispatch, Elem-of_contains,
}
use celestia_devtools.Scheduler.Validation.{
  nil_of_is_nil, by_name_lem, IsWellFormed, Known, validate_steps-IsWellFormed,
}

module _ (runner : Step → Option String) (steps : List Step) (finished : Pool) where
  -- What to show of the two ways in which the loop ends.
  pub record Rule (P : Dict Status → Type 0) : Type 0 where
    pub no_work : (r : Run) → Inv runner steps r → r.remaining ≡ [] → r.futures ≡ [] → P r.statuses
    pub swept :
        (r : Run)
        → Inv runner steps r
        → (pass_of runner steps finished r).futures ≡ []
        → P (
            sweep
              (pass_of runner steps finished r).statuses
              (pass_of runner steps finished r).remaining)

  -- With more fuel than steps the loop returns, and what the rule shows holds of the statuses.
  pub loop_total :
      {P : Dict Status → Type 0} (rule : Rule P) (fuel : ℕ) (r : Run)
      → IsWait finished
      → Inv runner steps r
      → load r < fuel
      → (st : Dict Status) × (loop runner finished fuel r ≡ some st) × P st
  unfolding loop
  loop_total rule zero r waits inv h = absurd (omega arith)
  loop_total rule (suc k) r waits inv h =
      elim (Bool-cases (is_nil r.remaining && is_nil r.futures)) [
        | inl idle ↦ (
          r.statuses,
          rw idle,
          rule.no_work r inv (nil_of_is_nil r.remaining (ground arith))
              (nil_of_is_nil r.futures (ground arith)),
        )
        | inr work ↦ elim (Bool-cases (is_nil (pass_of runner steps finished r).futures)) [
          | inl quiet ↦ (
            sweep (pass_of runner steps finished r).statuses
                (pass_of runner steps finished r).remaining,
            rw (work, quiet),
            rule.swept r inv (nil_of_is_nil _ quiet),
          )
          | inr busy ↦
              let (st, runs, p) =
                loop_total rule k (next_of runner steps finished k r) waits
                  (next-Inv runner steps finished k r inv)
                  (omega (
                    arith,
                    next-load runner steps finished k r waits inv (λ e. ground (arith, e)),
                  )) in
              (st, rw (work, busy) runs, p)
        ]
      ]

module _ (runner : Step → Option String) (steps : List Step) where
  initial-Inv : IsWellFormed steps → Inv runner steps (initial steps)
  unfolding lookup
  initial-Inv ok =
      subst (λ l. Inv runner steps (record { statuses = []; remaining = l; futures = [] }))
        (sym (by_name_lem steps ok.distinct)) at_steps
    where
      at_steps : Inv runner steps (record { statuses = []; remaining = steps; futures = [] })
      at_steps = record {
        waiting = ok.distinct;
        running = tt;
        apart = λ n h. refl;
        fresh_waiting = λ n h. refl;
        fresh_running = λ n h. cc;
        started = λ s m. elim m [ ];
        has_cmd = λ s m. elim m [ ];
        from_steps = λ s m. m;
        placed = λ s m. inl m;
      }

  -- What a run on an accepted graph with a positive worker cap returns, by a rule for its loop.
  pub run_dag-rule :
      (finished : Pool) (jobs : ℕ) {P : Dict Status → Type 0}
      → Rule runner steps finished P
      → 0 < jobs
      → validate_steps steps ≡ []
      → IsWait finished
      → (st : Dict Status) × (run_dag runner finished steps jobs ≡ DagResult.statuses st) × P st
  unfolding run_dag lookup
  run_dag-rule finished jobs rule pos valid waits =
      let ok = validate_steps-IsWellFormed steps valid in
      let (st, runs, p) =
        loop_total runner steps finished rule (suc (length steps)) (initial steps) waits
          (initial-Inv ok) (rw (by_name_lem steps ok.distinct) (omega arith)) in
      (st, ground (arith, valid, runs, pos), p)

  -- A dependency ended in `SKIP` and is a step with no command.
  abbrev pub SomeConditional : Dict Status → List String → Type 0
  SomeConditional st ds =
      (d : String) × Elem d ds × (lookup d st ≡ some Status.skip) × IsConditional steps d

  -- The step has the status that its dependencies call for; or it is a step that was starved: it has
  -- `SKIP_DEP`, with a dependency that was skipped for want of a command.
  abbrev pub Explained : Dict Status → Step → Type 0
  Explained st s =
      Settled runner st s ⊎ ((lookup s.name st ≡ some skip_dep) × SomeConditional st s.deps)

  AllExplained : Dict Status → Type 0
  AllExplained st = (s : Step) → Elem s steps → Explained st s

  no_work-AllExplained :
      (r : Run) → Inv runner steps r → r.remaining ≡ [] → r.futures ≡ [] → AllExplained r.statuses
  unfolding AllExplained
  no_work-AllExplained r inv no_rem no_fut s m = elim (inv.placed s m) [
    | inl left ↦ absurd (subst (Elem s) no_rem left)
    | inr (inl run) ↦ absurd (subst (Elem s) no_fut run)
    | inr (inr done) ↦ inl done
  ]

  module _ (finished : Pool) (known : Known steps) (r : Run) (inv : Inv runner steps r)
      (quiet : (pass_of runner steps finished r).futures ≡ []) where
    abbrev after : Run
    after = pass_of runner steps finished r

    abbrev swept_of : Dict Status
    swept_of = sweep after.statuses after.remaining

    inv' : Inv runner steps after
    inv' = pass-Inv runner steps finished r inv

    grows : Grows after.statuses swept_of
    grows = sweep-Grows after.statuses after.remaining inv'.fresh_waiting

    -- A step that the sweep skips has a dependency that ends in `SKIP_DEP`, or that the last pass
    -- skipped for want of a command.
    starved :
        (s : Step)
        → Elem s steps
        → Elem s after.remaining
        → SomeBlocks swept_of s.deps ⊎ SomeConditional swept_of s.deps
    starved s m left =
        let (d, k, missing) = waits in
        let (t, t_in, named) = Elem-of_contains d steps (known s d m k) in
        elim (inv'.placed t t_in) [
          | inl also_left ↦ inl (
            d,
            k,
            skip_dep,
            sweep_in d after.statuses after.remaining
                (rw named at (contains_of_Elem t after.remaining also_left)),
            refl,
          )
          | inr (inl run) ↦ absurd (subst (Elem t) quiet run)
          | inr (inr (v, is, _)) ↦
              let at = subst (λ n. lookup n after.statuses ≡ some v) named is in
              elim (dispatch-Added r (sort_steps r.remaining) d v at) [
                | inl before ↦ cc (before, missing)
                | inr (inl new) ↦ inl (d, k, skip_dep, grows d skip_dep (rw new at at), refl)
                | inr (inr (new, (u, u_in, u_named, no_cmd))) ↦ inr (
                  d,
                  k,
                  grows d Status.skip (rw new at at),
                  (u, inv.from_steps u (Elem-of_sort_steps u r.remaining u_in), u_named, no_cmd),
                )
              ]
        ]
      where
        waits : WaitsOn r.statuses s
        waits =
            dispatch-WaitsOn r (sort_steps r.remaining) s
              (Elem-sort_steps s r.remaining (Elem-of_dispatch r (sort_steps r.remaining) s left))
              (contains_of_Elem s after.remaining left)

    sweep-AllExplained : AllExplained swept_of
    unfolding AllExplained
    sweep-AllExplained s m = elim (inv'.placed s m) [
      | inl left ↦
          let is =
            sweep_in s.name after.statuses after.remaining
              (contains_of_Elem s after.remaining left) in
          elim (starved s m left) [
            | inl blocks ↦ inl (skip_dep, is, inl (blocks, refl))
            | inr skipped ↦ inr (is, skipped)
          ]
      | inr (inl run) ↦ absurd (subst (Elem s) quiet run)
      | inr (inr done) ↦ inl (Settled-Grows runner after.statuses _ s grows done)
    ]

-- On an accepted graph, with a positive cap and whatever futures each wait finds done, `run_dag`
-- returns; each step then has a status, in one of three ways: `SKIP_DEP`, with a dependency in `FAIL`
-- or `SKIP_DEP`; its own (`SKIP` without a command, else the runner's answer, `FAIL` for an exception
-- or a foreign string), with every dependency in `PASS` or `SKIP`; or `SKIP_DEP`, with a dependency
-- in `SKIP` that is a step of the graph with no command.
pub run_dag-Explained :
    (runner : Step → Option String) (steps : List Step) (finished : Pool) (jobs : ℕ)
    → 0 < jobs
    → validate_steps steps ≡ []
    → IsWait finished
    → (st : Dict Status) × (run_dag runner finished steps jobs ≡ DagResult.statuses st)
      × ((s : Step) → Elem s steps → Explained runner steps st s)
unfolding AllExplained
run_dag-Explained runner steps finished jobs pos valid waits =
    run_dag-rule runner steps finished jobs
      (record {
        no_work = no_work-AllExplained runner steps;
        swept = λ r inv quiet.
            sweep-AllExplained runner steps finished (validate_steps-IsWellFormed steps valid).known
              r inv quiet;
      })
      pos valid waits
