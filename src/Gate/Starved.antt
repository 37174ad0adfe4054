-- ===== src/Gate/Starved.antt =====
-- build/gate_graph.py with core/scheduler.py: a conditionally skipped step can starve the steps
-- behind it, which the dispatch order by name decides.
use celestia_devtools.Prelude.{
  ℕ, suc, ◌<◌, String, true, false, Option, none, some, List, [], ◌∷◌, ◌≡◌, refl, sym, subst, ltb,
  ap, ◌∙◌, arith, inl, inr, select, if◌then◌else◌, is_nil, ◌&&◌, Bool-cases,
}
use celestia_devtools.Dict.{Dict, lookup, insert}
use celestia_devtools.Scheduler.Names.{Step, Command}
use celestia_devtools.Scheduler.{
  Status, pass, skip, skip_dep, outcome, Pool, Run, DagResult, run_dag, of_loop, validate_steps,
  settle, loop, dispatch,
}
use celestia_devtools.Scheduler.Names.{sort_steps}
use celestia_devtools.Scheduler.Results.{IsWait}
use celestia_devtools.Gate.{argv, build_rust_graph, any_fail, run_steps}

positive : (jobs : ℕ) → 0 < jobs → ltb jobs 1 ≡ false
positive jobs h = ground arith

exit_of :
    (runner : Step → Option String) (finished : Pool) (steps : List Step) (jobs : ℕ)
    {st : Dict Status}
    → run_dag runner finished steps jobs ≡ DagResult.statuses st
    → run_steps runner finished steps jobs ≡ some (if any_fail st then 1 else 0)
unfolding run_steps
exit_of runner finished steps jobs h = rw (h, run_steps)

module _ (runner : Step → Option String) (finished : Pool) (waits : IsWait finished) where
  alone : (k : ℕ) (s : Step) → select (finished k (s ∷ [])) (s ∷ []) ≡ s ∷ []
  alone k s = elim (Bool-cases (finished k (s ∷ []) s)) [
    | inl done ↦ rw done
    | inr never ↦ absurd (waits k (s ∷ []) (λ e. cc) (rw never))
  ]

  unroll :
      (k : ℕ) (r : Run)
      → (is_nil r.remaining && is_nil r.futures) ≡ false
      → is_nil (dispatch r (sort_steps r.remaining)).futures ≡ false
      → loop runner finished (suc k) r
        ≡ loop runner finished k (
            settle runner (dispatch r (sort_steps r.remaining)) (
              select
                (finished k (dispatch r (sort_steps r.remaining)).futures)
                (dispatch r (sort_steps r.remaining)).futures))
  unfolding loop
  unroll k r work busy = rw (work, busy)

  -- A round in which one future runs waits for that one.
  one_round :
      (k : ℕ) (r : Run) (s : Step)
      → (is_nil r.remaining && is_nil r.futures) ≡ false
      → (dispatch r (sort_steps r.remaining)).futures ≡ s ∷ []
      → loop runner finished (suc k) r
        ≡ loop runner finished k (settle runner (dispatch r (sort_steps r.remaining)) (s ∷ []))
  one_round k r s work one =
      unroll k r work (rw one)
      ∙ ap (λ l. loop runner finished k (settle runner (dispatch r (sort_steps r.remaining)) l))
          (subst (λ fs. select (finished k fs) fs ≡ s ∷ []) (sym one) (alone k s))

  module _ (scan lint : Command) (root : String) where
    abbrev step : String → Option Command → List String → Step
    step name cmd deps = record { name = name; cmd = cmd; deps = deps; cwd = some root }

    abbrev scan_step : Step
    scan_step = step "credential-scan" (some scan) []

    abbrev fmt : Step
    fmt = step "fmt" (argv ("cargo" ∷ "fmt" ∷ "--check" ∷ [])) ("credential-scan" ∷ [])

    abbrev clippy : Step
    clippy =
        step "clippy" (argv ("cargo" ∷ "clippy" ∷ "--all-targets" ∷ "--" ∷ "-D" ∷ "warnings" ∷ []))
          ("fmt" ∷ [])

    abbrev check : Step
    check = step "check" (argv ("cargo" ∷ "test" ∷ [])) ("clippy" ∷ [])

    abbrev deny : Step
    deny = step "deny" none ("check" ∷ [])

    abbrev coverage : Step
    coverage = step "coverage" (argv ("cargo" ∷ "tarpaulin" ∷ [])) ("deny" ∷ [])

    abbrev commits : Step
    commits = step "lint-commits" (some lint) ("coverage" ∷ [])

    abbrev before_check : Dict Status
    before_check = ("credential-scan", pass) ∷ ("fmt", pass) ∷ ("clippy", pass) ∷ []

    abbrev pub after_deny : Dict Status
    after_deny =
        ("credential-scan", pass)
        ∷ ("fmt", pass)
        ∷ ("clippy", pass)
        ∷ ("check", pass)
        ∷ ("deny", skip)
        ∷ ("coverage", skip_dep)
        ∷ ("lint-commits", skip_dep)
        ∷ []

    abbrev state : Dict Status → List Step → Run
    state st rem = record { statuses = st; remaining = rem; futures = [] }

    last_round :
        (k : ℕ)
        → loop runner finished (suc k) (
            state
              (("credential-scan", pass) ∷ ("fmt", pass) ∷ ("clippy", pass) ∷ ("check", pass) ∷ [])
              (deny ∷ coverage ∷ commits ∷ []))
          ≡ some after_deny
    unfolding loop lookup insert
    last_round k = refl

    module _ (p1 : outcome (runner scan_step) ≡ pass) (p2 : outcome (runner fmt) ≡ pass)
        (p3 : outcome (runner clippy) ≡ pass) (p4 : outcome (runner check) ≡ pass) where
      rounds :
          (k : ℕ)
          → loop runner finished
              (suc (suc (suc (suc (suc k)))))
              (state [] (scan_step ∷ fmt ∷ clippy ∷ check ∷ deny ∷ coverage ∷ commits ∷ []))
            ≡ some after_deny
      unfolding settle dispatch sort_steps lookup insert
      rounds k =
          one_round (suc (suc (suc (suc k))))
            (state [] (scan_step ∷ fmt ∷ clippy ∷ check ∷ deny ∷ coverage ∷ commits ∷ [])) scan_step
            refl refl
          ∙ ap
              (λ v. loop runner finished (suc (suc (suc (suc k)))) (
                state (("credential-scan", v) ∷ [])
                  (fmt ∷ clippy ∷ check ∷ deny ∷ coverage ∷ commits ∷ [])))
              p1
          ∙ one_round (suc (suc (suc k)))
              (state (("credential-scan", pass) ∷ [])
                (fmt ∷ clippy ∷ check ∷ deny ∷ coverage ∷ commits ∷ []))
              fmt refl refl
          ∙ ap
              (λ v. loop runner finished (suc (suc (suc k))) (
                state (("credential-scan", pass) ∷ ("fmt", v) ∷ [])
                  (clippy ∷ check ∷ deny ∷ coverage ∷ commits ∷ [])))
              p2
          ∙ one_round (suc (suc k))
              (state (("credential-scan", pass) ∷ ("fmt", pass) ∷ [])
                (clippy ∷ check ∷ deny ∷ coverage ∷ commits ∷ []))
              clippy refl refl
          ∙ ap
              (λ v. loop runner finished (suc (suc k)) (
                state (("credential-scan", pass) ∷ ("fmt", pass) ∷ ("clippy", v) ∷ [])
                  (check ∷ deny ∷ coverage ∷ commits ∷ [])))
              p3
          ∙ one_round (suc k) (state before_check (check ∷ deny ∷ coverage ∷ commits ∷ [])) check
              refl refl
          ∙ ap
              (λ v. loop runner finished (suc k) (
                state
                  (("credential-scan", pass) ∷ ("fmt", pass) ∷ ("clippy", pass) ∷ ("check", v) ∷ [])
                  (deny ∷ coverage ∷ commits ∷ [])))
              p4
          ∙ last_round k

      starved :
          (jobs : ℕ)
          → 0 < jobs
          → run_dag runner finished (build_rust_graph (some scan) (some lint) root false true) jobs
            ≡ DagResult.statuses after_deny
      unfolding run_dag validate_steps build_rust_graph lookup insert
      starved jobs pos = rw (positive jobs pos) (ap of_loop (rounds 3))

      -- Where `cargo-deny` is missing and coverage is asked for, a run whose first four steps pass
      -- skips the coverage step and the lint of the commits as if a dependency had failed, since
      -- `coverage` is visited before `deny` is marked `SKIP` and nothing runs afterwards; and the
      -- gate exits with 0, whatever the lint would have answered.
      pub coverage_starves :
          (jobs : ℕ)
          → 0 < jobs
          → (run_dag runner finished (build_rust_graph (some scan) (some lint) root false true) jobs
              ≡ DagResult.statuses after_deny)
            × (run_steps runner finished
                  (build_rust_graph (some scan) (some lint) root false true)
                  jobs
                ≡ some 0)
      unfolding any_fail
      coverage_starves jobs pos =
          (starved jobs pos, exit_of runner finished _ jobs (starved jobs pos))
