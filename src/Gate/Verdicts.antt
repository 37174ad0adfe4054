-- ===== src/Gate/Verdicts.antt =====
-- build/gate_graph.py: what the gate's exit code says of the steps that it ran.
use celestia_devtools.Prelude.{
  ℕ, zero, suc, ◌<◌, String, Bool, true, false, Option, none, some, List, [], ◌∷◌, ◌≡◌, ◌≢◌, refl,
  sym, arith, Bool-cases, Option-cases, Elem, inl, inr, ◌⊎◌, str_eq, eq_iff, subst,
}
use celestia_devtools.Dict.{Dict, lookup}
use celestia_devtools.Scheduler.Names.{Step, Command, Value}
use celestia_devtools.Scheduler.{
  Status, pass, fail, skip, skip_dep, outcome, Pool, DagResult, run_dag, validate_steps,
}
use celestia_devtools.Scheduler.Settled.{Settled, own}
use celestia_devtools.Scheduler.Results.{IsWait}
use celestia_devtools.Scheduler.Acceptance.{IsAcyclic, IsAcyclic-of_valid}
use celestia_devtools.Scheduler.Outcomes.Fixpoint.{run_dag-Settled}
use celestia_devtools.Scheduler.Outcomes.Waits.{AllRun, Elem-of_contains}
use celestia_devtools.Gate.{run_command, normalize_status, execute_step, any_fail, run_steps}

normalized_cases :
    (v : Value)
    → (normalize_status v ≡ "PASS") ⊎ (normalize_status v ≡ "FAIL") ⊎ (normalize_status v ≡ "SKIP")
unfolding normalize_status
normalized_cases (Value.bool true) = inl refl
normalized_cases (Value.bool false) = inr (inl refl)
normalized_cases (Value.text s) = elim (Bool-cases (str_eq s "PASS")) [
  | inl a ↦ inl (rw a ((eq_iff s "PASS").0 a))
  | inr a ↦ elim (Bool-cases (str_eq s "FAIL")) [
    | inl b ↦ inr (inl (rw (a, b) ((eq_iff s "FAIL").0 b)))
    | inr b ↦ elim (Bool-cases (str_eq s "SKIP")) [
      | inl c ↦ inr (inr (rw (a, b, c) ((eq_iff s "SKIP").0 c)))
      | inr c ↦ inr (inl (rw (a, b, c)))
    ]
  ]
]
normalized_cases Value.other = inr (inl refl)

normalized_ne_skip_dep : (v : Value) → outcome (some (normalize_status v)) ≢ skip_dep
normalized_ne_skip_dep v = elim (normalized_cases v) [
  | inl p ↦ rw p (λ e. cc)
  | inr (inl f) ↦ rw f (λ e. cc)
  | inr (inr s) ↦ rw s (λ e. cc)
]

module _ (process : List String → String → Option Bool) (here : String) where
  command_ne_skip_dep :
      (cwd : Option String) (c : Command)
      → outcome (run_command process here cwd (some c)) ≢ skip_dep
  command_ne_skip_dep cwd (Command.check none) e = cc
  command_ne_skip_dep cwd (Command.check (some v)) e = normalized_ne_skip_dep v e
  command_ne_skip_dep cwd (Command.argv args) e = ground arith

  -- The gate's runner never answers `SKIP_DEP`.
  own_ne_skip_dep : (s : Step) → own (execute_step process here) s ≢ skip_dep
  unfolding execute_step
  own_ne_skip_dep s = elim (Option-cases s.cmd) [
    | inl empty ↦ rw empty (λ e. cc)
    | inr (c, is) ↦ rw is (command_ne_skip_dep s.cwd c)
  ]

fail_listed : (st : Dict Status) (n : String) → lookup n st ≡ some fail → any_fail st ≡ true
unfolding lookup any_fail
fail_listed [] n h = cc
fail_listed ((m, v) ∷ st) n h = ground (arith, fail_listed st n)

module _ (process : List String → String → Option Bool) (here : String) (steps : List Step)
    (ok : IsAcyclic steps) (st : Dict Status)
    (solved : (s : Step) → Elem s steps → Settled (execute_step process here) st s)
    (no_fail : any_fail st ≡ false) where
  not_skip_dep :
      (n : ℕ) (s : Step) → Elem s steps → ok.rank s.name < n → lookup s.name st ≢ some skip_dep
  not_skip_dep zero s m h e = omega arith
  not_skip_dep (suc n) s m h e = refuted (solved s m) (λ d k at.
      let (t, t_in, named) = Elem-of_contains d steps (ok.known s d m k) in
      not_skip_dep n t t_in
        (subst (λ x. ok.rank x < n) (sym named) (omega (arith, ok.falls s d m k)))
        (subst (λ x. lookup x st ≡ some skip_dep) (sym named) at))
    where
      refuted :
          Settled (execute_step process here) st s
          → ((d : String) → Elem d s.deps → lookup d st ≢ some skip_dep)
          → ⊥
      refuted (v, is, inr (a, o)) below = own_ne_skip_dep process here s (cc)
      refuted (v, is, inl ((d, k, pass, at, stops), o)) below = cc
      refuted (v, is, inl ((d, k, skip, at, stops), o)) below = cc
      refuted (v, is, inl ((d, k, fail, at, stops), o)) below = cc (fail_listed st d at)
      refuted (v, is, inl ((d, k, skip_dep, at, stops), o)) below = below d k at

  passed :
      (s : Step) → Elem s steps → (lookup s.name st ≡ some pass) ⊎ (lookup s.name st ≡ some skip)
  passed s m = by_status (solved s m)
    where
      by_status :
          Settled (execute_step process here) st s
          → (lookup s.name st ≡ some pass) ⊎ (lookup s.name st ≡ some skip)
      by_status (pass, is, _) = inl is
      by_status (skip, is, _) = inr is
      by_status (fail, is, _) = cc (fail_listed st s.name is)
      by_status (skip_dep, is, _) =
          absurd (not_skip_dep (suc (ok.rank s.name)) s m (omega arith) is)

-- Exit code 0 of a run with the gate's own runner, on an accepted graph in which every step has a
-- command and whatever futures each wait finds done: `run_dag` returned, and every step of the
-- graph ended in `PASS` or `SKIP`, so none failed and none was left out.
pub run_steps_sound :
    (process : List String → String → Option Bool) (here : String) (steps : List Step)
    (finished : Pool) (jobs : ℕ)
    → 0 < jobs
    → validate_steps steps ≡ []
    → AllRun steps
    → IsWait finished
    → run_steps (execute_step process here) finished steps jobs ≡ some 0
    → (st : Dict Status) × (run_dag (execute_step process here) finished steps jobs
        ≡ DagResult.statuses st)
      × ((s : Step)
          → Elem s steps
          → (lookup s.name st ≡ some pass) ⊎ (lookup s.name st ≡ some skip))
unfolding run_steps
run_steps_sound process here steps finished jobs pos valid all waits zero_exit =
    let (st, runs, solved) =
      run_dag-Settled (execute_step process here) steps finished jobs pos valid all waits in
    let no_fail : any_fail st ≡ false = ground (arith, runs, zero_exit) in
    (st, runs, passed process here steps (IsAcyclic-of_valid steps valid) st solved no_fail)
