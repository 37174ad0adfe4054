-- ===== src/Scheduler/Samples.antt =====
-- core/scheduler.py: a small graph, a thread pool whose futures finish together and one whose
-- futures finish one at a time, and the theorems at them.
use celestia_devtools.Prelude.{
  String, Bool, true, Option, none, some, List, [], ◌∷◌, ◌≡◌, refl, arith, str_eq, if◌then◌else◌,
  Elem, inl, inr, select, ◌↔◌, eq_refl, ap,
}
use celestia_devtools.Dict.{Dict, lookup, insert}
use celestia_devtools.Scheduler.Names.{Step, Command}
use celestia_devtools.Scheduler.{Status, Pool, DagResult, run_dag, validate_steps}
use celestia_devtools.Scheduler.Results.{IsWait}
use celestia_devtools.Scheduler.Cycle.{find_cycle}
use celestia_devtools.Scheduler.Cycle.Acyclic.{Verdict, find_cycle-Verdict}
use celestia_devtools.Scheduler.Acceptance.{known_edges, IsAcyclic, validate_steps_iff}
use celestia_devtools.Scheduler.Validation.{Known, validate_steps-IsWellFormed}
use celestia_devtools.Scheduler.Settled.{Settled}
use celestia_devtools.Scheduler.Outcomes.{Explained, run_dag-Explained}
use celestia_devtools.Scheduler.Outcomes.Waits.{AllRun}
use celestia_devtools.Scheduler.Outcomes.Fixpoint.{run_dag-Settled}
use celestia_devtools.Scheduler.Outcomes.Schedules.{run_dag_deterministic}

abbrev tool : String → List String → Step
tool name deps = record {
  name = name;
  cmd = some (Command.argv (name ∷ []));
  deps = deps;
  cwd = none;
}

-- `test` fails, so that `pack` is not started; `docs` has no dependency.
abbrev jobs_graph : List Step
jobs_graph =
    tool "build" []
    ∷ tool "test" ("build" ∷ [])
    ∷ tool "docs" []
    ∷ tool "pack" ("test" ∷ "docs" ∷ [])
    ∷ []

abbrev verdicts : Step → Option String
verdicts s = if str_eq s.name "test" then some "FAIL" else some "PASS"

abbrev pub together : Pool
together k fs s = true

abbrev first_of : List Step → Step → Bool
first_of [] s = true
first_of (f ∷ fs) s = str_eq f.name s.name

abbrev one_by_one : Pool
one_by_one k fs s = first_of fs s

pub together-IsWait : IsWait together
together-IsWait k [] busy = busy
together-IsWait k (f ∷ fs) busy = λ e. cc e

one_by_one-IsWait : IsWait one_by_one
one_by_one-IsWait k [] busy = busy
one_by_one-IsWait k (f ∷ fs) busy = rw (select, eq_refl f.name) (λ e. cc e)

jobs_graph_valid : validate_steps jobs_graph ≡ []
unfolding validate_steps lookup insert
jobs_graph_valid = refl

jobs_graph_known : Known jobs_graph
jobs_graph_known = (validate_steps-IsWellFormed jobs_graph jobs_graph_valid).known

jobs_graph-AllRun : AllRun jobs_graph
jobs_graph-AllRun s (inl e) = (_, ap (λ x. x.cmd) e)
jobs_graph-AllRun s (inr (inl e)) = (_, ap (λ x. x.cmd) e)
jobs_graph-AllRun s (inr (inr (inl e))) = (_, ap (λ x. x.cmd) e)
jobs_graph-AllRun s (inr (inr (inr (inl e)))) = (_, ap (λ x. x.cmd) e)
jobs_graph-AllRun s (inr (inr (inr (inr none_left)))) = elim none_left [ ]

run_dag-Explained_example :
    (st : Dict Status) × (run_dag verdicts one_by_one jobs_graph 2 ≡ DagResult.statuses st)
    × ((s : Step) → Elem s jobs_graph → Explained verdicts jobs_graph st s)
run_dag-Explained_example =
    run_dag-Explained verdicts jobs_graph one_by_one 2 (omega arith) jobs_graph_valid
      one_by_one-IsWait

run_dag-Settled_example :
    (st : Dict Status) × (run_dag verdicts together jobs_graph 4 ≡ DagResult.statuses st)
    × ((s : Step) → Elem s jobs_graph → Settled verdicts st s)
run_dag-Settled_example =
    run_dag-Settled verdicts jobs_graph together 4 (omega arith) jobs_graph_valid jobs_graph-AllRun
      together-IsWait

abbrev ended : Dict Status
ended =
    ("build", Status.pass)
    ∷ ("docs", Status.pass)
    ∷ ("test", Status.fail)
    ∷ ("pack", Status.skip_dep)
    ∷ []

runs_one_by_one : run_dag verdicts one_by_one jobs_graph 1 ≡ DagResult.statuses ended
unfolding run_dag validate_steps lookup insert
runs_one_by_one = refl

runs_together : run_dag verdicts together jobs_graph 4 ≡ DagResult.statuses ended
unfolding run_dag validate_steps lookup insert
runs_together = refl

run_dag_deterministic_example : lookup "pack" ended ≡ lookup "pack" ended
run_dag_deterministic_example =
    run_dag_deterministic verdicts jobs_graph one_by_one together 1 4 (omega arith) (omega arith)
      jobs_graph_valid jobs_graph-AllRun one_by_one-IsWait together-IsWait ended ended
      runs_one_by_one runs_together (tool "pack" ("test" ∷ "docs" ∷ []))
      (inr (inr (inr (inl refl))))

validate_steps_iff_example : (validate_steps jobs_graph ≡ []) ↔ IsAcyclic jobs_graph
validate_steps_iff_example = validate_steps_iff jobs_graph

find_cycle-Verdict_example :
    Verdict jobs_graph (known_edges jobs_graph jobs_graph_known) (find_cycle jobs_graph)
find_cycle-Verdict_example = find_cycle-Verdict jobs_graph (known_edges jobs_graph jobs_graph_known)
