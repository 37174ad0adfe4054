-- ===== src/Scheduler/Outcomes/Fixpoint.antt =====
-- core/scheduler.py: without conditionally skipped steps the statuses solve the equations of the
-- graph, and on a graph with a rank no schedule can change them.
use celestia_devtools.Prelude.{ℕ, ◌<◌, String, Option, List, [], ◌≡◌, Elem, inl, inr}
use celestia_devtools.Dict.{Dict}
use celestia_devtools.Scheduler.Names.{Step}
use celestia_devtools.Scheduler.{Pool, Status, run_dag, DagResult, validate_steps}
use celestia_devtools.Scheduler.Settled.{Settled}
use celestia_devtools.Scheduler.Results.{IsWait}
use celestia_devtools.Scheduler.Outcomes.{Explained, run_dag-Explained}
use celestia_devtools.Scheduler.Outcomes.Waits.{AllRun}

module _ (runner : Step → Option String) (steps : List Step) (all_run : AllRun steps) where
  -- No step is starved where each has a command.
  Settled-of_Explained :
      (st : Dict Status) (s : Step) → Explained runner steps st s → Settled runner st s
  Settled-of_Explained st s (inl settled) = settled
  Settled-of_Explained st s (inr (is, (d, k, skipped, (t, m, named, no_cmd)))) =
      let (c, cmd) = all_run t m in absurd (cc (cmd, no_cmd))

-- On an accepted graph in which every step has a command, `run_dag` returns statuses that solve the
-- equations of the graph: each step has `SKIP_DEP` with a dependency that has `FAIL` or `SKIP_DEP`,
-- or the outcome of its own run with every dependency in `PASS` or `SKIP`.
pub run_dag-Settled :
    (runner : Step → Option String) (steps : List Step) (finished : Pool) (jobs : ℕ)
    → 0 < jobs
    → validate_steps steps ≡ []
    → AllRun steps
    → IsWait finished
    → (st : Dict Status) × (run_dag runner finished steps jobs ≡ DagResult.statuses st)
      × ((s : Step) → Elem s steps → Settled runner st s)
run_dag-Settled runner steps finished jobs pos valid all_run waits =
    let (st, runs, explained) = run_dag-Explained runner steps finished jobs pos valid waits in
    (st, runs, λ s m. Settled-of_Explained runner steps all_run st s (explained s m))
