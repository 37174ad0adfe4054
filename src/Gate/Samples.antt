-- ===== src/Gate/Samples.antt =====
-- build/gate_graph.py: a Rust checkout, tools that all succeed, and the theorems at them.
use celestia_devtools.Prelude.{
  String, Bool, true, false, Option, none, some, List, [], ◌∷◌, ◌≡◌, refl, arith, Elem, inl, inr,
  ◌⊎◌, ap,
}
use celestia_devtools.Dict.{Dict, lookup, insert}
use celestia_devtools.Scheduler.Names.{Step, Command}
use celestia_devtools.Scheduler.{Status, pass, skip, DagResult, run_dag, validate_steps}
use celestia_devtools.Scheduler.Samples.{together, together-IsWait}
use celestia_devtools.Scheduler.Outcomes.Waits.{AllRun}
use celestia_devtools.Gate.Checks.{Repo, clean}
use celestia_devtools.Gate.{build_graph, run_steps, execute_step, argv}
use celestia_devtools.Gate.Graphs.{build_graph_valid}
use celestia_devtools.Gate.Verdicts.{run_steps_sound}
use celestia_devtools.Gate.Starved.{coverage_starves, after_deny}
use celestia_devtools.Gate.{build_rust_graph}

abbrev checkout : Repo
checkout = record {
  cargo_toml = true;
  package_json = false;
  pnpm_workspace = false;
  pyproject = false;
  cargo_deny = false;
  node_modules = none;
  lockfiles = [];
  changed = [];
  subjects = none;
  classify = λ line. clean;
  lint = λ subject. [];
}

abbrev succeeds : List String → String → Option Bool
succeeds args cwd = some true

abbrev style_only : List Step
style_only =
    record { name = "ruff-check"; cmd = argv ("ruff" ∷ "check" ∷ "." ∷ []); deps = []; cwd = none }
    ∷ record { name = "pytest"; cmd = argv ("pytest" ∷ []); deps = "ruff-check" ∷ []; cwd = none }
    ∷ []

style_only_valid : validate_steps style_only ≡ []
unfolding validate_steps lookup insert
style_only_valid = refl

style_only-AllRun : AllRun style_only
style_only-AllRun s (inl e) = (_, ap (λ x. x.cmd) e)
style_only-AllRun s (inr (inl e)) = (_, ap (λ x. x.cmd) e)
style_only-AllRun s (inr (inr none_left)) = elim none_left [ ]

exits_zero : run_steps (execute_step succeeds ".") together style_only 2 ≡ some 0
unfolding run_steps validate_steps lookup insert execute_step
exits_zero = refl

run_steps_sound_example :
    (st : Dict Status) × (run_dag (execute_step succeeds ".") together style_only 2
      ≡ DagResult.statuses st)
    × ((s : Step)
        → Elem s style_only
        → (lookup s.name st ≡ some pass) ⊎ (lookup s.name st ≡ some skip))
run_steps_sound_example =
    run_steps_sound succeeds "." style_only together 2 (omega arith) style_only_valid
      style_only-AllRun together-IsWait exits_zero

abbrev rust_steps : List Step
rust_steps = elim (build_graph "python3" "." checkout "rust" true) [ some g ↦ g | none ↦ [] ]

builds : build_graph "python3" "." checkout "rust" true ≡ some rust_steps
unfolding build_graph
builds = refl

build_graph_valid_example : validate_steps rust_steps ≡ []
build_graph_valid_example = build_graph_valid "python3" "." checkout "rust" true rust_steps builds

abbrev quiet : Command
quiet = Command.check none

abbrev passes : Step → Option String
passes s = some "PASS"

coverage_starves_example :
    (run_dag passes together (build_rust_graph (some quiet) (some quiet) "." false true) 4
      ≡ DagResult.statuses (after_deny passes together together-IsWait quiet quiet "."))
    × (run_steps passes together (build_rust_graph (some quiet) (some quiet) "." false true) 4
        ≡ some 0)
coverage_starves_example =
    coverage_starves passes together together-IsWait quiet quiet "." refl refl refl refl 4
      (omega arith)
