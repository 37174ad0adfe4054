-- ===== src/Gate/Graphs.antt =====
-- build/gate_graph.py: every graph that the gate builds is one that the scheduler accepts.
use celestia_devtools.Prelude.{String, Bool, true, false, Option, some, List, [], ◌≡◌, refl, arith}
use celestia_devtools.Dict.{lookup, insert}
use celestia_devtools.Scheduler.Names.{Step, Command}
use celestia_devtools.Scheduler.{validate_steps}
use celestia_devtools.Gate.Checks.{Repo, needs_install, credential_scan, lint_commits}
use celestia_devtools.Gate.{
  check_of, build_rust_graph, build_web_graph, build_python_graph, build_graph,
}

module _ (scan lint : Option Command) (root : String) where
  rust_valid :
      (has_deny coverage : Bool)
      → validate_steps (build_rust_graph scan lint root has_deny coverage) ≡ []
  unfolding validate_steps lookup insert build_rust_graph
  rust_valid true true = refl
  rust_valid true false = refl
  rust_valid false true = refl
  rust_valid false false = refl

  web_valid : (install : Bool) → validate_steps (build_web_graph scan lint root install) ≡ []
  unfolding validate_steps lookup insert build_web_graph
  web_valid true = refl
  web_valid false = refl

  python_valid : (python : String) → validate_steps (build_python_graph scan lint root python) ≡ []
  unfolding validate_steps lookup insert build_python_graph
  python_valid python = refl

-- Whatever the checkout is like, `build_graph` gives a graph that `validate_steps` accepts.
pub build_graph_valid :
    (python root : String) (r : Repo) (mode : String) (coverage : Bool) (g : List Step)
    → build_graph python root r mode coverage ≡ some g
    → validate_steps g ≡ []
unfolding build_graph
build_graph_valid python root r mode coverage g h = ground (
  arith,
  rust_valid (check_of (credential_scan r)) (check_of (lint_commits r)) root r.cargo_deny coverage,
  web_valid (check_of (credential_scan r)) (check_of (lint_commits r)) root (needs_install r),
  python_valid (check_of (credential_scan r)) (check_of (lint_commits r)) root python,
)
