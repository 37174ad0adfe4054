-- ===== src/Gate.antt =====
-- build/gate_graph.py and the dispatch of build/gate_cli.py: mode detection, the step graphs, the
-- runner and the exit code of the gate.
pub mod Checks
pub mod Graphs
pub mod Verdicts
pub mod Starved
mod Samples
use Prim.Native.String.{◌++◌ as str_append}
use celestia_devtools.Prelude.{
  ℕ, String, Bool, true, false, Option, none, some, List, [], ◌∷◌, ◌++◌, map, str_eq, ltb,
  if◌then◌else◌, ◌||◌,
}
use celestia_devtools.Dict.{Dict}
use celestia_devtools.Scheduler.Names.{Step, Command, Value}
use celestia_devtools.Scheduler.{Pool, Status, fail, DagResult, run_dag}
use Checks.{Repo, credential_scan, lint_commits, needs_install, text_of}

-- `detect_modes`
unfoldable pub detect_modes : Repo → List String
detect_modes r =
    (if r.cargo_toml then "rust" ∷ [] else [])
    ++ (if r.package_json || r.pnpm_workspace then "web" ∷ [] else [])
    ++ (if r.pyproject then "python" ∷ [] else [])

-- `none` is `usage_error`.
unfoldable pub resolve_modes : Repo → Option String → Option (List String)
unfolding detect_modes
resolve_modes r (some mode) =
    if str_eq mode "rust" || (str_eq mode "web" || str_eq mode "python")
    then some (mode ∷ [])
    else elim (detect_modes r) [ [] ↦ none | m ∷ ms ↦ some (m ∷ ms) ]
resolve_modes r none = elim (detect_modes r) [ [] ↦ none | m ∷ ms ↦ some (m ∷ ms) ]

-- The variables `steps` and `prev` of a graph builder, and its inner function `add`.
pub record Builder : Type 0 where
  pub steps : List Step
  pub prev : String

unfoldable pub add : String → String → Option Command → Builder → Builder
add root name cmd b = record {
  steps = b.steps ++ record { name = name; cmd = cmd; deps = b.prev ∷ []; cwd = some root } ∷ [];
  prev = name;
}

abbrev pub argv : List String → Option Command
argv args = some (Command.argv args)

-- The closures of `_credential_scan(root)` and `_lint_commits(root)`: what their one call gives.
abbrev pub check_of : Status → Option Command
check_of v = some (Command.check (some (Value.text (text_of v))))

abbrev first : String → Option Command → String → Builder
first name cmd root = record {
  steps = record { name = name; cmd = cmd; deps = []; cwd = some root } ∷ [];
  prev = name;
}

-- The graphs, given the two in-process checks.
module _ (scan lint : Option Command) (root : String) where
  unfoldable pub build_rust_graph : (has_deny coverage : Bool) → List Step
  unfolding add
  build_rust_graph has_deny coverage =
      let a = first "credential-scan" scan root in
      let b = add root "fmt" (argv ("cargo" ∷ "fmt" ∷ "--check" ∷ [])) a in
      let c =
        add root "clippy"
          (argv ("cargo" ∷ "clippy" ∷ "--all-targets" ∷ "--" ∷ "-D" ∷ "warnings" ∷ [])) b in
      let d = add root "check" (argv ("cargo" ∷ "test" ∷ [])) c in
      let e =
        add root "deny" (if has_deny then argv ("cargo" ∷ "deny" ∷ "check" ∷ []) else none) d in
      let f = if coverage then add root "coverage" (argv ("cargo" ∷ "tarpaulin" ∷ [])) e else e in
      (add root "lint-commits" lint f).steps

  unfoldable pub build_web_graph : (install : Bool) → List Step
  unfolding add
  build_web_graph install =
      let a = first "credential-scan" scan root in
      let b =
        add root "install"
          (if install then argv ("pnpm" ∷ "install" ∷ "--frozen-lockfile" ∷ []) else none) a in
      let c = add root "lint" (argv ("pnpm" ∷ "lint" ∷ [])) b in
      let d = add root "build" (argv ("pnpm" ∷ "build" ∷ [])) c in
      let e = add root "test" (argv ("pnpm" ∷ "test" ∷ [])) d in
      (add root "lint-commits" lint e).steps

  -- The source writes each dependency out: it is the step before.
  unfoldable pub build_python_graph : (python : String) → List Step
  unfolding add
  build_python_graph python =
      let a = first "ruff-check" (argv ("ruff" ∷ "check" ∷ "." ∷ [])) root in
      let b =
        add root "py-style"
          (argv (python ∷ "-m" ∷ "celestia_devtools" ∷ "py-style" ∷ "check" ∷ "." ∷ [])) a in
      let c = add root "pytest" (argv ("pytest" ∷ [])) b in (add root "lint-commits" lint c).steps

-- `build_graph`; `none` is `usage_error`.
unfoldable pub build_graph : (python root : String) → Repo → String → Bool → Option (List Step)
unfolding build_rust_graph build_web_graph build_python_graph credential_scan lint_commits
    needs_install
build_graph python root r mode coverage =
    let scan = check_of (credential_scan r) in
    let lint = check_of (lint_commits r) in
    if str_eq mode "rust"
    then some (build_rust_graph scan lint root r.cargo_deny coverage)
    else if str_eq mode "web"
    then some (build_web_graph scan lint root (needs_install r))
    else if str_eq mode "python"
    then some (build_python_graph scan lint root python)
    else none

abbrev prefixed : String → String → String
prefixed prefix name = str_append prefix (str_append ":" name)

unfoldable pub prefix_steps : String → List Step → List Step
prefix_steps prefix steps =
    map {A = Step}
      (λ s. record s { name = prefixed prefix s.name; deps = map (prefixed prefix) s.deps }) steps

-- The plans of `main`: one graph as it is, several with their names and dependencies prefixed.
abbrev build_all : (String → Option (List Step)) → List String → Option (List Step)
build_all build [] = some []
build_all build (mode ∷ modes) = elim (build mode) [
  | none ↦ none
  | some graph ↦ elim (build_all build modes) [
    | none ↦ none
    | some rest ↦ some (prefix_steps mode graph ++ rest)
  ]
]

unfoldable pub plan : (String → Option (List Step)) → List String → Option (List Step)
unfolding prefix_steps
plan build (mode ∷ []) = build mode
plan build modes = build_all build modes

-- `_normalize_status`
unfoldable pub normalize_status : Value → String
normalize_status (Value.bool true) = "PASS"
normalize_status (Value.bool false) = "FAIL"
normalize_status (Value.text s) =
    if str_eq s "PASS" || (str_eq s "FAIL" || str_eq s "SKIP") then s else "FAIL"
normalize_status Value.other = "FAIL"

-- `_execute_step`. `process argv cwd` says whether the subprocess returned 0 (`none`: it could not
-- be started), and `here` is the current directory; the outer `none` is an exception.
module _ (process : List String → String → Option Bool) (here : String) where
  abbrev dir_of : Option String → String
  dir_of none = here
  dir_of (some d) = if str_eq d "" then here else d

  abbrev run_command : Option String → Option Command → Option String
  run_command cwd none = some "SKIP"
  run_command cwd (some (Command.check none)) = some "FAIL"
  run_command cwd (some (Command.check (some v))) = some (normalize_status v)
  run_command cwd (some (Command.argv args)) = elim (process args (dir_of cwd)) [
    | none ↦ none
    | some true ↦ some "PASS"
    | some false ↦ some "FAIL"
  ]

  unfoldable pub execute_step : Step → Option String
  unfolding normalize_status
  execute_step s = run_command s.cwd s.cmd

abbrev pub is_fail : Status → Bool
is_fail fail = true
is_fail _ = false

-- `any(s == FAIL for s in statuses.values())`
unfoldable pub any_fail : Dict Status → Bool
any_fail [] = false
any_fail ((n, v) ∷ st) = is_fail v || any_fail st

-- `_run`: the exit code; `none` is the exception that `run_dag` raises.
unfoldable pub run_steps : (Step → Option String) → Pool → List Step → ℕ → Option ℕ
unfolding run_dag any_fail
run_steps runner finished steps jobs = elim (run_dag runner finished steps jobs) [
  | DagResult.statuses st ↦ some (if any_fail st then 1 else 0)
  | _ ↦ none
]

-- The end of `main`: what the gate of a checkout exits with.
pub data Exit : Type 0 where
  usage_error : Exit
  exit : ℕ → Exit
  crashed : Exit

unfoldable pub gate :
    (python root : String) (runner : Step → Option String) (finished : Pool) (r : Repo)
    (mode : Option String) (coverage : Bool) (jobs : ℕ)
    → Exit
unfolding resolve_modes build_graph plan run_steps
gate python root runner finished r mode coverage jobs =
    if ltb jobs 1 then usage_error else elim (resolve_modes r mode) [
      | none ↦ usage_error
      | some modes ↦ elim (plan (λ m. build_graph python root r m coverage) modes) [
        | none ↦ usage_error
        | some steps ↦ elim (run_steps runner finished steps jobs) [
          | none ↦ crashed
          | some code ↦ exit code
        ]
      ]
    ]
