-- ===== src/Scheduler.antt =====
-- core/scheduler.py: the step graph, `validate_steps` (its cycle search is in the child `Cycle`) and
-- the rounds of `run_dag`. The proofs are in the other children.
pub mod Names
pub mod Cycle
pub mod Settled
pub mod Rounds
pub mod Results
pub mod Validation
pub mod Acceptance
pub mod Outcomes
pub mod Samples
use celestia_devtools.Prelude.{
  ℕ, zero, suc, String, Bool, true, false, Option, none, some, List, [], ◌∷◌, ◌++◌, str_eq, ltb,
  ◌==◌, if◌then◌else◌, is_nil, length, select, ◌&&◌,
}
use celestia_devtools.Dict.{Dict, lookup, insert}
use Names.{Step, contains, discard, names, sort_steps, count, dedup, sort_names, by_name}
use Cycle.{Outcome, find_cycle}

-- The status strings; a runner may return any string.
pub data Status : Type 0 where
  pass fail skip skip_dep : Status

-- `status in _VALID_STATUSES`, with the status that the string names.
abbrev pub valid_status : String → Option Status
valid_status s =
    if str_eq s "PASS"
    then some pass
    else if str_eq s "FAIL"
    then some fail
    else if str_eq s "SKIP"
    then some skip
    else if str_eq s "SKIP_DEP"
    then some skip_dep
    else none

-- `problems`, one constructor for each message.
pub data Problem : Type 0 where
  duplicate_names : List String → Problem
  unknown_dep : (step dep : String) → Problem
  dependency_cycle : List String → Problem

-- The loop over the dependencies of one step.
pub unknown_of : List Step → String → List String → List Problem
unknown_of graph name [] = []
unknown_of graph name (d ∷ ds) =
    let rest = unknown_of graph name ds in
    if contains d graph then rest else unknown_dep name d ∷ rest

pub unknown_deps : List Step → List Step → List Problem
unfolding unknown_of
unknown_deps graph [] = []
unknown_deps graph (s ∷ ss) = unknown_of graph s.name s.deps ++ unknown_deps graph ss

pub duplicates : List Step → List Problem
unfolding dedup sort_names
duplicates steps =
    let ns = names steps in
    if length ns == length (dedup ns)
    then []
    else duplicate_names (sort_names (dedup (select (λ n. ltb 1 (count n ns)) ns))) ∷ []

pub cycle_problems : List Step → List Problem
unfolding find_cycle
cycle_problems graph = elim (find_cycle graph) [
  | Outcome.found c ↦ dependency_cycle c ∷ []
  | _ ↦ []
]

unfoldable pub validate_steps : List Step → List Problem
unfolding by_name duplicates unknown_deps cycle_problems
validate_steps steps =
    let problems = duplicates steps ++ unknown_deps (by_name steps) steps in
    if is_nil problems then cycle_problems (by_name steps) else problems

-- The interleaving that the thread pool chooses: whether the future of a step is done when a wait
-- for the given futures returns, with the given number of rounds left.
abbrev pub Pool : Type 0
Pool = ℕ → List Step → Step → Bool

-- The variables of the loop of `run_dag`. A name in `remaining` stands there as its step.
pub record Run : Type 0 where
  pub statuses : Dict Status
  pub remaining : List Step
  pub futures : List Step

abbrev pub blocks : Status → Bool
blocks fail = true
blocks skip_dep = true
blocks _ = false

-- `ready(step)`: `some true` runs it, `some false` skips it, `none` waits.
pub ready : Dict Status → List String → Option Bool
ready st [] = some true
ready st (d ∷ ds) = elim (lookup d st) [
  | none ↦ none
  | some v ↦ elim (blocks v) [ true ↦ some false | false ↦ ready st ds ]
]

abbrev pub record_status : String → Status → Run → Run
record_status n v r = record r { statuses = insert n v r.statuses }

-- One pass of the dispatching loop, for one step.
unfoldable pub dispatch_one : Run → Step → Run
unfolding ready
dispatch_one r step =
    let r' = record r { remaining = discard step.name r.remaining } in
    elim (ready r.statuses step.deps) [
      | none ↦ r
      | some false ↦ record_status step.name skip_dep r'
      | some true ↦ elim step.cmd [
        | none ↦ record_status step.name skip r'
        | some c ↦ record r' { futures = r'.futures ++ step ∷ [] }
      ]
    ]

unfoldable pub dispatch : Run → List Step → Run
unfolding dispatch_one
dispatch r [] = r
dispatch r (s ∷ ss) = dispatch (dispatch_one r s) ss

-- `statuses[name] = SKIP_DEP` for everything that is left.
unfoldable pub sweep : Dict Status → List Step → Dict Status
sweep st [] = st
sweep st (s ∷ ss) = sweep (insert s.name skip_dep st) ss

abbrev pub outcome : Option String → Status
outcome none = fail
outcome (some s) = elim (valid_status s) [ none ↦ fail | some v ↦ v ]

module _ (runner : Step → Option String) where
  -- `futures.pop(future)`, and the status of its step.
  unfoldable pub settle_one : Run → Step → Run
  settle_one r s =
      record_status s.name (outcome (runner s)) (record r { futures = discard s.name r.futures })

  -- The loop over the futures that are done.
  unfoldable pub settle : Run → List Step → Run
  unfolding settle_one
  settle r [] = r
  settle r (s ∷ ss) = settle (settle_one r s) ss

  -- The `while` loop, with a fuel that bounds its rounds.
  unfoldable pub loop : Pool → ℕ → Run → Option (Dict Status)
  unfolding dispatch sweep settle sort_steps
  loop finished zero r = none
  loop finished (suc k) r =
      let r' = dispatch r (sort_steps r.remaining) in
      let next = settle r' (select (finished k r'.futures) r'.futures) in
      let rest = loop finished k next in
      if is_nil r.remaining && is_nil r.futures
      then some r.statuses
      else if is_nil r'.futures
      then some (sweep r'.statuses r'.remaining)
      else rest

pub data DagResult : Type 0 where
  statuses : Dict Status → DagResult
  bad_jobs : DagResult
  invalid_graph : List Problem → DagResult
  out_of_fuel : DagResult

abbrev pub initial : List Step → Run
initial steps = record { statuses = []; remaining = by_name steps; futures = [] }

abbrev pub of_loop : Option (Dict Status) → DagResult
of_loop none = out_of_fuel
of_loop (some st) = statuses st

unfoldable pub run_dag :
    (runner : Step → Option String) (finished : Pool) (steps : List Step) (jobs : ℕ) → DagResult
unfolding loop validate_steps by_name
run_dag runner finished steps jobs =
    let problems = validate_steps steps in
    let result = loop runner finished (suc (length steps)) (initial steps) in
    if ltb jobs 1
    then bad_jobs
    else if is_nil problems
    then of_loop result
    else invalid_graph problems
