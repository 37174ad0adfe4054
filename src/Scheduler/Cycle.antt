-- ===== src/Scheduler/Cycle.antt =====
-- core/scheduler.py: `_find_cycle`, the three-colour depth-first search. The inner function `dfs`
-- takes fuel; the number of steps is enough, since each nested call turns a white step gray.
pub mod Chain
pub mod Complete
pub mod Visits
pub mod Acyclic
use celestia_devtools.Prelude.{
  ℕ, zero, suc, String, Option, none, some, List, [], ◌∷◌, ◌++◌, str_eq, if◌then◌else◌, length,
}
use celestia_devtools.Dict.{Dict, lookup, insert}
use celestia_devtools.Scheduler.Names.{Step, names}

pub data Color : Type 0 where
  white gray black : Color

-- The variables that the nested function shares.
pub record Search : Type 0 where
  pub color : Dict Color
  pub path : List String

-- `failed` stands for a `KeyError`, and for fuel that ran out.
pub data Outcome : Type 0 where
  found : List String → Outcome
  finished : Search → Outcome
  failed : Outcome

-- `by_name[node]`
unfoldable pub step_of : String → List Step → Option Step
step_of n [] = none
step_of n (s ∷ ss) = if str_eq s.name n then some s else step_of n ss

-- `path[path.index(dep):]`
abbrev pub from_name : String → List String → List String
from_name d [] = []
from_name d (n ∷ ns) = if str_eq n d then n ∷ ns else from_name d ns

-- `path.pop()`
abbrev pub drop_last : List String → List String
drop_last [] = []
drop_last (n ∷ []) = []
drop_last (n ∷ m ∷ ns) = n ∷ drop_last (m ∷ ns)

abbrev pub enter : String → Search → Search
enter node s = record { color = insert node gray s.color; path = s.path ++ node ∷ [] }

abbrev pub leave : String → Outcome → Outcome
leave node (found c) = found c
leave node (finished s) =
    finished (record { color = insert node black s.color; path = drop_last s.path })
leave node failed = failed

-- The loop over `by_name[node].deps`, given the recursive call.
pub visit_deps : (String → Search → Outcome) → List String → Search → Outcome
visit_deps visit [] s = finished s
visit_deps visit (d ∷ ds) s = elim (lookup d s.color) [
  | none ↦ failed
  | some gray ↦ found (from_name d s.path ++ d ∷ [])
  | some white ↦ elim (visit d s) [
    | found c ↦ found c
    | finished t ↦ visit_deps visit ds t
    | failed ↦ failed
  ]
  | some black ↦ visit_deps visit ds s
]

pub dfs : List Step → ℕ → String → Search → Outcome
dfs graph zero node s = failed
dfs graph (suc k) node s = elim (step_of node graph) [
  | none ↦ failed
  | some step ↦ leave node (visit_deps (dfs graph k) step.deps (enter node s))
]

-- The loop over `by_name`, given `dfs`.
pub search_all : (String → Search → Outcome) → List String → Search → Outcome
search_all visit [] s = finished s
search_all visit (n ∷ ns) s = elim (lookup n s.color) [
  | none ↦ failed
  | some white ↦ elim (visit n s) [
    | found c ↦ found c
    | finished t ↦ search_all visit ns t
    | failed ↦ failed
  ]
  | some gray ↦ search_all visit ns s
  | some black ↦ search_all visit ns s
]

abbrev pub all_white : List Step → Dict Color
all_white [] = []
all_white (s ∷ ss) = (s.name, white) ∷ all_white ss

abbrev pub start : List Step → Search
start graph = record { color = all_white graph; path = [] }

unfoldable pub find_cycle : List Step → Outcome
unfolding dfs search_all visit_deps step_of
find_cycle graph = search_all (dfs graph (length graph)) (names graph) (start graph)
