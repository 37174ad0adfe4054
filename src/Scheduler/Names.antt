-- ===== src/Scheduler/Names.antt =====
-- core/scheduler.py: steps, the dictionary `by_name` as the list of its values, and lists of names.
pub mod Laws
use celestia_devtools.Prelude.{
  ℕ, suc, String, Bool, false, Option, List, [], ◌∷◌, map, str_eq, str_compare, is_le,
  if◌then◌else◌, ◌||◌,
}

-- What calling an in-process check gives.
pub data Value : Type 0 where
  bool : Bool → Value
  text : String → Value
  other : Value

-- `step_command`: an argument list for a subprocess, or an in-process callable, which stands for
-- the outcome of its one call (`none`: it raises).
pub data Command : Type 0 where
  argv : List String → Command
  check : Option Value → Command

pub record Step : Type 0 where
  pub name : String
  pub cmd : Option Command
  pub deps : List String
  pub cwd : Option String

abbrev pub names : List Step → List String
names steps = map (λ s. s.name) steps

-- `name in by_name`
abbrev pub contains : String → List Step → Bool
contains n [] = false
contains n (s ∷ ss) = str_eq s.name n || contains n ss

-- `remaining.discard(name)`, `futures.pop(future)`
abbrev pub discard : String → List Step → List Step
discard n [] = []
discard n (s ∷ ss) = let rest = discard n ss in if str_eq s.name n then rest else s ∷ rest

-- `{s.name: s for s in steps}`: a later step with a name that is there takes its place.
abbrev pub put : Step → List Step → List Step
put s [] = s ∷ []
put s (t ∷ ts) = if str_eq t.name s.name then s ∷ ts else t ∷ put s ts

abbrev pub put_all : List Step → List Step → List Step
put_all acc [] = acc
put_all acc (s ∷ ss) = put_all (put s acc) ss

unfoldable pub by_name : List Step → List Step
by_name steps = put_all [] steps

-- `sorted(remaining)`: the steps in the order of their names.
abbrev pub str_le : String → String → Bool
str_le s t = is_le (str_compare s t)

abbrev pub insert_step : Step → List Step → List Step
insert_step s [] = s ∷ []
insert_step s (t ∷ ts) = if str_le s.name t.name then s ∷ t ∷ ts else t ∷ insert_step s ts

unfoldable pub sort_steps : List Step → List Step
sort_steps [] = []
sort_steps (s ∷ ss) = insert_step s (sort_steps ss)

-- `names.count(n)`, and the names that occur more than once, each once and sorted.
abbrev pub count : String → List String → ℕ
count n [] = 0
count n (m ∷ ms) = let rest = count n ms in if str_eq m n then suc rest else rest

abbrev pub name_in : String → List String → Bool
name_in n [] = false
name_in n (m ∷ ms) = str_eq m n || name_in n ms

-- `set(names)`
unfoldable pub dedup : List String → List String
dedup [] = []
dedup (n ∷ ns) = let rest = dedup ns in if name_in n rest then rest else n ∷ rest

abbrev insert_name : String → List String → List String
insert_name n [] = n ∷ []
insert_name n (m ∷ ms) = if str_le n m then n ∷ m ∷ ms else m ∷ insert_name n ms

unfoldable pub sort_names : List String → List String
sort_names [] = []
sort_names (n ∷ ns) = insert_name n (sort_names ns)
