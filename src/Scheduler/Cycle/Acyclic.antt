-- ===== src/Scheduler/Cycle/Acyclic.antt =====
-- core/scheduler.py: the verdict of `_find_cycle`, from the invariant of its visits.
use celestia_devtools.Prelude.{
  ℕ, ◌≤◌, ◌<◌, String, true, some, List, [], ◌∷◌, str_eq, eq_iff, ◌≡◌, refl, sym, arith, Elem, inl,
  inr, Bool-cases, length,
}
use celestia_devtools.Dict.{Dict, lookup}
use celestia_devtools.Scheduler.Names.{Step, name_in, names}
use celestia_devtools.Scheduler.Cycle.{
  Color, white, gray, black, Outcome, found, finished, failed, step_of, dfs, all_white, start,
  find_cycle,
}
use celestia_devtools.Scheduler.Cycle.Chain.{Edge, IsCycle, Good, whites}
use celestia_devtools.Scheduler.Cycle.Complete.{Post}
use celestia_devtools.Scheduler.Cycle.Visits.{dfs-Visits, search_all-Post}

lookup-all_white :
    (n : String) (l : List Step) → name_in n (names l) ≡ true → lookup n (all_white l) ≡ some white
unfolding lookup
lookup-all_white n [] h = cc
lookup-all_white n (s ∷ ss) h = ground (arith, lookup-all_white n ss)

only_white : (n : String) (l : List Step) (c : Color) → lookup n (all_white l) ≡ some c → c ≡ white
unfolding lookup
only_white n [] c h = cc
only_white n (s ∷ ss) c h = ground (arith, only_white n ss c)

step_of_white :
    (n : String) (l : List Step) (c : Color)
    → lookup n (all_white l) ≡ some c
    → (s : Step) × (step_of n l ≡ some s)
unfolding lookup step_of
step_of_white n [] c h = cc
step_of_white n (s ∷ ss) c h = elim (Bool-cases (str_eq s.name n)) [
  | inl here ↦ (s, rw here)
  | inr other ↦ let (t, at) = step_of_white n ss c (ground (arith, other)) in (t, rw other at)
]

name_in_of_Elem : (n : String) (l : List String) → Elem n l → name_in n l ≡ true
name_in_of_Elem n [] m = elim m [ ]
name_in_of_Elem n (x ∷ xs) m = ground (arith, name_in_of_Elem n xs, eq_iff x n)

Elem-of_name_in : (n : String) (l : List String) → name_in n l ≡ true → Elem n l
Elem-of_name_in n [] h = cc
Elem-of_name_in n (x ∷ xs) h = elim (Bool-cases (str_eq x n)) [
  | inl here ↦ inl (sym ((eq_iff x n).0 here))
  | inr other ↦ inr (Elem-of_name_in n xs (ground (arith, other)))
]

left-le : (c : Dict Color) (l : List Step) → whites c (names l) ≤ length l
left-le c [] = omega arith
left-le c (s ∷ ss) = ground (arith, left-le c ss)

module _ (graph : List Step)
    (known : (n d : String) → Edge graph n d → name_in d (names graph) ≡ true) where
  start-Good : Good graph (start graph)
  start-Good = record {
    rank = λ n. 0;
    bound = 0;
    ranked = record {
      below = λ n h. cc (only_white n graph black h);
      black_deps = λ n d h e. cc (only_white n graph black h);
    };
    gray_path = λ n h. cc (only_white n graph gray h);
    chain = tt;
    has_color = λ n d e. (white, lookup-all_white d graph (known n d e));
    colored = λ n m. (white, lookup-all_white n graph m);
    has_step = λ n c h. step_of_white n graph c h;
  }

  -- What the search's answer says of the graph: a real cycle, or a rank along the dependencies.
  abbrev pub Verdict : Outcome → Type 0
  Verdict (found c) = IsCycle graph c
  Verdict (finished t) =
      (rank : String → ℕ) × ((n d : String)
        → name_in n (names graph) ≡ true
        → Edge graph n d
        → rank d < rank n)
  Verdict failed = ⊥

  verdict_of_Post : (o : Outcome) → Post graph (names graph) (start graph) o → Verdict o
  verdict_of_Post (found c) h = h
  verdict_of_Post (finished t) h = (
    h.1.rank,
    λ n d m e. (h.1.ranked.black_deps n d (h.2 n (Elem-of_name_in n (names graph) m)) e).1,
  )
  verdict_of_Post failed h = h

  -- The search ends with its fuel and meets no unknown name; a path that it returns is a cycle of
  -- dependencies, and where it returns none a rank falls along every dependency.
  pub find_cycle-Verdict : Verdict (find_cycle graph)
  unfolding find_cycle
  find_cycle-Verdict = verdict_of_Post _ (
      search_all-Post graph (dfs graph (length graph)) (length graph)
        (dfs-Visits graph (length graph)) (names graph) (start graph) start-Good refl
        (λ n m. name_in_of_Elem n (names graph) m) (left-le (all_white graph) graph))
