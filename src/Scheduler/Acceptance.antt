-- ===== src/Scheduler/Acceptance.antt =====
-- core/scheduler.py: `validate_steps` accepts exactly the graphs that can be scheduled.
use celestia_devtools.Prelude.{
  ℕ, ◌<◌, String, true, some, List, [], ◌∷◌, ◌++◌, str_eq, eq_iff, eq_refl, ◌≡◌, ◌↔◌, refl, sym,
  subst, ap, ◌∙◌, arith, Elem, inl, inr, Bool-cases, length,
}
use celestia_devtools.Scheduler.Names.{Step, name_in, names, contains, dedup}
use celestia_devtools.Scheduler.Names.Laws.{Distinct, contains_of_Elem}
use celestia_devtools.Scheduler.Cycle.{Outcome, found, finished, failed, step_of, find_cycle}
use celestia_devtools.Scheduler.Cycle.Chain.{Edge, Chain}
use celestia_devtools.Scheduler.Cycle.Acyclic.{Verdict, find_cycle-Verdict}
use celestia_devtools.Scheduler.{
  unknown_of, unknown_deps, duplicates, cycle_problems, validate_steps,
}
use celestia_devtools.Scheduler.Validation.{
  name_in-names, name_in-dedup, by_name_lem, Known, IsWellFormed, validate_steps-IsWellFormed,
}

-- Distinct names, known dependencies, and a rank that falls along each dependency.
pub record IsAcyclic (steps : List Step) : Type 0 where
  pub distinct : Distinct steps
  pub known : Known steps
  pub rank : String → ℕ
  pub falls : (s : Step) (d : String) → Elem s steps → Elem d s.deps → rank d < rank s.name

Elem-of_step :
    (n : String) (l : List Step) (s : Step) → step_of n l ≡ some s → Elem s l × (s.name ≡ n)
unfolding step_of
Elem-of_step n [] s h = cc
Elem-of_step n (t ∷ ts) s h = elim (Bool-cases (str_eq t.name n)) [
  | inl here ↦
      let same : t ≡ s = ground (arith, here, h) in
      (inl (sym same), ap (λ (u : Step). u.name) (sym same) ∙ (eq_iff t.name n).0 here)
  | inr other ↦ let (m, e) = Elem-of_step n ts s (ground (arith, other)) in (inr m, e)
]

step_of-Elem : (l : List Step) (s : Step) → Distinct l → Elem s l → step_of s.name l ≡ some s
unfolding step_of
step_of-Elem [] s d m = elim m [ ]
step_of-Elem (t ∷ ts) s d (inl e) = rw e (rw eq_refl)
step_of-Elem (t ∷ ts) s d (inr m) =
    ground (arith, step_of-Elem ts s d.1 m, contains_of_Elem s ts m, eq_iff t.name s.name)

module _ (steps : List Step) where
  pub known_edges : Known steps → (n d : String) → Edge steps n d → name_in d (names steps) ≡ true
  known_edges known n d (s, at, m) =
      name_in-names d steps ∙ known s d (Elem-of_step n steps s at).0 m

  IsAcyclic-of_Verdict :
      (ok : IsWellFormed steps) (o : Outcome)
      → find_cycle steps ≡ o
      → Verdict steps (known_edges ok.known) o
      → IsAcyclic steps
  unfolding cycle_problems
  IsAcyclic-of_Verdict ok (found c) e v = ground (arith, ok.no_cycle, e)
  IsAcyclic-of_Verdict ok (finished t) e v = record {
    distinct = ok.distinct;
    known = ok.known;
    rank = v.0;
    falls = λ s d m k.
        v.1 s.name d (name_in-names s.name steps ∙ contains_of_Elem s steps m)
          (s, step_of-Elem steps s ok.distinct m, k);
  }
  IsAcyclic-of_Verdict ok failed e v = absurd v

  pub IsAcyclic-of_valid : validate_steps steps ≡ [] → IsAcyclic steps
  IsAcyclic-of_valid valid =
      let ok = validate_steps-IsWellFormed steps valid in
      IsAcyclic-of_Verdict ok (find_cycle steps) refl
        (find_cycle-Verdict steps (known_edges ok.known))

  -- Along a chain the rank falls.
  rank_falls :
      (rank : String → ℕ)
      → ((n d : String) → Edge steps n d → rank d < rank n)
      → (a b : String) (l : List String) → Chain steps (a ∷ l ++ b ∷ [])
      → rank b < rank a
  rank_falls rank falls a b [] h = falls a b h.0
  rank_falls rank falls a b (x ∷ l) h =
      omega (arith, falls a x h.0, rank_falls rank falls x b l h.1)

  Edge-falls : (ok : IsAcyclic steps) (n d : String) → Edge steps n d → ok.rank d < ok.rank n
  Edge-falls ok n d (s, at, m) =
      let (s_in, named) = Elem-of_step n steps s at in rw named at (ok.falls s d s_in m)

  no_cycle_of_Verdict :
      (ok : IsAcyclic steps) (o : Outcome)
      → find_cycle steps ≡ o
      → Verdict steps (known_edges ok.known) o
      → cycle_problems steps ≡ []
  unfolding cycle_problems
  no_cycle_of_Verdict ok (found c) e (d, l, shape, chain) =
      absurd
        (omega (arith, rank_falls ok.rank (Edge-falls ok) d d l (subst (Chain steps) shape chain)))
  no_cycle_of_Verdict ok (finished t) e v = rw (e, cycle_problems)
  no_cycle_of_Verdict ok failed e v = absurd v

length-dedup_of_Distinct :
    (l : List Step) → Distinct l → length (names l) ≡ length (dedup (names l))
unfolding dedup
length-dedup_of_Distinct [] d = refl
length-dedup_of_Distinct (s ∷ ss) d = ground (
  arith,
  length-dedup_of_Distinct ss d.1,
  name_in-dedup s.name (names ss),
  name_in-names s.name ss,
)

unknown_of_known :
    (graph : List Step) (name : String) (ds : List String)
    → ((d : String) → Elem d ds → contains d graph ≡ true)
    → unknown_of graph name ds ≡ []
unfolding unknown_of
unknown_of_known graph name [] h = refl
unknown_of_known graph name (d ∷ ds) h =
    rw (h d (inl refl)) (unknown_of_known graph name ds (λ e m. h e (inr m)))

unknown_deps_known :
    (graph ss : List Step)
    → ((s : Step) (d : String) → Elem s ss → Elem d s.deps → contains d graph ≡ true)
    → unknown_deps graph ss ≡ []
unfolding unknown_deps
unknown_deps_known graph [] h = refl
unknown_deps_known graph (s ∷ ss) h =
    rw (unknown_of_known graph s.name s.deps (λ d m. h s d (inl refl) m))
      (unknown_deps_known graph ss (λ t d m k. h t d (inr m) k))

valid_of_acyclic : (steps : List Step) → IsAcyclic steps → validate_steps steps ≡ []
unfolding validate_steps duplicates
valid_of_acyclic steps ok =
    let same = by_name_lem steps ok.distinct in
    let no_dup : duplicates steps ≡ [] =
      ground (arith, length-dedup_of_Distinct steps ok.distinct) in
    let no_unknown = unknown_deps_known steps steps ok.known in
    let no_cycle =
      no_cycle_of_Verdict steps ok (find_cycle steps) refl
        (find_cycle-Verdict steps (known_edges steps ok.known)) in
    rw same (cc (no_dup, no_unknown, no_cycle))

-- `validate_steps` reports nothing exactly where the names are distinct, each dependency names a
-- step, and the dependencies have a rank, so that no chain of them returns to its start.
pub validate_steps_iff : (steps : List Step) → (validate_steps steps ≡ []) ↔ IsAcyclic steps
validate_steps_iff steps = (IsAcyclic-of_valid steps, valid_of_acyclic steps)
