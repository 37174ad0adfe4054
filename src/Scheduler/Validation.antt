-- ===== src/Scheduler/Validation.antt =====
-- core/scheduler.py: what a graph that `validate_steps` accepts is like.
use celestia_devtools.Prelude.{
  ◌≤◌, String, true, false, List, [], ◌∷◌, ◌++◌, eq_iff, ◌≡◌, refl, sym, subst, ap, ◌∙◌, arith,
  Elem, inl, inr, Bool-cases, length, is_nil,
}
use mathlib.Core.List.{append-nil, append_assoc}
use celestia_devtools.Scheduler.Names.{Step, contains, names, name_in, dedup, put, put_all, by_name}
use celestia_devtools.Scheduler.Names.Laws.{Distinct, contains-append}
use celestia_devtools.Scheduler.{
  Problem, unknown_of, unknown_deps, duplicates, cycle_problems, validate_steps,
}

pub name_in-names : (n : String) (l : List Step) → name_in n (names l) ≡ contains n l
name_in-names n [] = refl
name_in-names n (s ∷ ss) = ground (arith, name_in-names n ss)

pub name_in-dedup : (n : String) (l : List String) → name_in n (dedup l) ≡ name_in n l
unfolding dedup
name_in-dedup n [] = refl
name_in-dedup n (m ∷ ms) = ground (arith, name_in-dedup n ms, name_in-dedup m ms, eq_iff m n)

length-dedup-le : (l : List String) → length (dedup l) ≤ length l
unfolding dedup
length-dedup-le [] = omega arith
length-dedup-le (m ∷ ms) = ground (arith, length-dedup-le ms)

-- `len(names) == len(set(names))` only where no name comes twice.
Distinct-of_length : (l : List Step) → length (names l) ≡ length (dedup (names l)) → Distinct l
unfolding dedup
Distinct-of_length [] h = tt
Distinct-of_length (s ∷ ss) h = elim (Bool-cases (name_in s.name (names ss))) [
  | inl twice ↦ ground (arith, length-dedup-le (names ss), name_in-dedup s.name (names ss), twice)
  | inr once ↦ (
    sym (name_in-names s.name ss) ∙ once,
    Distinct-of_length ss (ground (arith, name_in-dedup s.name (names ss), once)),
  )
]

put_new : (s : Step) (l : List Step) → contains s.name l ≡ false → put s l ≡ l ++ s ∷ []
put_new s [] h = refl
put_new s (t ∷ ts) h = ground (arith, put_new s ts)

contains_middle :
    (n : String) (acc l : List Step) (s : Step)
    → contains n acc ≡ false
    → contains n (s ∷ []) ≡ false
    → contains n (acc ++ s ∷ []) ≡ false
contains_middle n acc l s h k = ground (arith, contains-append n acc (s ∷ []))

-- Every step of the list is new to the dictionary that is built so far.
abbrev AllNew : List Step → List Step → Type 0
AllNew acc [] = Unit
AllNew acc (s ∷ ss) = (contains s.name acc ≡ false) × AllNew acc ss

AllNew-snoc :
    (acc : List Step) (s : Step) (ss : List Step)
    → AllNew acc ss
    → contains s.name ss ≡ false
    → AllNew (acc ++ s ∷ []) ss
AllNew-snoc acc s [] h k = tt
AllNew-snoc acc s (t ∷ ts) h k = (
  ground
      (arith, contains-append t.name acc (s ∷ []), eq_iff s.name t.name, eq_iff t.name s.name, h.0),
  AllNew-snoc acc s ts h.1 (ground arith),
)

AllNew-nil : (l : List Step) → AllNew [] l
AllNew-nil [] = tt
AllNew-nil (s ∷ ss) = (refl, AllNew-nil ss)

put_all_new : (acc l : List Step) → Distinct l → AllNew acc l → put_all acc l ≡ acc ++ l
put_all_new acc [] d h = sym (append-nil acc)
put_all_new acc (s ∷ ss) d h =
    ap (λ a. put_all a ss) (put_new s acc h.0)
    ∙ put_all_new (acc ++ s ∷ []) ss d.1 (AllNew-snoc acc s ss h.1 d.0)
    ∙ append_assoc acc (s ∷ []) ss

-- Where no two steps share a name, the dictionary holds the steps as they stand.
pub by_name_lem : (l : List Step) → Distinct l → by_name l ≡ l
unfolding by_name
by_name_lem l d = put_all_new [] l d (AllNew-nil l)

pub append-eq-nil {ℓ} : {A : Type ℓ} (xs ys : List A) → xs ++ ys ≡ [] → (xs ≡ []) × (ys ≡ [])
append-eq-nil [] ys h = (refl, h)
append-eq-nil (x ∷ xs) ys h = cc

pub nil_of_is_nil {ℓ} : {A : Type ℓ} (xs : List A) → is_nil xs ≡ true → xs ≡ []
nil_of_is_nil [] h = refl
nil_of_is_nil (x ∷ xs) h = cc

-- Every dependency names a step.
abbrev pub Known : List Step → Type 0
Known steps = (s : Step) (d : String) → Elem s steps → Elem d s.deps → contains d steps ≡ true

unknown_of_nil :
    (graph : List Step) (name : String) (ds : List String)
    → unknown_of graph name ds ≡ []
    → (d : String) → Elem d ds
    → contains d graph ≡ true
unfolding unknown_of
unknown_of_nil graph name [] h d m = elim m [ ]
unknown_of_nil graph name (e ∷ es) h d (inl p) = rw p (ground arith)
unknown_of_nil graph name (e ∷ es) h d (inr m) = unknown_of_nil graph name es (ground arith) d m

unknown_deps_nil :
    (graph ss : List Step)
    → unknown_deps graph ss ≡ []
    → (s : Step) (d : String) → Elem s ss
    → Elem d s.deps
    → contains d graph ≡ true
unfolding unknown_deps
unknown_deps_nil graph [] h s d m k = elim m [ ]
unknown_deps_nil graph (t ∷ ts) h s d m k =
    let (here, later) = append-eq-nil (unknown_of graph t.name t.deps) _ h in
    elim m [
      | inl e ↦ unknown_of_nil graph t.name t.deps here d (rw e at k)
      | inr m' ↦ unknown_deps_nil graph ts later s d m' k
    ]

pub record IsWellFormed (steps : List Step) : Type 0 where
  pub distinct : Distinct steps
  pub known : Known steps
  pub no_cycle : cycle_problems steps ≡ []

duplicates_nil : (steps : List Step) → duplicates steps ≡ [] → Distinct steps
unfolding duplicates
duplicates_nil steps h = Distinct-of_length steps (ground arith)

-- A graph with no problems has distinct names, knows its dependencies, and its search finds no cycle.
pub validate_steps-IsWellFormed :
    (steps : List Step) → validate_steps steps ≡ [] → IsWellFormed steps
unfolding validate_steps
validate_steps-IsWellFormed steps h = elim (Bool-cases (is_nil problems)) [
  | inl clean ↦
      let (no_dup, no_unknown) =
        append-eq-nil (duplicates steps) _ (nil_of_is_nil problems clean) in
      let d = duplicates_nil steps no_dup in
      let same = by_name_lem steps d in
      record {
        distinct = d;
        known = λ s d' m k.
            subst (λ g. contains d' g ≡ true) same
              (unknown_deps_nil (by_name steps) steps no_unknown s d' m k);
        no_cycle = subst (λ g. cycle_problems g ≡ []) same (rw clean at h);
      }
  | inr some_problem ↦ ground (arith, some_problem)
]
  where
    problems : List Problem
    problems = duplicates steps ++ unknown_deps (by_name steps) steps
