-- ===== src/Scheduler/Cycle/Chain.antt =====
-- core/scheduler.py: paths through the step graph, the states of the search, and what it keeps.
use celestia_devtools.Prelude.{
  ℕ, suc, ◌≤◌, ◌<◌, String, Bool, true, false, Option, some, List, [], ◌∷◌, ◌++◌, str_eq, eq_iff,
  ◌≡◌, refl, ap, ◌∙◌, arith, Elem, inl, inr, if◌then◌else◌, Bool-cases, ◌||◌,
}
use celestia_devtools.Dict.{Dict, lookup, insert, lookup-insert}
use celestia_devtools.Scheduler.Names.{Step, name_in, names}
use celestia_devtools.Scheduler.Cycle.{
  Color, white, gray, black, Search, step_of, from_name, drop_last,
}

pub drop_last_snoc : (p : List String) (a : String) → drop_last (p ++ a ∷ []) ≡ p
drop_last_snoc [] a = refl
drop_last_snoc (x ∷ []) a = refl
drop_last_snoc (x ∷ y ∷ p) a = ap (λ l. x ∷ l) (drop_last_snoc (y ∷ p) a)

pub name_in-snoc :
    (n a : String) (p : List String) → name_in n (p ++ a ∷ []) ≡ (name_in n p || str_eq a n)
name_in-snoc n a [] = ground arith
name_in-snoc n a (x ∷ p) = ground (arith, name_in-snoc n a p)

-- From a name that stands in the path on, the path begins with it and ends as before.
pub from_name_head :
    (d : String) (p : List String)
    → name_in d p ≡ true
    → (rest : List String) × (from_name d p ≡ d ∷ rest)
from_name_head d [] h = cc
from_name_head d (x ∷ p) h = elim (Bool-cases (str_eq x d)) [
  | inl here ↦ (p, rw here (ap (λ n. n ∷ p) ((eq_iff x d).0 here)))
  | inr other ↦ let (rest, e) = from_name_head d p (ground (arith, other)) in (rest, rw other e)
]

pub from_name_last :
    (d a : String) (p : List String)
    → name_in d (p ++ a ∷ []) ≡ true
    → (q : List String) × (from_name d (p ++ a ∷ []) ≡ q ++ a ∷ [])
from_name_last d a [] h = ([], ground arith)
from_name_last d a (x ∷ p) h = elim (Bool-cases (str_eq x d)) [
  | inl here ↦ (x ∷ p, rw here)
  | inr other ↦ let (q, e) = from_name_last d a p (ground (arith, other)) in (q, rw other e)
]

module _ (graph : List Step) where
  -- `b` is a dependency of the step named `a`.
  abbrev pub Edge : String → String → Type 0
  Edge a b = (s : Step) × (step_of a graph ≡ some s) × Elem b s.deps

  abbrev pub Chain : List String → Type 0
  Chain [] = Unit
  Chain (a ∷ []) = Unit
  Chain (a ∷ b ∷ l) = Edge a b × Chain (b ∷ l)

  -- A chain of dependencies from a step back to itself.
  abbrev pub IsCycle : List String → Type 0
  IsCycle c = (d : String) × (l : List String) × (c ≡ d ∷ l ++ d ∷ []) × Chain c

  pub Chain-tail : (a : String) (l : List String) → Chain (a ∷ l) → Chain l
  Chain-tail a [] h = tt
  Chain-tail a (b ∷ l) h = h.1

  pub Chain-from_name : (d : String) (p : List String) → Chain p → Chain (from_name d p)
  Chain-from_name d [] h = tt
  Chain-from_name d (x ∷ p) h = elim (Bool-cases (str_eq x d)) [
    | inl here ↦ rw here h
    | inr other ↦ rw other (Chain-from_name d p (Chain-tail x p h))
  ]

  pub Chain-snoc :
      (p : List String) (a b : String)
      → Chain (p ++ a ∷ [])
      → Edge a b
      → Chain ((p ++ a ∷ []) ++ b ∷ [])
  Chain-snoc [] a b h e = (e, tt)
  Chain-snoc (x ∷ []) a b h e = (h.0, (e, tt))
  Chain-snoc (x ∷ y ∷ p) a b h e = (h.0, Chain-snoc (y ∷ p) a b h.1 e)

  -- The dependencies of a finished step are finished, and were so before it.
  pub record Ranked (c : Dict Color) (rank : String → ℕ) (bound : ℕ) : Type 0 where
    pub below : (n : String) → lookup n c ≡ some black → rank n < bound
    pub black_deps :
        (n d : String)
        → lookup n c ≡ some black
        → Edge n d
        → (lookup d c ≡ some black) × (rank d < rank n)

  -- The steps in progress are the path, which follows dependencies.
  pub record Good (s : Search) : Type 0 where
    pub rank : String → ℕ
    pub bound : ℕ
    pub ranked : Ranked s.color rank bound
    pub gray_path : (n : String) → lookup n s.color ≡ some gray → name_in n s.path ≡ true
    pub chain : Chain s.path
    pub has_color : (n d : String) → Edge n d → (c : Color) × (lookup d s.color ≡ some c)
    pub colored :
        (n : String) → name_in n (names graph) ≡ true → (c : Color) × (lookup n s.color ≡ some c)
    pub has_step :
        (n : String) (c : Color)
        → lookup n s.color ≡ some c
        → (t : Step) × (step_of n graph ≡ some t)

  -- What finished work leaves as it was.
  pub record Extends (s t : Search) : Type 0 where
    pub same_path : t.path ≡ s.path
    pub grays : (n : String) → lookup n s.color ≡ some gray → lookup n t.color ≡ some gray
    pub no_new_gray : (n : String) → lookup n t.color ≡ some gray → lookup n s.color ≡ some gray
    pub blacks : (n : String) → lookup n s.color ≡ some black → lookup n t.color ≡ some black
    pub no_new_white : (n : String) → lookup n t.color ≡ some white → lookup n s.color ≡ some white

  pub Extends-refl : (s : Search) → Extends s s
  Extends-refl s = record {
    same_path = refl;
    grays = λ n h. h;
    no_new_gray = λ n h. h;
    blacks = λ n h. h;
    no_new_white = λ n h. h;
  }

  pub Extends-trans : (s t u : Search) → Extends s t → Extends t u → Extends s u
  Extends-trans s t u f g = record {
    same_path = g.same_path ∙ f.same_path;
    grays = λ n h. g.grays n (f.grays n h);
    no_new_gray = λ n h. f.no_new_gray n (g.no_new_gray n h);
    blacks = λ n h. g.blacks n (f.blacks n h);
    no_new_white = λ n h. f.no_new_white n (g.no_new_white n h);
  }

-- How many of the names are white.
abbrev pub is_white : Option Color → Bool
is_white (some white) = true
is_white _ = false

abbrev pub whites : Dict Color → List String → ℕ
whites c [] = 0
whites c (n ∷ ns) = let rest = whites c ns in if is_white (lookup n c) then suc rest else rest

pub whites_mono :
    (c d : Dict Color) (ns : List String)
    → ((n : String) → lookup n d ≡ some white → lookup n c ≡ some white)
    → whites d ns ≤ whites c ns
whites_mono c d [] h = omega arith
whites_mono c d (n ∷ ns) h = ground (arith, whites_mono c d ns h, h n)

white_of_gray :
    (c : Dict Color) (node m : String)
    → lookup m (insert node gray c) ≡ some white
    → lookup m c ≡ some white
white_of_gray c node m e = ground (arith, lookup-insert node m gray c)

-- A white name that turns gray is one less.
pub whites_drop :
    (c : Dict Color) (node : String) (ns : List String)
    → lookup node c ≡ some white
    → name_in node ns ≡ true
    → suc (whites (insert node gray c) ns) ≤ whites c ns
whites_drop c node [] w h = cc
whites_drop c node (n ∷ ns) w h = ground (
  arith,
  lookup-insert node n gray c,
  eq_iff node n,
  eq_iff n node,
  whites_drop c node ns w,
  whites_mono c (insert node gray c) ns (white_of_gray c node),
)
