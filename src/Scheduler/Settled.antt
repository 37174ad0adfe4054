-- ===== src/Scheduler/Settled.antt =====
-- core/scheduler.py: what a status says of the step that has it, and that it goes on to say it while
-- statuses are only added.
use celestia_devtools.Prelude.{
  String, true, false, Option, none, some, List, [], ◌∷◌, eq_iff, ◌≡◌, refl, arith, Elem, inl, inr,
  ◌⊎◌, Option-cases, Bool-cases,
}
use celestia_devtools.Dict.{Dict, lookup, insert, lookup-insert}
use celestia_devtools.Scheduler.Names.{Step}
use celestia_devtools.Scheduler.{Status, skip, skip_dep, blocks, ready, outcome}

-- Every dependency ended in a status that satisfies its dependents.
abbrev pub AllSatisfied : Dict Status → List String → Type 0
AllSatisfied st ds =
    (d : String) → Elem d ds → (v : Status) × (lookup d st ≡ some v) × (blocks v ≡ false)

-- Some dependency failed, or was skipped for a failure of its own.
abbrev pub SomeBlocks : Dict Status → List String → Type 0
SomeBlocks st ds =
    (d : String) × Elem d ds × (v : Status) × (lookup d st ≡ some v) × (blocks v ≡ true)

pub AllSatisfied-of_ready :
    (st : Dict Status) (ds : List String) → ready st ds ≡ some true → AllSatisfied st ds
unfolding ready
AllSatisfied-of_ready st [] h d m = elim m [ ]
AllSatisfied-of_ready st (e ∷ es) h d (inl p) = elim (Option-cases (lookup e st)) [
  | inl missing ↦ ground (arith, missing)
  | inr (v, is) ↦ (v, rw p is, ground (arith, is))
]
AllSatisfied-of_ready st (e ∷ es) h d (inr m) = AllSatisfied-of_ready st es (ground arith) d m

pub SomeBlocks-of_ready :
    (st : Dict Status) (ds : List String) → ready st ds ≡ some false → SomeBlocks st ds
unfolding ready
SomeBlocks-of_ready st [] h = cc
SomeBlocks-of_ready st (e ∷ es) h = elim (Option-cases (lookup e st)) [
  | inl missing ↦ ground (arith, missing)
  | inr (v, is) ↦ elim (Bool-cases (blocks v)) [
    | inl stops ↦ (e, inl refl, v, is, stops)
    | inr goes ↦
        let (d, m, w, at, stops) = SomeBlocks-of_ready st es (ground (arith, is, goes)) in
        (d, inr m, w, at, stops)
  ]
]

-- A step that has to wait has a dependency with no status yet.
pub missing_of_ready :
    (st : Dict Status) (ds : List String)
    → ready st ds ≡ none
    → (d : String) × Elem d ds × (lookup d st ≡ none)
unfolding ready
missing_of_ready st [] h = cc
missing_of_ready st (e ∷ es) h = elim (Option-cases (lookup e st)) [
  | inl missing ↦ (e, inl refl, missing)
  | inr (v, is) ↦ elim (Bool-cases (blocks v)) [
    | inl stops ↦ ground (arith, is, stops)
    | inr goes ↦
        let (d, m, at) = missing_of_ready st es (ground (arith, is, goes)) in (d, inr m, at)
  ]
]

-- `after` has every status that `before` has.
abbrev pub Grows : Dict Status → Dict Status → Type 0
Grows before after = (n : String) (v : Status) → lookup n before ≡ some v → lookup n after ≡ some v

pub Grows-insert :
    (n : String) (v : Status) (st : Dict Status) → lookup n st ≡ none → Grows st (insert n v st)
Grows-insert n v st free m w h = ground (arith, lookup-insert n m v st, eq_iff n m)

pub AllSatisfied-Grows :
    (before after : Dict Status) (ds : List String)
    → Grows before after
    → AllSatisfied before ds
    → AllSatisfied after ds
AllSatisfied-Grows before after ds g h d m = let (v, is, goes) = h d m in (v, g d v is, goes)

pub SomeBlocks-Grows :
    (before after : Dict Status) (ds : List String)
    → Grows before after
    → SomeBlocks before ds
    → SomeBlocks after ds
SomeBlocks-Grows before after ds g (d, m, v, is, stops) = (d, m, v, g d v is, stops)

module _ (runner : Step → Option String) where
  -- What a step that is started, or conditionally skipped, ends with.
  abbrev pub own : Step → Status
  own s = elim s.cmd [ none ↦ skip | some _ ↦ outcome (runner s) ]

  -- `v` is the status that the dependencies of `s` call for.
  abbrev pub Justified : Dict Status → Step → Status → Type 0
  Justified st s v =
      (SomeBlocks st s.deps × (v ≡ skip_dep)) ⊎ (AllSatisfied st s.deps × (v ≡ own s))

  abbrev pub Settled : Dict Status → Step → Type 0
  Settled st s = (v : Status) × (lookup s.name st ≡ some v) × Justified st s v

  pub Justified-Grows :
      (before after : Dict Status) (s : Step) (v : Status)
      → Grows before after
      → Justified before s v
      → Justified after s v
  Justified-Grows before after s v g (inl (b, e)) =
      inl (SomeBlocks-Grows before after s.deps g b, e)
  Justified-Grows before after s v g (inr (a, e)) =
      inr (AllSatisfied-Grows before after s.deps g a, e)

  pub Settled-Grows :
      (before after : Dict Status) (s : Step)
      → Grows before after
      → Settled before s
      → Settled after s
  Settled-Grows before after s g (v, is, j) =
      (v, g s.name v is, Justified-Grows before after s v g j)
