-- ===== src/Scheduler/Outcomes/Waits.antt =====
-- core/scheduler.py: what a dispatch pass leaves behind waits on a step with no status.
use celestia_devtools.Prelude.{
  String, true, false, none, some, List, [], ◌∷◌, str_eq, eq_iff, eq_refl, ◌≡◌, refl, arith, Elem,
  inl, inr, ◌⊎◌, Option-cases, Bool-cases,
}
use celestia_devtools.Dict.{Dict, lookup, insert, lookup-insert}
use celestia_devtools.Scheduler.Names.{Step, Command, contains}
use celestia_devtools.Scheduler.Names.Laws.{Elem-of_discard, contains-discard}
use celestia_devtools.Scheduler.{Status, skip_dep, Run, dispatch_one, dispatch, ready}
use celestia_devtools.Scheduler.Settled.{missing_of_ready}

-- No step is conditionally skipped: each has a command.
abbrev pub AllRun : List Step → Type 0
AllRun steps = (s : Step) → Elem s steps → (c : Command) × (s.cmd ≡ some c)

-- A step that the pass leaves behind had a dependency with no status when the pass began.
abbrev pub WaitsOn : Dict Status → Step → Type 0
WaitsOn st s = (d : String) × Elem d s.deps × (lookup d st ≡ none)

dispatch_one_shrinks :
    (r : Run) (s : Step) (n : String)
    → contains n r.remaining ≡ false
    → contains n (dispatch_one r s).remaining ≡ false
unfolding dispatch_one
dispatch_one_shrinks r s n h = ground (arith, contains-discard n s.name r.remaining)

dispatch_shrinks :
    (r : Run) (ss : List Step) (n : String)
    → contains n r.remaining ≡ false
    → contains n (dispatch r ss).remaining ≡ false
unfolding dispatch
dispatch_shrinks r [] n h = h
dispatch_shrinks r (s ∷ ss) n h =
    dispatch_shrinks (dispatch_one r s) ss n (dispatch_one_shrinks r s n h)

-- Its own turn takes a step out, unless the step has to wait.
dispatch_one_waits :
    (r : Run) (s : Step)
    → contains s.name (dispatch_one r s).remaining ≡ true
    → WaitsOn r.statuses s
unfolding dispatch_one
dispatch_one_waits r s h = elim (Option-cases (ready r.statuses s.deps)) [
  | inl waits ↦ missing_of_ready r.statuses s.deps waits
  | inr (go, is) ↦ ground (arith, is, contains-discard s.name s.name r.remaining, eq_refl s.name)
]

dispatch_one-none :
    (r : Run) (s : Step) (n : String)
    → lookup n (dispatch_one r s).statuses ≡ none
    → lookup n r.statuses ≡ none
unfolding dispatch_one
dispatch_one-none r s n h = ground (
  arith,
  lookup-insert s.name n skip_dep r.statuses,
  lookup-insert s.name n Status.skip r.statuses,
)

pub dispatch-WaitsOn :
    (r : Run) (ss : List Step) (s : Step)
    → Elem s ss
    → contains s.name (dispatch r ss).remaining ≡ true
    → WaitsOn r.statuses s
unfolding dispatch
dispatch-WaitsOn r [] s m h = elim m [ ]
dispatch-WaitsOn r (t ∷ ts) s (inl e) h =
    elim (Bool-cases (contains s.name (dispatch_one r t).remaining)) [
      | inl stays ↦ rw e (dispatch_one_waits r t (rw e at stays))
      | inr gone ↦ ground (arith, dispatch_shrinks (dispatch_one r t) ts s.name gone)
    ]
dispatch-WaitsOn r (t ∷ ts) s (inr m) h =
    let (d, k, missing) = dispatch-WaitsOn (dispatch_one r t) ts s m h in
    (d, k, dispatch_one-none r t d missing)

-- A step of the list has the name and no command.
abbrev pub IsConditional : List Step → String → Type 0
IsConditional steps n = (t : Step) × Elem t steps × (t.name ≡ n) × (t.cmd ≡ none)

-- What a pass adds is `SKIP_DEP`, or the `SKIP` of a step with no command.
abbrev Added : Dict Status → List Step → String → Status → Type 0
Added st steps n v =
    (lookup n st ≡ some v) ⊎ ((v ≡ skip_dep) ⊎ ((v ≡ Status.skip) × IsConditional steps n))

Added-of_insert :
    (st : Dict Status) (s : Step) (n : String) (v : Status)
    → s.cmd ≡ none
    → lookup n (insert s.name Status.skip st) ≡ some v
    → Added st (s ∷ []) n v
Added-of_insert st s n v is h = elim (Bool-cases (str_eq s.name n)) [
  | inl same ↦ inr (
      inr (
        ground (arith, lookup-insert s.name n Status.skip st),
        (s, inl refl, (eq_iff s.name n).0 same, is),
      ))
  | inr apart ↦ inl (ground (arith, lookup-insert s.name n Status.skip st))
]

dispatch_one-Added :
    (r : Run) (s : Step) (n : String) (v : Status)
    → lookup n (dispatch_one r s).statuses ≡ some v
    → Added r.statuses (s ∷ []) n v
unfolding dispatch_one
dispatch_one-Added r s n v h = elim (Option-cases (ready r.statuses s.deps)) [
  | inl waits ↦ inl (ground (arith, waits))
  | inr (false, is) ↦ elim (Bool-cases (str_eq s.name n)) [
    | inl same ↦ inr (inl (ground (arith, is, lookup-insert s.name n skip_dep r.statuses)))
    | inr apart ↦ inl (ground (arith, is, lookup-insert s.name n skip_dep r.statuses))
  ]
  | inr (true, is) ↦ elim (Option-cases s.cmd) [
    | inl no_cmd ↦ Added-of_insert r.statuses s n v no_cmd (ground (arith, is, no_cmd))
    | inr (c, cmd) ↦ inl (ground (arith, is, cmd))
  ]
]

pub dispatch-Added :
    (r : Run) (ss : List Step) (n : String) (v : Status)
    → lookup n (dispatch r ss).statuses ≡ some v
    → Added r.statuses ss n v
unfolding dispatch
dispatch-Added r [] n v h = inl h
dispatch-Added r (s ∷ ss) n v h = elim (dispatch-Added (dispatch_one r s) ss n v h) [
  | inl before ↦ elim (dispatch_one-Added r s n v before) [
    | inl old ↦ inl old
    | inr (inl new) ↦ inr (inl new)
    | inr (inr (is, (t, inl e, named, no_cmd))) ↦ inr (inr (is, (t, inl e, named, no_cmd)))
    | inr (inr (is, (t, inr absent, named, no_cmd))) ↦ absurd absent
  ]
  | inr (inl new) ↦ inr (inl new)
  | inr (inr (is, (t, m, named, no_cmd))) ↦ inr (inr (is, (t, inr m, named, no_cmd)))
]

Elem-of_dispatch_one :
    (r : Run) (s t : Step) → Elem t (dispatch_one r s).remaining → Elem t r.remaining
unfolding dispatch_one
Elem-of_dispatch_one r s t m = ground (arith, Elem-of_discard s.name t r.remaining)

pub Elem-of_dispatch :
    (r : Run) (ss : List Step) (t : Step) → Elem t (dispatch r ss).remaining → Elem t r.remaining
unfolding dispatch
Elem-of_dispatch r [] t m = m
Elem-of_dispatch r (s ∷ ss) t m =
    Elem-of_dispatch_one r s t (Elem-of_dispatch (dispatch_one r s) ss t m)

-- A known name is the name of a step.
pub Elem-of_contains :
    (n : String) (l : List Step) → contains n l ≡ true → (s : Step) × Elem s l × (s.name ≡ n)
Elem-of_contains n [] h = cc
Elem-of_contains n (s ∷ ss) h = elim (Bool-cases (str_eq s.name n)) [
  | inl here ↦ (s, inl refl, (eq_iff s.name n).0 here)
  | inr other ↦ let (t, m, e) = Elem-of_contains n ss (ground (arith, other)) in (t, inr m, e)
]
