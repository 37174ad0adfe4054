-- ===== src/Scheduler/Rounds/Passes.antt =====
-- core/scheduler.py: the two passes of a round of `run_dag` keep the invariant and make progress.
use celestia_devtools.Prelude.{
  ℕ, suc, ◌+◌, ◌≤◌, String, true, false, Option, List, [], ◌∷◌, str_eq, eq_iff, ◌≡◌, refl, arith,
  Elem, inl, inr, Option-cases, length, length-append,
}
use celestia_devtools.Scheduler.Names.{Step}
use celestia_devtools.Scheduler.Names.Laws.{
  Distinct, contains_of_Elem, Elem-discard, length-discard-lt,
}
use celestia_devtools.Scheduler.{
  skip, skip_dep, Run, ready, dispatch_one, dispatch, settle_one, settle,
}
use celestia_devtools.Scheduler.Settled.{AllSatisfied-of_ready, SomeBlocks-of_ready}
use celestia_devtools.Scheduler.Rounds.{Inv, Inv-skip, Inv-start, Inv-finish}

-- The steps that have no status yet.
abbrev pub load : Run → ℕ
load r = length r.remaining + length r.futures

module _ (runner : Step → Option String) (steps : List Step) where
  abbrev Good : Run → Type 0
  Good = Inv runner steps

  dispatch_one-Inv : (r : Run) (s : Step) → Good r → Elem s r.remaining → Good (dispatch_one r s)
  unfolding dispatch_one
  dispatch_one-Inv r s inv m = elim (Option-cases (ready r.statuses s.deps)) [
    | inl waits ↦ rw (waits, dispatch_one) inv
    | inr (false, stop) ↦
        rw (stop, dispatch_one)
          (Inv-skip runner steps r s skip_dep inv m
            (inl (SomeBlocks-of_ready r.statuses s.deps stop, refl)))
    | inr (true, go) ↦
        let ok = AllSatisfied-of_ready r.statuses s.deps go in
        elim (Option-cases s.cmd) [
          | inl empty ↦
              rw (go, empty, dispatch_one)
                (Inv-skip runner steps r s skip inv m (inr (ok, rw empty)))
          | inr (c, is) ↦ rw (go, is, dispatch_one) (Inv-start runner steps r s c inv m ok is)
        ]
  ]

  -- What another step of the pass does not touch.
  pub dispatch_one_keeps :
      (r : Run) (s t : Step)
      → Elem t r.remaining
      → str_eq t.name s.name ≡ false
      → Elem t (dispatch_one r s).remaining
  unfolding dispatch_one
  dispatch_one_keeps r s t m other = ground (arith, Elem-discard s.name t r.remaining m other)

  pub dispatch-Inv :
      (r : Run) (ss : List Step)
      → Good r
      → Distinct ss
      → ((s : Step) → Elem s ss → Elem s r.remaining)
      → Good (dispatch r ss)
  unfolding dispatch
  dispatch-Inv r [] inv d sub = inv
  dispatch-Inv r (s ∷ ss) inv d sub =
      dispatch-Inv (dispatch_one r s) ss (dispatch_one-Inv r s inv (sub s (inl refl))) d.1 (λ t m.
        dispatch_one_keeps r s t (sub t (inr m))
          (ground (arith, contains_of_Elem t ss m, eq_iff t.name s.name)))

  settle_one_keeps :
      (r : Run) (s t : Step)
      → Elem t r.futures
      → str_eq t.name s.name ≡ false
      → Elem t (settle_one runner r s).futures
  unfolding settle_one
  settle_one_keeps r s t m other = Elem-discard s.name t r.futures m other

  pub settle-Inv :
      (r : Run) (ss : List Step)
      → Good r
      → Distinct ss
      → ((s : Step) → Elem s ss → Elem s r.futures)
      → Good (settle runner r ss)
  unfolding settle
  settle-Inv r [] inv d sub = inv
  settle-Inv r (s ∷ ss) inv d sub =
      settle-Inv (settle_one runner r s) ss (Inv-finish runner steps r s inv (sub s (inl refl))) d.1
        (λ t m.
          settle_one_keeps r s t (sub t (inr m))
            (ground (arith, contains_of_Elem t ss m, eq_iff t.name s.name)))

  dispatch_one-load : (r : Run) (s : Step) → Elem s r.remaining → load (dispatch_one r s) ≤ load r
  unfolding dispatch_one
  dispatch_one-load r s m = ground (
    arith,
    length-discard-lt s.name r.remaining,
    contains_of_Elem s r.remaining m,
    length-append r.futures (s ∷ []),
  )

  -- The pass starts steps and skips steps; it makes no new work.
  pub dispatch-load :
      (r : Run) (ss : List Step)
      → Distinct ss
      → ((s : Step) → Elem s ss → Elem s r.remaining)
      → load (dispatch r ss) ≤ load r
  unfolding dispatch
  dispatch-load r [] d sub = omega arith
  dispatch-load r (s ∷ ss) d sub =
      let rest = dispatch-load (dispatch_one r s) ss d.1 (λ t m.
        dispatch_one_keeps r s t (sub t (inr m))
          (ground (arith, contains_of_Elem t ss m, eq_iff t.name s.name))) in
      omega (arith, rest, dispatch_one-load r s (sub s (inl refl)))

  settle_one-load :
      (r : Run) (s : Step) → Elem s r.futures → suc (load (settle_one runner r s)) ≤ load r
  unfolding settle_one
  settle_one-load r s m =
      omega (arith, length-discard-lt s.name r.futures (contains_of_Elem s r.futures m))

  -- Every future that is done is one step less.
  pub settle-load :
      (r : Run) (ss : List Step)
      → Distinct ss
      → ((s : Step) → Elem s ss → Elem s r.futures)
      → load (settle runner r ss) + length ss ≤ load r
  unfolding settle
  settle-load r [] d sub = omega arith
  settle-load r (s ∷ ss) d sub =
      let rest = settle-load (settle_one runner r s) ss d.1 (λ t m.
        settle_one_keeps r s t (sub t (inr m))
          (ground (arith, contains_of_Elem t ss m, eq_iff t.name s.name))) in
      omega (arith, rest, settle_one-load r s (sub s (inl refl)))
