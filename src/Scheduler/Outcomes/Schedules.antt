-- ===== src/Scheduler/Outcomes/Schedules.antt =====
-- core/scheduler.py: the statuses of `run_dag` do not depend on the order in which futures finish.
use celestia_devtools.Prelude.{
  ℕ, zero, suc, ◌<◌, String, Option, List, [], ◌≡◌, sym, arith, Elem, inl, inr, subst,
}
use celestia_devtools.Dict.{Dict, lookup}
use celestia_devtools.Scheduler.Names.{Step}
use celestia_devtools.Scheduler.{Pool, Status, run_dag, DagResult, validate_steps}
use celestia_devtools.Scheduler.Settled.{Settled, AllSatisfied, SomeBlocks}
use celestia_devtools.Scheduler.Results.{IsWait}
use celestia_devtools.Scheduler.Acceptance.{IsAcyclic, IsAcyclic-of_valid}
use celestia_devtools.Scheduler.Outcomes.Fixpoint.{run_dag-Settled}
use celestia_devtools.Scheduler.Outcomes.Waits.{AllRun, Elem-of_contains}

module _ (runner : Step → Option String) (steps : List Step) (ok : IsAcyclic steps) where
  abbrev Solves : Dict Status → Type 0
  Solves st = (s : Step) → Elem s steps → Settled runner st s

  clash :
      (a b : Dict Status) (ds : List String)
      → ((d : String) → Elem d ds → lookup d a ≡ lookup d b)
      → SomeBlocks a ds
      → AllSatisfied b ds
      → ⊥
  clash a b ds same (d, m, v, is, stops) all =
      let (w, at, goes) = all d m in ground (arith, same d m, is, at, stops, goes)

  solutions_agree :
      (a b : Dict Status)
      → Solves a
      → Solves b
      → (n : ℕ) (s : Step) → Elem s steps
      → ok.rank s.name < n
      → lookup s.name a ≡ lookup s.name b
  solutions_agree a b sa sb zero s m h = absurd (omega arith)
  solutions_agree a b sa sb (suc n) s m h = agree (sa s m) (sb s m) (λ d k.
      let (t, t_in, named) = Elem-of_contains d steps (ok.known s d m k) in
      subst (λ x. lookup x a ≡ lookup x b) named
        (solutions_agree a b sa sb n t t_in
          (subst (λ x. ok.rank x < n) (sym named) (omega (arith, ok.falls s d m k)))))
    where
      agree :
          Settled runner a s
          → Settled runner b s
          → ((d : String) → Elem d s.deps → lookup d a ≡ lookup d b)
          → lookup s.name a ≡ lookup s.name b
      agree (v, is, inl (p, e)) (w, at, inl (q, f)) same = cc
      agree (v, is, inl (p, e)) (w, at, inr (q, f)) same = absurd (clash a b s.deps same p q)
      agree (v, is, inr (p, e)) (w, at, inl (q, f)) same =
          absurd (clash b a s.deps (λ d k. sym (same d k)) q p)
      agree (v, is, inr (p, e)) (w, at, inr (q, f)) same = cc

-- Two runs of one accepted graph in which every step has a command give each step the same status,
-- whatever their worker caps and whatever futures their waits find done.
pub run_dag_deterministic :
    (runner : Step → Option String) (steps : List Step) (first second : Pool) (few many : ℕ)
    → 0 < few
    → 0 < many
    → validate_steps steps ≡ []
    → AllRun steps
    → IsWait first
    → IsWait second
    → (a b : Dict Status) → run_dag runner first steps few ≡ DagResult.statuses a
    → run_dag runner second steps many ≡ DagResult.statuses b
    → (s : Step) → Elem s steps
    → lookup s.name a ≡ lookup s.name b
run_dag_deterministic runner steps first second few many pf pm valid all wf ws a b ra rb s m =
    let (a', ra', sa) = run_dag-Settled runner steps first few pf valid all wf in
    let (b', rb', sb) = run_dag-Settled runner steps second many pm valid all ws in
    let ok = IsAcyclic-of_valid steps valid in
    let ea : a' ≡ a = cc in
    let eb : b' ≡ b = cc in
    solutions_agree runner steps ok a b
      (subst (λ st. (s : Step) → Elem s steps → Settled runner st s) ea sa)
      (subst (λ st. (s : Step) → Elem s steps → Settled runner st s) eb sb) (suc (ok.rank s.name)) s
      m (omega arith)
