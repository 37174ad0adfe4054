-- ===== src/Scheduler/Rounds.antt =====
-- core/scheduler.py: the invariant of the `while` loop of `run_dag`, kept by each of its moves.
pub mod Passes
use celestia_devtools.Prelude.{
  ℕ, suc, ◌+◌, ◌≤◌, String, Bool, true, false, Option, none, some, List, [], ◌∷◌, ◌++◌, str_eq,
  eq_iff, if◌then◌else◌, ◌≡◌, ◌≢◌, refl, sym, arith, Elem, Elem-append, Elem-append_left,
  Elem-append_right, inl, inr, ◌⊎◌, Option-cases, Bool-cases, length, select, subst,
}
use celestia_devtools.Dict.{Dict, lookup, insert, lookup-insert}
use celestia_devtools.Scheduler.Names.{Step, Command, contains, discard}
use celestia_devtools.Scheduler.Names.Laws.{
  Distinct, contains-discard, contains-append, Distinct-discard, contains_of_Elem, Elem-discard,
  Elem-of_discard, Distinct-unique, length-discard-lt,
}
use celestia_devtools.Scheduler.{
  Status, skip, skip_dep, Run, blocks, ready, outcome, record_status, settle_one,
}
use celestia_devtools.Scheduler.Settled.{
  Grows, Grows-insert, own, Justified, Settled, Justified-Grows, Settled-Grows, AllSatisfied,
  AllSatisfied-of_ready, SomeBlocks-of_ready, AllSatisfied-Grows,
}

pub Distinct-snoc :
    (l : List Step) (s : Step) → Distinct l → contains s.name l ≡ false → Distinct (l ++ s ∷ [])
Distinct-snoc [] s d new = ground arith
Distinct-snoc (t ∷ ts) s d new = ground (
  arith,
  Distinct-snoc ts s d.1,
  contains-append t.name ts (s ∷ []),
  eq_iff t.name s.name,
  eq_iff s.name t.name,
)

module _ (runner : Step → Option String) (steps : List Step) where
  pub record Inv (r : Run) : Type 0 where
    pub waiting : Distinct r.remaining
    pub running : Distinct r.futures
    pub apart : (n : String) → contains n r.remaining ≡ true → contains n r.futures ≡ false
    pub fresh_waiting : (n : String) → contains n r.remaining ≡ true → lookup n r.statuses ≡ none
    pub fresh_running : (n : String) → contains n r.futures ≡ true → lookup n r.statuses ≡ none
    pub started : (s : Step) → Elem s r.futures → AllSatisfied r.statuses s.deps
    pub has_cmd : (s : Step) → Elem s r.futures → (c : Command) × (s.cmd ≡ some c)
    pub from_steps : (s : Step) → Elem s r.remaining → Elem s steps
    pub placed :
        (s : Step)
        → Elem s steps
        → Elem s r.remaining ⊎ Elem s r.futures ⊎ Settled runner r.statuses s

  -- A step that waits gets a status at once: `SKIP_DEP`, or `SKIP` where it has no command.
  pub Inv-skip :
      (r : Run) (s : Step) (v : Status)
      → Inv r
      → Elem s r.remaining
      → Justified runner r.statuses s v
      → Inv (record_status s.name v (record r { remaining = discard s.name r.remaining }))
  Inv-skip r s v inv m j = record {
    waiting = Distinct-discard s.name r.remaining inv.waiting;
    running = inv.running;
    apart = λ n h. ground (arith, contains-discard n s.name r.remaining, inv.apart n);
    fresh_waiting = λ n h. ground (
      arith,
      contains-discard n s.name r.remaining,
      lookup-insert s.name n v r.statuses,
      inv.fresh_waiting n,
    );
    fresh_running = λ n h. ground (
      arith,
      lookup-insert s.name n v r.statuses,
      inv.fresh_running n,
      eq_iff s.name n,
      inv.apart s.name,
      contains_of_Elem s r.remaining m,
    );
    started = λ t k. AllSatisfied-Grows r.statuses _ t.deps grows (inv.started t k);
    has_cmd = inv.has_cmd;
    from_steps = λ t k. inv.from_steps t (Elem-of_discard s.name t r.remaining k);
    placed = λ t k. elim (inv.placed t k) [
      | inl left ↦ elim (Bool-cases (str_eq t.name s.name)) [
        | inl same ↦ inr (
            inr (
              v,
              ground (
                arith,
                lookup-insert s.name t.name v r.statuses,
                eq_iff t.name s.name,
                eq_iff s.name t.name,
              ),
              subst (λ u. Justified runner (insert s.name v r.statuses) u v)
                  (Distinct-unique s t r.remaining inv.waiting m left
                    (sym ((eq_iff t.name s.name).0 same)))
                  (Justified-Grows runner r.statuses _ s v grows j),
            ))
        | inr other ↦ inl (Elem-discard s.name t r.remaining left other)
      ]
      | inr (inl run) ↦ inr (inl run)
      | inr (inr done) ↦ inr (inr (Settled-Grows runner r.statuses _ t grows done))
    ];
  }
    where
      grows : Grows r.statuses (insert s.name v r.statuses)
      grows =
          Grows-insert s.name v r.statuses
            (inv.fresh_waiting s.name (contains_of_Elem s r.remaining m))

  -- A step whose dependencies are satisfied is submitted.
  pub Inv-start :
      (r : Run) (s : Step) (c : Command)
      → Inv r
      → Elem s r.remaining
      → AllSatisfied r.statuses s.deps
      → s.cmd ≡ some c
      → Inv (record r { remaining = discard s.name r.remaining; futures = r.futures ++ s ∷ [] })
  Inv-start r s c inv m ok is = record {
    waiting = Distinct-discard s.name r.remaining inv.waiting;
    running = Distinct-snoc r.futures s inv.running (inv.apart s.name there);
    apart = λ n h. ground (
      arith,
      contains-discard n s.name r.remaining,
      contains-append n r.futures (s ∷ []),
      inv.apart n,
    );
    fresh_waiting =
        λ n h. ground (arith, contains-discard n s.name r.remaining, inv.fresh_waiting n);
    fresh_running = λ n h. ground (
      arith,
      contains-append n r.futures (s ∷ []),
      inv.fresh_running n,
      eq_iff s.name n,
      inv.fresh_waiting s.name,
      there,
    );
    started = λ t k. elim (Elem-append t r.futures (s ∷ []) k) [
      | inl old ↦ inv.started t old
      | inr (inl e) ↦ rw e ok
      | inr (inr no_more) ↦ absurd no_more
    ];
    has_cmd = λ t k. elim (Elem-append t r.futures (s ∷ []) k) [
      | inl old ↦ inv.has_cmd t old
      | inr (inl e) ↦ rw e (c, is)
      | inr (inr no_more) ↦ absurd no_more
    ];
    from_steps = λ t k. inv.from_steps t (Elem-of_discard s.name t r.remaining k);
    placed = λ t k. elim (inv.placed t k) [
      | inl left ↦ elim (Bool-cases (str_eq t.name s.name)) [
        | inl same ↦ inr (
            inl (
              Elem-append_right t r.futures (s ∷ []) (
                inl (
                  sym (
                    Distinct-unique s t r.remaining inv.waiting m left
                      (sym ((eq_iff t.name s.name).0 same)))))))
        | inr other ↦ inl (Elem-discard s.name t r.remaining left other)
      ]
      | inr (inl run) ↦ inr (inl (Elem-append_left t r.futures (s ∷ []) run))
      | inr (inr done) ↦ inr (inr done)
    ];
  }
    where
      there : contains s.name r.remaining ≡ true
      there = contains_of_Elem s r.remaining m

  -- A future that is done gets the outcome of its step.
  pub Inv-finish : (r : Run) (s : Step) → Inv r → Elem s r.futures → Inv (settle_one runner r s)
  unfolding settle_one
  Inv-finish r s inv m = record {
    waiting = inv.waiting;
    running = Distinct-discard s.name r.futures inv.running;
    apart = λ n h. ground (arith, contains-discard n s.name r.futures, inv.apart n);
    fresh_waiting = λ n h. ground (
      arith,
      lookup-insert s.name n v r.statuses,
      inv.fresh_waiting n,
      eq_iff s.name n,
      inv.apart n,
      contains_of_Elem s r.futures m,
    );
    fresh_running = λ n h. ground (
      arith,
      contains-discard n s.name r.futures,
      lookup-insert s.name n v r.statuses,
      inv.fresh_running n,
    );
    started = λ t k.
        AllSatisfied-Grows r.statuses _ t.deps grows
          (inv.started t (Elem-of_discard s.name t r.futures k));
    has_cmd = λ t k. inv.has_cmd t (Elem-of_discard s.name t r.futures k);
    from_steps = inv.from_steps;
    placed = λ t k. elim (inv.placed t k) [
      | inl left ↦ inl left
      | inr (inl run) ↦ elim (Bool-cases (str_eq t.name s.name)) [
        | inl same ↦ inr (
            inr (
              v,
              ground (
                arith,
                lookup-insert s.name t.name v r.statuses,
                eq_iff t.name s.name,
                eq_iff s.name t.name,
              ),
              subst (λ u. Justified runner (insert s.name v r.statuses) u v)
                  (Distinct-unique s t r.futures inv.running m run
                    (sym ((eq_iff t.name s.name).0 same)))
                  (inr (AllSatisfied-Grows r.statuses _ s.deps grows (inv.started s m), ran)),
            ))
        | inr other ↦ inr (inl (Elem-discard s.name t r.futures run other))
      ]
      | inr (inr done) ↦ inr (inr (Settled-Grows runner r.statuses _ t grows done))
    ];
  }
    where
      v : Status
      v = outcome (runner s)

      ran : v ≡ own runner s
      ran = let (c, is) = inv.has_cmd s m in rw is

      grows : Grows r.statuses (insert s.name v r.statuses)
      grows =
          Grows-insert s.name v r.statuses
            (inv.fresh_running s.name (contains_of_Elem s r.futures m))
