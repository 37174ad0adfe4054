-- ===== src/Lock/Exclusion.antt =====
-- env/ports.py: as long as no lock file is old, at most one process is inside.
use celestia_devtools.Prelude.{
  ℕ, Bool, true, false, Option, none, some, ◌≡◌, refl, sym, ap, ◌∙◌, subst, ◌==◌, arith, Bool-cases,
  inl, inr, ==_iff,
}
use celestia_devtools.Lock.{
  Place, outside, looked, reclaiming, opened, inside, killed, LockFile, State, set, is_old,
  write_pid, after_stat, holder_gone, Step, open_file, write, look, stat, reclaim, leave, kill,
  Steps, here, then_step, holds, maker_of,
}

abbrev is_reclaiming : Place → Bool
is_reclaiming reclaiming = true
is_reclaiming place = false

-- The lock file is young and that of the process that holds it; nobody is about to unlink it.
pub record IsHeld (s : State) : Type 0 where
  pub young : is_old s.lock ≡ false
  pub own : (i : ℕ) → holds (s.place i) ≡ true → maker_of s.lock ≡ some i
  pub calm : (i : ℕ) → is_reclaiming (s.place i) ≡ false

set-own :
    (i : ℕ) (p : Place) (place : ℕ → Place) (owner : Option ℕ)
    → (holds p ≡ true → owner ≡ some i)
    → ((j : ℕ) → (j == i) ≡ false → holds (place j) ≡ true → owner ≡ some j)
    → (j : ℕ) → holds (set i p place j) ≡ true
    → owner ≡ some j
set-own i p place owner a b j = elim (Bool-cases (j == i)) [
  | inl same ↦ rw (set, same) (λ h. subst (λ x. owner ≡ some x) (sym ((==_iff j i).0 same)) (a h))
  | inr other ↦ rw (set, other) (b j other)
]

set-calm :
    (i j : ℕ) (p : Place) (place : ℕ → Place)
    → is_reclaiming p ≡ false
    → is_reclaiming (place j) ≡ false
    → is_reclaiming (set i p place j) ≡ false
set-calm i j p place a b = elim (Bool-cases (j == i)) [
  | inl same ↦ rw (set, same) a
  | inr other ↦ rw (set, other) b
]

module _ (s : State) (held : IsHeld s) where
  -- No second process holds the file that `i` holds.
  no_other : (i j : ℕ) → holds (s.place i) ≡ true → (j == i) ≡ false → holds (s.place j) ≡ true → ⊥
  no_other i j hi other hj = ground (arith, held.own i hi, held.own j hj, other, ==_iff j i)

  move :
      (i : ℕ) (p : Place)
      → (holds p ≡ true → holds (s.place i) ≡ true)
      → is_reclaiming p ≡ false
      → IsHeld (record { lock = s.lock; place = set i p s.place })
  move i p keeps calm = record {
    young = held.young;
    own =
        set-own i p s.place (maker_of s.lock) (λ h. held.own i (keeps h))
          (λ j other h. held.own j h);
    calm = λ j. set-calm i j p s.place calm (held.calm j);
  }

not_stale : (s : State) → IsHeld s → (gone : Bool) → after_stat gone s.lock ≡ outside
unfolding after_stat
not_stale s held gone = rw (after_stat, held.young) refl

maker_of-write_pid : (i : ℕ) (lock : Option LockFile) → maker_of (write_pid i lock) ≡ maker_of lock
unfolding write_pid
maker_of-write_pid i none = refl
maker_of-write_pid i (some l) = ground arith

is_old-write_pid : (i : ℕ) (lock : Option LockFile) → is_old (write_pid i lock) ≡ is_old lock
unfolding write_pid is_old
is_old-write_pid i none = refl
is_old-write_pid i (some l) = ground arith

-- Every step of the processes keeps the lock held by its maker alone.
Step-IsHeld : (s t : State) → Step s t → IsHeld s → IsHeld t
unfolding is_old after_stat
Step-IsHeld _ _ (open_file s i at free) held = record {
  young = refl;
  own = set-own i opened s.place (some i) (λ h. refl) (λ j other h. cc (held.own j h, free));
  calm = λ j. set-calm i j opened s.place refl (held.calm j);
}
Step-IsHeld _ _ (write s i at) held = record {
  young = is_old-write_pid i s.lock ∙ held.young;
  own =
      set-own i inside s.place (maker_of (write_pid i s.lock))
        (λ h. maker_of-write_pid i s.lock ∙ held.own i (ap holds at))
        (λ j other h. maker_of-write_pid i s.lock ∙ held.own j h);
  calm = λ j. set-calm i j inside s.place refl (held.calm j);
}
Step-IsHeld _ _ (look s i at) held = move s held i (looked (holder_gone s)) (λ h. cc) refl
Step-IsHeld _ _ (stat s i gone at) held =
    subst (λ p. IsHeld (record { lock = s.lock; place = set i p s.place }))
      (sym (not_stale s held gone)) (move s held i outside (λ h. cc) refl)
Step-IsHeld _ _ (reclaim s i at) held = cc (held.calm i, ap is_reclaiming at)
Step-IsHeld _ _ (leave s i at) held = record {
  young = refl;
  own =
      set-own i outside s.place none (λ h. cc)
        (λ j other h. absurd (no_other s held i j (ap holds at) other h));
  calm = λ j. set-calm i j outside s.place refl (held.calm j);
}
Step-IsHeld _ _ (kill s i) held = move s held i killed (λ h. cc) refl

Steps-IsHeld : (s t : State) → Steps s t → IsHeld s → IsHeld t
Steps-IsHeld _ _ (here s) held = held
Steps-IsHeld _ _ (then_step s t u run step) held = Step-IsHeld t u step (Steps-IsHeld s t run held)

-- Mutual exclusion while no lock file grows older than `LOCK_STALE`: from a state without a lock file
-- and with every process outside, whatever steps the processes take in whatever order, and whoever
-- is killed, no two processes hold the lock.
pub lock_exclusive :
    (s t : State)
    → s.lock ≡ none
    → ((i : ℕ) → s.place i ≡ outside)
    → Steps s t
    → (i j : ℕ) → holds (t.place i) ≡ true
    → holds (t.place j) ≡ true
    → i ≡ j
unfolding is_old
lock_exclusive s t free out run i j hi hj = ground (arith, held.own i hi, held.own j hj)
  where
    start : IsHeld s
    start = record {
      young = ap is_old free;
      own = λ k h. cc (ap holds (out k), h);
      calm = λ k. ap is_reclaiming (out k);
    }

    held : IsHeld t
    held = Steps-IsHeld s t run start
