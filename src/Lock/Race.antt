-- ===== src/Lock/Race.antt =====
-- env/ports.py: two processes that meet a leftover lock can both get inside, since the unlink of a
-- stale lock does not look again at what it removes.
use celestia_devtools.Prelude.{
  ℕ, Bool, true, false, Option, none, some, ◌≡◌, ◌≢◌, refl, sym, ap, ◌∙◌, subst, ◌==◌, arith,
  ==_iff,
}
use celestia_devtools.Lock.{
  Place, outside, looked, reclaiming, opened, inside, killed, LockFile, State, set, is_old,
  write_pid, after_stat, holder_gone, made_by, open_file, write, look, stat, reclaim, Steps, here,
  then_step,
}

set_same : (i : ℕ) (p : Place) (place : ℕ → Place) → set i p place i ≡ p
set_same i p place = rw (set, (==_iff i i).1 refl) refl

set_other : (i j : ℕ) (p : Place) (place : ℕ → Place) → (j == i) ≡ false → set i p place j ≡ place j
set_other i j p place h = rw (set, h) refl

-- A lock file that a killed process left behind, more than `LOCK_STALE` ago.
abbrev pub IsLeftover : State → LockFile → Type 0
IsLeftover s l =
    (s.lock ≡ some l) × (l.written ≡ true) × (l.old ≡ true) × (s.place l.owner ≡ killed)

abbrev at : Option LockFile → (ℕ → Place) → State
at lock place = record { lock = lock; place = place }

gone_of :
    (l : LockFile) (place : ℕ → Place)
    → l.written ≡ true
    → place l.owner ≡ killed
    → holder_gone (at (some l) place) ≡ true
unfolding holder_gone
gone_of l place w k = rw (holder_gone, w, k) refl

stale_of :
    (l : LockFile) (gone : Bool)
    → gone ≡ true
    → l.old ≡ true
    → after_stat gone (some l) ≡ reclaiming
unfolding after_stat is_old
stale_of l gone g o = rw (after_stat, is_old, g, o) refl

differ : (a b : ℕ) → a ≢ b → (a == b) ≡ false
differ a b ne = ground (arith, ==_iff a b)

apart :
    (l : LockFile) (i : ℕ) (place : ℕ → Place)
    → place l.owner ≡ killed
    → place i ≡ outside
    → l.owner ≢ i
apart l i place k o e = cc (ap place e, k, o)

module _ (l : LockFile) (place : ℕ → Place) (i j : ℕ) (w : l.written ≡ true) (old : l.old ≡ true)
    (k : place l.owner ≡ killed) (oi : place i ≡ outside) (oj : place j ≡ outside)
    (ji : (j == i) ≡ false) (ij : (i == j) ≡ false) (ki : (l.owner == i) ≡ false) where
  abbrev s0 : State
  s0 = at (some l) place

  abbrev p1 : ℕ → Place
  p1 = set i (looked (holder_gone s0)) place

  abbrev s1 : State
  s1 = at (some l) p1

  abbrev p2 : ℕ → Place
  p2 = set j (looked (holder_gone s1)) p1

  abbrev p3 : ℕ → Place
  p3 = set i (after_stat (holder_gone s0) (some l)) p2

  abbrev p4 : ℕ → Place
  p4 = set j (after_stat (holder_gone s1) (some l)) p3

  abbrev p5 : ℕ → Place
  p5 = set i outside p4

  abbrev p6 : ℕ → Place
  p6 = set i opened p5

  abbrev p7 : ℕ → Place
  p7 = set i inside p6

  abbrev p8 : ℕ → Place
  p8 = set j outside p7

  abbrev p9 : ℕ → Place
  p9 = set j opened p8

  abbrev p10 : ℕ → Place
  p10 = set j inside p9

  abbrev lock7 : Option LockFile
  lock7 = write_pid i (made_by i)

  both_reclaim : Steps s0 (at (some l) p4)
  both_reclaim =
      then_step s0 (at (some l) p3) (at (some l) p4)
        (then_step s0 (at (some l) p2) (at (some l) p3)
          (then_step s0 s1 (at (some l) p2) (then_step s0 s0 s1 (here s0) (look s0 i oi))
            (look s1 j (set_other i j _ place ji ∙ oj)))
          (stat (at (some l) p2) i (holder_gone s0) (set_other j i _ p1 ij ∙ set_same i _ place)))
        (stat (at (some l) p3) j (holder_gone s1) (set_other i j _ p2 ji ∙ set_same j _ p1))

  first_inside : Steps s0 (at lock7 p7)
  first_inside =
      then_step s0 (at (made_by i) p6) (at lock7 p7)
        (then_step s0 (at none p5) (at (made_by i) p6)
          (then_step s0 (at (some l) p4) (at none p5) both_reclaim (
            reclaim (at (some l) p4) i
              (set_other j i _ p3 ij ∙ set_same i _ p2 ∙ stale_of l _ (gone_of l place w k) old)))
          (open_file (at none p5) i (set_same i outside p4) refl))
        (write (at (made_by i) p6) i (set_same i opened p5))

  second_reclaims : p7 j ≡ reclaiming
  second_reclaims =
      set_other i j inside p6 ji
      ∙ set_other i j opened p5 ji
      ∙ set_other i j outside p4 ji
      ∙ set_same j _ p3
      ∙ stale_of l _ (gone_of l p1 w (set_other i l.owner _ place ki ∙ k)) old

  both_inside : Steps s0 (at (write_pid j (made_by j)) p10)
  both_inside =
      then_step s0 (at (made_by j) p9) (at (write_pid j (made_by j)) p10)
        (then_step s0 (at none p8) (at (made_by j) p9)
          (then_step s0 (at lock7 p7) (at none p8) first_inside
            (reclaim (at lock7 p7) j second_reclaims))
          (open_file (at none p8) j (set_same j outside p7) refl))
        (write (at (made_by j) p9) j (set_same j opened p8))

  first_stays : p10 i ≡ inside
  first_stays =
      set_other j i inside p9 ij
      ∙ set_other j i opened p8 ij
      ∙ set_other j i outside p7 ij
      ∙ set_same i inside p6

-- From any state with a leftover lock, any two processes that are outside can both get inside: both
-- find the lock stale, one reclaims it and locks, and the other then unlinks that new lock.
pub leftover_race :
    (s : State) (l : LockFile) (i j : ℕ)
    → IsLeftover s l
    → s.place i ≡ outside
    → s.place j ≡ outside
    → i ≢ j
    → (t : State) × Steps s t × (t.place i ≡ inside) × (t.place j ≡ inside)
leftover_race s l i j (at_lock, w, old, k) oi oj ne =
    let apart_ji = differ j i (λ e. ne (sym e)) in
    let apart_ij = differ i j ne in
    let apart_ki = differ l.owner i (λ e. apart l i s.place k oi e) in
    (
      at (write_pid j (made_by j)) (p10 l s.place i j w old k oi oj apart_ji apart_ij apart_ki),
      subst
          (λ x. Steps (at x s.place) (
            at (write_pid j (made_by j))
              (p10 l s.place i j w old k oi oj apart_ji apart_ij apart_ki)))
          (sym at_lock) (both_inside l s.place i j w old k oi oj apart_ji apart_ij apart_ki),
      first_stays l s.place i j w old k oi oj apart_ji apart_ij apart_ki,
      set_same j inside (p9 l s.place i j w old k oi oj apart_ji apart_ij apart_ki),
    )
