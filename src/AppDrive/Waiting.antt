-- ===== src/AppDrive/Waiting.antt =====
-- env/app_drive_proc.py: the loop of `wait_pid_exit` ends, and its answer is exact.
use celestia_devtools.Prelude.{
  ℕ, zero, suc, ◌+◌, ◌≤◌, ◌<◌, ◌-◌, subst, Bool, true, false, Option, none, some, ◌≡◌, refl, arith,
  Bool-cases, inl, inr, leb,
}
use celestia_devtools.AppDrive.{World, Log, wait_rounds, wait_pid_exit}

-- A clock in milliseconds under which a round takes at least one, as the sleep of 50 makes it.
abbrev pub IsClock : (ℕ → ℕ) → Type 0
IsClock clock = (n : ℕ) → (n ≤ clock n) × (clock n ≤ clock (suc n))

-- `none`: alive at each round in time. A number: the process was gone at that round, in time.
abbrev pub IsExact : (clock ended : ℕ → ℕ) (alive : ℕ → Bool) (timeout from : ℕ) → Option ℕ → Type 0
IsExact clock ended alive timeout from none =
    (r : ℕ) → from ≤ r → clock r ≤ timeout → alive r ≡ true
IsExact clock ended alive timeout from (some ms) =
    (r : ℕ) × (from ≤ r) × (clock r ≤ timeout) × (alive r ≡ false) × (ms ≡ ended r)

module _ (clock ended : ℕ → ℕ) (alive : ℕ → Bool) (timeout : ℕ) (ticks : IsClock clock) where
  zero_add : (b : ℕ) → b ≡ 0 + b
  zero_add b = omega arith

  suc_add : (k b : ℕ) → suc (k + b) ≡ suc k + b
  suc_add k b = omega arith

  climbs : (k b : ℕ) → clock b ≤ clock (k + b)
  climbs zero b = subst (λ x. clock b ≤ clock x) (zero_add b) (omega arith)
  climbs (suc k) b =
      subst (λ x. clock b ≤ clock x) (suc_add k b) (omega (arith, climbs k b, ticks (k + b)))

  climbs_to : (a r : ℕ) → a ≤ r → clock a ≤ clock r
  climbs_to a r le = subst (λ x. clock a ≤ clock x) (omega arith) (climbs (r - a) a)

  -- One more round before, at which the process lived.
  IsExact-suc :
      (from : ℕ) (o : Option ℕ)
      → alive from ≡ true
      → IsExact clock ended alive timeout (suc from) o
      → IsExact clock ended alive timeout from o
  IsExact-suc from none lives h = λ r le t. grind (arith, lives, h r)
  IsExact-suc from (some ms) lives (r, le, t, gone, same) = (r, omega arith, t, gone, same)

  rounds-IsExact :
      (fuel from : ℕ)
      → timeout < from + fuel
      → IsExact clock ended alive timeout from (wait_rounds clock ended alive timeout fuel from)
  unfolding wait_rounds
  rounds-IsExact zero from enough = λ r le t. ground (arith, ticks r)
  rounds-IsExact (suc fuel) from enough = elim (Bool-cases (leb (clock from) timeout)) [
    | inr late ↦ rw (IsExact, late) (λ r le t. ground (arith, climbs_to from r le, late))
    | inl early ↦ elim (Bool-cases (alive from)) [
      | inr gone ↦ rw (IsExact, early, gone) (from, omega arith, ground (arith, early), gone, refl)
      | inl lives ↦
          rw (IsExact, early, lives)
            (IsExact-suc from _ lives (rounds-IsExact fuel (suc from) (omega arith)))
    ]
  ]

-- If each round of the wait takes a millisecond at least, `wait_pid_exit` says `None` only when the
-- process lived at each round within the grace, and else it saw it gone at one of them.
pub wait_pid_exit-IsExact :
    (w : World) (log : Log)
    → IsClock (w.clock_at log)
    → IsExact (w.clock_at log) (w.ended_at log) (w.alive_at log) w.grace 0 (wait_pid_exit w log)
unfolding wait_pid_exit
wait_pid_exit-IsExact w log ticks =
    rounds-IsExact (w.clock_at log) (w.ended_at log) (w.alive_at log) w.grace ticks (suc w.grace) 0
      (omega arith)
