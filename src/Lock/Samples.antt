-- ===== src/Lock/Samples.antt =====
-- env/ports.py: three processes and a lock, and the theorems at them.
use celestia_devtools.Prelude.{ℕ, true, none, some, ◌≡◌, refl, ◌==◌, if◌then◌else◌}
use celestia_devtools.Lock.{
  outside, opened, inside, killed, LockFile, State, set, made_by, write_pid, open_file, write,
  Steps, here, then_step,
}
use celestia_devtools.Lock.Exclusion.{lock_exclusive}
use celestia_devtools.Lock.Race.{leftover_race}

abbrev idle : State
idle = record { lock = none; place = λ i. outside }

abbrev first_in : State
first_in = record {
  lock = write_pid 1 (made_by 1);
  place = set 1 inside (set 1 opened (λ i. outside));
}

enters : Steps idle first_in
enters =
    then_step idle (record { lock = made_by 1; place = set 1 opened (λ i. outside) }) first_in
      (then_step idle idle (record { lock = made_by 1; place = set 1 opened (λ i. outside) })
        (here idle) (open_file idle 1 refl refl))
      (write (record { lock = made_by 1; place = set 1 opened (λ i. outside) }) 1 refl)

lock_exclusive_example : ◌≡◌ {A = ℕ} 1 1
lock_exclusive_example = lock_exclusive idle first_in refl (λ i. refl) enters 1 1 refl refl

abbrev file : LockFile
file = record { owner = 9; written = true; old = true }

abbrev left : State
left = record { lock = some file; place = λ i. if i == 9 then killed else outside }

leftover_race_example : (t : State) × Steps left t × (t.place 1 ≡ inside) × (t.place 2 ≡ inside)
leftover_race_example = leftover_race left file 1 2 (refl, refl, refl, refl) refl refl (λ e. cc e)
