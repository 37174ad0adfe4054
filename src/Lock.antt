-- ===== src/Lock.antt =====
-- env/ports.py: `registry_lock` as a step relation of processes that share one lock file. Each step
-- is one call of the operating system, so that any interleaving of them is a sequence of steps.
pub mod Exclusion
pub mod Race
mod Samples
use celestia_devtools.Prelude.{
  ℕ, Bool, true, false, Option, none, some, ◌≡◌, ◌==◌, if◌then◌else◌, ◌&&◌, not,
}

-- Where a process is: before its `os.open`; after the read of the holder of a lock that is there,
-- with whether that one is gone; about to unlink a stale lock; with its own file open, its pid not
-- yet written; in the body; or killed.
pub data Place : Type 0 where
  outside : Place
  looked : (holder_gone : Bool) → Place
  reclaiming opened inside killed : Place

-- The lock file: who made it, whether its pid is in it, whether it is older than `LOCK_STALE`.
pub record LockFile : Type 0 where
  pub owner : ℕ
  pub written : Bool
  pub old : Bool

pub record State : Type 0 where
  pub lock : Option LockFile
  pub place : ℕ → Place

abbrev pub set : ℕ → Place → (ℕ → Place) → ℕ → Place
set i p place j = if j == i then p else place j

abbrev pub is_killed : Place → Bool
is_killed killed = true
is_killed place = false

abbrev pub made_by : ℕ → Option LockFile
made_by i = some (record { owner = i; written = false; old = false })

-- `holder_alive` is false: a file that is gone, one without a pid, or one of a killed process.
unfoldable pub holder_gone : State → Bool
holder_gone s = elim s.lock [
  | none ↦ true
  | some l ↦ if l.written then is_killed (s.place l.owner) else true
]

-- `age > LOCK_STALE`; a file that is gone has age 0.
unfoldable pub is_old : Option LockFile → Bool
is_old none = false
is_old (some l) = l.old

-- The pid goes into the file that the process opened, which may be unlinked by then.
unfoldable pub write_pid : ℕ → Option LockFile → Option LockFile
write_pid i none = none
write_pid i (some l) = if l.owner == i then some (record l { written = true }) else some l

unfoldable pub after_stat : Bool → Option LockFile → Place
unfolding is_old
after_stat gone lock = if is_old lock && gone then reclaiming else outside

pub data Step : State → State → Type 0 where
  -- os.open with O_CREAT | O_EXCL
  open_file :
      (s : State) (i : ℕ)
      → s.place i ≡ outside
      → s.lock ≡ none
      → Step s (record { lock = made_by i; place = set i opened s.place })
  write :
      (s : State) (i : ℕ)
      → s.place i ≡ opened
      → Step s (record { lock = write_pid i s.lock; place = set i inside s.place })
  -- lock_path.read_text and pid_alive, after a FileExistsError
  look :
      (s : State) (i : ℕ)
      → s.place i ≡ outside
      → Step s (record { lock = s.lock; place = set i (looked (holder_gone s)) s.place })
  -- lock_path.stat; a lock that is no leftover sends the process to sleep and back
  stat :
      (s : State) (i : ℕ) (gone : Bool)
      → s.place i ≡ looked gone
      → Step s (record { lock = s.lock; place = set i (after_stat gone s.lock) s.place })
  reclaim :
      (s : State) (i : ℕ)
      → s.place i ≡ reclaiming
      → Step s (record { lock = none; place = set i outside s.place })
  -- the `finally` block
  leave :
      (s : State) (i : ℕ)
      → s.place i ≡ inside
      → Step s (record { lock = none; place = set i outside s.place })
  kill : (s : State) (i : ℕ) → Step s (record { lock = s.lock; place = set i killed s.place })

pub data Steps : State → State → Type 0 where
  here : (s : State) → Steps s s
  then_step : (s t u : State) → Steps s t → Step t u → Steps s u

abbrev pub holds : Place → Bool
holds opened = true
holds inside = true
holds place = false

abbrev pub maker_of : Option LockFile → Option ℕ
maker_of none = none
maker_of (some l) = some l.owner
