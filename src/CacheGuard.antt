-- ===== src/CacheGuard.antt =====
-- build/cache_guard.py: `guard`, which keeps the build cache of a checkout within its budgets.
pub mod Budgets
mod Samples
use celestia_devtools.Prelude.{
  ℕ, ◌+◌, Bool, true, false, Option, none, some, List, [], ◌∷◌, ◌++◌, ltb, leb, if◌then◌else◌, ◌||◌,
  ◌&&◌, not,
}

-- The sidecar file: `checked_at` as a time in seconds, `none` where it is missing or no time.
pub record Sidecar : Type 0 where
  pub size_bytes : Option ℕ
  pub checked_at : Option ℕ

-- What `du` does: a size, a time-out, or nothing that can be read.
pub data Usage : Type 0 where
  size : ℕ → Usage
  too_slow no_answer : Usage

-- The target directory and its disk as the code sees them, in bytes and seconds. `outlives_clean`
-- tells whether there still is a target after `cargo clean`, which deletes it when it succeeds.
pub record Target : Type 0 where
  pub is_dir : Bool
  pub free : ℕ
  pub sweep_installed : Bool
  pub sidecar : Option Sidecar
  pub du : Usage
  pub now : ℕ
  pub outlives_clean : Bool

-- The arguments: `min_free_gib * GIB`, `soft_threshold_gib * GIB`, the interval of the rechecks.
pub record Limits : Type 0 where
  pub min_free : ℕ
  pub soft_threshold : ℕ
  pub recheck_interval : ℕ
  pub dry_run : Bool

pub data Event : Type 0 where
  cargo_clean cargo_sweep : Event
  wrote_sidecar : Sidecar → Event
  marked_soft_clean : Event

pub data Action : Type 0 where
  skip nothing soft_skipped raised : Action
  clean soft_clean : (dry_run : Bool) → Action

-- `_sidecar_fresh`
unfoldable pub sidecar_fresh : Limits → ℕ → Option ℕ → Bool
sidecar_fresh limits now none = false
sidecar_fresh limits now (some checked) = ltb now (checked + limits.recheck_interval)

-- The size in the sidecar, where it may be used.
unfoldable pub cached_size : Limits → Target → Option ℕ
unfolding sidecar_fresh
cached_size limits t = elim t.sidecar [
  | none ↦ none
  | some side ↦ if sidecar_fresh limits t.now side.checked_at then side.size_bytes else none
]

-- The run of `du`; `none` is the infinite size.
unfoldable pub measured : Target → Usage → Option ℕ × List Event
measured t (size bytes) =
    (some bytes, wrote_sidecar (record { size_bytes = some bytes; checked_at = some t.now }) ∷ [])
measured t too_slow = (none, [])
measured t no_answer = (none, [])

-- `_measure_target_size`
unfoldable pub measure_target_size : Limits → Target → Option ℕ × List Event
unfolding cached_size measured
measure_target_size limits t = elim (cached_size limits t) [
  | some bytes ↦ (some bytes, [])
  | none ↦ measured t t.du
]

abbrev pub at_least : Option ℕ → ℕ → Bool
at_least none threshold = true
at_least (some bytes) threshold = leb threshold bytes

-- From the size on.
unfoldable pub soft_step : Limits → Option ℕ → List Event → Action × List Event
soft_step limits bytes events =
    if at_least bytes limits.soft_threshold
    then (if limits.dry_run
        then (soft_clean true, events)
        else (soft_clean false, events ++ cargo_sweep ∷ marked_soft_clean ∷ []))
    else (nothing, events)

-- After `cargo clean`: `shutil.disk_usage(target)` raises where the target is gone.
unfoldable pub cleaned : Target → Action
cleaned t = if t.outlives_clean then clean false else raised

-- `guard`: its action, and what it did to the checkout, in order.
unfoldable pub guard : Limits → Target → Action × List Event
unfolding measure_target_size soft_step cleaned
guard limits t =
    let (bytes, events) = measure_target_size limits t in
    if not t.is_dir
    then (skip, [])
    else if ltb t.free limits.min_free
    then (if limits.dry_run then (clean true, []) else (cleaned t, cargo_clean ∷ []))
    else if not t.sweep_installed
    then (soft_skipped, [])
    else soft_step limits bytes events
