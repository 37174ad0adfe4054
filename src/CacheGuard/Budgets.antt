-- ===== src/CacheGuard/Budgets.antt =====
-- build/cache_guard.py: what `guard` deletes, and when; the size that it remembers.
use celestia_devtools.Prelude.{
  ℕ, ◌+◌, ◌<◌, Bool, true, false, some, List, [], ◌∷◌, ◌||◌, ◌≡◌, ◌≢◌, ◌≤◌, none, arith,
}
use celestia_devtools.CacheGuard.{
  size, Target, Limits, Event, cargo_clean, cargo_sweep, cached_size, sidecar_fresh,
  measure_target_size,
}

abbrev pub is_clean : Event → Bool
is_clean cargo_clean = true
is_clean event = false

abbrev pub is_sweep : Event → Bool
is_sweep cargo_sweep = true
is_sweep event = false

abbrev pub some_of : (Event → Bool) → List Event → Bool
some_of p [] = false
some_of p (e ∷ events) = p e || some_of p events

-- The sidecar has no size that was checked less than the interval ago.
abbrev pub IsStale : Limits → Target → Type 0
IsStale limits t =
    (bytes checked : ℕ)
    → t.sidecar ≡ some (record { size_bytes = some bytes; checked_at = some checked })
    → checked + limits.recheck_interval ≤ t.now

-- The size in the sidecar, or that of `du`, reaches the threshold; or `du` gave no size.
pub data IsLarge (limits : Limits) (t : Target) : Type 0 where
  remembered :
      (bytes checked : ℕ)
      → t.sidecar ≡ some (record { size_bytes = some bytes; checked_at = some checked })
      → t.now < checked + limits.recheck_interval
      → limits.soft_threshold ≤ bytes
      → IsLarge limits t
  counted :
      (bytes : ℕ)
      → IsStale limits t
      → t.du ≡ size bytes
      → limits.soft_threshold ≤ bytes
      → IsLarge limits t
  uncounted : IsStale limits t → ((bytes : ℕ) → t.du ≢ size bytes) → IsLarge limits t

-- What the sidecar says, with the equation of the size that may be used.
data Cached (limits : Limits) (t : Target) : Type 0 where
  fresh :
      (bytes checked : ℕ)
      → t.sidecar ≡ some (record { size_bytes = some bytes; checked_at = some checked })
      → t.now < checked + limits.recheck_interval
      → cached_size limits t ≡ some bytes
      → Cached limits t
  stale : IsStale limits t → cached_size limits t ≡ none → Cached limits t

-- A size that stands in the sidecar since less than the interval is the answer of a measurement,
-- whatever `du` would say, and nothing is written.
pub measure-again :
    (limits : Limits) (t : Target) (bytes checked : ℕ)
    → t.sidecar ≡ some (record { size_bytes = some bytes; checked_at = some checked })
    → t.now < checked + limits.recheck_interval
    → measure_target_size limits t ≡ (some bytes, [])
unfolding measure_target_size cached_size sidecar_fresh
measure-again limits t bytes checked side soon = ground arith
