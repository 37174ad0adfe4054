-- ===== src/CacheGuard/Samples.antt =====
-- build/cache_guard.py: a target over the soft threshold, and the theorems at it.
use celestia_devtools.Prelude.{true, false, some}
use celestia_devtools.CacheGuard.{too_slow, Target, Limits}

abbrev limits : Limits
limits = record { min_free = 10; soft_threshold = 40; recheck_interval = 100; dry_run = false }

abbrev target : Target
target = record {
  is_dir = true;
  free = 30;
  sweep_installed = true;
  sidecar = some (record { size_bytes = some 50; checked_at = some 1000 });
  du = too_slow;
  now = 1050;
  outlives_clean = false;
}
