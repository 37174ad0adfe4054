-- ===== src/AppDrive/Samples.antt =====
-- env/app_drive_proc.py: a process that ignores the soft signal, one whose pid is used again during
-- the grace, and the theorems at them.
use celestia_devtools.Prelude.{
  ◌+◌, ◌*◌, true, false, none, some, [], ◌∷◌, ◌≡◌, refl, arith, if◌then◌else◌, ltb, length, ◌↔◌,
}
use celestia_devtools.AppDrive.{
  World, Launch, Identity, checked, looked, killpg, waited, pid_mismatch, refused, terminated,
  terminate_verified, verify_process_identity, wait_pid_exit,
}
use celestia_devtools.AppDrive.Verified.{IsRecorded, IsLaunched, verify_process_identity_iff}
use celestia_devtools.AppDrive.Waiting.{IsExact, wait_pid_exit-IsExact}
use celestia_devtools.AppDrive.Guarded.{IsGuarded, terminate_verified-IsGuarded}
use celestia_devtools.AppDrive.Reports.{IsReport, terminate_verified-IsReport}

abbrev launch : Launch
launch = record { exe = "/opt/app"; create_token = "4711"; create_kind = "proc-starttime" }

abbrev live : Identity
live = record { image = "/opt/app"; token = "4711"; kind = "proc-starttime" }

-- It exits in the third round of a wait that follows the forced signal (a log of 6 events or more).
abbrev stubborn : World
stubborn = record {
  windows = false;
  normal = λ p. p;
  real = λ p. some p;
  probe = λ log. some live;
  child_gone = λ log. false;
  child_wait = λ log. if ltb (length log) 6 then none else some 90;
  pid_alive = λ log. true;
  alive_at = λ log round. if ltb (length log) 6 then true else ltb round 2;
  clock_at = λ log round. 50 * round;
  ended_at = λ log round. 50 * round + 1;
  leads_group = λ log. true;
  grace = 200;
}

abbrev recycled : World
recycled = record stubborn {
  probe = λ log. if ltb (length log) 5 then some live else some (record live { token = "4712" });
}

kills : terminate_verified stubborn launch false [] ≡ (
  terminated true 101,
  waited (some 101)
      ∷ killpg true
      ∷ checked none
      ∷ waited none
      ∷ killpg false
      ∷ looked false
      ∷ checked none
      ∷ checked none
      ∷ [],
)
unfolding terminate_verified wait_pid_exit
kills = refl

spares : terminate_verified recycled launch true [] ≡ (
  refused pid_mismatch,
  checked (some pid_mismatch)
      ∷ waited none
      ∷ killpg false
      ∷ looked false
      ∷ checked none
      ∷ checked none
      ∷ [],
)
unfolding terminate_verified
spares = refl

terminate_verified-IsGuarded_example :
    IsGuarded stubborn launch (terminate_verified stubborn launch false []).1
terminate_verified-IsGuarded_example = terminate_verified-IsGuarded stubborn launch false [] tt

terminate_verified-IsReport_example : IsReport (terminate_verified recycled launch true [])
terminate_verified-IsReport_example = terminate_verified-IsReport recycled launch true []

verify_process_identity_iff_example : (verify_process_identity stubborn launch [] ≡ none) ↔ (
    IsRecorded launch
    × (current : Identity) × (some live ≡ some current)
    × IsLaunched stubborn launch current)
verify_process_identity_iff_example = verify_process_identity_iff stubborn launch []

wait_pid_exit-IsExact_example :
    IsExact
      (stubborn.clock_at [])
      (stubborn.ended_at [])
      (stubborn.alive_at [])
      200
      0
      (wait_pid_exit stubborn [])
wait_pid_exit-IsExact_example = wait_pid_exit-IsExact stubborn [] (λ n. (omega arith, omega arith))
