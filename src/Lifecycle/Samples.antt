-- ===== src/Lifecycle/Samples.antt =====
-- deploy/lifecycle.py: an upgrade that succeeds, one whose migration fails, and the theorems at them.
use celestia_devtools.Prelude.{true, false, none, some, [], ◌∷◌, ◌≡◌, ◌⊎◌, refl, ap}
use celestia_devtools.Lifecycle.{Staged, Host, World, upgrade, note, fetched, backed_up}
use celestia_devtools.Lifecycle.Upgrades.{
  HasBackup, IsSound, IsRestored, IsBack, upgrade-backs_up, upgrade-IsRestored, rollback-upgrade,
}

abbrev staged : Staged
staged = record { version = "1.1.0"; sha256 = "abc"; binary = "new" }

abbrev host : Host
host = record { current = some "old"; previous = none; failed = none; history = []; events = [] }

abbrev empty_host : Host
empty_host = record host { current = none }

abbrev works : World
works = record {
  fetch = some staged;
  backup = some "b1";
  migrate = λ binary. some true;
  installs = λ events place binary. true;
  unlinks = λ events. true;
  restart_returns = true;
}

abbrev breaks : World
breaks = record works { migrate = λ binary. some false }

upgrade-backs_up_example :
    ((upgrade breaks host).1 ≡ host)
    ⊎ (((upgrade breaks host).1 ≡ note fetched host) ⊎ HasBackup [] (upgrade breaks host).1.events)
upgrade-backs_up_example = upgrade-backs_up breaks host

sound :
    (w : World)
    → w.installs ≡ works.installs
    → w.unlinks ≡ works.unlinks
    → w.restart_returns ≡ true
    → IsSound w
sound w i u r =
    (λ events place binary. ap (λ f. f events place binary) i, λ events. ap (λ f. f events) u, r)

upgrade-IsRestored_example :
    IsRestored staged "b1" (backed_up ∷ fetched ∷ []) empty_host (upgrade breaks empty_host)
upgrade-IsRestored_example =
    upgrade-IsRestored breaks empty_host staged "b1" refl refl refl (sound breaks refl refl refl)

rollback-upgrade_example : IsBack works host staged "b1" "old" (upgrade works host).1
rollback-upgrade_example =
    rollback-upgrade works works host staged "b1" "old" refl refl refl (sound works refl refl refl)
      (sound works refl refl refl) refl
