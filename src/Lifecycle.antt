-- ===== src/Lifecycle.antt =====
-- deploy/lifecycle.py: `upgrade` and `rollback` of a deployment, with its ledger.
pub mod Upgrades
mod Samples
use celestia_devtools.Prelude.{
  ℕ, String, Bool, true, false, Option, none, some, List, [], ◌∷◌, ◌++◌, if◌then◌else◌,
}

-- What `resolve` and `fetch` give: the entry and the staged binary.
pub record Staged : Type 0 where
  pub version : String
  pub sha256 : String
  pub binary : String

-- A line of the ledger, without its time and its words.
pub data Line : Type 0 where
  upgrade_line : (version sha256 backup : String) (succeeded : Bool) → Line
  rollback_line : (succeeded : Bool) → Line

-- `bin_path`, `prev_path` and the `.failed` path.
pub data Place : Type 0 where
  at_current at_previous at_failed : Place

-- What the functions do outside the ledger, the newest first.
pub data Event : Type 0 where
  fetched backed_up : Event
  installed : Place → (binary : String) → Event
  migrated : (binary : String) → Event
  restarted : Event

-- The binaries at the three places, the ledger and the events.
pub record Host : Type 0 where
  pub current : Option String
  pub previous : Option String
  pub failed : Option String
  pub history : List Line
  pub events : List Event

-- The rest of the deployment; `none` is an exception. `migrate` tells whether the exit code is 0;
-- `installs` and `unlinks` tell whether an `_install` and an `unlink` return, after the events so far.
pub record World : Type 0 where
  pub fetch : Option Staged
  pub backup : Option String
  pub migrate : String → Option Bool
  pub installs : List Event → Place → String → Bool
  pub unlinks : List Event → Bool
  pub restart_returns : Bool

pub data Answer : Type 0 where
  raised : Answer
  outcome : (ok : Bool) (version : String) (rolled_back : Bool) → Answer

abbrev pub note : Event → Host → Host
note event h = record h { events = event ∷ h.events }

abbrev pub put_at : Place → String → Host → Host
put_at at_current binary h = record h { current = some binary }
put_at at_previous binary h = record h { previous = some binary }
put_at at_failed binary h = record h { failed = some binary }

-- `_install`, and whether it returned. It replaces the file in its last step, so that one which
-- raises leaves the place as it was.
unfoldable pub install : World → Place → String → Host → Bool × Host
install w place binary h =
    if w.installs h.events place binary
    then (true, note (installed place binary) (put_at place binary h))
    else (false, h)

-- `_install` of a file that may be missing.
unfoldable pub install_existing : World → Place → Option String → Host → Bool × Host
unfolding install
install_existing w place none h = (true, h)
install_existing w place (some binary) h = install w place binary h

-- What comes after a statement, which raised where the test is false.
unfoldable pub and_then : Bool × Host → (Host → Answer × Host) → Answer × Host
and_then (false, h) next = (raised, h)
and_then (true, h) next = next h

-- `_restart` and `history_append`, and the outcome.
unfoldable pub finish : World → Line → Answer → Host → Answer × Host
finish w line answer h =
    let after = note restarted h in
    if w.restart_returns
    then (answer, record after { history = after.history ++ line ∷ [] })
    else (raised, after)

-- From the exit code of the migration on.
unfoldable pub after_migration : World → Staged → String → Host → Option Bool → Answer × Host
unfolding finish install_existing and_then
after_migration w staged backup h none = (raised, h)
after_migration w staged backup h (some true) =
    finish w (upgrade_line staged.version staged.sha256 backup true)
      (outcome true staged.version false) h
after_migration w staged backup h (some false) =
    and_then (install_existing w at_current h.previous h) (
      finish w (upgrade_line staged.version staged.sha256 backup false)
        (outcome false staged.version true))

-- The unlinking of the staged file, and the migration.
unfoldable pub migrate_new : World → Staged → String → Host → Answer × Host
unfolding after_migration and_then
migrate_new w staged backup h =
    and_then (w.unlinks h.events, h)
      (λ x.
        after_migration w staged backup (note (migrated staged.binary) x) (w.migrate staged.binary))

-- From the backup on.
unfoldable pub swap : World → Staged → String → Host → Answer × Host
unfolding migrate_new install install_existing and_then
swap w staged backup h =
    and_then (install_existing w at_previous h.current h)
      (λ x. and_then (install w at_current staged.binary x) (migrate_new w staged backup))

unfoldable pub upgrade : World → Host → Answer × Host
unfolding swap
upgrade w h = elim w.fetch [
  | none ↦ (raised, h)
  | some staged ↦
      let ready = note fetched h in
      elim w.backup [
        | none ↦ (raised, ready)
        | some backup ↦ swap w staged backup (note backed_up ready)
      ]
]

-- The last steps of `rollback`: the kept binary is unlinked once it is in its place.
unfoldable pub unlink_previous : World → Host → Answer × Host
unfolding finish and_then
unlink_previous w h =
    and_then (w.unlinks h.events, h)
      (λ x. finish w (rollback_line true) (outcome true "" false) (record x { previous = none }))

unfoldable pub rollback : World → Host → Answer × Host
unfolding unlink_previous install install_existing and_then
rollback w h = elim h.previous [
  | none ↦ (outcome false "" false, record h { history = h.history ++ rollback_line false ∷ [] })
  | some binary ↦
      and_then (install_existing w at_failed h.current h)
        (λ x. and_then (install w at_current binary x) (unlink_previous w))
]
