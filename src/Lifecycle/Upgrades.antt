-- ===== src/Lifecycle/Upgrades.antt =====
-- deploy/lifecycle.py: no swap without a backup, what a failed migration leaves, and the way back.
use celestia_devtools.Prelude.{
  String, Bool, true, false, Option, none, some, List, [], ◌∷◌, ◌++◌, ◌≡◌, refl, Option-cases,
  Bool-cases, inl, inr, ap, ◌∙◌, ◌⊎◌,
}
use celestia_devtools.Lifecycle.{
  Staged, Line, upgrade_line, rollback_line, Event, fetched, backed_up, installed, migrated,
  restarted, Host, World, Answer, outcome, note, Place, at_current, at_previous, at_failed, put_at,
  install, install_existing, and_then, finish, after_migration, migrate_new, swap, upgrade,
  rollback, unlink_previous,
}

-- The events reach back to the backup of the upgrade that began at `start`.
pub data HasBackup (start : List Event) : List Event → Type 0 where
  first : HasBackup start (backed_up ∷ fetched ∷ start)
  later :
      (event : Event) (events : List Event)
      → HasBackup start events
      → HasBackup start (event ∷ events)

abbrev host_of : (current previous failed : Option String) → List Line → List Event → Host
host_of c p f l e = record { current = c; previous = p; failed = f; history = l; events = e }

module _ (w : World) (start : List Event) where
  finish-HasBackup :
      (line : Line) (answer : Answer) (h : Host)
      → HasBackup start h.events
      → HasBackup start (finish w line answer h).1.events
  unfolding finish
  finish-HasBackup line answer h b = elim (Bool-cases w.restart_returns) [
    | inl returns ↦ rw (finish, returns) (later restarted h.events b)
    | inr raises ↦ rw (finish, raises) (later restarted h.events b)
  ]

  install-HasBackup :
      (place : Place) (binary : String) (h : Host)
      → HasBackup start h.events
      → HasBackup start (install w place binary h).1.events
  unfolding install
  install-HasBackup place binary h b = elim (Bool-cases (w.installs h.events place binary)) [
    | inl returns ↦ rw (install, returns) (noted place)
    | inr raises ↦ rw (install, raises) b
  ]
    where
      noted : (p : Place) → HasBackup start (note (installed p binary) (put_at p binary h)).events
      noted at_current = later (installed at_current binary) h.events b
      noted at_previous = later (installed at_previous binary) h.events b
      noted at_failed = later (installed at_failed binary) h.events b

  install_existing-HasBackup :
      (place : Place) (file : Option String) (h : Host)
      → HasBackup start h.events
      → HasBackup start (install_existing w place file h).1.events
  unfolding install_existing
  install_existing-HasBackup place none h b = b
  install_existing-HasBackup place (some binary) h b = install-HasBackup place binary h b

  and_then-HasBackup :
      (first_part : Bool × Host) (next : Host → Answer × Host)
      → HasBackup start first_part.1.events
      → ((h : Host) → HasBackup start h.events → HasBackup start (next h).1.events)
      → HasBackup start (and_then first_part next).1.events
  unfolding and_then
  and_then-HasBackup (false, h) next b each = b
  and_then-HasBackup (true, h) next b each = each h b

  after_migration-HasBackup :
      (staged : Staged) (backup : String) (h : Host) (exit : Option Bool)
      → HasBackup start h.events
      → HasBackup start (after_migration w staged backup h exit).1.events
  unfolding after_migration
  after_migration-HasBackup staged backup h none b = b
  after_migration-HasBackup staged backup h (some true) b = finish-HasBackup _ _ h b
  after_migration-HasBackup staged backup h (some false) b =
      and_then-HasBackup (install_existing w at_current h.previous h) _
        (install_existing-HasBackup at_current h.previous h b) (λ x c. finish-HasBackup _ _ x c)

  migrate_new-HasBackup :
      (staged : Staged) (backup : String) (h : Host)
      → HasBackup start h.events
      → HasBackup start (migrate_new w staged backup h).1.events
  unfolding migrate_new
  migrate_new-HasBackup staged backup h b =
      and_then-HasBackup (w.unlinks h.events, h) _ b
        (λ x c.
          after_migration-HasBackup staged backup (note (migrated staged.binary) x)
            (w.migrate staged.binary) (later (migrated staged.binary) x.events c))

  swap-HasBackup :
      (staged : Staged) (backup : String) (h : Host)
      → HasBackup start h.events
      → HasBackup start (swap w staged backup h).1.events
  unfolding swap
  swap-HasBackup staged backup h b =
      and_then-HasBackup (install_existing w at_previous h.current h) _
        (install_existing-HasBackup at_previous h.current h b)
        (λ x c.
          and_then-HasBackup (install w at_current staged.binary x) _
            (install-HasBackup at_current staged.binary x c)
            (λ y d. migrate_new-HasBackup staged backup y d))

-- Whatever fails, `upgrade` has left the host alone but for a fetch, or it took a backup right after
-- the fetch, before everything else that it did.
pub upgrade-backs_up :
    (w : World) (h : Host)
    → ((upgrade w h).1 ≡ h)
      ⊎ (((upgrade w h).1 ≡ note fetched h) ⊎ HasBackup h.events (upgrade w h).1.events)
unfolding upgrade
upgrade-backs_up w h = elim (Option-cases w.fetch) [
  | inl n ↦ inl (rw (upgrade, n) refl)
  | inr (staged, s) ↦ elim (Option-cases w.backup) [
    | inl n ↦ inr (inl (rw (upgrade, s, n) refl))
    | inr (backup, b) ↦ inr (
        inr (
          rw (upgrade, s, b)
            (swap-HasBackup w h.events staged backup (note backed_up (note fetched h)) first)))
  ]
]

abbrev pub or_else : Option String → Option String → Option String
or_else none other = other
or_else (some binary) other = some binary

-- No file operation raises, and the restart returns.
abbrev pub IsSound : World → Type 0
IsSound w =
    ((events : List Event) (place : Place) (binary : String)
      → w.installs events place binary ≡ true)
    × ((events : List Event) → w.unlinks events ≡ true)
    × (w.restart_returns ≡ true)

-- The installation of a binary, where there is one.
abbrev pub puts : Place → Option String → List Event
puts place none = []
puts place (some binary) = installed place binary ∷ []

-- What a migration that fails leaves, in an upgrade that went on to its backup with the events
-- `start`: its answer, the binary, the ledger and everything that it did, the newest first.
abbrev pub IsRestored : Staged → String → List Event → Host → Answer × Host → Type 0
IsRestored staged backup start h result =
    (result.0 ≡ outcome false staged.version true)
    × (result.1.current ≡ or_else h.current (or_else h.previous (some staged.binary)))
    × (result.1.history ≡ h.history ++ upgrade_line staged.version staged.sha256 backup false ∷ [])
    × (result.1.events
        ≡ restarted ∷ puts at_current (or_else h.current h.previous)
          ++ (migrated staged.binary
              ∷ installed at_current staged.binary
              ∷ (puts at_previous h.current ++ start)))

swap-IsRestored :
    (w : World) (staged : Staged) (backup : String) (c p f : Option String) (l : List Line)
    (e : List Event)
    → w.migrate staged.binary ≡ some false
    → IsSound w
    → IsRestored staged backup e (host_of c p f l e) (swap w staged backup (host_of c p f l e))
unfolding swap after_migration migrate_new install install_existing and_then finish
swap-IsRestored w staged backup (some old) p f l e m (i, u, r) =
    (simp (i, u, m, r) refl, simp (i, u, m, r) refl, simp (i, u, m, r) refl, simp (i, u, m, r) refl)
swap-IsRestored w staged backup none (some old) f l e m (i, u, r) =
    (simp (i, u, m, r) refl, simp (i, u, m, r) refl, simp (i, u, m, r) refl, simp (i, u, m, r) refl)
swap-IsRestored w staged backup none none f l e m (i, u, r) =
    (simp (i, u, m, r) refl, simp (i, u, m, r) refl, simp (i, u, m, r) refl, simp (i, u, m, r) refl)

-- When the fetch, the backup, the file operations and the restart succeed and the migration fails,
-- `upgrade` keeps the binary of before, installs and migrates the new one, puts the binary of before
-- back, else an older kept one, restarts, records the failure and reports a rollback, and does
-- nothing else; where there is neither, the new binary stays and a rollback is reported all the same.
pub upgrade-IsRestored :
    (w : World) (h : Host) (staged : Staged) (backup : String)
    → w.fetch ≡ some staged
    → w.backup ≡ some backup
    → w.migrate staged.binary ≡ some false
    → IsSound w
    → IsRestored staged backup (backed_up ∷ fetched ∷ h.events) h (upgrade w h)
unfolding upgrade
upgrade-IsRestored w h staged backup s b m sound =
    rw (upgrade, s, b)
      (swap-IsRestored w staged backup h.current h.previous h.failed h.history _ m sound)

-- The host after an upgrade that succeeds, and after the rollback of it.
upgraded :
    (w : World) (staged : Staged) (backup old : String) (p f : Option String) (l : List Line)
    (e : List Event)
    → w.migrate staged.binary ≡ some true
    → IsSound w
    → swap w staged backup (host_of (some old) p f l e) ≡ (
      outcome true staged.version false,
      host_of
          (some staged.binary)
          (some old)
          f
          (l ++ upgrade_line staged.version staged.sha256 backup true ∷ [])
          (restarted
            ∷ migrated staged.binary
            ∷ installed at_current staged.binary
            ∷ installed at_previous old
            ∷ e),
    )
unfolding swap after_migration migrate_new install install_existing and_then finish
upgraded w staged backup old p f l e m (i, u, r) = simp (i, u, m, r) refl

abbrev pub IsBack : World → Host → Staged → String → String → Host → Type 0
IsBack back h staged backup old after =
    ((rollback back after).0 ≡ outcome true "" false)
    × ((rollback back after).1.current ≡ some old)
    × ((rollback back after).1.failed ≡ some staged.binary)
    × ((rollback back after).1.history
        ≡ (h.history ++ upgrade_line staged.version staged.sha256 backup true ∷ [])
          ++ rollback_line true ∷ [])

rolled_back :
    (back : World) (new old : String) (f : Option String) (l : List Line) (e : List Event)
    → IsSound back
    → rollback back (host_of (some new) (some old) f l e) ≡ (
      outcome true "" false,
      host_of
          (some old)
          none
          (some new)
          (l ++ rollback_line true ∷ [])
          (restarted ∷ installed at_current old ∷ installed at_failed new ∷ e),
    )
unfolding rollback unlink_previous install install_existing and_then finish
rolled_back back new old f l e (i, u, r) = simp (i, u, r) refl

-- On a host with a binary, after an upgrade in which everything succeeds, a `rollback` in which the
-- file operations succeed and the restart returns puts the binary of before in its place, keeps the
-- new one as the failed copy, and adds its line to the ledger behind that of the upgrade.
pub rollback-upgrade :
    (w back : World) (h : Host) (staged : Staged) (backup old : String)
    → w.fetch ≡ some staged
    → w.backup ≡ some backup
    → w.migrate staged.binary ≡ some true
    → IsSound w
    → IsSound back
    → h.current ≡ some old
    → IsBack back h staged backup old (upgrade w h).1
unfolding upgrade
rollback-upgrade w back h staged backup old s b m sound sound' c =
    rw (upgrade, s, b, fresh, rolled_back back staged.binary old h.failed _ _ sound')
      (refl, refl, refl, refl)
  where
    fresh : swap w staged backup (record h { events = backed_up ∷ fetched ∷ h.events }) ≡ (
      outcome true staged.version false,
      host_of
          (some staged.binary)
          (some old)
          h.failed
          (h.history ++ upgrade_line staged.version staged.sha256 backup true ∷ [])
          (restarted
            ∷ migrated staged.binary
            ∷ installed at_current staged.binary
            ∷ installed at_previous old
            ∷ backed_up
            ∷ fetched
            ∷ h.events),
    )
    fresh =
        ap
          (λ x.
            swap w staged backup
              (host_of x h.previous h.failed h.history (backed_up ∷ fetched ∷ h.events)))
          c
        ∙ upgraded w staged backup old h.previous h.failed h.history
            (backed_up ∷ fetched ∷ h.events) m sound
