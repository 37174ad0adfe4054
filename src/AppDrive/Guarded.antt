-- ===== src/AppDrive/Guarded.antt =====
-- env/app_drive_proc.py: `terminate_verified` sends no signal that a verification does not cover.
use celestia_devtools.Prelude.{
  Bool, true, false, Option, none, some, [], ◌∷◌, ◌≡◌, Option-cases, Bool-cases, inl, inr, not,
  if◌then◌else◌,
}
use celestia_devtools.AppDrive.{
  World, Launch, Log, Event, checked, looked, taskkill, killpg, kill, waited,
  verify_process_identity, send, signal_tree, force_kill, recheck, soft_kill, terminate_tree,
  terminate_verified, await, gone, Refusal,
}

module _ (w : World) (launch : Launch) where
  -- The newest event is a verification that succeeded, or a forced signal right after one.
  abbrev pub Forced : Log → Type 0
  Forced (checked none ∷ log) = verify_process_identity w launch log ≡ none
  Forced (killpg true ∷ log) = Forced log
  Forced log = ⊥

  -- The same for the soft signal, with the look whether the process still runs in between.
  abbrev pub Soft : Log → Type 0
  Soft (looked false ∷ log) = Forced log
  Soft (killpg false ∷ log) = Soft log
  Soft log = ⊥

  abbrev pub Covered : Bool → Log → Type 0
  Covered true log = Forced log
  Covered false log = Soft log

  abbrev pub IsCovered : Event → Log → Type 0
  IsCovered (taskkill force) log = Covered force log
  IsCovered (killpg force) log = Covered force log
  IsCovered (kill force) log = Covered force log
  IsCovered event log = Unit

  -- Every signal of the log is covered by a verification of this launch that succeeded.
  abbrev pub IsGuarded : Log → Type 0
  IsGuarded [] = Unit
  IsGuarded (event ∷ log) = IsCovered event log × IsGuarded log

  Covered-killpg :
      (force : Bool) (log : Log) → Covered force log → Covered force (killpg force ∷ log)
  Covered-killpg true log c = c
  Covered-killpg false log c = c

  sent-IsGuarded :
      (windows leads force : Bool) (log : Log)
      → Covered force log
      → IsGuarded log
      → IsGuarded (
          if windows
          then taskkill force ∷ log
          else (if not windows
              then (if leads then killpg force ∷ log else kill force ∷ killpg force ∷ log)
              else kill force ∷ log))
  sent-IsGuarded true leads force log c g = (c, g)
  sent-IsGuarded false true force log c g = (c, g)
  sent-IsGuarded false false force log c g = (Covered-killpg force log c, (c, g))

  send-IsGuarded :
      (force : Bool) (log : Log) → Covered force log → IsGuarded log → IsGuarded (send w force log)
  unfolding send signal_tree
  send-IsGuarded force log c g = sent-IsGuarded w.windows (w.leads_group log) force log c g

  abbrev verify : Option (Log → Option Refusal)
  verify = some (verify_process_identity w launch)

  force_kill-IsGuarded :
      (child : Bool) (log : Log)
      → Forced log
      → IsGuarded log
      → IsGuarded (force_kill w verify child log).1
  unfolding force_kill
  force_kill-IsGuarded child log f g = (tt, send-IsGuarded true log f g)

  recheck-IsGuarded :
      (child : Bool) (log : Log) → IsGuarded log → IsGuarded (recheck w verify child log).1
  unfolding recheck
  recheck-IsGuarded child log g = elim (Option-cases (verify_process_identity w launch log)) [
    | inl ok ↦ rw (recheck, ok) (force_kill-IsGuarded child (checked none ∷ log) ok (tt, g))
    | inr (refusal, bad) ↦ rw (recheck, bad) (tt, g)
  ]

  soft_kill-IsGuarded :
      (child : Bool) (log : Log)
      → Soft log
      → IsGuarded log
      → IsGuarded (soft_kill w verify child log).1
  unfolding soft_kill
  soft_kill-IsGuarded child log s g =
      let after = send-IsGuarded false log s g in
      elim (Option-cases (await w child (send w false log))) [
        | inl runs ↦
            rw (soft_kill, runs)
              (recheck-IsGuarded child (waited none ∷ send w false log) (tt, after))
        | inr (ms, ended) ↦ rw (soft_kill, ended) (tt, after)
      ]

  terminate_tree-IsGuarded :
      (child : Bool) (log : Log)
      → Forced log
      → IsGuarded log
      → IsGuarded (terminate_tree w verify child log).1
  unfolding terminate_tree
  terminate_tree-IsGuarded child log f g = elim (Bool-cases (gone w child log)) [
    | inl ended ↦ rw (terminate_tree, ended) (tt, g)
    | inr runs ↦
        rw (terminate_tree, runs) (soft_kill-IsGuarded child (looked false ∷ log) f (tt, g))
  ]

-- Whatever the world does, every signal in the log of `terminate_verified` is covered: a soft one
-- comes right after a verification of the recorded process that succeeded and a look that saw it
-- run, a forced one right after another verification that succeeded.
pub terminate_verified-IsGuarded :
    (w : World) (launch : Launch) (child : Bool) (log : Log)
    → IsGuarded w launch log
    → IsGuarded w launch (terminate_verified w launch child log).1
unfolding terminate_verified
terminate_verified-IsGuarded w launch child log g =
    elim (Option-cases (verify_process_identity w launch log)) [
      | inr (refusal, bad) ↦ rw (terminate_verified, bad) (tt, g)
      | inl ok ↦ elim (Option-cases (verify_process_identity w launch (checked none ∷ log))) [
        | inr (refusal, bad) ↦ rw (terminate_verified, ok, bad) (tt, (tt, g))
        | inl again ↦
            rw (terminate_verified, ok, again)
              (terminate_tree-IsGuarded w launch child (checked none ∷ checked none ∷ log) again
                (tt, (tt, g)))
      ]
    ]
