-- ===== src/AppDrive/Reports.antt =====
-- env/app_drive_proc.py: the answer of `terminate_verified` is what its last events say.
use celestia_devtools.Prelude.{
  Bool, true, false, Option, none, some, ◌∷◌, ◌≡◌, refl, Option-cases, Bool-cases, inl, inr, not,
  if◌then◌else◌,
}
use celestia_devtools.AppDrive.{
  World, Launch, Log, checked, looked, taskkill, killpg, kill, waited, verify_process_identity,
  send, signal_tree, force_kill, recheck, soft_kill, terminate_tree, terminate_verified, await,
  gone, Refusal, Answer, not_running, terminated, close_failed, refused,
}

-- Whether the newest signal was forced; `none` where the newest event is no signal.
abbrev pub newest_signal : Log → Option Bool
newest_signal (taskkill force ∷ log) = some force
newest_signal (killpg force ∷ log) = some force
newest_signal (kill force ∷ log) = some force
newest_signal log = none

-- `not-running` follows a look that saw the process gone, `terminated` a wait that saw it exit after
-- a signal of the kind that is told, `close-failed` a forced signal and a wait in vain, and a refusal
-- the verification that failed.
abbrev pub IsReported : Answer → Log → Type 0
IsReported not_running (looked seen ∷ log) = seen ≡ true
IsReported (terminated forced ms) (waited seen ∷ log) =
    (seen ≡ some ms) × (newest_signal log ≡ some forced)
IsReported (close_failed forced) (waited seen ∷ log) =
    (seen ≡ none) × (forced ≡ true) × (newest_signal log ≡ some true)
IsReported (refused refusal) (checked seen ∷ log) = seen ≡ some refusal
IsReported answer log = ⊥

abbrev pub IsReport : Answer × Log → Type 0
IsReport result = IsReported result.0 result.1

module _ (w : World) (verify : Option (Log → Option Refusal)) (child : Bool) where
  newest_signal-send : (force : Bool) (log : Log) → newest_signal (send w force log) ≡ some force
  unfolding send signal_tree
  newest_signal-send force log = by_cases w.windows (w.leads_group log)
    where
      by_cases :
          (windows leads : Bool)
          → newest_signal (
              if windows
              then taskkill force ∷ log
              else (if not windows
                  then (if leads then killpg force ∷ log else kill force ∷ killpg force ∷ log)
                  else kill force ∷ log))
            ≡ some force
      by_cases true leads = refl
      by_cases false true = refl
      by_cases false false = refl

  force_kill-IsReport : (log : Log) → IsReport (force_kill w verify child log)
  unfolding force_kill
  force_kill-IsReport log = elim (Option-cases (await w child (send w true log))) [
    | inl runs ↦ rw (force_kill, runs) (refl, refl, newest_signal-send true log)
    | inr (ms, ended) ↦ rw (force_kill, ended) (refl, newest_signal-send true log)
  ]

  recheck-IsReport : (log : Log) → IsReport (recheck w verify child log)
  unfolding recheck
  recheck-IsReport log = elim (Option-cases verify) [
    | inl trusting ↦ rw (recheck, trusting) (force_kill-IsReport log)
    | inr (check, asked) ↦ elim (Option-cases (check log)) [
      | inl ok ↦ rw (recheck, asked, ok) (force_kill-IsReport (checked none ∷ log))
      | inr (refusal, bad) ↦ rw (recheck, asked, bad) refl
    ]
  ]

  soft_kill-IsReport : (log : Log) → IsReport (soft_kill w verify child log)
  unfolding soft_kill
  soft_kill-IsReport log = elim (Option-cases (await w child (send w false log))) [
    | inl runs ↦ rw (soft_kill, runs) (recheck-IsReport (waited none ∷ send w false log))
    | inr (ms, ended) ↦ rw (soft_kill, ended) (refl, newest_signal-send false log)
  ]

  terminate_tree-IsReport : (log : Log) → IsReport (terminate_tree w verify child log)
  unfolding terminate_tree
  terminate_tree-IsReport log = elim (Bool-cases (gone w child log)) [
    | inl ended ↦ rw (terminate_tree, ended) refl
    | inr runs ↦ rw (terminate_tree, runs) (soft_kill-IsReport (looked false ∷ log))
  ]

-- Whatever the world does, `terminate_verified` reports what its last events say: gone when looked
-- at, exited in a wait after a signal of the told kind, alive after the forced signal, or refused.
pub terminate_verified-IsReport :
    (w : World) (launch : Launch) (child : Bool) (log : Log)
    → IsReport (terminate_verified w launch child log)
unfolding terminate_verified
terminate_verified-IsReport w launch child log =
    elim (Option-cases (verify_process_identity w launch log)) [
      | inr (refusal, bad) ↦ rw (terminate_verified, bad) refl
      | inl ok ↦ elim (Option-cases (verify_process_identity w launch (checked none ∷ log))) [
        | inr (refusal, bad) ↦ rw (terminate_verified, ok, bad) refl
        | inl again ↦
            rw (terminate_verified, ok, again)
              (terminate_tree-IsReport w (some (verify_process_identity w launch)) child
                (checked none ∷ checked none ∷ log))
      ]
    ]
