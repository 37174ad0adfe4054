-- ===== src/AppDrive.antt =====
-- env/app_drive_proc.py: the identity of a launched process and the termination of its tree. The
-- outside world is a record of functions of the log, the events so far with the newest first.
pub mod Verified
pub mod Waiting
pub mod Guarded
pub mod Reports
mod Samples
use celestia_devtools.Prelude.{
  ℕ, zero, suc, String, Bool, true, false, Option, none, some, List, [], ◌∷◌, str_eq, leb,
  if◌then◌else◌, ◌||◌, not,
}

-- The keys `exe`, `create_token` and `create_kind` of a launch state; a missing one is "".
pub record Launch : Type 0 where
  pub exe : String
  pub create_token : String
  pub create_kind : String

-- What `read_process_identity` gives of a live process.
pub record Identity : Type 0 where
  pub image : String
  pub token : String
  pub kind : String

-- The code of a `cdp_error` that refuses to touch the process.
pub data Refusal : Type 0 where
  identity_unavailable pid_mismatch : Refusal

pub data Event : Type 0 where
  checked : Option Refusal → Event
  looked : (gone : Bool) → Event
  taskkill killpg kill : (force : Bool) → Event
  waited : Option ℕ → Event

abbrev pub Log : Type 0
Log = List Event

pub record World : Type 0 where
  pub windows : Bool
  -- os.path.normcase(os.path.abspath(path)), and of realpath, where that gives one
  pub normal : String → String
  pub real : String → Option String
  pub probe : Log → Option Identity
  -- `child.poll() is not None`, and what `child.wait` with the grace finds
  pub child_gone : Log → Bool
  pub child_wait : Log → Option ℕ
  -- pid_alive; at each round of a wait, the milliseconds, the liveness, the milliseconds again
  pub pid_alive : Log → Bool
  pub alive_at : Log → ℕ → Bool
  pub clock_at : Log → ℕ → ℕ
  pub ended_at : Log → ℕ → ℕ
  -- `os.killpg` raises no `OSError`
  pub leads_group : Log → Bool
  pub grace : ℕ

unfoldable pub same_image_path : World → String → String → Bool
same_image_path w left right = str_eq (w.normal left) (w.normal right) || elim (w.real left) [
  | none ↦ false
  | some l ↦ elim (w.real right) [ none ↦ false | some r ↦ str_eq l r ]
]

-- The comparisons of `verify_process_identity`, once the live identity is read.
unfoldable pub compare_identity : World → Launch → Identity → Option Refusal
unfolding same_image_path
compare_identity w launch current =
    if not (same_image_path w launch.exe current.image)
    then some pid_mismatch
    else if not (str_eq current.kind launch.create_kind)
    then some pid_mismatch
    else if not (str_eq current.token launch.create_token)
    then some pid_mismatch
    else none

-- `verify_process_identity`: `none` where it returns, else the code that it raises.
unfoldable pub verify_process_identity : World → Launch → Log → Option Refusal
unfolding compare_identity
verify_process_identity w launch log =
    if str_eq launch.exe "" || (str_eq launch.create_token "" || str_eq launch.create_kind "")
    then some identity_unavailable
    else elim (w.probe log) [
      | none ↦ some identity_unavailable
      | some current ↦ compare_identity w launch current
    ]

-- The loop of `wait_pid_exit`: at each round the time is read, and then whether the process lives.
unfoldable pub wait_rounds :
    (clock ended : ℕ → ℕ) (alive : ℕ → Bool) (timeout fuel round : ℕ) → Option ℕ
wait_rounds clock ended alive timeout zero round = none
wait_rounds clock ended alive timeout (suc fuel) round =
    let later = wait_rounds clock ended alive timeout fuel (suc round) in
    if leb (clock round) timeout then (if alive round then later else some (ended round)) else none

unfoldable pub wait_pid_exit : World → Log → Option ℕ
unfolding wait_rounds
wait_pid_exit w log =
    wait_rounds (w.clock_at log) (w.ended_at log) (w.alive_at log) w.grace (suc w.grace) 0

-- `_signal_tree`, with `force` for SIGKILL in place of SIGTERM.
unfoldable pub signal_tree : World → Bool → Log → Log
signal_tree w force log =
    if not w.windows
    then (if w.leads_group log then killpg force ∷ log else kill force ∷ killpg force ∷ log)
    else kill force ∷ log

-- The signal of a round of `terminate_tree`: `_taskkill` or `_signal_tree`.
unfoldable pub send : World → Bool → Log → Log
unfolding signal_tree
send w force log = if w.windows then taskkill force ∷ log else signal_tree w force log

pub data Answer : Type 0 where
  not_running : Answer
  terminated : (forced : Bool) (waited_ms : ℕ) → Answer
  close_failed : (forced : Bool) → Answer
  refused : Refusal → Answer

-- The target is our own child, watched through its handle, or another process.
abbrev pub gone : World → Bool → Log → Bool
gone w child log = if child then w.child_gone log else not (w.pid_alive log)

abbrev pub await : World → Bool → Log → Option ℕ
await w child log = if child then w.child_wait log else wait_pid_exit w log

abbrev pub answer_of : Bool → Option ℕ → Answer
answer_of forced none = close_failed forced
answer_of forced (some ms) = terminated forced ms

module _ (w : World) (verify : Option (Log → Option Refusal)) (child : Bool) where
  unfoldable pub force_kill : Log → Answer × Log
  unfolding send wait_pid_exit
  force_kill log =
      let sent = send w true log in
      let seen = await w child sent in (answer_of true seen, waited seen ∷ sent)

  -- The re-validation just before the forced signal.
  unfoldable pub recheck : Log → Answer × Log
  unfolding force_kill
  recheck log = elim verify [
    | none ↦ force_kill log
    | some check ↦ elim (check log) [
      | some refusal ↦ (refused refusal, checked (some refusal) ∷ log)
      | none ↦ force_kill (checked none ∷ log)
    ]
  ]

  unfoldable pub soft_kill : Log → Answer × Log
  unfolding send recheck wait_pid_exit
  soft_kill log =
      let sent = send w false log in
      elim (await w child sent) [
        | some ms ↦ (terminated false ms, waited (some ms) ∷ sent)
        | none ↦ recheck (waited none ∷ sent)
      ]

  unfoldable pub terminate_tree : Log → Answer × Log
  unfolding soft_kill
  terminate_tree log =
      let seen = gone w child log in
      if seen then (not_running, looked seen ∷ log) else soft_kill (looked seen ∷ log)

unfoldable pub terminate_verified : World → Launch → Bool → Log → Answer × Log
unfolding verify_process_identity terminate_tree
terminate_verified w launch child log =
    let verify = verify_process_identity w launch in
    elim (verify log) [
      | some refusal ↦ (refused refusal, checked (some refusal) ∷ log)
      | none ↦
          let once = checked none ∷ log in
          elim (verify once) [
            | some refusal ↦ (refused refusal, checked (some refusal) ∷ once)
            | none ↦ terminate_tree w (some verify) child (checked none ∷ once)
          ]
    ]
