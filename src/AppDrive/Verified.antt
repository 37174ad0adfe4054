-- ===== src/AppDrive/Verified.antt =====
-- env/app_drive_proc.py: what a verification that succeeds says of the live process.
use celestia_devtools.Prelude.{
  true, false, none, some, ◌≡◌, arith, Option-cases, inl, inr, str_eq, eq_iff, ◌↔◌,
}
use celestia_devtools.AppDrive.{
  World, Launch, Identity, Log, verify_process_identity, compare_identity, same_image_path,
}

-- The launch state names an executable, a creation token and its kind.
abbrev pub IsRecorded : Launch → Type 0
IsRecorded launch =
    (str_eq launch.exe "" ≡ false)
    × (str_eq launch.create_token "" ≡ false)
    × (str_eq launch.create_kind "" ≡ false)

-- The live process runs that executable and was created with that token of that kind.
abbrev pub IsLaunched : World → Launch → Identity → Type 0
IsLaunched w launch current =
    (same_image_path w launch.exe current.image ≡ true)
    × (current.kind ≡ launch.create_kind)
    × (current.token ≡ launch.create_token)

compare_identity_iff :
    (w : World) (launch : Launch) (current : Identity)
    → (compare_identity w launch current ≡ none) ↔ IsLaunched w launch current
unfolding compare_identity
compare_identity_iff w launch current =
    ground (arith, eq_iff current.kind launch.create_kind, eq_iff current.token launch.create_token)

verified_of :
    (w : World) (launch : Launch) (log : Log) (current : Identity)
    → w.probe log ≡ some current
    → (verify_process_identity w launch log ≡ none)
      ↔ (IsRecorded launch × (compare_identity w launch current ≡ none))
unfolding verify_process_identity
verified_of w launch log current seen = ground (arith, seen)

-- `verify_process_identity` returns exactly if the launch state is complete and the live process can
-- be inspected, runs the recorded executable, and has the recorded creation token and kind.
pub verify_process_identity_iff :
    (w : World) (launch : Launch) (log : Log)
    → (verify_process_identity w launch log ≡ none) ↔ (
        IsRecorded launch
        × (current : Identity) × (w.probe log ≡ some current)
        × IsLaunched w launch current)
unfolding verify_process_identity
verify_process_identity_iff w launch log = elim (Option-cases (w.probe log)) [
  | inl unseen ↦ (
    λ h. ground (arith, h, unseen),
    λ (recorded, current, seen, same). ground (arith, seen, unseen),
  )
  | inr (current, seen) ↦ (
    λ h.
        let (recorded, same) = (verified_of w launch log current seen).0 h in
        (recorded, current, seen, (compare_identity_iff w launch current).0 same),
    λ (recorded, other, at, same).
        (verified_of w launch log other at).1
          (recorded, (compare_identity_iff w launch other).1 same),
  )
]
