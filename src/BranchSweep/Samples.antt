-- ===== src/BranchSweep/Samples.antt =====
-- A repository with a base, a merged branch whose upstream is gone, and one that is still alive.
use celestia_devtools.Prelude.{
  String, ◌≡◌, refl, inl, true, none, some, List, [], ◌∷◌, Text, codes, text_eq,
}
use celestia_devtools.BranchList.{Branch, local_branches}
use celestia_devtools.BranchList.Records.{print_branches, local_branches-print}
use celestia_devtools.BranchSweep.{
  Git, base_ref, Report, keep, delete, upstream_alive, tip_is_ancestor, swept, sweep_repo,
}
use celestia_devtools.BranchSweep.Sweepable.{IsSafe}
use celestia_devtools.BranchSweep.Safe.{IsBase, sweep_repo-IsSafe}
use celestia_devtools.BranchSweep.Backups.{HasPatch, sweep_repo-HasPatch}

abbrev branch : String → String → String → Branch
branch name upstream track = record {
  name = codes name;
  upstream = codes upstream;
  track = codes track;
}

abbrev branches : List Branch
branches =
    branch "master" "origin/master" ""
    ∷ branch "fix/a" "origin/fix/a" "gone"
    ∷ branch "b" "origin/b" "ahead 1"
    ∷ []

local_branches-print_example : local_branches (some (print_branches branches)) ≡ some branches
local_branches-print_example = local_branches-print branches refl

abbrev git : Git
git = record {
  verifies = λ deleted ref. true;
  head = codes "master";
  worktree_lines = codes "worktree /repo" ∷ codes "branch refs/heads/master" ∷ [];
  for_each_ref = some (print_branches branches);
  merged_into = λ deleted name base. text_eq name (codes "fix/a");
  name_only = λ deleted base name. codes "x.py" ∷ [];
  shortstat = λ deleted base name f. some (codes " 1 file changed");
  three_dot = λ deleted base name. codes "+x";
  tip = λ deleted name. codes "abc";
  delete_branch = λ deleted name. none;
}

abbrev report : Report
report = record {
  verdicts =
      delete (codes "fix/a") tip_is_ancestor
      ∷ keep (codes "b") (upstream_alive (codes "origin/b"))
      ∷ [];
  deleted = codes "fix/a" ∷ [];
  failed = [];
  backups = (codes "fix__a.patch", codes "tip abc\n+x") ∷ [];
}

sweeps : sweep_repo git none true ≡ swept report
unfolding sweep_repo
sweeps = refl

sweep_repo-IsSafe_example :
    (base : Text) × (bs : List Branch) × IsBase git none base
    × (local_branches git.for_each_ref ≡ some bs)
    × IsSafe git base bs true report
sweep_repo-IsSafe_example = sweep_repo-IsSafe git none true report sweeps

sweep_repo-HasPatch_example :
    (base : Text) × (base_ref git none ≡ some base) × HasPatch git base report (codes "fix/a")
sweep_repo-HasPatch_example =
    sweep_repo-HasPatch git none true report (codes "fix/a") sweeps (inl refl)
