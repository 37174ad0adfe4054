-- ===== src/BranchSweep.antt =====
-- vcs/branch_sweep.py: the sweep of one repository, and the exit code of a run.
pub mod Sweepable
pub mod Safe
pub mod Backups
mod Samples
use celestia_devtools.Prelude.{
  ℕ, ◌+◌, Bool, true, false, ◌&&◌, ◌||◌, not, Option, none, some, List, [], ◌∷◌, ◌++◌, ◌==◌,
  if◌then◌else◌, is_nil, select, length, take, drop, Text, codes, strip, text_eq, is_prefix,
  contains,
}
use celestia_devtools.TextDict.{TextDict, put}
use celestia_devtools.BranchList.{Branch, local_branches}

-- What git answers in the repository. `deleted` are the branches that the sweep has deleted so far,
-- which a later answer may depend on.
pub record Git : Type 0 where
  pub verifies : List Text → Text → Bool
  pub head : Text
  pub worktree_lines : List Text
  pub for_each_ref : Option Text
  pub merged_into : List Text → Text → Text → Bool
  pub name_only : List Text → Text → Text → List Text
  pub shortstat : List Text → Text → Text → Text → Option Text
  pub three_dot : List Text → Text → Text → Text
  pub tip : List Text → Text → Text
  pub delete_branch : List Text → Text → Option Text

unfoldable pub base_ref : Git → Option Text → Option Text
base_ref git (some (c ∷ cs)) = some (c ∷ cs)
base_ref git _ =
    if git.verifies [] (codes "master")
    then some (codes "master")
    else if git.verifies [] (codes "main")
    then some (codes "main")
    else none

abbrev pub heads_prefix : Text
heads_prefix = codes "branch refs/heads/"

unfoldable pub worktree_branches : List Text → List Text
unfolding is_prefix drop
worktree_branches [] = []
worktree_branches (line ∷ lines) =
    let rest = worktree_branches lines in
    if is_prefix heads_prefix line then drop (length heads_prefix) line ∷ rest else rest

unfoldable pub upstream_gone : Git → List Text → Branch → Bool
unfolding contains
upstream_gone git deleted b =
    is_nil b.upstream || (contains (codes "gone") b.track || not (git.verifies deleted b.upstream))

unfoldable pub touched_files : Git → List Text → Text → Text → List Text
touched_files git deleted base name = select (λ f. not (is_nil f)) (git.name_only deleted base name)

-- out == "" or out.startswith("0 files changed"), for a call that succeeded
unfoldable pub is_unchanged : Option Text → Bool
unfolding strip is_prefix
is_unchanged none = false
is_unchanged (some out) = is_nil (strip out) || is_prefix (codes "0 files changed") (strip out)

unfoldable pub file_identical : Git → List Text → Text → Text → Text → Bool
unfolding is_unchanged
file_identical git deleted base name f = is_unchanged (git.shortstat deleted base name f)

abbrev pub one_of : Text → List Text → Bool
one_of t [] = false
one_of t (u ∷ us) = text_eq u t || one_of t us

pub data Reason : Type 0 where
  checked_out : Reason
  upstream_alive : Text → Reason
  unique_content : List Text → Reason
  tip_is_ancestor : Reason
  touches_no_files : Reason
  all_identical : ℕ → Reason

pub data Verdict : Type 0 where
  keep : Text → Reason → Verdict
  delete : Text → Reason → Verdict

-- The report, and the files of the backup directory.
pub record Report : Type 0 where
  pub verdicts : List Verdict
  pub deleted : List Text
  pub failed : List (Text × Text)
  pub backups : TextDict Text

-- name.replace("/", "__") + ".patch"
unfoldable pub underscored : Text → Text
underscored [] = []
underscored (c ∷ cs) =
    let rest = underscored cs in if c == b'/' then b'_' ∷ b'_' ∷ rest else c ∷ rest

unfoldable pub patch_name : Text → Text
unfolding underscored
patch_name name = underscored name ++ codes ".patch"

unfoldable pub patch_text : Git → List Text → Text → Text → Text
unfolding strip
patch_text git deleted base name =
    codes "tip " ++ strip (git.tip deleted name) ++ 10 ∷ git.three_dot deleted base name

unfoldable pub deletion : Option Text → Text → Report → Report
deletion none name r = record r { deleted = r.deleted ++ name ∷ [] }
deletion (some error) name r = record r { failed = r.failed ++ (name, error) ∷ [] }

-- write_text replaces a file of the same name.
unfoldable pub back_up : Git → Text → Text → Report → Report
unfolding patch_name patch_text put
back_up git base name r = record r {
  backups = put (patch_name name) (patch_text git r.deleted base name) r.backups;
}

abbrev pub judged : Verdict → Report → Report
judged v r = record r { verdicts = r.verdicts ++ v ∷ [] }

-- The verdict DELETE, and what --apply does with it.
unfoldable pub sweep_branch : Git → Text → Bool → Text → Reason → Report → Report
unfolding deletion back_up
sweep_branch git base apply name reason r =
    let r' = judged (delete name reason) r in
    if apply
    then deletion (git.delete_branch r.deleted name) name (back_up git base name r')
    else r'

-- The reason to sweep a branch whose upstream is gone; none where it has content of its own.
unfoldable pub sweep_reason : Git → List Text → Text → Text → Option Reason
unfolding touched_files file_identical
sweep_reason git deleted base name =
    let files = touched_files git deleted base name in
    if git.merged_into deleted name base
    then some tip_is_ancestor
    else if is_nil files
    then some touches_no_files
    else if length (select (file_identical git deleted base name) files) == length files
    then some (all_identical (length files))
    else none

unfoldable pub differing : Git → List Text → Text → Text → List Text
unfolding touched_files file_identical take text_eq
differing git deleted base name =
    let files = touched_files git deleted base name in
    let identical = select (file_identical git deleted base name) files in
    take 3 (select (λ f. not (one_of f identical)) files)

-- One round of the loop over the branches.
unfoldable pub sweep_one : Git → Text → Bool → Report → Branch → Report
unfolding worktree_branches upstream_gone sweep_reason differing sweep_branch text_eq
sweep_one git base apply r b =
    if text_eq b.name base
    then r
    else if text_eq b.name git.head || one_of b.name (worktree_branches git.worktree_lines)
    then judged (keep b.name checked_out) r
    else if not (upstream_gone git r.deleted b)
    then judged (keep b.name (upstream_alive b.upstream)) r
    else elim (sweep_reason git r.deleted base b.name) [
      | some reason ↦ sweep_branch git base apply b.name reason r
      | none ↦ judged (keep b.name (unique_content (differing git r.deleted base b.name))) r
    ]

unfoldable pub sweep_all : Git → Text → Bool → Report → List Branch → Report
unfolding sweep_one
sweep_all git base apply r [] = r
sweep_all git base apply r (b ∷ bs) = sweep_all git base apply (sweep_one git base apply r b) bs

pub data Outcome : Type 0 where
  skipped : Outcome
  parse_error : Outcome
  swept : Report → Outcome

abbrev pub empty_report : Report
empty_report = record { verdicts = []; deleted = []; failed = []; backups = [] }

unfoldable pub sweep_repo : Git → Option Text → Bool → Outcome
unfolding base_ref local_branches sweep_all
sweep_repo git requested apply = elim (base_ref git requested) [
  | none ↦ skipped
  | some base ↦ elim (local_branches git.for_each_ref) [
    | none ↦ parse_error
    | some branches ↦ swept (sweep_all git base apply empty_report branches)
  ]
]

-- The exit code of a run over the outcomes of the repositories: whether it is 1.
unfoldable pub fails : Bool → Outcome → Bool
fails root skipped = not root
fails root parse_error = true
fails root (swept r) = not (is_nil r.failed)

unfoldable pub exits_1 : Bool → List Outcome → Bool
unfolding fails
exits_1 root [] = false
exits_1 root (o ∷ os) = fails root o || exits_1 root os
