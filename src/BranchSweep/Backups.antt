-- ===== src/BranchSweep/Backups.antt =====
-- vcs/branch_sweep.py: the patches that `sweep_repo` leaves of what it deletes.
use celestia_devtools.Prelude.{
  ◌≡◌, refl, sym, ap, ◌∙◌, inl, inr, Bool, true, false, Option, none, some, List, [], ◌∷◌, arith,
  if◌then◌else◌, Text, text_eq, text_eq_iff, Elem, Elem-append, Elem-append_left, Elem-append_right,
  Bool-cases, Option-cases, subst, ◌≢◌, ◌==◌, ==_iff, ℕ, codes, strip, ◌++◌, ◌⊎◌,
}
use mathlib.Core.List.{append_assoc, append-nil}
use celestia_devtools.TextDict.{get, get-put}
use celestia_devtools.BranchList.{Branch, local_branches}
use celestia_devtools.BranchSweep.{
  Git, base_ref, Reason, Verdict, keep, delete, Report, judged, underscored, patch_name, patch_text,
  deletion, back_up, sweep_branch, sweep_one, sweep_all, swept, empty_report, sweep_repo,
}
use celestia_devtools.BranchSweep.Sweepable.{sweep_one_cases}

-- The text with each slash replaced by two underscores.
pub data Replaced : Text → Text → Type 0 where
  done : Replaced [] []
  slash : (s t : Text) → Replaced s t → Replaced (b'/' ∷ s) (b'_' ∷ b'_' ∷ t)
  other_char : (c : ℕ) (s t : Text) → c ≢ b'/' → Replaced s t → Replaced (c ∷ s) (c ∷ t)

abbrev pub IsFileOf : Text → Text → Type 0
IsFileOf name file = (stem : Text) × Replaced name stem × (file ≡ stem ++ codes ".patch")

underscored-Replaced : (name : Text) → Replaced name (underscored name)
unfolding underscored
underscored-Replaced [] = done
underscored-Replaced (c ∷ cs) = elim (Bool-cases (c == b'/')) [
  | inl is ↦
      rw (underscored, is)
        (subst (λ d. Replaced (d ∷ cs) (b'_' ∷ b'_' ∷ underscored cs)) (sym ((==_iff c b'/').0 is))
          (slash cs (underscored cs) (underscored-Replaced cs)))
  | inr not_slash ↦
      rw (underscored, not_slash)
        (other_char c cs (underscored cs) (λ e. ground (arith, not_slash, (==_iff c b'/').1 e))
          (underscored-Replaced cs))
]

patch_name-IsFileOf : (name : Text) → IsFileOf name (patch_name name)
unfolding patch_name
patch_name-IsFileOf name = (underscored name, underscored-Replaced name, refl)

module _ (git : Git) (base : Text) where
  -- What is written about a branch: its tip without the line feed, and its difference from the base.
  abbrev pub patch_of : List Text → Text → Text
  patch_of deleted name =
      codes "tip " ++ strip (git.tip deleted name) ++ 10 ∷ git.three_dot deleted base name

  -- When `deleted` were the deleted branches, the branch still was there: its deletion came next, or
  -- it failed.
  abbrev pub IsBefore : Report → List Text → Text → Type 0
  IsBefore r deleted name =
      ((later : List Text) × (r.deleted ≡ deleted ++ name ∷ later))
      ⊎ ((later : List Text) × (r.deleted ≡ deleted ++ later)
          × ((error : Text) × Elem (name, error) r.failed))

  -- A patch file with the name of a deleted branch, which has the patch of a branch that was swept and
  -- whose file has that name, as git gave it before the deletion of that branch.
  pub record HasPatch (r : Report) (name : Text) : Type 0 where
    pub other : Text
    pub reason : Reason
    pub deleted : List Text
    pub file : Text
    pub judged_so : Elem (delete other reason) r.verdicts
    pub own_file : IsFileOf name file
    pub other_file : IsFileOf other file
    pub on_file : get file r.backups ≡ some (patch_of deleted other)
    pub before : IsBefore r deleted other

  -- The same, by the code's name of the file.
  record Filed (r : Report) (name : Text) : Type 0 where
    other : Text
    reason : Reason
    deleted : List Text
    judged_so : Elem (delete other reason) r.verdicts
    same_file : patch_name other ≡ patch_name name
    on_file : get (patch_name name) r.backups ≡ some (patch_of deleted other)
    before : IsBefore r deleted other

  abbrev KeepsPatches : Report → Type 0
  KeepsPatches r = (name : Text) → Elem name r.deleted → Filed r name

  IsBefore-grows :
      (r s : Report) (deleted more : List Text) (failures : List (Text × Text)) (name : Text)
      → s.deleted ≡ r.deleted ++ more
      → s.failed ≡ r.failed ++ failures
      → IsBefore r deleted name
      → IsBefore s deleted name
  IsBefore-grows r s deleted more failures name d f (inl (later, e)) =
      inl (later ++ more, d ∙ ap (λ l. l ++ more) e ∙ append_assoc deleted (name ∷ later) more)
  IsBefore-grows r s deleted more failures name d f (inr (later, e, (error, m))) = inr (
    later ++ more,
    d ∙ ap (λ l. l ++ more) e ∙ append_assoc deleted later more,
    (
      error,
      subst (Elem (name, error)) (sym f) (Elem-append_left (name, error) r.failed failures m),
    ),
  )

  -- What one sweep changes.
  record Step (r s : Report) (swept_ : Text) (reason : Reason) : Type 0 where
    more : List Text
    failures : List (Text × Text)
    verdicts : s.verdicts ≡ r.verdicts ++ delete swept_ reason ∷ []
    deleted : s.deleted ≡ r.deleted ++ more
    failed : s.failed ≡ r.failed ++ failures
    only : (n : Text) → Elem n more → n ≡ swept_
    files :
        (k : Text)
        → get k s.backups ≡ (
            if text_eq (patch_name swept_) k
            then some (patch_of r.deleted swept_)
            else get k r.backups)
    own : IsBefore s r.deleted swept_

  deletion-Step :
      (r : Report) (o : Option Text) (swept_ : Text) (reason : Reason)
      → Step r
          (deletion o swept_ (back_up git base swept_ (judged (delete swept_ reason) r)))
          swept_
          reason
  unfolding deletion back_up patch_text
  deletion-Step r none swept_ reason = record {
    more = swept_ ∷ [];
    failures = [];
    verdicts = refl;
    deleted = refl;
    failed = sym (append-nil r.failed);
    only = λ n m. elim m [ inl e ↦ e | inr absent ↦ elim absent [ ] ];
    files = λ k. get-put (patch_name swept_) k (patch_of r.deleted swept_) r.backups;
    own = inl ([], refl);
  }
  deletion-Step r (some error) swept_ reason = record {
    more = [];
    failures = (swept_, error) ∷ [];
    verdicts = refl;
    deleted = sym (append-nil r.deleted);
    failed = refl;
    only = λ n m. elim m [ ];
    files = λ k. get-put (patch_name swept_) k (patch_of r.deleted swept_) r.backups;
    own = inr (
      [],
      sym (append-nil r.deleted),
      (error, Elem-append_right (swept_, error) r.failed ((swept_, error) ∷ []) (inl refl)),
    );
  }

  own_patch :
      (r s : Report) (swept_ : Text) (reason : Reason) (name : Text)
      → Step r s swept_ reason
      → text_eq (patch_name swept_) (patch_name name) ≡ true
      → Filed s name
  own_patch r s swept_ reason name step same = record {
    other = swept_;
    reason = reason;
    deleted = r.deleted;
    judged_so = subst (Elem (delete swept_ reason)) (sym step.verdicts) (
        Elem-append_right (delete swept_ reason) r.verdicts (delete swept_ reason ∷ []) (inl refl));
    same_file = (text_eq_iff _ _).0 same;
    on_file = step.files (patch_name name) ∙ rw (same) refl;
    before = step.own;
  }

  old_patch :
      (r s : Report) (swept_ : Text) (reason : Reason) (name : Text)
      → Step r s swept_ reason
      → text_eq (patch_name swept_) (patch_name name) ≡ false
      → Filed r name
      → Filed s name
  old_patch r s swept_ reason name step apart p = record {
    other = p.other;
    reason = p.reason;
    deleted = p.deleted;
    judged_so = subst (Elem (delete p.other p.reason)) (sym step.verdicts) (
        Elem-append_left (delete p.other p.reason) r.verdicts (delete swept_ reason ∷ [])
          p.judged_so);
    same_file = p.same_file;
    on_file = step.files (patch_name name) ∙ rw (apart) p.on_file;
    before =
        IsBefore-grows r s p.deleted step.more step.failures p.other step.deleted step.failed
          p.before;
  }

  KeepsPatches-Step :
      (r s : Report) (swept_ : Text) (reason : Reason)
      → Step r s swept_ reason
      → KeepsPatches r
      → KeepsPatches s
  KeepsPatches-Step r s swept_ reason step keeps = λ name m.
      elim (Bool-cases (text_eq (patch_name swept_) (patch_name name))) [
        | inl same ↦ own_patch r s swept_ reason name step same
        | inr apart ↦
            elim (Elem-append name r.deleted step.more (subst (Elem name) step.deleted m)) [
              | inl old ↦ old_patch r s swept_ reason name step apart (keeps name old)
              | inr new ↦ absurd (
                  ground (
                    arith,
                    apart,
                    (text_eq_iff (patch_name swept_) (patch_name name)).1
                        (ap patch_name (sym (step.only name new))),
                  ))
            ]
      ]

  Filed-judged : (r : Report) (v : Verdict) (name : Text) → Filed r name → Filed (judged v r) name
  Filed-judged r v name p = record {
    other = p.other;
    reason = p.reason;
    deleted = p.deleted;
    judged_so = Elem-append_left (delete p.other p.reason) r.verdicts (v ∷ []) p.judged_so;
    same_file = p.same_file;
    on_file = p.on_file;
    before = p.before;
  }

  KeepsPatches-sweep_branch :
      (r : Report) (apply : Bool) (swept_ : Text) (reason : Reason)
      → KeepsPatches r
      → KeepsPatches (sweep_branch git base apply swept_ reason r)
  unfolding sweep_branch
  KeepsPatches-sweep_branch r false swept_ reason keeps =
      λ name m. Filed-judged r (delete swept_ reason) name (keeps name m)
  KeepsPatches-sweep_branch r true swept_ reason keeps =
      KeepsPatches-Step r _ swept_ reason
        (deletion-Step r (git.delete_branch r.deleted swept_) swept_ reason) keeps

  KeepsPatches-sweep_all :
      (apply : Bool) (r : Report) (bs : List Branch)
      → KeepsPatches r
      → KeepsPatches (sweep_all git base apply r bs)
  unfolding sweep_all
  KeepsPatches-sweep_all apply r [] keeps = keeps
  KeepsPatches-sweep_all apply r (b ∷ bs) keeps =
      KeepsPatches-sweep_all apply (sweep_one git base apply r b) bs (
        sweep_one_cases git base apply r b KeepsPatches keeps
          (λ reason name m. Filed-judged r (keep b.name reason) name (keeps name m))
          (λ reason _ _ _ _. KeepsPatches-sweep_branch r apply b.name reason keeps))

  HasPatch-of_Filed : (r : Report) (name : Text) → Filed r name → HasPatch r name
  HasPatch-of_Filed r name p = record {
    other = p.other;
    reason = p.reason;
    deleted = p.deleted;
    file = patch_name name;
    judged_so = p.judged_so;
    own_file = patch_name-IsFileOf name;
    other_file = subst (IsFileOf p.other) p.same_file (patch_name-IsFileOf p.other);
    on_file = p.on_file;
    before = p.before;
  }

-- For each branch that sweep_repo deletes, the file of its name in the backup directory (each slash as
-- two underscores, and ".patch") has the text
-- "tip ", the tip, a line feed and the three-dot difference from the base of a branch with the verdict
-- DELETE whose file has the same name: of itself, where no other such branch has that file name. The
-- tip and the difference are those that git gave before that branch was deleted: its deletion came
-- right after, or it failed.
pub sweep_repo-HasPatch :
    (git : Git) (requested : Option Text) (apply : Bool) (r : Report) (name : Text)
    → sweep_repo git requested apply ≡ swept r
    → Elem name r.deleted
    → (base : Text) × (base_ref git requested ≡ some base) × HasPatch git base r name
unfolding sweep_repo
sweep_repo-HasPatch git requested apply r name h m = elim (Option-cases (base_ref git requested)) [
  | inl missing ↦ absurd (ground arith)
  | inr (base, e) ↦ elim (Option-cases (local_branches git.for_each_ref)) [
    | inl bad ↦ absurd (ground arith)
    | inr (branches, listed) ↦ (
      base,
      e,
      HasPatch-of_Filed git base r name (
          subst (KeepsPatches git base) {x = sweep_all git base apply empty_report branches} {y = r}
            (ground arith)
            (KeepsPatches-sweep_all git base apply empty_report branches (λ n k. elim k [ ])) name
            m),
    )
  ]
]
