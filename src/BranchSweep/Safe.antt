-- ===== src/BranchSweep/Safe.antt =====
-- vcs/branch_sweep.py: what `sweep_repo` deletes.
use celestia_devtools.Prelude.{
  ◌≡◌, refl, sym, inl, inr, Bool, true, Option, none, some, List, [], ◌∷◌, arith, Text, Elem,
  Elem-append, Elem-append_left, Elem-append_right, Bool-cases, Option-cases, subst, codes, ◌⊎◌,
  false,
}
use mathlib.Core.List.{append-nil}
use celestia_devtools.BranchList.{Branch, local_branches}
use celestia_devtools.BranchSweep.{
  Git, base_ref, Reason, keep, delete, Report, judged, deletion, back_up, sweep_branch, sweep_one,
  sweep_all, swept, empty_report, sweep_repo,
}
use celestia_devtools.BranchSweep.Sweepable.{
  IsSweepable, IsSweepable-append, IsSafe, sweep_reason-AddsNothing, sweep_one_cases, text_ne_of_eq,
  free_of_test, no_upstream_of_gone,
}

module _ (git : Git) (base : Text) (branches : List Branch) (apply : Bool) where
  judged-keep_IsSafe :
      (r : Report) (name : Text) (reason : Reason)
      → IsSafe git base branches apply r
      → IsSafe git base branches apply (judged (keep name reason) r)
  unfolding IsSafe
  judged-keep_IsSafe r name reason (safe, marked) = (
    λ n why m. elim (Elem-append (delete n why) r.verdicts (keep name reason ∷ []) m) [
      | inl old ↦ safe n why old
      | inr new ↦ elim new [ inl e ↦ absurd (ground arith) | inr absent ↦ elim absent [ ] ]
    ],
    λ n m. (
      (marked n m).0,
      (
        (marked n m).1.0,
        Elem-append_left (delete n (marked n m).1.0) r.verdicts (keep name reason ∷ [])
            (marked n m).1.1,
      ),
    ),
  )

  judged-delete_IsSafe :
      (r : Report) (name : Text) (reason : Reason)
      → IsSweepable git base branches r.deleted name
      → IsSafe git base branches apply r
      → IsSafe git base branches apply (judged (delete name reason) r)
  unfolding IsSafe
  judged-delete_IsSafe r name reason able (safe, marked) = (
    λ n why m. elim (Elem-append (delete n why) r.verdicts (delete name reason ∷ []) m) [
      | inl old ↦ safe n why old
      | inr new ↦ elim new [
        | inl e ↦ subst (IsSweepable git base branches r.deleted) (ground arith) able
        | inr absent ↦ elim absent [ ]
      ]
    ],
    λ n m. (
      (marked n m).0,
      (
        (marked n m).1.0,
        Elem-append_left (delete n (marked n m).1.0) r.verdicts (delete name reason ∷ [])
            (marked n m).1.1,
      ),
    ),
  )

  deletion-IsSafe :
      (r : Report) (o : Option Text) (name : Text) (reason : Reason)
      → apply ≡ true
      → Elem (delete name reason) r.verdicts
      → IsSafe git base branches apply r
      → IsSafe git base branches apply (deletion o name r)
  unfolding deletion IsSafe
  deletion-IsSafe r (some error) name reason on v safe = safe
  deletion-IsSafe r none name reason on v (safe, marked) = (
    λ n why m. IsSweepable-append git base branches r.deleted (name ∷ []) n (safe n why m),
    λ n m. elim (Elem-append n r.deleted (name ∷ []) m) [
      | inl old ↦ marked n old
      | inr new ↦ elim new [
        | inl e ↦ (on, (reason, subst (λ k. Elem (delete k reason) r.verdicts) (sym e) v))
        | inr absent ↦ elim absent [ ]
      ]
    ],
  )

  back_up-IsSafe :
      (r : Report) (name : Text)
      → IsSafe git base branches apply r
      → IsSafe git base branches apply (back_up git base name r)
  unfolding back_up IsSafe
  back_up-IsSafe r name safe = safe

  verdicts-back_up : (r : Report) (name : Text) → (back_up git base name r).verdicts ≡ r.verdicts
  unfolding back_up
  verdicts-back_up r name = refl

  sweep_branch-IsSafe :
      (r : Report) (name : Text) (reason : Reason)
      → IsSweepable git base branches r.deleted name
      → IsSafe git base branches apply r
      → IsSafe git base branches apply (sweep_branch git base apply name reason r)
  unfolding sweep_branch
  sweep_branch-IsSafe r name reason able safe =
      let r' = judged (delete name reason) r in
      let safe' = judged-delete_IsSafe r name reason able safe in
      elim (Bool-cases apply) [
        | inl on ↦ subst (IsSafe git base branches apply) (rw (sweep_branch, on) refl) (
            deletion-IsSafe (back_up git base name r') (git.delete_branch r.deleted name) name
              reason on
              (subst (Elem (delete name reason)) (sym (verdicts-back_up r' name)) (
                Elem-append_right (delete name reason) r.verdicts (delete name reason ∷ [])
                  (inl refl)))
              (back_up-IsSafe r' name safe'))
        | inr off ↦ subst (IsSafe git base branches apply) (rw (sweep_branch, off) refl) safe'
      ]

  sweep_one-IsSafe :
      (r : Report) (b : Branch)
      → Elem b branches
      → IsSafe git base branches apply r
      → IsSafe git base branches apply (sweep_one git base apply r b)
  sweep_one-IsSafe r b m safe =
      sweep_one_cases git base apply r b (IsSafe git base branches apply) safe
        (λ reason. judged-keep_IsSafe r b.name reason safe)
        (λ reason other free gone e.
          sweep_branch-IsSafe r b.name reason
            (record {
              branch = b;
              deleted = r.deleted;
              later = [];
              so_far = sym (append-nil r.deleted);
              listed = m;
              named = refl;
              not_base = text_ne_of_eq b.name base other;
              not_head = text_ne_of_eq b.name git.head (ground (arith, free));
              not_in_worktree = free_of_test b.name git.worktree_lines (ground (arith, free));
              gone = no_upstream_of_gone git r.deleted b gone;
              adds_nothing = sweep_reason-AddsNothing git r.deleted base b.name reason e;
            })
            safe)

  sweep_all-IsSafe :
      (r : Report) (bs : List Branch)
      → ((b : Branch) → Elem b bs → Elem b branches)
      → IsSafe git base branches apply r
      → IsSafe git base branches apply (sweep_all git base apply r bs)
  unfolding sweep_all
  sweep_all-IsSafe r [] sub safe = safe
  sweep_all-IsSafe r (b ∷ bs) sub safe =
      sweep_all-IsSafe (sweep_one git base apply r b) bs (λ c m. sub c (inr m))
        (sweep_one-IsSafe r b (sub b (inl refl)) safe)

-- The base is the one that is asked for, or "master", or "main" where there is no "master".
abbrev pub IsBase : Git → Option Text → Text → Type 0
IsBase git requested base =
    (requested ≡ some base)
    ⊎ ((git.verifies [] base ≡ true)
        × ((base ≡ codes "master")
            ⊎ ((base ≡ codes "main") × (git.verifies [] (codes "master") ≡ false))))

default-IsBase :
    (git : Git) (requested : Option Text) (base : Text)
    → base_ref git none ≡ some base
    → IsBase git requested base
unfolding base_ref
default-IsBase git requested base h = elim (Bool-cases (git.verifies [] (codes "master"))) [
  | inl master ↦
      let e : codes "master" ≡ base = ground (arith, h, master) in
      inr (subst (λ b. git.verifies [] b ≡ true) e master, inl (sym e))
  | inr no_master ↦ elim (Bool-cases (git.verifies [] (codes "main"))) [
    | inl main ↦
        let e : codes "main" ≡ base = ground (arith, h, no_master, main) in
        inr (subst (λ b. git.verifies [] b ≡ true) e main, inr (sym e, no_master))
    | inr no_main ↦ absurd (ground (arith, h, no_master, no_main))
  ]
]

base_ref-IsBase :
    (git : Git) (requested : Option Text) (base : Text)
    → base_ref git requested ≡ some base
    → IsBase git requested base
unfolding base_ref
base_ref-IsBase git (some (c ∷ cs)) base h = inl h
base_ref-IsBase git (some []) base h = default-IsBase git (some []) base h
base_ref-IsBase git none base h = default-IsBase git none base h

-- A branch that sweep_repo deletes was to be deleted by --apply and has the verdict DELETE. A branch
-- with that verdict is one of the local branches that git listed, it is not the base (the one asked
-- for, or else "master", or else "main") nor the current branch, and no line of the worktree list
-- has it. When it was judged, after some of the deletions, it had no upstream, or one that git
-- reported gone or did not know; and it was merged into the base, or for every file name that git
-- printed of its three-dot difference (none, where that command failed) git compared the file in
-- both and reported no change.
pub sweep_repo-IsSafe :
    (git : Git) (requested : Option Text) (apply : Bool) (r : Report)
    → sweep_repo git requested apply ≡ swept r
    → (base : Text) × (branches : List Branch) × IsBase git requested base
      × (local_branches git.for_each_ref ≡ some branches)
      × IsSafe git base branches apply r
unfolding sweep_repo IsSafe
sweep_repo-IsSafe git requested apply r h = elim (Option-cases (base_ref git requested)) [
  | inl missing ↦ absurd (ground arith)
  | inr (base, e) ↦ elim (Option-cases (local_branches git.for_each_ref)) [
    | inl bad ↦ absurd (ground arith)
    | inr (branches, listed) ↦ (
      base,
      branches,
      base_ref-IsBase git requested base e,
      listed,
      subst (IsSafe git base branches apply) {x = sweep_all git base apply empty_report branches}
          {y = r} (ground arith)
          (sweep_all-IsSafe git base branches apply empty_report branches (λ b m. m)
            (λ name why m. elim m [ ], λ name m. elim m [ ])),
    )
  ]
]
