-- ===== src/BranchSweep/Sweepable.antt =====
-- vcs/branch_sweep.py: which branches may be swept, and the reason for it.
use celestia_devtools.Prelude.{
  ◌≡◌, refl, ap, ◌∙◌, ◌⊎◌, inl, inr, Bool, true, false, ◌||◌, some, List, [], ◌∷◌, arith, ◌==◌,
  ==_iff, is_nil, select, length, length-select-le, Text, text_eq, Elem, Bool-cases, Option-cases,
  subst, ◌≢◌, ◌++◌, not, codes, strip, contains, is_prefix, text_eq_iff, drop, Option, none,
  Elem-select, sym, if◌then◌else◌,
}
use mathlib.Core.List.{append_assoc}
use celestia_devtools.BranchList.{Branch}
use celestia_devtools.BranchSweep.{
  Git, worktree_branches, upstream_gone, touched_files, file_identical, one_of, Reason, keep,
  delete, Report, judged, sweep_branch, sweep_reason, sweep_one, checked_out, upstream_alive,
  unique_content, differing, is_unchanged, heads_prefix,
}

-- What `git diff --shortstat` prints where nothing differs: white space, or a line of no files.
abbrev pub IsNoChange : Text → Type 0
IsNoChange out = (strip out ≡ []) ⊎ ((more : Text) × (strip out ≡ codes "0 files changed" ++ more))

module _ (git : Git) (base : Text) where
  -- After some deletions, a branch has nothing that the base has not: it is merged, or for each file
  -- that git printed of its difference, git succeeded to compare the two and found no change.
  abbrev pub AddsNothing : List Text → Text → Type 0
  AddsNothing deleted name =
      (git.merged_into deleted name base ≡ true)
      ⊎ ((f : Text)
          → Elem f (git.name_only deleted base name)
          → f ≢ []
          → (out : Text) × (git.shortstat deleted base name f ≡ some out) × IsNoChange out)

  -- The branch never had an upstream, or git says that it is gone or does not know it.
  abbrev pub HasNoUpstream : List Text → Branch → Type 0
  HasNoUpstream deleted b =
      (b.upstream ≡ [])
      ⊎ (((front : Text) × (back : Text) × (b.track ≡ front ++ (codes "gone" ++ back)))
          ⊎ (git.verifies deleted b.upstream ≡ false))

  -- One of the branches, neither the base nor checked out anywhere, without a live upstream and with
  -- nothing of its own, when the first of the branches `now` were deleted.
  pub record IsSweepable (branches : List Branch) (now : List Text) (name : Text) : Type 0 where
    pub branch : Branch
    pub deleted : List Text
    pub later : List Text
    pub so_far : now ≡ deleted ++ later
    pub listed : Elem branch branches
    pub named : branch.name ≡ name
    pub not_base : name ≢ base
    pub not_head : name ≢ git.head
    pub not_in_worktree : ¬ Elem (codes "branch refs/heads/" ++ name) git.worktree_lines
    pub gone : HasNoUpstream deleted branch
    pub adds_nothing : AddsNothing deleted name

  pub IsSweepable-append :
      (branches : List Branch) (now more : List Text) (name : Text)
      → IsSweepable branches now name
      → IsSweepable branches (now ++ more) name
  IsSweepable-append branches now more name p = record {
    branch = p.branch;
    deleted = p.deleted;
    later = p.later ++ more;
    so_far = ap (λ l. l ++ more) p.so_far ∙ append_assoc p.deleted p.later more;
    listed = p.listed;
    named = p.named;
    not_base = p.not_base;
    not_head = p.not_head;
    not_in_worktree = p.not_in_worktree;
    gone = p.gone;
    adds_nothing = p.adds_nothing;
  }

  unfoldable pub IsSafe : List Branch → Bool → Report → Type 0
  IsSafe branches apply r =
      ((name : Text) (reason : Reason)
        → Elem (delete name reason) r.verdicts
        → IsSweepable branches r.deleted name)
      × ((name : Text)
          → Elem name r.deleted
          → (apply ≡ true) × ((reason : Reason) × Elem (delete name reason) r.verdicts))

pub text_ne_of_eq : (s t : Text) → text_eq s t ≡ false → s ≢ t
text_ne_of_eq s t h e = ground (arith, h, (text_eq_iff s t).1 e)

prefix-split : (w s : Text) → is_prefix w s ≡ true → (more : Text) × (s ≡ w ++ more)
unfolding is_prefix
prefix-split [] s h = (s, refl)
prefix-split (c ∷ cs) [] h = absurd (ground arith)
prefix-split (c ∷ cs) (d ∷ ds) h =
    let (more, e) = prefix-split cs ds (ground arith) in
    let same : d ≡ c = ground (arith, ==_iff c d) in
    (more, ap (λ l. d ∷ l) e ∙ ap (λ k. k ∷ (cs ++ more)) same)

contains-split :
    (w s : Text) → contains w s ≡ true → (front : Text) × (back : Text) × (s ≡ front ++ (w ++ back))
unfolding contains
contains-split [] [] h = ([], [], refl)
contains-split (c ∷ cs) [] h = absurd (ground arith)
contains-split w (d ∷ ds) h = elim (Bool-cases (is_prefix w (d ∷ ds))) [
  | inl here ↦ let (back, e) = prefix-split w (d ∷ ds) here in ([], back, e)
  | inr later ↦
      let (front, back, e) = contains-split w ds (ground (arith, later)) in
      (d ∷ front, back, ap (λ l. d ∷ l) e)
]

nil_of_is_nil : (s : Text) → is_nil s ≡ true → s ≡ []
nil_of_is_nil [] h = refl
nil_of_is_nil (c ∷ cs) h = absurd (ground arith)

IsNoChange-of_test :
    (o : Option Text) → is_unchanged o ≡ true → (out : Text) × (o ≡ some out) × IsNoChange out
unfolding is_unchanged
IsNoChange-of_test none h = absurd (ground arith)
IsNoChange-of_test (some out) h = elim (Bool-cases (is_nil (strip out))) [
  | inl empty ↦ (out, refl, inl (nil_of_is_nil (strip out) empty))
  | inr other ↦
      (out, refl, inr (prefix-split (codes "0 files changed") (strip out) (ground (arith, other))))
]

pub no_upstream_of_gone :
    (git : Git) (deleted : List Text) (b : Branch)
    → upstream_gone git deleted b ≡ true
    → HasNoUpstream git [] deleted b
unfolding upstream_gone
no_upstream_of_gone git deleted b h = elim (Bool-cases (is_nil b.upstream)) [
  | inl never ↦ inl (nil_of_is_nil b.upstream never)
  | inr some_upstream ↦ elim (Bool-cases (contains (codes "gone") b.track)) [
    | inl gone ↦ inr (inl (contains-split (codes "gone") b.track gone))
    | inr unmarked ↦ inr (inr (ground (arith, some_upstream, unmarked)))
  ]
]

one_of_refl : (t : Text) (ts : List Text) → one_of t (t ∷ ts) ≡ true
one_of_refl t ts = ground (arith, (text_eq_iff t t).1 refl)

is_prefix-append : (w s : Text) → is_prefix w (w ++ s) ≡ true
unfolding is_prefix
is_prefix-append [] s = refl
is_prefix-append (c ∷ cs) s = ground (arith, is_prefix-append cs s, (==_iff c c).1 refl)

drop-append : (w s : Text) → drop (length w) (w ++ s) ≡ s
unfolding drop
drop-append [] s = refl
drop-append (c ∷ cs) s = drop-append cs s

worktree_branches-here :
    (name : Text) (lines : List Text)
    → worktree_branches ((heads_prefix ++ name) ∷ lines) ≡ name ∷ worktree_branches lines
unfolding worktree_branches
worktree_branches-here name lines =
    ap
      (λ b.
        let rest = worktree_branches lines in
        if b then drop (length heads_prefix) (heads_prefix ++ name) ∷ rest else rest)
      (is_prefix-append heads_prefix name)
    ∙ ap (λ t. t ∷ worktree_branches lines) (drop-append heads_prefix name)

one_of-worktree_later :
    (name line : Text) (lines : List Text)
    → one_of name (worktree_branches lines) ≡ true
    → one_of name (worktree_branches (line ∷ lines)) ≡ true
unfolding worktree_branches
one_of-worktree_later name line lines h = elim (Bool-cases (is_prefix heads_prefix line)) [
  | inl here ↦
      subst (λ ls. one_of name ls ≡ true)
        {x = drop (length heads_prefix) line ∷ worktree_branches lines} (sym (rw here refl))
        (ground (arith, h))
  | inr other ↦
      subst (λ ls. one_of name ls ≡ true) {x = worktree_branches lines} (sym (rw other refl)) h
]

-- A branch that a worktree has checked out is one of those that the code finds busy.
busy_of_worktree :
    (name : Text) (lines : List Text)
    → Elem (heads_prefix ++ name) lines
    → one_of name (worktree_branches lines) ≡ true
busy_of_worktree name [] m = elim m [ ]
busy_of_worktree name (line ∷ lines) (inl e) =
    subst (λ l. one_of name (worktree_branches (l ∷ lines)) ≡ true) e
      (subst (λ ls. one_of name ls ≡ true) (sym (worktree_branches-here name lines))
        (one_of_refl name (worktree_branches lines)))
busy_of_worktree name (line ∷ lines) (inr m) =
    one_of-worktree_later name line lines (busy_of_worktree name lines m)

pub free_of_test :
    (name : Text) (lines : List Text)
    → one_of name (worktree_branches lines) ≡ false
    → ¬ Elem (codes "branch refs/heads/" ++ name) lines
free_of_test name lines h m = cc (h, busy_of_worktree name lines m)

-- Where a test keeps the length of a list, all of it passes.
select_all :
    {A : Type 0} (p : A → Bool) (xs : List A)
    → length (select p xs) ≡ length xs
    → (x : A) → Elem x xs
    → p x ≡ true
select_all p [] h x m = elim m [ ]
select_all p (y ∷ ys) h x m = elim (Bool-cases (p y)) [
  | inl pass ↦ elim m [ inl e ↦ ap p e ∙ pass | inr later ↦ select_all p ys (ground arith) x later ]
  | inr fail ↦ absurd (ground (arith, length-select-le p ys))
]

nil-no_Elem : {A : Type 0} (x : A) (xs : List A) → is_nil xs ≡ true → ¬ Elem x xs
nil-no_Elem x [] h m = m
nil-no_Elem x (y ∷ ys) h m = absurd (ground arith)

module _ (git : Git) (deleted : List Text) (base name : Text) where
  touched :
      (f : Text)
      → Elem f (git.name_only deleted base name)
      → f ≢ []
      → Elem f (touched_files git deleted base name)
  unfolding touched_files
  touched f m ne = (Elem-select (λ g. not (is_nil g)) f (git.name_only deleted base name)).1 (
    m,
    elim (Bool-cases (is_nil f)) [
      | inl empty ↦ absurd (ne (nil_of_is_nil f empty))
      | inr full ↦ rw full refl
    ],
  )

  IsNoChange-of_identical :
      (f : Text)
      → file_identical git deleted base name f ≡ true
      → (out : Text) × (git.shortstat deleted base name f ≡ some out) × IsNoChange out
  unfolding file_identical
  IsNoChange-of_identical f h = IsNoChange-of_test (git.shortstat deleted base name f) h

  pub sweep_reason-AddsNothing :
      (reason : Reason)
      → sweep_reason git deleted base name ≡ some reason
      → AddsNothing git base deleted name
  unfolding sweep_reason
  sweep_reason-AddsNothing reason h =
      let files = touched_files git deleted base name in
      let same = length (select (file_identical git deleted base name) files) == length files in
      elim (Bool-cases (git.merged_into deleted name base)) [
        | inl merged ↦ inl merged
        | inr apart ↦ elim (Bool-cases (is_nil files)) [
          | inl empty ↦ inr (λ f m ne. absurd (nil-no_Elem f files empty (touched f m ne)))
          | inr full ↦ elim (Bool-cases same) [
            | inl e ↦ inr (λ f m ne. IsNoChange-of_identical f (
                select_all (file_identical git deleted base name) files ((==_iff _ _).0 e) f
                  (touched f m ne)))
            | inr differs ↦ absurd (ground arith)
          ]
        ]
      ]

-- A round of the loop leaves the report, adds a verdict KEEP, or sweeps the branch.
pub sweep_one_cases :
    (git : Git) (base : Text) (apply : Bool) (r : Report) (b : Branch) (P : Report → Type 0)
    → P r
    → ((reason : Reason) → P (judged (keep b.name reason) r))
    → ((reason : Reason)
        → text_eq b.name base ≡ false
        → (text_eq b.name git.head || one_of b.name (worktree_branches git.worktree_lines)) ≡ false
        → upstream_gone git r.deleted b ≡ true
        → sweep_reason git r.deleted base b.name ≡ some reason
        → P (sweep_branch git base apply b.name reason r))
    → P (sweep_one git base apply r b)
unfolding sweep_one
sweep_one_cases git base apply r b P same kept swept_ =
    let busy = one_of b.name (worktree_branches git.worktree_lines) in
    elim (Bool-cases (text_eq b.name base)) [
      | inl is_base ↦ subst P (rw (sweep_one, is_base) refl) same
      | inr other ↦ elim (Bool-cases (text_eq b.name git.head || busy)) [
        | inl used ↦ subst P (rw (sweep_one, other, used) refl) (kept checked_out)
        | inr free ↦ elim (Bool-cases (upstream_gone git r.deleted b)) [
          | inr alive ↦
              subst P (rw (sweep_one, other, free, alive) refl) (kept (upstream_alive b.upstream))
          | inl gone ↦ elim (Option-cases (sweep_reason git r.deleted base b.name)) [
            | inl unique ↦
                subst P (rw (sweep_one, other, free, gone, unique) refl)
                  (kept (unique_content (differing git r.deleted base b.name)))
            | inr (reason, e) ↦
                subst P (rw (sweep_one, other, free, gone, e) refl)
                  (swept_ reason other free gone e)
          ]
        ]
      ]
    ]
