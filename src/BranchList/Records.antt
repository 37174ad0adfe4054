-- ===== src/BranchList/Records.antt =====
-- vcs/branch_sweep.py, `_local_branches`: what git prints is read back.
use mathlib.Core.List.{append_assoc}
use celestia_devtools.Prelude.{
  ℕ, ◌≡◌, refl, sym, inl, inr, ap, ◌∙◌, Bool, true, false, ◌&&◌, not, some, List, [], ◌∷◌, ◌++◌,
  arith, ◌==◌, is_nil, map, Text, all_of, if◌then◌else◌, Bool-cases,
}
use celestia_devtools.BranchList.{
  Branch, split, is_bracket, lstrip_brackets, rstrip_brackets, branch_of, branches_of, cons_line,
  without_newline, lines_of, local_branches,
}

-- %(upstream:track), which is empty or stands in brackets.
abbrev pub print_track : Text → Text
print_track [] = []
print_track (c ∷ cs) = b'[' ∷ (c ∷ cs) ++ b']' ∷ []

abbrev pub print_branch : Branch → Text
print_branch b = b.name ++ (0 ∷ b.upstream ++ (0 ∷ print_track b.track))

-- The output of `git for-each-ref` for the branches.
abbrev pub print_branches : List Branch → Text
print_branches [] = []
print_branches (b ∷ bs) = print_branch b ++ 10 ∷ print_branches bs

-- No NUL and no line feed, which a name of git cannot have.
abbrev pub is_plain : Text → Bool
is_plain = all_of (λ c. not (c == 0) && not (c == 10))

abbrev pub is_plain_branch : Branch → Bool
is_plain_branch b =
    not (is_nil b.name)
    && is_plain b.name
    && is_plain b.upstream
    && is_plain b.track
    && all_of (λ c. not (is_bracket c)) b.track

-- A text without a character.
abbrev Lacks : ℕ → Text → Type 0
Lacks s t = all_of (λ c. not (c == s)) t ≡ true

Lacks-append : (s : ℕ) (t u : Text) → Lacks s t → Lacks s u → Lacks s (t ++ u)
Lacks-append s [] u h k = k
Lacks-append s (c ∷ t) u h k = ground (arith, Lacks-append s t u)

plain-Lacks : (t : Text) → is_plain t ≡ true → Lacks 0 t × Lacks 10 t
plain-Lacks [] h = (refl, refl)
plain-Lacks (c ∷ t) h = ground (arith, plain-Lacks t)

split-append : (s : ℕ) (t u : Text) → Lacks s t → split s (t ++ s ∷ u) ≡ t ∷ split s u
unfolding split
split-append s [] u h = ground arith
split-append s (c ∷ t) u h = ground (arith, split-append s t u)

split_whole : (s : ℕ) (t : Text) → Lacks s t → split s t ≡ t ∷ []
unfolding split
split_whole s [] h = refl
split_whole s (c ∷ t) h = ground (arith, split_whole s t)

rstrip_brackets-append :
    (t : Text) → all_of (λ c. not (is_bracket c)) t ≡ true → rstrip_brackets (t ++ b']' ∷ []) ≡ t
unfolding rstrip_brackets
rstrip_brackets-append [] h = refl
rstrip_brackets-append (c ∷ t) h = ground (arith, rstrip_brackets-append t)

strip-print_track :
    (t : Text)
    → all_of (λ c. not (is_bracket c)) t ≡ true
    → rstrip_brackets (lstrip_brackets (print_track t)) ≡ t
unfolding rstrip_brackets lstrip_brackets
strip-print_track [] h = refl
strip-print_track (c ∷ t) h = elim (Bool-cases (is_bracket c)) [
  | inl bracket ↦ absurd (ground arith)
  | inr plain ↦ rw (plain, if◌then◌else◌) (rstrip_brackets-append (c ∷ t) h)
]

print_track-Lacks : (s : ℕ) (t : Text) → is_bracket s ≡ false → Lacks s t → Lacks s (print_track t)
print_track-Lacks s [] h k = refl
print_track-Lacks s (c ∷ t) h k = ground (arith, Lacks-append s (c ∷ t) (b']' ∷ []) k)

without_newline-append : (t : Text) → without_newline (t ++ 10 ∷ []) ≡ some t
unfolding without_newline
without_newline-append [] = refl
without_newline-append (c ∷ []) = refl
without_newline-append (c ∷ d ∷ t) = ap (cons_line c) (without_newline-append (d ∷ t))

-- The lines of the branches, without the last line feed.
abbrev joined : Branch → List Branch → Text
joined b [] = print_branch b
joined b (c ∷ bs) = print_branch b ++ 10 ∷ joined c bs

print-joined : (b : Branch) (bs : List Branch) → print_branches (b ∷ bs) ≡ joined b bs ++ 10 ∷ []
print-joined b [] = refl
print-joined b (c ∷ bs) =
    ap (λ t. print_branch b ++ 10 ∷ t) (print-joined c bs)
    ∙ sym (append_assoc (print_branch b) (10 ∷ joined c bs) (10 ∷ []))

module _ (b : Branch) (plain : is_plain_branch b ≡ true) where
  split-print_branch : split 0 (print_branch b) ≡ b.name ∷ b.upstream ∷ print_track b.track ∷ []
  split-print_branch =
      split-append 0 b.name (b.upstream ++ 0 ∷ print_track b.track)
        (plain-Lacks b.name (ground arith)).0
      ∙ ap (λ ps. b.name ∷ ps)
          (split-append 0 b.upstream (print_track b.track) (plain-Lacks b.upstream (ground arith)).0
            ∙ ap (λ ps. b.upstream ∷ ps)
                (split_whole 0 (print_track b.track)
                  (print_track-Lacks 0 b.track refl (plain-Lacks b.track (ground arith)).0)))

  print_branch-Lacks : Lacks 10 (print_branch b)
  print_branch-Lacks =
      Lacks-append 10 b.name (0 ∷ b.upstream ++ (0 ∷ print_track b.track))
        (plain-Lacks b.name (ground arith)).1
        (Lacks-append 10 b.upstream (0 ∷ print_track b.track)
          (plain-Lacks b.upstream (ground arith)).1
          (print_track-Lacks 10 b.track refl (plain-Lacks b.track (ground arith)).1))

branch_of-fields :
    (name upstream track : Text)
    → is_nil name ≡ false
    → all_of (λ c. not (is_bracket c)) track ≡ true
    → branch_of (name ∷ upstream ∷ print_track track ∷ [])
      ≡ some (record { name = name; upstream = upstream; track = track })
unfolding branch_of
branch_of-fields [] upstream track h k = absurd (ground arith)
branch_of-fields (c ∷ cs) upstream track h k =
    ap (λ t. some (record { name = c ∷ cs; upstream = upstream; track = t }))
      (strip-print_track track k)

branch_of-print :
    (b : Branch) → is_plain_branch b ≡ true → branch_of (split 0 (print_branch b)) ≡ some b
branch_of-print b plain =
    ap branch_of (split-print_branch b plain)
    ∙ branch_of-fields b.name b.upstream b.track (ground arith) (ground arith)

split-joined :
    (b : Branch) (bs : List Branch)
    → all_of is_plain_branch (b ∷ bs) ≡ true
    → split 10 (joined b bs) ≡ map print_branch (b ∷ bs)
split-joined b [] h = split_whole 10 (print_branch b) (print_branch-Lacks b (ground arith))
split-joined b (c ∷ bs) h =
    split-append 10 (print_branch b) (joined c bs) (print_branch-Lacks b (ground arith))
    ∙ ap (λ ls. print_branch b ∷ ls) (split-joined c bs (ground arith))

branches_of-print :
    (bs : List Branch)
    → all_of is_plain_branch bs ≡ true
    → branches_of (map print_branch bs) ≡ some bs
unfolding branches_of
branches_of-print [] h = refl
branches_of-print (b ∷ bs) h =
    rw (branch_of-print b (ground arith), branches_of-print bs (ground arith)) refl

local_branches-line : (t : Text) → local_branches (some (t ++ 10 ∷ [])) ≡ branches_of (split 10 t)
unfolding local_branches lines_of
local_branches-line [] = refl
local_branches-line (c ∷ cs) = ap lines_of (without_newline-append (c ∷ cs))

-- Branches whose names are not empty, whose fields have no NUL and no line feed and whose tracks have
-- no bracket are read back from what git prints of them.
pub local_branches-print :
    (bs : List Branch)
    → all_of is_plain_branch bs ≡ true
    → local_branches (some (print_branches bs)) ≡ some bs
unfolding local_branches lines_of
local_branches-print [] h = refl
local_branches-print (b ∷ bs) h =
    ap (λ t. local_branches (some t)) (print-joined b bs)
    ∙ local_branches-line (joined b bs)
    ∙ ap branches_of (split-joined b bs h)
    ∙ branches_of-print (b ∷ bs) h
