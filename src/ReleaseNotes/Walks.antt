-- ===== src/ReleaseNotes/Walks.antt =====
-- publish/release_notes.py, the walk of `collect_entries`: which commits it takes in.
use celestia_devtools.Prelude.{
  ℕ, zero, suc, ◌*◌, ◌≡◌, refl, ap, ◌∙◌, String, true, false, ◌||◌, inl, inr, Option, none, some,
  List, [], ◌∷◌, ◌++◌, arith, ltb, is_nil, length, take, drop, Bool-cases, if◌then◌else◌,
}
use celestia_devtools.Paging.{
  found, Listing, per_page, Serves, from_page, take-empty_batch, take-short_batch, take-full_batch,
}
use celestia_devtools.ReleaseSubjects.{parse_subject}
use celestia_devtools.ReleaseNotes.{
  Commit, Walk, subject_of, note_entry, note_commit, is_base, scan, walk_pages,
}

-- The commits, taken in one after another.
unfoldable pub notes : Walk → List Commit → Walk
notes w [] = w
notes w (c ∷ cs) = notes (note_commit w c) cs

-- The commits before the base; none where it is not among them.
abbrev pub cons_all : Commit → Option (List Commit) → Option (List Commit)
cons_all c none = none
cons_all c (some cs) = some (c ∷ cs)

unfoldable pub until : Option String → List Commit → Option (List Commit)
unfolding is_base
until sha [] = none
until sha (c ∷ cs) = let rest = cons_all c (until sha cs) in if is_base sha c then some [] else rest

-- The walk over the commits `cs`, by the commits before the base.
abbrev pub walked : Walk → List Commit → Option (List Commit) → Walk
walked w cs none = notes w cs
walked w cs (some before) = record (notes w before) { base_found = true }

note_entry-base_found :
    (subject : List ℕ) (parsed : Option ℕ × List ℕ) (w : Walk)
    → (note_entry subject parsed w).base_found ≡ w.base_found
unfolding note_entry
note_entry-base_found subject (none, title) w = refl
note_entry-base_found subject (some n, title) w = ground arith

note_commit-base_found : (w : Walk) (c : Commit) → (note_commit w c).base_found ≡ w.base_found
unfolding note_commit
note_commit-base_found w c = note_entry-base_found (subject_of c) (parse_subject (subject_of c)) w

pub notes-base_found : (w : Walk) (cs : List Commit) → (notes w cs).base_found ≡ w.base_found
unfolding notes
notes-base_found w [] = refl
notes-base_found w (c ∷ cs) = notes-base_found (note_commit w c) cs ∙ note_commit-base_found w c

walked-cons :
    (w : Walk) (c : Commit) (cs : List Commit) (before : Option (List Commit))
    → walked (note_commit w c) cs before ≡ walked w (c ∷ cs) (cons_all c before)
unfolding notes
walked-cons w c cs none = refl
walked-cons w c cs (some before) = refl

pub scan-until :
    (sha : Option String) (w : Walk) (cs : List Commit) → scan sha w cs ≡ walked w cs (until sha cs)
unfolding scan until notes
scan-until sha w [] = refl
scan-until sha w (c ∷ cs) = elim (Bool-cases (is_base sha c)) [
  | inl here ↦ rw (scan, until, here) refl
  | inr later ↦
      rw (scan, until, later)
        (scan-until sha (note_commit w c) cs ∙ walked-cons w c cs (until sha cs))
]

until-none : (cs : List Commit) → until none cs ≡ none
unfolding until
until-none [] = refl
until-none (c ∷ cs) = rw (until, until-none cs) refl

scan-none : (w : Walk) (cs : List Commit) → scan none w cs ≡ notes w cs
scan-none w cs = scan-until none w cs ∙ ap (walked w cs) (until-none cs)

-- A walk that has the base takes no more commits in.
pub scan-append :
    (sha : Option String) (w : Walk) (xs ys : List Commit)
    → w.base_found ≡ false
    → scan sha w (xs ++ ys)
      ≡ (if (scan sha w xs).base_found then scan sha w xs else scan sha (scan sha w xs) ys)
unfolding scan
scan-append sha w [] ys h = rw (scan, h) refl
scan-append sha w (c ∷ xs) ys h = elim (Bool-cases (is_base sha c)) [
  | inl here ↦ rw (scan, here) refl
  | inr later ↦
      rw (scan, later) (scan-append sha (note_commit w c) xs ys (note_commit-base_found w c ∙ h))
]

module _ (commits : Listing Commit) (all : List Commit) (serves : Serves commits all) where
  -- With a base to look for, the walk goes through all the pages that it may read.
  pub walk_pages-scan :
      (sha : Option String) (n p : ℕ) (w : Walk)
      → w.base_found ≡ false
      → walk_pages sha commits n (suc p) w
        ≡ found (scan sha w (take (n * per_page) (from_page p all)))
  unfolding walk_pages take scan
  walk_pages-scan sha zero p w fresh = refl
  walk_pages-scan sha (suc n) p w fresh =
      let batch = take per_page (from_page p all) in
      rw (walk_pages, serves p)
        (elim (Bool-cases (is_nil batch)) [
          | inl h ↦ rw (h, if◌then◌else◌, take-empty_batch p all (suc n * per_page) h) refl
          | inr h ↦ elim (Bool-cases (ltb (length batch) per_page)) [
            | inl s ↦ elim (Bool-cases (scan sha w batch).base_found) [
              | inl here ↦ rw (h, here, if◌then◌else◌, ◌||◌, take-short_batch p all n s) refl
              | inr later ↦ rw (h, later, s, if◌then◌else◌, ◌||◌, take-short_batch p all n s) refl
            ]
            | inr f ↦ elim (Bool-cases (scan sha w batch).base_found) [
              | inl here ↦
                  rw
                    (
                      h,
                      here,
                      if◌then◌else◌,
                      ◌||◌,
                      take-full_batch p all n f,
                      scan-append sha w batch (take (n * per_page) (from_page (suc p) all)) fresh,
                      here,
                    )
                    refl
              | inr later ↦
                  rw
                    (
                      h,
                      later,
                      f,
                      if◌then◌else◌,
                      ◌||◌,
                      take-full_batch p all n f,
                      scan-append sha w batch (take (n * per_page) (from_page (suc p) all)) fresh,
                      later,
                    )
                    (ap (λ k. walk_pages sha commits n k (scan sha w batch)) (omega arith)
                      ∙ walk_pages-scan sha n (suc p) (scan sha w batch) later)
            ]
          ]
        ])

  -- Without one it stops after the first page.
  pub walk_pages-first_page :
      (n : ℕ) (w : Walk)
      → w.base_found ≡ true
      → walk_pages none commits (suc n) 1 w ≡ found (notes w (take per_page all))
  unfolding walk_pages drop notes
  walk_pages-first_page n w done =
      rw (walk_pages, serves 0)
        (elim (Bool-cases (is_nil (take per_page all))) [
          | inl h ↦ rw (h, if◌then◌else◌, take-empty_batch 0 all per_page h, notes) refl
          | inr h ↦
              rw
                (
                  h,
                  if◌then◌else◌,
                  scan-none w (take per_page all),
                  notes-base_found w (take per_page all),
                  done,
                  ◌||◌,
                )
                refl
        ])
