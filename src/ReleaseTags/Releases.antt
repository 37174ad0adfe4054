-- ===== src/ReleaseTags/Releases.antt =====
-- publish/release_notes.py, `find_release` and `walk_head`: drafts are found through the listing.
use celestia_devtools.Prelude.{
  ℕ, zero, suc, ◌*◌, ◌≡◌, refl, ap, ◌∙◌, inl, inr, Option, none, some, List, [], ◌∷◌, ◌++◌, arith,
  ltb, is_nil, length, Text, take, drop, Bool-cases, Option-cases, if◌then◌else◌, Elem, ◌≢◌, sym,
  text_eq, text_eq_iff,
}
use celestia_devtools.Paging.{
  found, not_found_error, Listing, per_page, Serves, from_page, take-empty_batch, take-short_batch,
  take-full_batch,
}
use celestia_devtools.ReleaseTags.{Release, Api, first_tagged, search_releases, find_release}

-- The release of a tag in the first list, or else in the second.
abbrev or_else : Option Release → Option Release → Option Release
or_else none later = later
or_else (some r) later = some r

first_tagged-append :
    (tag : Text) (xs ys : List Release)
    → first_tagged tag (xs ++ ys) ≡ or_else (first_tagged tag xs) (first_tagged tag ys)
unfolding first_tagged
first_tagged-append tag [] ys = refl
first_tagged-append tag (x ∷ xs) ys = ground (arith, first_tagged-append tag xs ys)

module _ (releases : Listing Release) (all : List Release) (serves : Serves releases all) where
  pub search_releases-Serves :
      (tag : Text) (n p : ℕ)
      → search_releases releases tag n (suc p)
        ≡ found (first_tagged tag (take (n * per_page) (from_page p all)))
  unfolding search_releases take first_tagged
  search_releases-Serves tag zero p = refl
  search_releases-Serves tag (suc n) p =
      rw (search_releases, serves p)
        (elim (Bool-cases (is_nil (take per_page (from_page p all)))) [
          | inl h ↦ rw (h, if◌then◌else◌, take-empty_batch p all (suc n * per_page) h) refl
          | inr h ↦ elim (Option-cases (first_tagged tag (take per_page (from_page p all)))) [
            | inl miss ↦
                elim (Bool-cases (ltb (length (take per_page (from_page p all))) per_page)) [
                  | inl s ↦ rw (h, miss, s, if◌then◌else◌, take-short_batch p all n s, miss) refl
                  | inr f ↦
                      rw
                        (
                          h,
                          miss,
                          f,
                          if◌then◌else◌,
                          take-full_batch p all n f,
                          first_tagged-append tag (take per_page (from_page p all)),
                          miss,
                          or_else,
                        )
                        (ap (search_releases releases tag n) (omega arith)
                          ∙ search_releases-Serves tag n (suc p))
                ]
            | inr (r, hit) ↦
                elim (Bool-cases (ltb (length (take per_page (from_page p all))) per_page)) [
                  | inl s ↦ rw (h, hit, if◌then◌else◌, take-short_batch p all n s, hit) refl
                  | inr f ↦
                      rw
                        (
                          h,
                          hit,
                          if◌then◌else◌,
                          take-full_batch p all n f,
                          first_tagged-append tag (take per_page (from_page p all)),
                          hit,
                          or_else,
                        )
                        refl
                ]
          ]
        ])

-- The result is the first release of the list that has the tag, draft or not; where it is none, no
-- release of the list has it.
abbrev pub IsFirst : Text → List Release → Option Release → Type 0
IsFirst tag all none = (r : Release) → Elem r all → r.tag_name ≢ tag
IsFirst tag all (some r) =
    (r.tag_name ≡ tag)
    × ((front : List Release) × (back : List Release) × (all ≡ front ++ r ∷ back)
        × ((q : Release) → Elem q front → q.tag_name ≢ tag))

IsFirst-cons :
    (tag : Text) (x : Release) (xs : List Release) (o : Option Release)
    → x.tag_name ≢ tag
    → IsFirst tag xs o
    → IsFirst tag (x ∷ xs) o
IsFirst-cons tag x xs none other none_has = λ r m. elim m [
  | inl e ↦ λ named. other (ap (λ y. y.tag_name) (sym e) ∙ named)
  | inr k ↦ none_has r k
]
IsFirst-cons tag x xs (some r) other (named, (front, back, e, before)) = (
  named,
  (
    x ∷ front,
    back,
    ap (λ l. x ∷ l) e,
    λ q m. elim m [
      | inl same ↦ λ h. other (ap (λ y. y.tag_name) (sym same) ∙ h)
      | inr k ↦ before q k
    ],
  ),
)

first_tagged-IsFirst : (tag : Text) (all : List Release) → IsFirst tag all (first_tagged tag all)
unfolding first_tagged
first_tagged-IsFirst tag [] = λ r m. absurd m
first_tagged-IsFirst tag (x ∷ xs) = elim (Bool-cases (text_eq x.tag_name tag)) [
  | inl here ↦
      rw (first_tagged, here) ((text_eq_iff x.tag_name tag).0 here, ([], xs, refl, λ q m. absurd m))
  | inr other ↦
      rw (first_tagged, other)
        (IsFirst-cons tag x xs (first_tagged tag xs)
          (λ e. ground (arith, other, (text_eq_iff x.tag_name tag).1 e))
          (first_tagged-IsFirst tag xs))
]

-- Where the direct call reports that the tag has no published release and the pages of the listing
-- serve a list of releases, find_release returns: the first release of the first `max_pages` pages
-- that has the tag, be it a draft, and none only where none of them has it.
pub find_release-IsFirst :
    (api : Api) (all : List Release) (max_pages : ℕ) (tag : Text)
    → Serves api.releases all
    → api.release tag ≡ not_found_error
    → (result : Option Release) × (find_release api max_pages tag ≡ found result)
      × IsFirst tag (take (max_pages * per_page) all) result
unfolding find_release drop
find_release-IsFirst api all max_pages tag serves missing = (
  first_tagged tag (take (max_pages * per_page) all),
  rw (find_release, missing) (search_releases-Serves api.releases all serves tag max_pages 0),
  first_tagged-IsFirst tag (take (max_pages * per_page) all),
)
