-- ===== src/ReleaseTags/Previous.antt =====
-- publish/release_notes.py, `resolve_previous_tag`: the loops end, and the tag that they give is the
-- highest below the release.
use mathlib.Core.List.{append-nil, append_assoc}
use celestia_devtools.Prelude.{
  ℕ, zero, suc, ◌*◌, ◌≡◌, refl, sym, ap, ◌∙◌, subst, ◌↔◌, true, false, ◌⊎◌, inl, inr, Option, none,
  some, List, [], ◌∷◌, ◌++◌, arith, ltb, is_nil, length, Elem, Text, take, drop, Elem-middle,
  Bool-cases, Option-cases, if◌then◌else◌,
}
use celestia_devtools.Paging.{
  found, Listing, per_page, Serves, from_page, take-empty_batch, take-short_batch, take-full_batch,
}
use celestia_devtools.ReleaseTags.{
  Version, parse_semver, below, read_tags, Best, raise_best, better, pick, name_of,
  resolve_previous_tag,
}

module _ (tags : Listing Text) (all : List Text) (serves : Serves tags all) where
  -- The loop reads what the pages that it may read list.
  pub read_tags-Serves :
      (n p : ℕ) (names : List Text)
      → read_tags tags n (suc p) names ≡ found (names ++ take (n * per_page) (from_page p all))
  unfolding read_tags take
  read_tags-Serves zero p names = ap found (sym (append-nil names))
  read_tags-Serves (suc n) p names =
      rw (read_tags, serves p)
        (elim (Bool-cases (is_nil (take per_page (from_page p all)))) [
          | inl h ↦
              rw (h, if◌then◌else◌, take-empty_batch p all (suc n * per_page) h, append-nil) refl
          | inr h ↦ elim (Bool-cases (ltb (length (take per_page (from_page p all))) per_page)) [
            | inl s ↦ rw (h, s, if◌then◌else◌, take-short_batch p all n s) refl
            | inr f ↦
                rw (h, f, if◌then◌else◌, take-full_batch p all n f)
                  (ap (λ k. read_tags tags n k (names ++ take per_page (from_page p all)))
                      (omega arith)
                    ∙ read_tags-Serves n (suc p) (names ++ take per_page (from_page p all))
                    ∙ ap found (
                        append_assoc names (take per_page (from_page p all))
                          (take (n * per_page) (from_page (suc p) all))))
          ]
        ])

-- A tag among the names whose version is below `current`.
abbrev pub Candidate : Version → List Text → Text → Version → Type 0
Candidate current names name v =
    Elem name names × (parse_semver name ≡ some v) × (below v current ≡ true)

-- No candidate, or one with a version that is below no other's.
abbrev pub IsHighest : Version → List Text → Best → Type 0
IsHighest current names none = (name : Text) (v : Version) → ¬ Candidate current names name v
IsHighest current names (some (name, v)) =
    Candidate current names name v
    × ((other : Text) (w : Version) → Candidate current names other w → below v w ≡ false)

below_irrefl : (v : Version) → below v v ≡ false
unfolding below
below_irrefl v = ground arith

below_trans : (u v w : Version) → below u v ≡ true → below v w ≡ true → below u w ≡ true
unfolding below
below_trans u v w h k = ground arith

Candidate-cons :
    (current : Version) (names : List Text) (name other : Text) (w : Version)
    → Candidate current (name ∷ names) other w
    → ((parse_semver name ≡ some w) × (below w current ≡ true)) ⊎ Candidate current names other w
Candidate-cons current names name other w (inl e, parsed, lower) = inl (rw (← e) parsed, lower)
Candidate-cons current names name other w (inr m, parsed, lower) = inr (m, parsed, lower)

-- A name that is no candidate changes nothing.
keeps-IsHighest :
    (current : Version) (best : Best) (names : List Text) (name : Text)
    → ((v : Version) → parse_semver name ≡ some v → below v current ≡ false)
    → IsHighest current names best
    → IsHighest current (name ∷ names) best
keeps-IsHighest current none names name no_ b = λ other w c.
    elim (Candidate-cons current names name other w c) [
      | inl (e, low) ↦ absurd (ground (arith, no_ w e))
      | inr later ↦ b other w later
    ]
keeps-IsHighest current (some (top, u)) names name no_ ((m, e, low), max) = (
  (inr m, e, low),
  λ other w c. elim (Candidate-cons current names name other w c) [
    | inl (e', low') ↦ absurd (ground (arith, no_ w e'))
    | inr later ↦ max other w later
  ],
)

raise_best-IsHighest :
    (current : Version) (best : Best) (names : List Text) (name : Text) (v : Version)
    → parse_semver name ≡ some v
    → below v current ≡ true
    → IsHighest current names best
    → IsHighest current (name ∷ names) (raise_best best name v)
unfolding raise_best
raise_best-IsHighest current none names name v e low b = (
  (inl refl, e, low),
  λ other w c. elim (Candidate-cons current names name other w c) [
    | inl (f, _) ↦ ground (arith, below_irrefl v, f, e)
    | inr later ↦ absurd (b other w later)
  ],
)
raise_best-IsHighest current (some (top, u)) names name v e low ((m, f, under), max) =
    elim (Bool-cases (below u v)) [
      | inl less ↦ rw (less) (
        (inl refl, e, low),
        λ other w c. elim (Candidate-cons current names name other w c) [
          | inl (g, _) ↦ ground (arith, below_irrefl v, g, e)
          | inr later ↦ ground (arith, max other w later, below_trans u v w)
        ],
      )
      | inr more ↦ rw (more) (
        (inr m, f, under),
        λ other w c. elim (Candidate-cons current names name other w c) [
          | inl (g, _) ↦ ground (arith, g, e)
          | inr later ↦ max other w later
        ],
      )
    ]

better-IsHighest :
    (current : Version) (best : Best) (names : List Text) (name : Text)
    → IsHighest current names best
    → IsHighest current (name ∷ names) (better current best name)
unfolding better
better-IsHighest current best names name b = elim (Option-cases (parse_semver name)) [
  | inl bad ↦
      subst (IsHighest current (name ∷ names)) (rw (better, bad) refl)
        (keeps-IsHighest current best names name (λ v e. absurd (ground arith)) b)
  | inr (v, e) ↦ elim (Bool-cases (below v current)) [
    | inl low ↦
        subst (IsHighest current (name ∷ names)) (rw (better, e, low) refl)
          (raise_best-IsHighest current best names name v e low b)
    | inr high ↦
        subst (IsHighest current (name ∷ names)) (rw (better, e, high) refl)
          (keeps-IsHighest current best names name (λ w f. ground (arith, e, f, high)) b)
  ]
]

IsHighest-perm :
    (current : Version) (best : Best) (xs ys : List Text)
    → ((name : Text) → Elem name xs ↔ Elem name ys)
    → IsHighest current xs best
    → IsHighest current ys best
IsHighest-perm current none xs ys same b = λ name v (m, e, low). b name v ((same name).1 m, e, low)
IsHighest-perm current (some (top, u)) xs ys same ((m, e, low), max) =
    (((same top).0 m, e, low), λ other w (k, f, under). max other w ((same other).1 k, f, under))

pick-IsHighest :
    (current : Version) (best : Best) (before names : List Text)
    → IsHighest current before best
    → IsHighest current (before ++ names) (pick current best names)
unfolding pick
pick-IsHighest current best before [] b =
    subst (λ xs. IsHighest current xs best) (sym (append-nil before)) b
pick-IsHighest current best before (name ∷ names) b =
    IsHighest-perm current (pick current (better current best name) names)
      ((name ∷ before) ++ names) (before ++ name ∷ names) (λ x. Elem-middle x name before names)
      (pick-IsHighest current (better current best name) (name ∷ before) names
        (better-IsHighest current best before name b))

-- What a release after `tag` is compared with: nothing where the tag is no version, and else the
-- name of a highest version below it.
abbrev pub IsPrevious : Text → List Text → Option Text → Type 0
IsPrevious tag names result =
    ((parse_semver tag ≡ none) × (result ≡ none))
    ⊎ ((current : Version) × (best : Best) × (parse_semver tag ≡ some current)
        × IsHighest current names best
        × (result ≡ name_of best))

-- Where the pages of the listing serve a list of tags, resolve_previous_tag returns: the name, among
-- the tags of the first `max_pages` pages, whose version is the highest below that of `tag`, or none
-- where there is no such tag or `tag` itself is no version.
pub resolve_previous_tag-IsHighest :
    (tags : Listing Text) (all : List Text) (max_pages : ℕ) (tag : Text)
    → Serves tags all
    → (result : Option Text) × (resolve_previous_tag tags max_pages tag ≡ found result)
      × IsPrevious tag (take (max_pages * per_page) all) result
unfolding resolve_previous_tag drop
resolve_previous_tag-IsHighest tags all max_pages tag serves =
    elim (Option-cases (parse_semver tag)) [
      | inl bad ↦ (none, rw (resolve_previous_tag, bad) refl, inl (bad, refl))
      | inr (current, e) ↦
          let best = pick current none (take (max_pages * per_page) all) in
          (
            name_of best,
            rw (resolve_previous_tag, e, read_tags-Serves tags all serves max_pages 0 []) refl,
            inr (
              current,
              best,
              e,
              pick-IsHighest current none [] (take (max_pages * per_page) all)
                  (λ name v (m, _, _). m),
              refl,
            ),
          )
    ]
