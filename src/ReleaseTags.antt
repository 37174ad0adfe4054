-- ===== src/ReleaseTags.antt =====
-- publish/release_notes.py: the versions of tags, the tag before a release, and the commit that a
-- tag stands for.
pub mod Previous
pub mod Releases
use celestia_devtools.Prelude.{
  ℕ, zero, suc, ◌+◌, ◌≡◌, Bool, true, false, ◌&&◌, ◌||◌, not, Option, none, some, List, [], ◌∷◌,
  ◌++◌, String, ltb, ◌==◌, if◌then◌else◌, is_nil, length, Text, is_digit, is_letter, strip, span,
  int_of, text_eq,
}
use celestia_devtools.Paging.{
  Reply, found, not_found_error, git_hub_error, ◌>>=◌, Listing, per_page,
}

-- (major, minor, patch)
abbrev pub Version : Type 0
Version = ℕ × ℕ × ℕ

-- The tail behind "<name>-", where the tag starts with one. A tag that does not go on with a version
-- there has none without the prefix either.
unfoldable pub unprefixed : Text → Text
unprefixed s =
    let (name, rest) = span (λ c. is_digit c || is_letter c) s in
    elim rest [ [] ↦ s | c ∷ cs ↦ if not (is_nil name) && c == b'-' then cs else s ]

-- The optional "v".
unfoldable pub unmarked : Text → Text
unmarked [] = []
unmarked (c ∷ cs) = if c == b'v' then cs else c ∷ cs

-- (\d+)
unfoldable pub number : Text → Option (ℕ × Text)
number s = let (ds, rest) = span is_digit s in if is_nil ds then none else some (int_of 0 ds, rest)

-- \.(\d+)
unfoldable pub dotted : Text → Option (ℕ × Text)
unfolding number
dotted [] = none
dotted (c ∷ cs) = if c == b'.' then number cs else none

-- (?:\.(\d+))?$
unfoldable pub patch : Text → Option ℕ
unfolding dotted
patch [] = some 0
patch (c ∷ cs) = elim (dotted (c ∷ cs)) [
  | none ↦ none
  | some (n, rest) ↦ if is_nil rest then some n else none
]

unfoldable pub parse_semver : Text → Option Version
unfolding unprefixed unmarked number dotted patch
parse_semver tag = elim (number (unmarked (unprefixed (strip tag)))) [
  | none ↦ none
  | some (major, rest) ↦ elim (dotted rest) [
    | none ↦ none
    | some (minor, rest) ↦ elim (patch rest) [
      | none ↦ none
      | some micro ↦ some (major, minor, micro)
    ]
  ]
]

-- v < w, as tuples are compared.
unfoldable pub below : Version → Version → Bool
below v w = ltb v.0 w.0 || (v.0 == w.0 && (ltb v.1 w.1 || (v.1 == w.1 && ltb v.2 w.2)))

-- The loop over the pages of tags.
unfoldable pub read_tags : Listing Text → ℕ → ℕ → List Text → Reply (List Text)
read_tags tags zero page names = found names
read_tags tags (suc rounds) page names = elim (tags page) [
  | found batch ↦
      let rest = read_tags tags rounds (page + 1) (names ++ batch) in
      if is_nil batch
      then found names
      else if ltb (length batch) per_page
      then found (names ++ batch)
      else rest
  | not_found_error ↦ not_found_error
  | git_hub_error ↦ git_hub_error
]

-- best_name with best_version
abbrev pub Best : Type 0
Best = Option (Text × Version)

unfoldable pub raise_best : Best → Text → Version → Best
unfolding below
raise_best none name version = some (name, version)
raise_best (some b) name version = if below b.1 version then some (name, version) else some b

unfoldable pub better : Version → Best → Text → Best
unfolding below raise_best
better current best name = elim (parse_semver name) [
  | none ↦ best
  | some version ↦ if not (below version current) then best else raise_best best name version
]

-- The loop over the names.
unfoldable pub pick : Version → Best → List Text → Best
unfolding better
pick current best [] = best
pick current best (name ∷ names) = pick current (better current best name) names

abbrev pub name_of : Best → Option Text
name_of none = none
name_of (some (name, version)) = some name

unfoldable pub resolve_previous_tag : Listing Text → ℕ → Text → Reply (Option Text)
unfolding parse_semver read_tags pick
resolve_previous_tag tags max_pages tag = elim (parse_semver tag) [
  | none ↦ found none
  | some current ↦ do
    names ← read_tags tags max_pages 1 []
    found (name_of (pick current none names))
]

-- The object behind a ref: an annotated tag or a commit, with its sha.
pub record GitObject : Type 0 where
  pub is_tag : Bool
  pub sha : String

-- A release, as far as it is read: the fields that may be missing are "" then.
pub record Release : Type 0 where
  pub id : ℕ
  pub tag_name : Text
  pub target_commitish : Text
  pub draft : Bool

-- The interface of one repository. `tag_object` is the object of an annotated tag.
pub record Api : Type 0 where
  pub tags : Listing Text
  pub ref : Text → Reply GitObject
  pub tag_object : String → Reply String
  pub release : Text → Reply Release
  pub releases : Listing Release

unfoldable pub tag_commit_sha : Api → Text → Reply String
tag_commit_sha api tag = do
  obj ← api.ref tag
  if obj.is_tag then api.tag_object obj.sha else found obj.sha

unfoldable pub first_tagged : Text → List Release → Option Release
first_tagged tag [] = none
first_tagged tag (r ∷ batch) =
    let later = first_tagged tag batch in if text_eq r.tag_name tag then some r else later

-- The loop over the pages of releases.
unfoldable pub search_releases : Listing Release → Text → ℕ → ℕ → Reply (Option Release)
unfolding first_tagged
search_releases releases tag zero page = found none
search_releases releases tag (suc rounds) page = elim (releases page) [
  | found batch ↦
      let rest = search_releases releases tag rounds (page + 1) in
      if is_nil batch then found none else elim (first_tagged tag batch) [
        | some r ↦ found (some r)
        | none ↦ if ltb (length batch) per_page then found none else rest
      ]
  | not_found_error ↦ not_found_error
  | git_hub_error ↦ git_hub_error
]

unfoldable pub find_release : Api → ℕ → Text → Reply (Option Release)
unfolding search_releases
find_release api max_pages tag = elim (api.release tag) [
  | found r ↦ found (some r)
  | not_found_error ↦ search_releases api.releases tag max_pages 1
  | git_hub_error ↦ git_hub_error
]

-- (release or {}).get("target_commitish", "").strip()
unfoldable pub target_of : Option Release → Text
target_of none = []
target_of (some r) = strip r.target_commitish

-- A ref by its name or by its sha.
pub data Head : Type 0 where
  commit : String → Head
  branch : Text → Head

unfoldable pub walk_head : Api → Text → Reply Head
unfolding tag_commit_sha find_release target_of
walk_head api tag = elim (tag_commit_sha api tag) [
  | found sha ↦ found (commit sha)
  | not_found_error ↦ do
    release ← find_release api 10 tag
    let target = target_of release
    if is_nil target then git_hub_error else found (branch target)
  | git_hub_error ↦ git_hub_error
]
