-- ===== src/ReleaseBody.antt =====
-- publish/release_notes.py: the body of a release, the request that puts it there, and the end of
-- `main`.
pub mod Links
mod Samples
use celestia_devtools.Prelude.{
  ℕ, Bool, ◌&&◌, not, Option, none, some, List, [], ◌∷◌, ◌++◌, if◌then◌else◌, Text, codes, rstrip,
  decimal,
}
use celestia_devtools.Paging.{Reply, found, ◌>>=◌, Listing}
use celestia_devtools.ReleaseTags.{Api, Head, Release, find_release, resolve_previous_tag}
use celestia_devtools.ReleaseNotes.{Commit, Entry, Section, collect_entries}

-- "\n".join(lines)
unfoldable pub join_lines : List Text → Text
join_lines [] = []
join_lines (line ∷ []) = line
join_lines (line ∷ next ∷ lines) = line ++ 10 ∷ join_lines (next ∷ lines)

unfoldable pub item_line : Text → Entry → Text
unfolding decimal
item_line repo (n, title) =
    codes "- [#"
    ++ decimal n
    ++ codes "](https://github.com/"
    ++ repo
    ++ codes "/pull/"
    ++ decimal n
    ++ codes ") "
    ++ title

unfoldable pub item_lines : Text → List Entry → List Text
unfolding item_line
item_lines repo [] = []
item_lines repo (item ∷ items) = item_line repo item ∷ item_lines repo items

unfoldable pub section_lines : Text → List Section → List Text
unfolding item_lines
section_lines repo [] = []
section_lines repo ((heading, items) ∷ sections) =
    (codes "### " ++ codes heading) ∷ [] ∷ item_lines repo items
    ++ ([] ∷ section_lines repo sections)

unfoldable pub compare_lines : Text → Text → Option Text → List Text
compare_lines repo tag none = []
compare_lines repo tag (some []) = []
compare_lines repo tag (some (c ∷ cs)) =
    (codes "**Full Changelog**: https://github.com/"
      ++ repo
      ++ codes "/compare/"
      ++ (c ∷ cs)
      ++ codes "..."
      ++ tag)
    ∷ []

abbrev pub empty_lines : List Section → List Text
empty_lines [] = codes "_No pull requests were merged in this release._" ∷ [] ∷ []
empty_lines (section ∷ sections) = []

unfoldable pub build_body : Text → Text → Option Text → List Section → Text
unfolding join_lines section_lines compare_lines rstrip
build_body repo tag previous_tag sections =
    rstrip (
      join_lines (
        codes "## What's Changed" ∷ [] ∷ empty_lines sections
        ++ (section_lines repo sections ++ compare_lines repo tag previous_tag)))
    ++ 10 ∷ []

-- A request that changes a release, with its payload.
pub data Request : Type 0 where
  patch_release : ℕ → Text → Option Text → Request
  post_release : Text → Text → Text → Bool → Request

-- title, if it is not empty
abbrev pub non_empty : Option Text → Option Text
non_empty none = none
non_empty (some []) = none
non_empty (some (c ∷ cs)) = some (c ∷ cs)

abbrev pub or_tag : Option Text → Text → Text
or_tag none tag = tag
or_tag (some title) tag = title

unfoldable pub request_for : Option Release → Text → Text → Option Text → Bool → Request
request_for none tag body title publish =
    post_release tag (or_tag (non_empty title) tag) body (not publish)
request_for (some existing) tag body title publish =
    patch_release existing.id body (non_empty title)

unfoldable pub upsert_release : Api → Text → Text → Option Text → Bool → Reply Request
unfolding find_release request_for
upsert_release api tag body title publish = do
  existing ← find_release api 10 tag
  found (request_for existing tag body title publish)

-- The options of `main`, and whether a token was found.
pub record Options : Type 0 where
  pub repo : Text
  pub tag : Text
  pub previous_tag : Option Text
  pub no_previous : Bool
  pub title : Option Text
  pub apply : Bool
  pub publish : Bool
  pub out : Option Text
  pub max_pages : ℕ
  pub token : Bool

-- What a run does at its end: the exit code 2, or 0 behind a request, a file or the output.
pub data End : Type 0 where
  no_token : End
  sent : Request → End
  wrote : Text → Text → End
  printed : Text → End

unfoldable pub base_tag : Api → Options → Reply (Option Text)
unfolding resolve_previous_tag
base_tag api o = if o.no_previous then found none else elim (non_empty o.previous_tag) [
  | some previous ↦ found (some previous)
  | none ↦ resolve_previous_tag api.tags 50 o.tag
]

abbrev pub output : Option Text → Text → End
output none body = printed body
output (some []) body = printed body
output (some (c ∷ cs)) body = wrote (c ∷ cs) body

unfoldable pub finish : Api → Options → Text → Reply End
unfolding upsert_release
finish api o body =
    if o.apply
    then (upsert_release api o.tag body o.title o.publish >>= λ request. found (sent request))
    else found (output o.out body)

unfoldable pub run_notes : Api → (Head → Listing Commit) → Options → Reply End
unfolding base_tag collect_entries build_body finish
run_notes api commits o = if not o.token && o.apply then found no_token else do
  previous ← base_tag api o
  collected ← collect_entries api commits o.max_pages o.tag previous
  finish api o (build_body o.repo o.tag previous collected.0)
