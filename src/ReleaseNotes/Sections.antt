-- ===== src/ReleaseNotes/Sections.antt =====
-- publish/release_notes.py, `collect_entries`: the sections against the commits of the release.
use celestia_devtools.Prelude.{
  ℕ, zero, suc, ◌*◌, ◌≡◌, refl, ap, ◌∙◌, String, Option, none, some, List, [], ◌∷◌, ◌++◌, arith,
  if◌then◌else◌, Text, take, drop,
}
use celestia_devtools.Gitmoji.{other_heading}
use celestia_devtools.Paging.{Reply, found, git_hub_error, ◌>>=◌, Listing, per_page, Serves}
use celestia_devtools.ReleaseTags.{Api, Head, walk_head}
use celestia_devtools.ReleaseNotes.{
  Commit, Walk, Section, walk_pages, start, headings, sections_of, base_of, collect_entries,
}
use celestia_devtools.ReleaseNotes.Walks.{
  notes, until, walked, scan-until, walk_pages-scan, walk_pages-first_page, notes-base_found,
}
use celestia_devtools.ReleaseNotes.Grouping.{
  merged, listed, unnumbered, lookup-notes, skipped-notes, in_order-listed,
}

-- The commits of the release, out of those that the listing of its head serves: those before the
-- base within the pages that may be read. Without a base, the walk ends with its first page.
unfoldable pub range : Option String → ℕ → List Commit → Option (List Commit)
range none zero all = some []
range none (suc pages) all = some (take per_page all)
range (some sha) pages all = until (some sha) (take (pages * per_page) all)

abbrev pub sections : List Commit → List Section
sections cs = listed headings (merged [] cs) ++ listed (other_heading ∷ []) (merged [] cs)

abbrev pub outcome : Option (List Commit) → Reply (List Section × ℕ)
outcome none = git_hub_error
outcome (some cs) = found (sections cs, unnumbered cs)

sections_of-notes :
    (w : Option String) (cs : List Commit) → sections_of (notes (start w) cs).grouped ≡ sections cs
unfolding sections_of start
sections_of-notes sha cs =
    let same = λ (h : String). lookup-notes h (start sha) cs in
    rw
      (
        sections_of,
        in_order-listed headings (notes (start sha) cs).grouped (merged [] cs) same,
        in_order-listed (other_heading ∷ []) (notes (start sha) cs).grouped (merged [] cs) same,
      )
      refl

skipped-start :
    (sha : Option String) (cs : List Commit) → (notes (start sha) cs).skipped ≡ unnumbered cs
unfolding start
skipped-start sha cs = skipped-notes (start sha) cs ∙ omega arith

-- How collect_entries ends, from its walk.
abbrev conclude : Walk → Reply (List Section × ℕ)
conclude w = if w.base_found then found (sections_of w.grouped, w.skipped) else git_hub_error

conclude-walked :
    (sha : String) (cs : List Commit) (before : Option (List Commit))
    → conclude (walked (start (some sha)) cs before) ≡ outcome before
unfolding start
conclude-walked sha cs none = rw (notes-base_found (start (some sha)) cs) refl
conclude-walked sha cs (some before) =
    rw (sections_of-notes (some sha) before, skipped-start (some sha) before) refl

conclude-notes : (cs : List Commit) → conclude (notes (start none) cs) ≡ outcome (some cs)
unfolding start
conclude-notes cs =
    rw (notes-base_found (start none) cs, sections_of-notes none cs, skipped-start none cs) refl

walk_pages-range :
    (commits : Listing Commit) (all : List Commit) (sha : Option String) (max_pages : ℕ)
    → Serves commits all
    → (walk_pages sha commits max_pages 1 (start sha) >>= conclude)
      ≡ outcome (range sha max_pages all)
unfolding range start drop walk_pages notes
walk_pages-range commits all none zero serves = conclude-notes []
walk_pages-range commits all none (suc n) serves =
    rw (walk_pages-first_page commits all serves n (start none) refl)
      (conclude-notes (take per_page all))
walk_pages-range commits all (some sha) n serves =
    rw (walk_pages-scan commits all serves (some sha) n 0 (start (some sha)) refl) (
      ap conclude (scan-until (some sha) (start (some sha)) (take (n * per_page) all))
      ∙ conclude-walked sha (take (n * per_page) all) (until (some sha) (take (n * per_page) all)))

module _ (api : Api) (commits : Head → Listing Commit) (max_pages : ℕ) (tag : Text)
    (previous_tag : Option Text) (prev_sha : Option String) (head : Head) (all : List Commit)
    (serves : Serves (commits head) all) (based : base_of api previous_tag ≡ found prev_sha)
    (walks : walk_head api tag ≡ found head) where
  -- Where the base and the head of the walk are known and the pages of the head serve a list of
  -- commits, collect_entries returns the sections of the commits before the base, each heading in
  -- its place with its pull requests in the order of the walk, and the count of the commits without
  -- one; it raises an error where the base is not reached within the pages that may be read. Without
  -- a base, the commits are those of the first page.
  pub collect_entries-outcome :
      collect_entries api commits max_pages tag previous_tag
      ≡ outcome (range prev_sha max_pages all)
  unfolding collect_entries
  collect_entries-outcome =
      rw (collect_entries, based, walks, ◌>>=◌)
        (walk_pages-range (commits head) all prev_sha max_pages serves)
