-- ===== src/ReleaseNotes.antt =====
-- publish/release_notes.py: the walk over the commits of a release, which groups their pull requests
-- by section.
pub mod Walks
pub mod Grouping
pub mod Sections
pub mod Once
mod Samples
use celestia_devtools.Prelude.{
  ℕ, zero, suc, ◌+◌, ◌/◌, ◌%◌, String, Bool, true, false, ◌&&◌, ◌||◌, not, Option, none, some, List,
  [], ◌∷◌, ◌++◌, ltb, ◌==◌, str_eq, if◌then◌else◌, is_nil, length, map, Text, codes, is_space,
  is_digit, strip, lstrip, rstrip, span, int_of, text_eq, is_prefix, first_line,
}
use celestia_devtools.Dict.{Dict, lookup, insert}
use celestia_devtools.Gitmoji.{sections_table, other_heading}
use celestia_devtools.ReleaseSubjects.{parse_subject, classify}
use celestia_devtools.Paging.{
  Reply, found, not_found_error, git_hub_error, ◌>>=◌, Listing, per_page,
}
use celestia_devtools.ReleaseTags.{
  Api, Head, commit, branch, tag_commit_sha, walk_head, resolve_previous_tag,
}

pub record Commit : Type 0 where
  pub sha : String
  pub message : Text

-- (pr_number, title)
abbrev pub Entry : Type 0
Entry = ℕ × Text

-- The variables of the walk.
pub record Walk : Type 0 where
  pub base_found : Bool
  pub grouped : Dict (List Entry)
  pub seen : List ℕ
  pub skipped : ℕ

abbrev pub elem : ℕ → List ℕ → Bool
elem n [] = false
elem n (m ∷ ms) = m == n || elem n ms

-- grouped.setdefault(heading, [])
abbrev pub or_empty : Option (List Entry) → List Entry
or_empty none = []
or_empty (some entries) = entries

unfoldable pub subject_of : Commit → Text
unfolding first_line rstrip
subject_of c = rstrip (first_line c.message)

-- The end of the loop's body: a subject that is no base.
unfoldable pub note_entry : Text → Option ℕ × Text → Walk → Walk
unfolding lookup insert
note_entry subject (none, title) w = record w { skipped = w.skipped + 1 }
note_entry subject (some n, title) w = if elem n w.seen then w else record w {
  seen = n ∷ w.seen;
  grouped =
      (let heading = classify subject in
        insert heading (or_empty (lookup heading w.grouped) ++ (n, title) ∷ []) w.grouped);
}

unfoldable pub note_commit : Walk → Commit → Walk
unfolding subject_of parse_subject note_entry
note_commit w c = let subject = subject_of c in note_entry subject (parse_subject subject) w

-- (prev_sha is not None) and (commit["sha"] == prev_sha)
unfoldable pub is_base : Option String → Commit → Bool
is_base none c = false
is_base (some sha) c = str_eq c.sha sha

-- The loop over a batch.
unfoldable pub scan : Option String → Walk → List Commit → Walk
unfolding is_base note_commit
scan prev_sha w [] = w
scan prev_sha w (c ∷ batch) =
    let rest = scan prev_sha (note_commit w c) batch in
    if is_base prev_sha c then record w { base_found = true } else rest

-- The loop over the pages of commits.
unfoldable pub walk_pages : Option String → Listing Commit → ℕ → ℕ → Walk → Reply Walk
unfolding scan
walk_pages prev_sha commits zero page w = found w
walk_pages prev_sha commits (suc rounds) page w = elim (commits page) [
  | found batch ↦
      let scanned = scan prev_sha w batch in
      let rest = walk_pages prev_sha commits rounds (page + 1) scanned in
      if is_nil batch
      then found w
      else if scanned.base_found || ltb (length batch) per_page
      then found scanned
      else rest
  | not_found_error ↦ not_found_error
  | git_hub_error ↦ git_hub_error
]

abbrev pub is_none : Option String → Bool
is_none none = true
is_none (some sha) = false

unfoldable pub start : Option String → Walk
start prev_sha = record { base_found = is_none prev_sha; grouped = []; seen = []; skipped = 0 }

-- (heading, items)
abbrev pub Section : Type 0
Section = String × List Entry

abbrev pub add_section : String → Option (List Entry) → List Section → List Section
add_section heading none sections = sections
add_section heading (some items) sections = (heading, items) ∷ sections

-- The sections with items, in the order of the headings.
unfoldable pub in_order : List String → Dict (List Entry) → List Section
unfolding lookup
in_order [] grouped = []
in_order (heading ∷ headings) grouped =
    add_section heading (lookup heading grouped) (in_order headings grouped)

abbrev pub headings : List String
headings = map (λ row. row.0) sections_table

-- sections, and OTHER_HEADING behind them
unfoldable pub sections_of : Dict (List Entry) → List Section
unfolding in_order
sections_of grouped = in_order headings grouped ++ in_order (other_heading ∷ []) grouped

-- prev_sha, which a tag without a ref leaves None
unfoldable pub base_of : Api → Option Text → Reply (Option String)
unfolding tag_commit_sha
base_of api none = found none
base_of api (some []) = found none
base_of api (some (c ∷ cs)) = elim (tag_commit_sha api (c ∷ cs)) [
  | found sha ↦ found (some sha)
  | not_found_error ↦ found none
  | git_hub_error ↦ git_hub_error
]

unfoldable pub collect_entries :
    Api → (Head → Listing Commit) → ℕ → Text → Option Text → Reply (List Section × ℕ)
unfolding base_of walk_head walk_pages start sections_of
collect_entries api commits max_pages tag previous_tag = do
  prev_sha ← base_of api previous_tag
  head ← walk_head api tag
  w ← walk_pages prev_sha (commits head) max_pages 1 (start prev_sha)
  if w.base_found then found (sections_of w.grouped, w.skipped) else git_hub_error
