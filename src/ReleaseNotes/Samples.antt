-- ===== src/ReleaseNotes/Samples.antt =====
-- A repository with four tags, a draft release and a few commits.
use celestia_devtools.Prelude.{
  ℕ, zero, suc, ◌*◌, ◌≡◌, refl, String, true, false, Option, some, List, [], ◌∷◌, Text, codes, take,
  drop, span, strip, int_of, text_eq, is_prefix, first_line, rstrip, if◌then◌else◌, Elem, ◌≢◌, ◌++◌,
  eq_iff, inl, inr, arith,
}
use celestia_devtools.Dict.{lookup, insert}
use celestia_devtools.Gitmoji.{gitmoji_whitelist, dependabot_heading}
use celestia_devtools.Paging.{Reply, found, not_found_error, Listing, per_page, from_page}
use celestia_devtools.ReleaseTags.{
  Release, Api, Head, commit, find_release, resolve_previous_tag, walk_head,
}
use celestia_devtools.ReleaseTags.Previous.{IsPrevious, resolve_previous_tag-IsHighest}
use celestia_devtools.ReleaseTags.Releases.{IsFirst, find_release-IsFirst}
use celestia_devtools.ReleaseSubjects.{match_gitmoji, classify}
use celestia_devtools.ReleaseSubjects.Leads.{Leads, Spells, match_gitmoji-Leads}
use celestia_devtools.ReleaseNotes.{Commit, Section, base_of, collect_entries}
use celestia_devtools.ReleaseNotes.Sections.{range, outcome, collect_entries-outcome}
use celestia_devtools.ReleaseNotes.Once.{listings, mentions, collect_entries_once}

abbrev serve : {A : Type 0} → List A → Listing A
serve all zero = found []
serve all (suc p) = found (take per_page (from_page p all))

abbrev tags : List Text
tags = codes "v0.2.0" ∷ codes "fonts" ∷ codes "v0.10.1" ∷ codes "flasher-v0.9" ∷ []

abbrev draft : Release
draft = record {
  id = 7;
  tag_name = codes "v0.10.1";
  target_commitish = codes "master";
  draft = true;
}

abbrev api : Api
api = record {
  tags = serve tags;
  ref = λ tag.
      found (record { is_tag = false; sha = if text_eq tag (codes "v0.10.1") then "ff" else "aa" });
  tag_object = λ sha. found sha;
  release = λ tag. not_found_error;
  releases = serve (draft ∷ []);
}

abbrev squash : String → String → Commit
squash sha message = record { sha = sha; message = codes message }

abbrev history : List Commit
history =
    squash "ff" "Fix it. (#12)"
    ∷ squash "ee" "Bump serde from 1 to 2 (#11)"
    ∷ squash "dd" "no reference"
    ∷ squash "cc" "Fix it again. (#12)"
    ∷ squash "aa" "Old work. (#10)"
    ∷ []

resolve_previous_tag-IsHighest_example :
    (result : Option Text) × (resolve_previous_tag (serve tags) 50 (codes "v0.10.1") ≡ found result)
    × IsPrevious (codes "v0.10.1") (take (50 * per_page) tags) result
resolve_previous_tag-IsHighest_example =
    resolve_previous_tag-IsHighest (serve tags) tags 50 (codes "v0.10.1") (λ p. refl)

highest_below :
    resolve_previous_tag (serve tags) 50 (codes "v0.10.1") ≡ found (some (codes "flasher-v0.9"))
unfolding resolve_previous_tag take drop span strip int_of
highest_below = refl

find_release-IsFirst_example :
    (result : Option Release) × (find_release api 10 (codes "v0.10.1") ≡ found result)
    × IsFirst (codes "v0.10.1") (take (10 * per_page) (draft ∷ [])) result
find_release-IsFirst_example =
    find_release-IsFirst api (draft ∷ []) 10 (codes "v0.10.1") (λ p. refl) refl

match_gitmoji-Leads_example :
    Leads
      (Spells gitmoji_whitelist)
      (codes "⚡ Cache the shaders. (#31)")
      (match_gitmoji (codes "⚡ Cache the shaders. (#31)"))
match_gitmoji-Leads_example = match_gitmoji-Leads (codes "⚡ Cache the shaders. (#31)")

abbrev commits : Head → Listing Commit
commits head = serve history

based : base_of api (some (codes "v0.2.0")) ≡ found (some "aa")
unfolding base_of text_eq
based = refl

walks : walk_head api (codes "v0.10.1") ≡ found (commit "ff")
unfolding walk_head text_eq
walks = refl

abbrev release_of : Reply (List Section × ℕ)
release_of = collect_entries api commits 500 (codes "v0.10.1") (some (codes "v0.2.0"))

collect_entries-outcome_example : release_of ≡ outcome (range (some "aa") 500 history)
collect_entries-outcome_example =
    collect_entries-outcome api commits 500 (codes "v0.10.1") (some (codes "v0.2.0")) (some "aa")
      (commit "ff") history (λ p. refl) based walks

-- The commits in front of the base.
abbrev merged_commits : List Commit
merged_commits =
    squash "ff" "Fix it. (#12)"
    ∷ squash "ee" "Bump serde from 1 to 2 (#11)"
    ∷ squash "dd" "no reference"
    ∷ squash "cc" "Fix it again. (#12)"
    ∷ []

merged_newer : (c : Commit) → Elem c merged_commits → c.sha ≢ "aa"
merged_newer c (inl e) = rw e (λ h. ground (arith, h, eq_iff "ff" "aa"))
merged_newer c (inr (inl e)) = rw e (λ h. ground (arith, h, eq_iff "ee" "aa"))
merged_newer c (inr (inr (inl e))) = rw e (λ h. ground (arith, h, eq_iff "dd" "aa"))
merged_newer c (inr (inr (inr (inl e)))) = rw e (λ h. ground (arith, h, eq_iff "cc" "aa"))
merged_newer c (inr (inr (inr (inr absent)))) = absurd absent

whole_history : take (500 * per_page) history ≡ merged_commits ++ squash "aa" "Old work. (#10)" ∷ []
unfolding take
whole_history = refl

collect_entries_once_example :
    (result : List Section × ℕ) × (release_of ≡ found result)
    × ((n : ℕ) → listings n result.0 ≡ (if mentions n merged_commits then 1 else 0))
collect_entries_once_example =
    collect_entries_once api commits 500 (codes "v0.10.1") (some (codes "v0.2.0")) "aa"
      (commit "ff") history merged_commits (squash "aa" "Old work. (#10)") [] (λ p. refl) based
      walks whole_history refl merged_newer

grouped_by_section :
    release_of
    ≡ found (
      (dependabot_heading, (11, codes "Bump serde from 1 to 2") ∷ [])
          ∷ ("Other Changes", (12, codes "Fix it.") ∷ [])
          ∷ [],
      1,
    )
unfolding collect_entries take drop span strip int_of text_eq is_prefix first_line rstrip lookup
    insert classify
grouped_by_section = refl
