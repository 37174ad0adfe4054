-- ===== src/ReleaseNotes/Once.antt =====
-- publish/release_notes.py, `collect_entries`: no pull request is lost or listed twice.
use celestia_devtools.Prelude.{
  ℕ, ◌+◌, ◌≡◌, refl, sym, ap, ◌∙◌, String, Bool, true, false, ◌||◌, inl, inr, Option, none, some,
  List, [], ◌∷◌, ◌++◌, arith, ◌==◌, ==_iff, str_eq, Bool-cases, Option-cases, if◌then◌else◌, Text,
  Elem, Elem-append_left, Elem-append_right, map, all_of, subst, ◌≢◌, eq_iff, eq_refl, take, ◌*◌,
}
use celestia_devtools.Gitmoji.{sections_table, other_heading}
use celestia_devtools.Paging.{found, Listing, Serves, per_page}
use celestia_devtools.ReleaseTags.{Api, Head, walk_head}
use celestia_devtools.ReleaseSubjects.{
  match_gitmoji, normalize, section_of, or_other, is_bump, parse_subject, classify,
}
use celestia_devtools.ReleaseNotes.{
  Commit, Entry, Section, elem, is_base, subject_of, headings, base_of, collect_entries,
  add_section,
}
use celestia_devtools.ReleaseNotes.Grouping.{
  merged, new_entry, seen_after, items, or_none, listed, unnumbered,
}
use celestia_devtools.ReleaseNotes.Walks.{until}
use celestia_devtools.ReleaseNotes.Sections.{range, sections, outcome, collect_entries-outcome}

abbrev one_if : Bool → ℕ
one_if true = 1
one_if false = 0

-- How often a number is listed under a heading, and in all sections.
abbrev pub times : ℕ → List Entry → ℕ
times n [] = 0
times n ((m, title) ∷ entries) = one_if (m == n) + times n entries

abbrev pub listings : ℕ → List Section → ℕ
listings n [] = 0
listings n ((heading, entries) ∷ sections) = times n entries + listings n sections

abbrev pub names_pr : ℕ → Option ℕ → Bool
names_pr n none = false
names_pr n (some m) = m == n

-- Some commit is the squash merge of the pull request.
abbrev pub mentions : ℕ → List Commit → Bool
mentions n [] = false
mentions n (c ∷ cs) = names_pr n (parse_subject (subject_of c)).0 || mentions n cs

-- How often a number is merged, and a heading listed.
abbrev times_merged : ℕ → List (String × Entry) → ℕ
times_merged n [] = 0
times_merged n ((g, (m, title)) ∷ ms) = one_if (m == n) + times_merged n ms

abbrev occurs : String → List String → ℕ
occurs g [] = 0
occurs g (h ∷ hs) = one_if (str_eq g h) + occurs g hs

listings-append :
    (n : ℕ) (xs ys : List Section) → listings n (xs ++ ys) ≡ listings n xs + listings n ys
listings-append n [] ys = omega arith
listings-append n ((h, es) ∷ xs) ys = omega (arith, listings-append n xs ys)

listings-add_section :
    (n : ℕ) (h : String) (es : List Entry) (xs : List Section)
    → listings n (add_section h (or_none es) xs) ≡ times n es + listings n xs
listings-add_section n h [] xs = omega arith
listings-add_section n h (e ∷ es) xs = refl

listings-listed_nil : (n : ℕ) (hs : List String) → listings n (listed hs []) ≡ 0
unfolding listed
listings-listed_nil n [] = refl
listings-listed_nil n (h ∷ hs) = listings-listed_nil n hs

abbrev weighed : Bool → ℕ → ℕ
weighed true k = k
weighed false k = 0

times-items_cons :
    (n m : ℕ) (title : Text) (g h : String) (ms : List (String × Entry))
    → times n (items h ((g, (m, title)) ∷ ms))
      ≡ weighed (m == n) (one_if (str_eq g h)) + times n (items h ms)
unfolding items
times-items_cons n m title g h ms = elim (Bool-cases (str_eq g h)) [
  | inl same ↦ rw (items, same) (ground arith)
  | inr apart ↦ rw (items, apart) (ground arith)
]

weighed-add : (b : Bool) (j k : ℕ) → weighed b (j + k) ≡ weighed b j + weighed b k
weighed-add true j k = refl
weighed-add false j k = refl

listings-listed_cons :
    (n m : ℕ) (title : Text) (g : String) (hs : List String) (ms : List (String × Entry))
    → listings n (listed hs ((g, (m, title)) ∷ ms))
      ≡ weighed (m == n) (occurs g hs) + listings n (listed hs ms)
unfolding listed
listings-listed_cons n m title g [] ms = ground arith
listings-listed_cons n m title g (h ∷ hs) ms =
    let all = (g, (m, title)) ∷ ms in
    omega (
      arith,
      listings-add_section n h (items h all) (listed hs all),
      listings-add_section n h (items h ms) (listed hs ms),
      times-items_cons n m title g h ms,
      listings-listed_cons n m title g hs ms,
      weighed-add (m == n) (one_if (str_eq g h)) (occurs g hs),
    )

-- Each merged entry stands under a heading, which the list holds once.
abbrev AllUnder : List String → List (String × Entry) → Type 0
AllUnder hs [] = Unit {0}
AllUnder hs ((g, e) ∷ ms) = (occurs g hs ≡ 1) × AllUnder hs ms

listings-listed :
    (n : ℕ) (hs : List String) (ms : List (String × Entry))
    → AllUnder hs ms
    → listings n (listed hs ms) ≡ times_merged n ms
listings-listed n hs [] under = listings-listed_nil n hs
listings-listed n hs ((g, (m, title)) ∷ ms) (once, under) =
    ground (arith, listings-listed_cons n m title g hs ms, listings-listed n hs ms under)

add_section-append :
    (h : String) (o : Option (List Entry)) (xs ys : List Section)
    → add_section h o (xs ++ ys) ≡ add_section h o xs ++ ys
add_section-append h none xs ys = refl
add_section-append h (some es) xs ys = refl

listed-append :
    (hs gs : List String) (ms : List (String × Entry))
    → listed (hs ++ gs) ms ≡ listed hs ms ++ listed gs ms
unfolding listed
listed-append [] gs ms = refl
listed-append (h ∷ hs) gs ms =
    ap (add_section h (or_none (items h ms))) (listed-append hs gs ms)
    ∙ add_section-append h (or_none (items h ms)) (listed hs ms) (listed gs ms)

abbrev all_headings : List String
all_headings = headings ++ other_heading ∷ []

-- Every heading that `classify` gives is one of the list, and the list has it once.
section_of-Elem :
    (emoji : Text) (table : List (String × List Text)) (h : String)
    → section_of emoji table ≡ some h
    → Elem h (map (λ row. row.0) table)
unfolding section_of
section_of-Elem emoji [] h e = absurd (ground arith)
section_of-Elem emoji ((g, emojis) ∷ table) h e = ground (arith, section_of-Elem emoji table h)

all_once : all_of (λ g. occurs g all_headings == 1) all_headings ≡ true
all_once = refl

all_of-Elem :
    {A : Type 0} (p : A → Bool) (a : A) (xs : List A) → all_of p xs ≡ true → Elem a xs → p a ≡ true
all_of-Elem p a [] h m = elim m [ ]
all_of-Elem p a (x ∷ xs) h (inl e) = rw (e) (ground arith)
all_of-Elem p a (x ∷ xs) h (inr m) = all_of-Elem p a xs (ground arith) m

other-Elem : Elem other_heading all_headings
other-Elem = Elem-append_right other_heading headings (other_heading ∷ []) (inl refl)

or_other-Elem :
    (o : Option String)
    → ((h : String) → o ≡ some h → Elem h headings)
    → Elem (or_other o) all_headings
unfolding or_other
or_other-Elem none known = other-Elem
or_other-Elem (some h) known = Elem-append_left h headings (other_heading ∷ []) (known h refl)

classify-Elem : (subject : Text) → Elem (classify subject) all_headings
unfolding classify
classify-Elem subject = elim (Option-cases (match_gitmoji subject)) [
  | inl plain ↦ elim (Bool-cases (is_bump subject)) [
    | inl bump ↦
        subst (λ h. Elem h all_headings) (rw (classify, plain, bump) refl)
          (inr (inr (inr (inr (inr (inr (inr (inr (inl refl)))))))))
    | inr other ↦ subst (λ h. Elem h all_headings) (rw (classify, plain, other) refl) other-Elem
  ]
  | inr (emoji, led) ↦
      subst (λ h. Elem h all_headings) (rw (classify, led) refl)
        (or_other-Elem (section_of (normalize emoji) sections_table)
          (section_of-Elem (normalize emoji) sections_table))
]

classify_once : (subject : Text) → occurs (classify subject) all_headings ≡ 1
classify_once subject = (==_iff _ _).0 (
    all_of-Elem (λ g. occurs g all_headings == 1) (classify subject) all_headings all_once
      (classify-Elem subject))

new_entry-AllUnder :
    (subject : Text) (parsed : Option ℕ × Text) (seen : List ℕ) (ms : List (String × Entry))
    → AllUnder all_headings ms
    → AllUnder all_headings (new_entry subject parsed seen ++ ms)
unfolding new_entry
new_entry-AllUnder subject (none, title) seen ms under = under
new_entry-AllUnder subject (some n, title) seen ms under = elim (Bool-cases (elem n seen)) [
  | inl old ↦
      subst (λ es. AllUnder all_headings (es ++ ms)) {x = []} (rw (new_entry, old) refl) under
  | inr new ↦
      subst (λ es. AllUnder all_headings (es ++ ms)) {x = (classify subject, (n, title)) ∷ []}
        (rw (new_entry, new) refl) (classify_once subject, under)
]

times_merged-new_entry :
    (n : ℕ) (subject : Text) (parsed : Option ℕ × Text) (seen : List ℕ) (ms : List (String × Entry))
    (later : Bool)
    → times_merged n ms ≡ (if elem n (seen_after parsed.0 seen) then 0 else one_if later)
    → times_merged n (new_entry subject parsed seen ++ ms)
      ≡ (if elem n seen then 0 else one_if (names_pr n parsed.0 || later))
unfolding new_entry seen_after
times_merged-new_entry n subject (none, title) seen ms later h = h
times_merged-new_entry n subject (some m, title) seen ms later h = elim (Bool-cases (elem m seen)) [
  | inl old ↦ elim (Bool-cases (m == n)) [
    | inl same ↦
        let listed_ = subst (λ k. elem k seen ≡ true) ((==_iff m n).0 same) old in ground arith
    | inr apart ↦ ground arith
  ]
  | inr new ↦ elim (Bool-cases (m == n)) [
    | inl same ↦
        let fresh = subst (λ k. elem k seen ≡ false) ((==_iff m n).0 same) new in ground arith
    | inr apart ↦ ground arith
  ]
]

merged-AllUnder : (seen : List ℕ) (cs : List Commit) → AllUnder all_headings (merged seen cs)
unfolding merged
merged-AllUnder seen [] = tt
merged-AllUnder seen (c ∷ cs) =
    new_entry-AllUnder (subject_of c) (parse_subject (subject_of c)) seen
      (merged (seen_after (parse_subject (subject_of c)).0 seen) cs)
      (merged-AllUnder (seen_after (parse_subject (subject_of c)).0 seen) cs)

times_merged-merged :
    (n : ℕ) (seen : List ℕ) (cs : List Commit)
    → times_merged n (merged seen cs) ≡ (if elem n seen then 0 else one_if (mentions n cs))
unfolding merged
times_merged-merged n seen [] = ground arith
times_merged-merged n seen (c ∷ cs) =
    times_merged-new_entry n (subject_of c) (parse_subject (subject_of c)) seen
      (merged (seen_after (parse_subject (subject_of c)).0 seen) cs) (mentions n cs)
      (times_merged-merged n (seen_after (parse_subject (subject_of c)).0 seen) cs)

listings-sections :
    (n : ℕ) (cs : List Commit) → listings n (sections cs) ≡ (if mentions n cs then 1 else 0)
listings-sections n cs =
    ap (listings n) (sym (listed-append headings (other_heading ∷ []) (merged [] cs)))
    ∙ listings-listed n all_headings (merged [] cs) (merged-AllUnder [] cs)
    ∙ times_merged-merged n [] cs
    ∙ ground arith

-- The walk ends in front of the first commit with the sha of the base.
until-base :
    (sha : String) (cs : List Commit) (base : Commit) (older : List Commit)
    → base.sha ≡ sha
    → ((c : Commit) → Elem c cs → c.sha ≢ sha)
    → until (some sha) (cs ++ base ∷ older) ≡ some cs
unfolding until is_base
until-base sha [] base older same newer =
    ground (arith, same, eq_refl base.sha, (eq_iff base.sha sha).1 same)
until-base sha (c ∷ cs) base older same newer = ground (
  arith,
  until-base sha cs base older same (λ d m. newer d (inr m)),
  newer c (inl refl),
  (eq_iff c.sha sha).0,
)

-- Where there is a base, it and the head of the walk are known, the pages of the head serve a list of
-- commits, and the base is among the first `max_pages` pages of them, collect_entries returns, and
-- each pull request that some commit in front of the base merges is listed exactly once over all
-- sections, and no other is listed.
pub collect_entries_once :
    (api : Api) (commits : Head → Listing Commit) (max_pages : ℕ) (tag : Text)
    (previous_tag : Option Text) (prev_sha : String) (head : Head) (all cs : List Commit)
    (base : Commit) (older : List Commit)
    → Serves (commits head) all
    → base_of api previous_tag ≡ found (some prev_sha)
    → walk_head api tag ≡ found head
    → take (max_pages * per_page) all ≡ cs ++ base ∷ older
    → base.sha ≡ prev_sha
    → ((c : Commit) → Elem c cs → c.sha ≢ prev_sha)
    → (result : List Section × ℕ) × (collect_entries api commits max_pages tag previous_tag
        ≡ found result)
      × ((n : ℕ) → listings n result.0 ≡ (if mentions n cs then 1 else 0))
unfolding range
collect_entries_once api commits max_pages tag previous_tag prev_sha head all cs base older serves
      based walks split is_base_ newer =
    (
      (sections cs, unnumbered cs),
      collect_entries-outcome api commits max_pages tag previous_tag (some prev_sha) head all serves
            based walks
          ∙ ap outcome
              (ap (until (some prev_sha)) split ∙ until-base prev_sha cs base older is_base_ newer),
      λ n. listings-sections n cs,
    )
