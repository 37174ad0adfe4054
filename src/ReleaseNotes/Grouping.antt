-- ===== src/ReleaseNotes/Grouping.antt =====
-- publish/release_notes.py, the grouping of `collect_entries`: the pull requests by section.
use mathlib.Core.List.{append-nil, append_assoc}
use celestia_devtools.Prelude.{
  ℕ, ◌+◌, ◌≡◌, refl, sym, ap, ◌∙◌, String, inl, inr, Option, none, some, List, [], ◌∷◌, ◌++◌, arith,
  str_eq, eq_iff, Bool-cases, if◌then◌else◌, Text,
}
use celestia_devtools.Dict.{Dict, lookup, lookup-insert}
use celestia_devtools.ReleaseSubjects.{parse_subject, classify}
use celestia_devtools.ReleaseNotes.{
  Commit, Entry, Walk, Section, elem, or_empty, subject_of, note_entry, note_commit, add_section,
  in_order,
}
use celestia_devtools.ReleaseNotes.Walks.{notes}

-- The entry that a subject adds, with its heading: none without a number, or with one seen before.
unfoldable pub new_entry : Text → Option ℕ × Text → List ℕ → List (String × Entry)
new_entry subject (none, title) seen = []
new_entry subject (some n, title) seen =
    if elem n seen then [] else (classify subject, (n, title)) ∷ []

unfoldable pub seen_after : Option ℕ → List ℕ → List ℕ
seen_after none seen = seen
seen_after (some n) seen = if elem n seen then seen else n ∷ seen

-- The pull requests of the commits in the order of the walk, each by its first commit.
unfoldable pub merged : List ℕ → List Commit → List (String × Entry)
unfolding new_entry seen_after
merged seen [] = []
merged seen (c ∷ cs) =
    new_entry (subject_of c) (parse_subject (subject_of c)) seen
    ++ merged (seen_after (parse_subject (subject_of c)).0 seen) cs

-- The entries of a heading.
unfoldable pub items : String → List (String × Entry) → List Entry
items h [] = []
items h ((g, e) ∷ ms) = let rest = items h ms in if str_eq g h then e ∷ rest else rest

abbrev pub or_none : List Entry → Option (List Entry)
or_none [] = none
or_none (e ∷ es) = some (e ∷ es)

-- The headings that have entries, with them.
unfoldable pub listed : List String → List (String × Entry) → List Section
unfolding items
listed [] ms = []
listed (h ∷ hs) ms = add_section h (or_none (items h ms)) (listed hs ms)

-- The commits whose subject names no pull request.
abbrev count_none : Option ℕ → ℕ → ℕ
count_none none n = n + 1
count_none (some k) n = n

unfoldable pub unnumbered : List Commit → ℕ
unnumbered [] = 0
unnumbered (c ∷ cs) = count_none (parse_subject (subject_of c)).0 (unnumbered cs)

items-append :
    (h : String) (xs ys : List (String × Entry)) → items h (xs ++ ys) ≡ items h xs ++ items h ys
unfolding items
items-append h [] ys = refl
items-append h ((g, e) ∷ xs) ys = ground (arith, items-append h xs ys)

abbrev appended : Option (List Entry) → List Entry → Option (List Entry)
appended none es = or_none es
appended (some ds) es = some (ds ++ es)

appended_assoc :
    (o : Option (List Entry)) (xs ys : List Entry)
    → appended (appended o xs) ys ≡ appended o (xs ++ ys)
appended_assoc none [] ys = refl
appended_assoc none (x ∷ xs) ys = refl
appended_assoc (some ds) xs ys = ap some (append_assoc ds xs ys)

appended-nil : (o : Option (List Entry)) → appended o [] ≡ o
appended-nil none = refl
appended-nil (some ds) = ap some (append-nil ds)

appended-or_empty :
    (o : Option (List Entry)) (e : Entry) → some (or_empty o ++ e ∷ []) ≡ appended o (e ∷ [])
appended-or_empty none e = refl
appended-or_empty (some ds) e = refl

placed :
    (g h : String) (e : Entry) (d : Dict (List Entry))
    → (if str_eq g h then some (or_empty (lookup g d) ++ e ∷ []) else lookup h d)
      ≡ appended (lookup h d) (if str_eq g h then e ∷ [] else [])
placed g h e d = elim (Bool-cases (str_eq g h)) [
  | inl same ↦
      rw (same, if◌then◌else◌)
        (appended-or_empty (lookup g d) e
          ∙ ap (λ k. appended (lookup k d) (e ∷ [])) ((eq_iff g h).0 same))
  | inr apart ↦ rw (apart, if◌then◌else◌) (sym (appended-nil (lookup h d)))
]

lookup-note_entry :
    (h : String) (subject : Text) (parsed : Option ℕ × Text) (w : Walk)
    → lookup h (note_entry subject parsed w).grouped
      ≡ appended (lookup h w.grouped) (items h (new_entry subject parsed w.seen))
unfolding note_entry new_entry items
lookup-note_entry h subject (none, title) w = sym (appended-nil (lookup h w.grouped))
lookup-note_entry h subject (some n, title) w = elim (Bool-cases (elem n w.seen)) [
  | inl old ↦ rw (note_entry, new_entry, old, items) (sym (appended-nil (lookup h w.grouped)))
  | inr new ↦
      rw (note_entry, new_entry, new, items)
        (lookup-insert (classify subject) h
            (or_empty (lookup (classify subject) w.grouped) ++ (n, title) ∷ []) w.grouped
          ∙ placed (classify subject) h (n, title) w.grouped)
]

seen-note_entry :
    (subject : Text) (parsed : Option ℕ × Text) (w : Walk)
    → (note_entry subject parsed w).seen ≡ seen_after parsed.0 w.seen
unfolding note_entry seen_after
seen-note_entry subject (none, title) w = refl
seen-note_entry subject (some n, title) w = ground arith

skipped-note_entry :
    (subject : Text) (parsed : Option ℕ × Text) (w : Walk)
    → (note_entry subject parsed w).skipped ≡ count_none parsed.0 w.skipped
unfolding note_entry
skipped-note_entry subject (none, title) w = refl
skipped-note_entry subject (some n, title) w = ground arith

pub lookup-notes :
    (h : String) (w : Walk) (cs : List Commit)
    → lookup h (notes w cs).grouped ≡ appended (lookup h w.grouped) (items h (merged w.seen cs))
unfolding notes merged note_commit items
lookup-notes h w [] = sym (appended-nil (lookup h w.grouped))
lookup-notes h w (c ∷ cs) =
    let subject = subject_of c in
    let parsed = parse_subject subject in
    let w' = note_entry subject parsed w in
    lookup-notes h w' cs
    ∙ ap (λ seen. appended (lookup h w'.grouped) (items h (merged seen cs)))
        (seen-note_entry subject parsed w)
    ∙ ap (λ o. appended o (items h (merged (seen_after parsed.0 w.seen) cs)))
        (lookup-note_entry h subject parsed w)
    ∙ appended_assoc (lookup h w.grouped) (items h (new_entry subject parsed w.seen))
        (items h (merged (seen_after parsed.0 w.seen) cs))
    ∙ ap (appended (lookup h w.grouped)) (
        sym (
          items-append h (new_entry subject parsed w.seen)
            (merged (seen_after parsed.0 w.seen) cs)))

count_none-add : (n : Option ℕ) (a b : ℕ) → count_none n a + b ≡ a + count_none n b
count_none-add none a b = omega arith
count_none-add (some k) a b = refl

pub skipped-notes : (w : Walk) (cs : List Commit) → (notes w cs).skipped ≡ w.skipped + unnumbered cs
unfolding notes unnumbered note_commit
skipped-notes w [] = omega arith
skipped-notes w (c ∷ cs) =
    let subject = subject_of c in
    let parsed = parse_subject subject in
    skipped-notes (note_entry subject parsed w) cs
    ∙ ap (λ k. k + unnumbered cs) (skipped-note_entry subject parsed w)
    ∙ count_none-add parsed.0 w.skipped (unnumbered cs)

-- The sections of the grouped entries are those of the merged ones.
pub in_order-listed :
    (hs : List String) (d : Dict (List Entry)) (ms : List (String × Entry))
    → ((h : String) → lookup h d ≡ or_none (items h ms))
    → in_order hs d ≡ listed hs ms
unfolding in_order listed
in_order-listed [] d ms same = refl
in_order-listed (h ∷ hs) d ms same = rw (same h, in_order-listed hs d ms same) refl
