-- ===== src/ReleaseBody/Links.antt =====
-- publish/release_notes.py, `build_body`: the pull requests in the text of a release.
use mathlib.Core.List.{append_assoc}
use celestia_devtools.Prelude.{
  ℕ, ◌≡◌, refl, ap, subst, ◌∙◌, String, false, inl, inr, Option, List, [], ◌∷◌, ◌++◌, arith, is_nil,
  is_space, Text, codes, rstrip, decimal, Elem, Elem-append_left, Elem-append_right,
}
use celestia_devtools.ReleaseNotes.{Entry, Section}
use celestia_devtools.ReleaseBody.{
  join_lines, item_line, item_lines, section_lines, compare_lines, empty_lines, build_body,
}

-- The link to a pull request, without its closing parenthesis.
abbrev pub link : Text → ℕ → Text
link repo n =
    codes "- [#"
    ++ decimal n
    ++ codes "](https://github.com/"
    ++ repo
    ++ codes "/pull/"
    ++ decimal n

-- The text has the part, and a closing parenthesis behind it.
abbrev pub HasClosed : Text → Text → Type 0
HasClosed part text = (before : Text) × (after : Text) × (text ≡ (before ++ part) ++ b')' ∷ after)

HasClosed-append :
    (part before text after : Text)
    → HasClosed part text
    → HasClosed part (before ++ (text ++ after))
HasClosed-append part before text after (b, a, e) =
    (before ++ b, a ++ after, rw (e) (simp append_assoc))

is_nil-append : (t : Text) (c : ℕ) (after : Text) → is_nil (t ++ c ∷ after) ≡ false
is_nil-append [] c after = refl
is_nil-append (d ∷ t) c after = refl

rstrip-append :
    (t : Text) (c : ℕ) (after : Text)
    → is_space c ≡ false
    → rstrip (t ++ c ∷ after) ≡ t ++ c ∷ rstrip after
unfolding rstrip
rstrip-append [] c after h = ground arith
rstrip-append (d ∷ t) c after h =
    rw (rstrip, rstrip-append t c after h, is_nil-append t c (rstrip after)) refl

item_line-HasClosed :
    (repo : Text) (n : ℕ) (title : Text) → HasClosed (link repo n) (item_line repo (n, title))
unfolding item_line
item_line-HasClosed repo n title =
    ([], b' ' ∷ title, append_assoc (link repo n) (b')' ∷ b' ' ∷ []) title)

HasClosed-rstrip : (part text : Text) → HasClosed part text → HasClosed part (rstrip text)
HasClosed-rstrip part text (b, a, e) =
    (b, rstrip a, ap rstrip e ∙ rstrip-append (b ++ part) b')' a refl)

HasClosed-join_lines :
    (part line : Text) (lines : List Text)
    → Elem line lines
    → HasClosed part line
    → HasClosed part (join_lines lines)
unfolding join_lines
HasClosed-join_lines part line [] m h = elim m [ ]
HasClosed-join_lines part line (l ∷ []) (inl e) h = subst (HasClosed part) e h
HasClosed-join_lines part line (l ∷ []) (inr m) h = elim m [ ]
HasClosed-join_lines part line (l ∷ next ∷ lines) (inl e) h =
    HasClosed-append part [] l (10 ∷ join_lines (next ∷ lines)) (subst (HasClosed part) e h)
HasClosed-join_lines part line (l ∷ next ∷ lines) (inr m) h =
    let (b, a, e) = HasClosed-join_lines part line (next ∷ lines) m h in
    (l ++ 10 ∷ b, a, rw (e) (simp append_assoc))

Elem-item_lines :
    (repo : Text) (item : Entry) (items : List Entry)
    → Elem item items
    → Elem (item_line repo item) (item_lines repo items)
unfolding item_lines
Elem-item_lines repo item [] m = m
Elem-item_lines repo item (i ∷ items) (inl e) = inl (ap (item_line repo) e)
Elem-item_lines repo item (i ∷ items) (inr m) = inr (Elem-item_lines repo item items m)

Elem-section_lines :
    (repo : Text) (heading : String) (items : List Entry) (item : Entry) (sections : List Section)
    → Elem (heading, items) sections
    → Elem item items
    → Elem (item_line repo item) (section_lines repo sections)
unfolding section_lines
Elem-section_lines repo heading items item [] m k = m
Elem-section_lines repo heading items item ((h, is) ∷ sections) (inl e) k = inr (
    inr (
      Elem-append_left (item_line repo item) (item_lines repo is) ([] ∷ section_lines repo sections)
        (Elem-item_lines repo item is (subst (Elem item) (ap (λ p. p.1) e) k))))
Elem-section_lines repo heading items item ((h, is) ∷ sections) (inr m) k = inr (
    inr (
      Elem-append_right (item_line repo item) (item_lines repo is)
        ([] ∷ section_lines repo sections)
        (inr (Elem-section_lines repo heading items item sections m k))))

-- The body of a release has the closed link of each pull request that stands in one of the sections.
pub build_body-HasClosed :
    (repo tag : Text) (previous_tag : Option Text) (sections : List Section) (heading : String)
    (items : List Entry) (n : ℕ) (title : Text)
    → Elem (heading, items) sections
    → Elem (n, title) items
    → HasClosed (link repo n) (build_body repo tag previous_tag sections)
unfolding build_body
build_body-HasClosed repo tag previous_tag sections heading items n title m k =
    let line = item_line repo (n, title) in
    let front = codes "## What's Changed" ∷ [] ∷ empty_lines sections in
    let back = section_lines repo sections ++ compare_lines repo tag previous_tag in
    HasClosed-append (link repo n) [] (rstrip (join_lines (front ++ back))) (10 ∷ []) (
      HasClosed-rstrip (link repo n) (join_lines (front ++ back)) (
        HasClosed-join_lines (link repo n) line (front ++ back)
          (Elem-append_right line front back (
            Elem-append_left line (section_lines repo sections)
              (compare_lines repo tag previous_tag)
              (Elem-section_lines repo heading items (n, title) sections m k)))
          (item_line-HasClosed repo n title)))
