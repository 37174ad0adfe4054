-- ===== src/TomlSort/Comments.antt =====
-- repo/toml_sort.py: the comments at the end of a section.
use celestia_devtools.Prelude.{
  ◌≡◌, refl, sym, ap, ◌∙◌, Bool, true, false, ◌&&◌, not, inl, inr, Option, none, some, List, [],
  ◌∷◌, ◌++◌, arith, Text, is_nil, strip, all_of, Bool-cases, Option-cases,
}
use celestia_devtools.TomlEntries.{
  Entry, Closing, is_comment, ends_section, multiline_value, add_entry, parse_entries,
}
use celestia_devtools.TomlSort.{sort_entries, skip_blank, rendered, render_section}

abbrev one_line : Option Closing → Bool
one_line none = true
one_line (some closing) = false

-- A line with an entry of its own.
abbrev pub is_plain : Text → Bool
is_plain line =
    not (is_nil (strip line))
    && (not (is_comment line) && (not (ends_section line) && one_line (multiline_value line)))

parse_entries-comments :
    (before cs : List Text) → all_of is_comment cs ≡ true → parse_entries before cs ≡ []
unfolding parse_entries
parse_entries-comments before [] h = refl
parse_entries-comments before (c ∷ cs) h = elim (Bool-cases (is_nil before && is_nil (strip c))) [
  | inl blank ↦ rw (parse_entries, blank) (parse_entries-comments before cs (ground arith))
  | inr full ↦
      let comment : is_comment c ≡ true = ground arith in
      rw (parse_entries, full, comment)
        (parse_entries-comments (before ++ c ∷ []) cs (ground arith))
]

parse_entries-append :
    (xs cs : List Text)
    → all_of is_plain xs ≡ true
    → all_of is_comment cs ≡ true
    → parse_entries [] (xs ++ cs) ≡ parse_entries [] xs
unfolding parse_entries
parse_entries-append [] cs h k = parse_entries-comments [] cs k
parse_entries-append (x ∷ xs) cs h k = elim (Option-cases (multiline_value x)) [
  | inr (closing, e) ↦ absurd (ground arith)
  | inl single ↦
      let full : is_nil (strip x) ≡ false = ground arith in
      let code : is_comment x ≡ false = ground arith in
      let inner : ends_section x ≡ false = ground arith in
      rw (parse_entries, full, code, inner, single)
        (ap (add_entry (x ∷ [])) (parse_entries-append xs cs (ground arith) k))
]

skip_blank-plain : (x : Text) (xs : List Text) → is_plain x ≡ true → skip_blank (x ∷ xs) ≡ x ∷ xs
unfolding skip_blank
skip_blank-plain x xs h =
    let full : is_nil (strip x) ≡ false = ground arith in rw (skip_blank, full) refl

rendered-body :
    (header : Text) (body other : List Text) (es : List Entry)
    → is_nil es ≡ false
    → rendered header body es ≡ rendered header other es
rendered-body header body other [] h = absurd (ground arith)
rendered-body header body other (e ∷ es) h = refl

-- Comment lines at the end of a section, behind entries of one line each, are lost: the section is
-- written as if they were not there.
pub render_section-drops_comments :
    (header x : Text) (xs cs : List Text)
    → all_of is_plain (x ∷ xs) ≡ true
    → all_of is_comment cs ≡ true
    → is_nil (sort_entries (parse_entries [] (x ∷ xs))) ≡ false
    → render_section header ((x ∷ xs) ++ cs) ≡ render_section header (x ∷ xs)
unfolding render_section
render_section-drops_comments header x xs cs h k some_entry =
    let whole = (x ∷ xs) ++ cs in
    ap (λ b. rendered header whole (sort_entries (parse_entries [] b)))
      (skip_blank-plain x (xs ++ cs) (ground arith))
    ∙ ap (λ es. rendered header whole (sort_entries es)) (parse_entries-append (x ∷ xs) cs h k)
    ∙ rendered-body header whole (x ∷ xs) (sort_entries (parse_entries [] (x ∷ xs))) some_entry
    ∙ ap (λ b. rendered header (x ∷ xs) (sort_entries (parse_entries [] b)))
        (sym (skip_blank-plain x xs (ground arith)))
