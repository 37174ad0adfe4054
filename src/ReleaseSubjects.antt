-- ===== src/ReleaseSubjects.antt =====
-- publish/release_notes.py: the emoji that leads a subject, the pull request that ends it, and the
-- section of the release that it belongs to.
pub mod Leads
use celestia_devtools.Prelude.{
  ℕ, ◌+◌, String, Bool, true, false, ◌&&◌, ◌||◌, not, Option, none, some, List, [], ◌∷◌, ◌++◌, ltb,
  ◌==◌, if◌then◌else◌, is_nil, length, drop, Text, codes, is_space, is_digit, strip, lstrip, rstrip,
  span, int_of, text_eq, is_prefix,
}
use celestia_devtools.Gitmoji.{gitmoji_whitelist, sections_table, other_heading, dependabot_heading}

-- emoji.replace("\ufe0f", "")
unfoldable pub normalize : Text → Text
normalize [] = []
normalize (c ∷ cs) = let rest = normalize cs in if c == 0xfe0f then rest else c ∷ rest

-- len(candidate) > len(best), or no best yet
unfoldable pub is_longer : Text → Option Text → Bool
is_longer candidate none = true
is_longer candidate (some best) = ltb (length best) (length candidate)

unfoldable pub longer : Text → Option Text → Text → Option Text
unfolding is_prefix is_longer
longer subject best candidate =
    if is_prefix candidate subject && is_longer candidate best then some candidate else best

-- The loop over the emoji and their two spellings.
unfoldable pub longest : Text → Option Text → List Text → Option Text
unfolding longer normalize
longest subject best [] = best
longest subject best (emoji ∷ emojis) =
    longest subject (longer subject (longer subject best emoji) (normalize emoji)) emojis

unfoldable pub match_gitmoji : Text → Option Text
unfolding longest
match_gitmoji subject = longest subject none gitmoji_whitelist

-- \s*(?:\.\s*)?$
unfoldable pub is_period : Text → Bool
unfolding lstrip
is_period s = elim (lstrip s) [ [] ↦ true | c ∷ cs ↦ c == b'.' && is_nil (lstrip cs) ]

-- \s*\(#(\d+)\)\s*(?:\.\s*)?$
unfoldable pub pr_suffix : Text → Option ℕ
unfolding lstrip is_prefix span int_of is_period
pr_suffix s = elim (lstrip s) [
  | [] ↦ none
  | c ∷ cs ↦ elim cs [
    | [] ↦ none
    | d ∷ ds ↦
        let (number, tail) = span is_digit ds in
        if c == b'(' && (d == b'#' && (not (is_nil number) && is_prefix (b')' ∷ []) tail))
        then elim tail [
          | [] ↦ none
          | e ∷ end ↦ if is_period end then some (int_of 0 number) else none
        ]
        else none
  ]
]

-- The shortest title before a suffix that refers to a pull request, and its number.
unfoldable pub split_suffix : Text → Option (ℕ × Text)
unfolding pr_suffix
split_suffix [] = none
split_suffix (c ∷ cs) =
    let later = split_suffix cs in
    elim (pr_suffix (c ∷ cs)) [
      | some n ↦ some (n, [])
      | none ↦ elim later [ none ↦ none | some (n, title) ↦ some (n, c ∷ title) ]
    ]

unfoldable pub parse_subject : Text → Option ℕ × Text
unfolding split_suffix strip
parse_subject subject = elim (split_suffix (strip subject)) [
  | none ↦ (none, strip subject)
  | some (n, title) ↦ (some n, strip title)
]

abbrev pub has : Text → List Text → Bool
has emoji [] = false
has emoji (e ∷ es) = text_eq e emoji || has emoji es

-- _EMOJI_TO_SECTION.get(emoji): the first section that has the emoji.
unfoldable pub section_of : Text → List (String × List Text) → Option String
unfolding text_eq
section_of emoji [] = none
section_of emoji ((heading, emojis) ∷ table) =
    if has emoji emojis then some heading else section_of emoji table

unfoldable pub starts_spaced : Text → Bool
starts_spaced [] = false
starts_spaced (c ∷ cs) = is_space c

-- ^Bump\s
unfoldable pub is_bump : Text → Bool
unfolding is_prefix starts_spaced drop
is_bump s = is_prefix (codes "Bump") s && starts_spaced (drop 4 s)

unfoldable pub or_other : Option String → String
or_other none = other_heading
or_other (some heading) = heading

unfoldable pub classify : Text → String
unfolding match_gitmoji section_of is_bump or_other
classify subject = elim (match_gitmoji subject) [
  | none ↦ if is_bump subject then dependabot_heading else other_heading
  | some emoji ↦ or_other (section_of (normalize emoji) sections_table)
]
