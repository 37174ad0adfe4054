-- ===== src/TomlSort/Samples.antt =====
-- A section with two dependencies and a comment behind them.
use celestia_devtools.Prelude.{
  ◌≡◌, refl, ◌++◌, [], ◌∷◌, Text, codes, is_prefix, text_eq, strip, lstrip, rstrip, span, contains,
}
use celestia_devtools.TomlEntries.{parse_entries, multiline_value, add_entry}
use celestia_devtools.TomlSort.{sort_entries, render_section, sort_toml_deps}
use celestia_devtools.TomlSort.Comments.{render_section-drops_comments}

abbrev header : Text
header = codes "[dependencies]\n"

abbrev serde : Text
serde = codes "serde = \"1\"\n"

abbrev anyhow : Text
anyhow = codes "anyhow = \"1\"\n"

abbrev comment : Text
comment = codes "# keep this\n"

-- The comment is gone.
sorted_file :
    sort_toml_deps (header ∷ serde ∷ anyhow ∷ comment ∷ [])
    ≡ header ∷ codes "\n" ∷ anyhow ∷ serde ∷ []
unfolding sort_toml_deps is_prefix text_eq strip lstrip rstrip span contains multiline_value
    add_entry
sorted_file = refl

section_without_comment :
    render_section header ((serde ∷ anyhow ∷ []) ++ comment ∷ [])
    ≡ render_section header (serde ∷ anyhow ∷ [])
unfolding parse_entries sort_entries is_prefix text_eq strip lstrip rstrip span contains
    multiline_value add_entry
section_without_comment =
    render_section-drops_comments header serde (anyhow ∷ []) (comment ∷ []) refl refl refl
