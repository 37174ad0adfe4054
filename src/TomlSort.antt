-- ===== src/TomlSort.antt =====
-- repo/toml_sort.py: the order of the entries, and the sections written anew.
pub mod Order
pub mod Comments
mod Samples
use celestia_devtools.Prelude.{
  ℕ, zero, suc, ◌+◌, ◌%◌, Bool, true, false, ◌&&◌, ◌||◌, not, Option, none, some, List, [], ◌∷◌,
  ◌++◌, ltb, leb, ◌==◌, if◌then◌else◌, is_nil, length, Text, codes, is_space, is_prefix, text_eq,
  lstrip, rstrip, strip, span, contains,
}
use celestia_devtools.TomlEntries.{Entry, is_section, ends_section, ends_with, parse_entries}

-- The order of tuples (group, sort_key), and of texts by their code points.
unfoldable pub text_lt : Text → Text → Bool
text_lt s [] = false
text_lt [] (d ∷ ds) = true
text_lt (c ∷ cs) (d ∷ ds) = ltb c d || (c == d && text_lt cs ds)

unfoldable pub entry_lt : Entry → Entry → Bool
unfolding text_lt
entry_lt e f = ltb e.group f.group || (e.group == f.group && text_lt e.sort_key f.sort_key)

-- entries.sort(key = ...), which is stable: an entry goes in front of the first that is not less.
unfoldable pub insert_entry : Entry → List Entry → List Entry
unfolding entry_lt
insert_entry e [] = e ∷ []
insert_entry e (f ∷ fs) =
    let rest = f ∷ insert_entry e fs in if entry_lt f e then rest else e ∷ f ∷ fs

unfoldable pub sort_entries : List Entry → List Entry
unfolding insert_entry
sort_entries [] = []
sort_entries (e ∷ es) = insert_entry e (sort_entries es)

-- text.rstrip("\n") + "\n"
unfoldable pub rstrip_newlines : Text → Text
rstrip_newlines [] = []
rstrip_newlines (c ∷ cs) =
    let rest = rstrip_newlines cs in if is_nil rest && c == 10 then [] else c ∷ rest

-- The lines of the entries behind an entry of a group, if there is one in front.
unfoldable pub render_on : Option ℕ → List Entry → List Text
unfolding rstrip_newlines
render_on prev [] = []
render_on none (e ∷ es) = (rstrip_newlines e.text ++ 10 ∷ []) ∷ render_on (some e.group) es
render_on (some prev) (e ∷ es) =
    let rest = (rstrip_newlines e.text ++ 10 ∷ []) ∷ render_on (some e.group) es in
    if e.group == prev then rest else (10 ∷ []) ∷ rest

unfoldable pub skip_blank : List Text → List Text
unfolding strip
skip_blank [] = []
skip_blank (line ∷ lines) =
    let rest = skip_blank lines in if is_nil (strip line) then rest else line ∷ lines

-- Without entries, the section stays.
abbrev pub rendered : Text → List Text → List Entry → List Text
rendered header body [] = header ∷ body
rendered header body (e ∷ es) = header ∷ (10 ∷ []) ∷ render_on none (e ∷ es)

-- The lines of a section, from its header and its body.
unfoldable pub render_section : Text → List Text → List Text
unfolding parse_entries sort_entries render_on skip_blank
render_section header body =
    rendered header body (sort_entries (parse_entries [] (skip_blank body)))

-- _parse_section: the lines in front of the next header, and the others.
unfoldable pub split_section : List Text → List Text × List Text
split_section [] = ([], [])
split_section (line ∷ lines) =
    let rest = split_section lines in
    if ends_section line then ([], line ∷ lines) else (line ∷ rest.0, rest.1)

-- The loop over the lines, with a round for each line.
unfoldable pub sort_lines : ℕ → List Text → List Text
unfolding is_section render_section split_section
sort_lines zero lines = []
sort_lines (suc rounds) [] = []
sort_lines (suc rounds) (line ∷ lines) =
    let (body, others) = split_section lines in
    let section = render_section line body ++ sort_lines rounds others in
    let plain = line ∷ sort_lines rounds lines in if is_section line then section else plain

abbrev pub no_newline : List Text → Bool
no_newline [] = true
no_newline (line ∷ lines) = not (ends_with 10 line) && no_newline lines

unfoldable pub sort_toml_deps : List Text → List Text
unfolding sort_lines ends_with
sort_toml_deps lines = if no_newline lines then lines else sort_lines (length lines) lines
