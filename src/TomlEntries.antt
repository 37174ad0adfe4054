-- ===== src/TomlEntries.antt =====
-- repo/toml_sort.py: the entries of a dependency section of Cargo.toml. A line has its line feed, if
-- the text has one.
use celestia_devtools.Prelude.{
  ℕ, ◌+◌, ◌%◌, Bool, true, false, ◌&&◌, ◌||◌, not, Option, none, some, List, [], ◌∷◌, ◌++◌, leb,
  ◌==◌, if◌then◌else◌, is_nil, Text, codes, is_space, is_prefix, text_eq, lstrip, rstrip, strip,
  span, contains,
}

-- CELESTIA_CRATES
abbrev pub celestia_crates : List Text
celestia_crates =
    codes "kirino" ∷ codes "kirino-session" ∷ codes "kirino-macro" ∷ codes "yuuka" ∷ []

abbrev pub any_prefix : List Text → Text → Bool
any_prefix [] s = false
any_prefix (p ∷ ps) s = is_prefix p s || any_prefix ps s

-- SECTION_PATTERN
unfoldable pub is_section : Text → Bool
unfolding is_prefix
is_section = any_prefix (
    codes "[dependencies]"
    ∷ codes "[dev-dependencies]"
    ∷ codes "[build-dependencies]"
    ∷ codes "[workspace.dependencies]"
    ∷ codes "[workspace.dev-dependencies]"
    ∷ codes "[workspace.build-dependencies]"
    ∷ [])

-- SECTION_END_PATTERN
abbrev pub ends_section : Text → Bool
ends_section [] = false
ends_section (c ∷ cs) = c == b'['

abbrev pub is_crate : Text → List Text → Bool
is_crate key [] = false
is_crate key (k ∷ ks) = text_eq k key || is_crate key ks

unfoldable pub classify : Text → Text → ℕ
unfolding contains text_eq
classify key value =
    if contains (codes "path =") value
    then 0
    else if contains (codes "celestia-island") value
    then 1
    else if is_crate key celestia_crates
    then 1
    else 2

-- s.endswith(suffix), of one character
unfoldable pub ends_with : ℕ → Text → Bool
ends_with c [] = false
ends_with c (d ∷ []) = d == c
ends_with c (d ∷ e ∷ es) = ends_with c (e ∷ es)

abbrev pub quote : ℕ
quote = b'"'

-- text.count("\"\"\""), with the quotes that are in a row so far
unfoldable pub count_triples : ℕ → Text → ℕ
count_triples row [] = 0
count_triples row (c ∷ cs) =
    let next = count_triples (row + 1) cs in
    let closed = count_triples 0 cs in
    if c == quote then (if row == 2 then closed + 1 else next) else closed

-- The closing delimiter of a value that goes on over lines: a bracket, or three quotes.
pub data Closing : Type 0 where
  bracket : ℕ → Closing
  quotes : Closing

unfoldable pub multiline_value : Text → Option Closing
unfolding rstrip ends_with contains count_triples
multiline_value line =
    let stripped = rstrip line in
    if ends_with b'{' stripped && not (contains (b'}' ∷ []) stripped)
    then some (bracket b'}')
    else if ends_with b'[' stripped && not (contains (b']' ∷ []) stripped)
    then some (bracket b']')
    else if count_triples 0 stripped % 2 == 1
    then some quotes
    else none

unfoldable pub ends_triple : Text → Bool
ends_triple [] = false
ends_triple (c ∷ cs) = text_eq (c ∷ cs) (quote ∷ quote ∷ quote ∷ []) || ends_triple cs

-- lines[i - 1].rstrip().endswith(closing)
unfoldable pub closes : Closing → Text → Bool
unfolding rstrip ends_with ends_triple text_eq
closes (bracket c) line = ends_with c (rstrip line)
closes quotes line = ends_triple (rstrip line)

-- _KV_LINE: characters that are no white space, and "=", with white space in between or not
abbrev pub has_equals : Text → Bool
has_equals [] = false
has_equals (c ∷ cs) = c == b'=' || has_equals cs

abbrev pub tail_of : Text → Text
tail_of [] = []
tail_of (c ∷ cs) = cs

abbrev pub starts_equals : Text → Bool
starts_equals [] = false
starts_equals (c ∷ cs) = c == b'='

unfoldable pub is_key_line : Text → Bool
unfolding span lstrip
is_key_line line =
    let (run, rest) = span (λ c. not (is_space c)) line in
    not (is_nil run) && (has_equals (tail_of run) || starts_equals (lstrip rest))

-- (group, sort key, text)
pub record Entry : Type 0 where
  pub group : ℕ
  pub sort_key : Text
  pub text : Text

abbrev pub is_comment : Text → Bool
is_comment line = is_prefix (b'#' ∷ []) (strip line)

-- The key of an entry: the first word of its first line that is neither blank nor a comment.
unfoldable pub key_of : List Text → Option Text
unfolding lstrip span is_prefix
key_of [] = none
key_of (line ∷ lines) =
    let word = (span (λ c. not (is_space c)) (lstrip line)).0 in
    let later = key_of lines in
    if not (is_nil word) && not (is_prefix (b'#' ∷ []) (lstrip line)) then some word else later

unfoldable pub lower : Text → Text
lower [] = []
lower (c ∷ cs) = (if leb b'A' c && leb c b'Z' then c + 32 else c) ∷ lower cs

unfoldable pub concat : List Text → Text
concat [] = []
concat (t ∷ ts) = t ++ concat ts

-- The entry of some lines is added in front; without a key they are left out.
unfoldable pub add_entry : List Text → List Entry → List Entry
unfolding key_of lower concat classify
add_entry lines entries = elim (key_of lines) [
  | none ↦ entries
  | some key ↦
      record { group = classify key (concat lines); sort_key = lower key; text = concat lines }
      ∷ entries
]

abbrev pub starts_key : List Text → Bool
starts_key [] = true
starts_key (line ∷ lines) = is_key_line line

unfoldable mutual
  -- In front of an entry, with the comments that were read.
  pub parse_entries : List Text → List Text → List Entry
  parse_entries comments [] = []
  parse_entries comments (line ∷ lines) =
      let skip = parse_entries comments lines in
      let comment = parse_entries (comments ++ line ∷ []) lines in
      let single = add_entry (comments ++ line ∷ []) (parse_entries [] lines) in
      if is_nil comments && is_nil (strip line)
      then skip
      else if is_comment line
      then comment
      else if ends_section line
      then []
      else elim (multiline_value line) [
        | none ↦ single
        | some closing ↦ parse_value closing (comments ++ line ∷ []) lines
      ]

  -- In a value that goes on over lines.
  pub parse_value : Closing → List Text → List Text → List Entry
  parse_value closing entry [] = add_entry entry []
  parse_value closing entry (line ∷ lines) =
      let done = add_entry (entry ++ line ∷ []) (parse_entries [] lines) in
      let more = parse_value closing (entry ++ line ∷ []) lines in
      if closes closing line || starts_key lines then done else more
