-- ===== src/AppLaunch.antt =====
-- env/app_drive_proc.py: the environment that a desktop app is launched with.
pub mod Words
pub mod Reserved
mod Samples
use celestia_devtools.Prelude.{
  ℕ, ◌-◌, Bool, true, false, ◌&&◌, ◌||◌, not, Option, none, some, List, [], ◌∷◌, ◌++◌, ◌==◌, leb,
  if◌then◌else◌, is_nil, select, Text, codes, is_space, is_prefix, text_eq, strip, decimal,
}
use celestia_devtools.TextDict.{TextDict, get, put}

-- CDP_ENV_VAR and CDP_PORT_ENV, of env/app_drive_state.py.
abbrev pub cdp_env_var : Text
cdp_env_var = codes "WEBVIEW2_ADDITIONAL_BROWSER_ARGUMENTS"

abbrev pub cdp_port_env : Text
cdp_port_env = codes "CELESTIA_CDP_PORT"

-- text.split()
abbrev pub add_char : ℕ → Text → List Text → List Text
add_char c [] words = (c ∷ []) ∷ words
add_char c (d ∷ ds) [] = (c ∷ []) ∷ []
add_char c (d ∷ ds) (word ∷ words) =
    if is_space d then (c ∷ []) ∷ word ∷ words else (c ∷ word) ∷ words

unfoldable pub split_words : Text → List Text
split_words [] = []
split_words (c ∷ cs) = let rest = split_words cs in if is_space c then rest else add_char c cs rest

-- " ".join(tokens)
unfoldable pub join_words : List Text → Text
join_words [] = []
join_words (word ∷ []) = word
join_words (word ∷ next ∷ words) = word ++ 32 ∷ join_words (next ∷ words)

abbrev pub port_flag : Text
port_flag = codes "--remote-debugging-port="

unfoldable pub merge_webview2_arguments : Text → ℕ → Text
unfolding split_words join_words is_prefix decimal
merge_webview2_arguments existing cdp_port = join_words (
    select (λ token. not (is_nil token) && not (is_prefix port_flag token)) (split_words existing)
    ++ (port_flag ++ decimal cdp_port) ∷ [])

-- The error "bad-env" has no value.
abbrev pub with_key : ℕ → Option (Text × Text) → Option (Text × Text)
with_key c none = none
with_key c (some (key, value)) = some (c ∷ key, value)

-- item.partition("="); none where there is no separator.
unfoldable pub partition : Text → Option (Text × Text)
partition [] = none
partition (c ∷ cs) =
    let rest = with_key c (partition cs) in if c == b'=' then some ([], cs) else rest

-- text.upper()
unfoldable pub upper : Text → Text
upper [] = []
upper (c ∷ cs) = (if leb b'a' c && leb c b'z' then c - 32 else c) ∷ upper cs

unfoldable pub is_reserved : Text → Bool
unfolding upper strip text_eq
is_reserved key =
    text_eq (upper (strip key)) cdp_env_var || text_eq (upper (strip key)) cdp_port_env

-- An override, checked.
unfoldable pub check_override : Text → Option (Text × Text)
unfolding partition is_reserved
check_override item = elim (partition item) [
  | none ↦ none
  | some (key, value) ↦ if is_nil key || is_reserved key then none else some (key, value)
]

unfoldable pub parse_on : TextDict Text → List Text → Option (TextDict Text)
unfolding check_override put
parse_on parsed [] = some parsed
parse_on parsed (item ∷ overrides) = elim (check_override item) [
  | none ↦ none
  | some (key, value) ↦ parse_on (put key value parsed) overrides
]

unfoldable pub parse_env_overrides : List Text → Option (TextDict Text)
unfolding parse_on
parse_env_overrides overrides = parse_on [] overrides

-- environment.update(parsed)
unfoldable pub update : TextDict Text → TextDict Text → TextDict Text
unfolding put
update environment [] = environment
update environment ((key, value) ∷ parsed) = update (put key value environment) parsed

abbrev pub or_empty : Option Text → Text
or_empty none = []
or_empty (some value) = value

-- The environment before the overrides.
unfoldable pub own_env : TextDict Text → ℕ → TextDict Text
unfolding merge_webview2_arguments get put
own_env base cdp_port =
    put cdp_port_env (decimal cdp_port)
      (put cdp_env_var (merge_webview2_arguments (or_empty (get cdp_env_var base)) cdp_port) base)

unfoldable pub build_launch_env : TextDict Text → ℕ → List Text → Option (TextDict Text)
unfolding own_env parse_env_overrides update
build_launch_env base cdp_port overrides = elim (parse_env_overrides overrides) [
  | none ↦ none
  | some parsed ↦ some (update (own_env base cdp_port) parsed)
]
