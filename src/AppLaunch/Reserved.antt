-- ===== src/AppLaunch/Reserved.antt =====
-- env/app_drive_proc.py, `build_launch_env`: the variables that the driver owns.
use celestia_devtools.Prelude.{
  ℕ, ◌≡◌, refl, ap, ◌∙◌, inl, inr, true, false, ◌||◌, not, some, List, [], ◌∷◌, ◌++◌, arith, is_nil,
  select, Text, is_prefix, text_eq, text_eq_iff, decimal, strip, Bool-cases, Option-cases, all_of,
}
use celestia_devtools.TextDict.{TextDict, get, put, get-put}
use celestia_devtools.AppLaunch.Words.{merged_flags}
use celestia_devtools.AppLaunch.{
  cdp_env_var, cdp_port_env, split_words, port_flag, merge_webview2_arguments, is_reserved,
  partition, check_override, parse_on, parse_env_overrides, update, or_empty, own_env,
  build_launch_env,
}

-- No key of the dictionary is reserved.
abbrev AllFree : TextDict Text → Type 0
AllFree d = all_of (λ e. not (is_reserved e.0)) d ≡ true

check_override-free :
    (item key value : Text) → check_override item ≡ some (key, value) → is_reserved key ≡ false
unfolding check_override
check_override-free item key value h = elim (Option-cases (partition item)) [
  | inl bad ↦ absurd (ground arith)
  | inr ((k, v), e) ↦ elim (Bool-cases (is_nil k || is_reserved k)) [
    | inl refused ↦ absurd (ground arith)
    | inr taken ↦ ground arith
  ]
]

put-AllFree :
    (d : TextDict Text) (key value : Text)
    → is_reserved key ≡ false
    → AllFree d
    → AllFree (put key value d)
unfolding put
put-AllFree [] key value free all = ground arith
put-AllFree ((j, w) ∷ d) key value free all = ground (arith, put-AllFree d key value free)

parse_on-AllFree :
    (parsed d : TextDict Text) (overrides : List Text)
    → AllFree parsed
    → parse_on parsed overrides ≡ some d
    → AllFree d
unfolding parse_on
parse_on-AllFree parsed d [] all h = ground arith
parse_on-AllFree parsed d (item ∷ overrides) all h = elim (Option-cases (check_override item)) [
  | inl bad ↦ absurd (ground arith)
  | inr ((key, value), e) ↦
      parse_on-AllFree (put key value parsed) d overrides
        (put-AllFree parsed key value (check_override-free item key value e) all) (ground arith)
]

get-update :
    (environment parsed : TextDict Text) (k : Text)
    → AllFree parsed
    → is_reserved k ≡ true
    → get k (update environment parsed) ≡ get k environment
unfolding update
get-update environment [] k all reserved = refl
get-update environment ((key, value) ∷ parsed) k all reserved =
    get-update (put key value environment) parsed k (ground arith) reserved
    ∙ get-put key k value environment
    ∙ elim (Bool-cases (text_eq key k)) [
      | inl same ↦ absurd (ground (arith, ap is_reserved ((text_eq_iff key k).0 same)))
      | inr apart ↦ rw (apart) refl
    ]

var_reserved : is_reserved cdp_env_var ≡ true
unfolding is_reserved strip text_eq
var_reserved = refl

port_reserved : is_reserved cdp_port_env ≡ true
unfolding is_reserved strip text_eq
port_reserved = refl

module _ (base environment : TextDict Text) (port : ℕ) (overrides : List Text)
    (built : build_launch_env base port overrides ≡ some environment) where
  -- Both variables have the values from before the overrides.
  own_value : (k : Text) → is_reserved k ≡ true → get k environment ≡ get k (own_env base port)
  unfolding build_launch_env parse_env_overrides
  own_value k reserved = elim (Option-cases (parse_env_overrides overrides)) [
    | inl bad ↦ absurd (ground arith)
    | inr (parsed, e) ↦
        ap (get k)
          (let same : environment ≡ update (own_env base port) parsed = ground arith in same)
        ∙ get-update (own_env base port) parsed k (parse_on-AllFree [] parsed overrides refl e)
            reserved
  ]

  -- Where build_launch_env accepts the overrides, the app gets the port in CELESTIA_CDP_PORT, and the
  -- WebView2 arguments have one word that sets a debugging port, to the same port, whatever the
  -- environment and the overrides have.
  pub build_launch_env-port :
      (get cdp_port_env environment ≡ some (decimal port))
      × (arguments : Text) × (get cdp_env_var environment ≡ some arguments)
      × (select (is_prefix port_flag) (split_words arguments) ≡ (port_flag ++ decimal port) ∷ [])
  unfolding own_env text_eq
  build_launch_env-port =
      let arguments = merge_webview2_arguments (or_empty (get cdp_env_var base)) port in
      let inner = put cdp_env_var arguments base in
      (
        own_value cdp_port_env port_reserved
            ∙ get-put cdp_port_env cdp_port_env (decimal port) inner,
        arguments,
        own_value cdp_env_var var_reserved
            ∙ get-put cdp_port_env cdp_env_var (decimal port) inner
            ∙ get-put cdp_env_var cdp_env_var arguments base,
        merged_flags (or_empty (get cdp_env_var base)) port,
      )
