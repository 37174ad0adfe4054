-- ===== src/AppLaunch/Samples.antt =====
-- An environment that sets a debugging port of its own.
use celestia_devtools.Prelude.{
  ◌≡◌, refl, ◌++◌, some, [], ◌∷◌, Text, codes, is_prefix, text_eq, strip, decimal, select, none,
}
use celestia_devtools.TextDict.{TextDict, get, put}
use celestia_devtools.AppLaunch.{
  cdp_env_var, cdp_port_env, split_words, port_flag, build_launch_env,
}
use celestia_devtools.AppLaunch.Reserved.{build_launch_env-port}

abbrev base : TextDict Text
base = (cdp_env_var, codes "--foo --remote-debugging-port=1") ∷ []

abbrev launch_env : TextDict Text
launch_env =
    (cdp_env_var, codes "--foo --remote-debugging-port=9222")
    ∷ (cdp_port_env, codes "9222")
    ∷ (codes "A", codes "b=c")
    ∷ []

built : build_launch_env base 9222 (codes "A=b=c" ∷ []) ≡ some launch_env
unfolding build_launch_env is_prefix text_eq strip decimal get put
built = refl

refused : build_launch_env base 9222 (codes " celestia_cdp_port=1" ∷ []) ≡ none
unfolding build_launch_env is_prefix text_eq strip decimal get put
refused = refl

build_launch_env-port_example :
    (get cdp_port_env launch_env ≡ some (decimal 9222))
    × (arguments : Text) × (get cdp_env_var launch_env ≡ some arguments)
    × (select (is_prefix port_flag) (split_words arguments) ≡ (port_flag ++ decimal 9222) ∷ [])
build_launch_env-port_example =
    build_launch_env-port base launch_env 9222 (codes "A=b=c" ∷ []) built
