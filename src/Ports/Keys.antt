-- ===== src/Ports/Keys.antt =====
-- env/ports.py: the keys `app:kind` of the registry, and `key.rpartition(":")`.
use Prim.Native.Char.{Char, code}
use Prim.Native.String.{◌++◌ as str_append}
use Prim.Native.String.append
use celestia_devtools.Prelude.{
  String, Bool, false, Option, none, some, ◌≡◌, refl, arith, ◌==◌, if◌then◌else◌, ◌||◌,
}

-- f"{app}:{kind}"
unfoldable pub key_of : String → String → String
key_of app kind = str_append app (String.◌∷◌ ":" kind)

abbrev pub is_colon : Char → Bool
is_colon c = code c == b':'

-- The last colon splits the key; `none` where there is none.
unfoldable pub owner_of : String → Option (String × String)
owner_of String.[] = none
owner_of (String.◌∷◌ c s) = elim (owner_of s) [
  | some (owner, kind) ↦ some (String.◌∷◌ c owner, kind)
  | none ↦ if is_colon c then some ("", s) else none
]

abbrev pub has_colon : String → Bool
has_colon String.[] = false
has_colon (String.◌∷◌ c s) = is_colon c || has_colon s

owner_of_plain : (kind : String) → has_colon kind ≡ false → owner_of kind ≡ none
unfolding owner_of
owner_of_plain String.[] h = refl
owner_of_plain (String.◌∷◌ c s) h = rw (owner_of_plain s (ground arith)) (ground arith)

-- The key `app:kind` is split at its last colon into the app and the kind that it was made of,
-- for a kind without a colon; the app may have colons.
pub owner_of-key_of :
    (app kind : String) → has_colon kind ≡ false → owner_of (key_of app kind) ≡ some (app, kind)
unfolding owner_of key_of
owner_of-key_of String.[] kind h = rw (append.nil, owner_of_plain kind h) refl
owner_of-key_of (String.◌∷◌ c app) kind h =
    rw (append.cons c app (String.◌∷◌ ":" kind), owner_of, owner_of-key_of app kind h) refl
