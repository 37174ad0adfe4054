-- ===== src/TextDict.antt =====
-- Python's `dict` with keys by their code points, as Dict.antt has it for whole texts. It stands for
-- the environment of a process, and for the files of a directory.
use celestia_devtools.Prelude.{
  ◌≡◌, refl, Option, none, some, List, [], ◌∷◌, arith, if◌then◌else◌, Text, text_eq, text_eq_iff,
}

abbrev pub TextDict : Type 0 → Type 0
TextDict V = List (Text × V)

module _ {V : Type 0} where
  -- d.get(k)
  unfoldable pub get : Text → TextDict V → Option V
  unfolding text_eq
  get k [] = none
  get k ((j, v) ∷ d) = if text_eq j k then some v else get k d

  -- d[k] = v
  unfoldable pub put : Text → V → TextDict V → TextDict V
  unfolding text_eq
  put k v [] = (k, v) ∷ []
  put k v ((j, w) ∷ d) = if text_eq j k then (j, v) ∷ d else (j, w) ∷ put k v d

  pub get-put :
      (k j : Text) (v : V) (d : TextDict V)
      → get j (put k v d) ≡ (if text_eq k j then some v else get j d)
  unfolding get put
  get-put k j v [] = refl
  get-put k j v ((i, w) ∷ d) =
      ground (arith, text_eq_iff k j, text_eq_iff i k, text_eq_iff i j, get-put k j v d)
