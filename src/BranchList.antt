-- ===== src/BranchList.antt =====
-- vcs/branch_sweep.py, `_local_branches`: the output of `git for-each-ref`, a line for each branch
-- with a NUL between its fields.
pub mod Records
use celestia_devtools.Prelude.{
  ℕ, Bool, true, false, ◌&&◌, ◌||◌, Option, none, some, List, [], ◌∷◌, ◌==◌, if◌then◌else◌, is_nil,
  Text,
}

pub record Branch : Type 0 where
  pub name : Text
  pub upstream : Text
  pub track : Text

abbrev pub cons_first : ℕ → List Text → List Text
cons_first c [] = (c ∷ []) ∷ []
cons_first c (piece ∷ pieces) = (c ∷ piece) ∷ pieces

-- text.split(separator)
unfoldable pub split : ℕ → Text → List Text
split separator [] = [] ∷ []
split separator (c ∷ cs) =
    let rest = split separator cs in if c == separator then [] ∷ rest else cons_first c rest

abbrev pub is_bracket : ℕ → Bool
is_bracket c = c == b'[' || c == b']'

unfoldable pub lstrip_brackets : Text → Text
lstrip_brackets [] = []
lstrip_brackets (c ∷ cs) = let rest = lstrip_brackets cs in if is_bracket c then rest else c ∷ cs

unfoldable pub rstrip_brackets : Text → Text
rstrip_brackets [] = []
rstrip_brackets (c ∷ cs) =
    let rest = rstrip_brackets cs in if is_nil rest && is_bracket c then [] else c ∷ rest

-- The fields of a record; none is the error.
unfoldable pub branch_of : List Text → Option Branch
unfolding lstrip_brackets rstrip_brackets
branch_of ((c ∷ cs) ∷ upstream ∷ track ∷ []) =
    some (record {
      name = c ∷ cs;
      upstream = upstream;
      track = rstrip_brackets (lstrip_brackets track);
    })
branch_of _ = none

abbrev pub cons_both : Option Branch → Option (List Branch) → Option (List Branch)
cons_both (some b) (some bs) = some (b ∷ bs)
cons_both _ _ = none

unfoldable pub branches_of : List Text → Option (List Branch)
unfolding branch_of split
branches_of [] = some []
branches_of (line ∷ lines) = cons_both (branch_of (split 0 line)) (branches_of lines)

-- out[:-1], where the text ends in a line feed
abbrev pub cons_line : ℕ → Option Text → Option Text
cons_line c none = none
cons_line c (some cs) = some (c ∷ cs)

unfoldable pub without_newline : Text → Option Text
without_newline [] = none
without_newline (c ∷ []) = if c == 10 then some [] else none
without_newline (c ∷ d ∷ cs) = cons_line c (without_newline (d ∷ cs))

unfoldable pub lines_of : Option Text → Option (List Branch)
unfolding branches_of split
lines_of none = none
lines_of (some body) = branches_of (split 10 body)

-- none is the error: git failed, or its output is cut or malformed.
unfoldable pub local_branches : Option Text → Option (List Branch)
unfolding without_newline lines_of
local_branches none = none
local_branches (some []) = some []
local_branches (some (c ∷ cs)) = lines_of (without_newline (c ∷ cs))
