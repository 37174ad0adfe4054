-- ===== src/TomlSort/Order.antt =====
-- repo/toml_sort.py: what the sort makes of the entries.
use celestia_devtools.Prelude.{
  ℕ, zero, suc, ◌≤◌, ◌<◌, ◌⊎◌, ◌≡◌, refl, ap, inl, inr, Bool, false, ◌&&◌, List, [], ◌∷◌, ◌++◌,
  arith, ◌==◌, length, Text, text_eq, Bool-cases,
}
use celestia_devtools.TomlEntries.{Entry, is_section}
use celestia_devtools.TomlSort.{entry_lt, split_section, sort_lines, render_section}

-- The order of texts by their code points: a text comes no later than those it is the start of.
abbrev pub TextLe : Text → Text → Type 0
TextLe [] t = Unit {0}
TextLe (c ∷ cs) [] = ⊥
TextLe (c ∷ cs) (d ∷ ds) = (c < d) ⊎ ((c ≡ d) × TextLe cs ds)

-- The smaller group comes first, and in one group the smaller key.
abbrev pub EntryLe : Entry → Entry → Type 0
EntryLe e f = (e.group < f.group) ⊎ ((e.group ≡ f.group) × TextLe e.sort_key f.sort_key)

-- Each entry comes no later than the next, by the test of the sort and by the order.
abbrev IsSorted : List Entry → Type 0
IsSorted [] = Unit {0}
IsSorted (e ∷ []) = Unit {0}
IsSorted (e ∷ f ∷ fs) = (entry_lt f e ≡ false) × IsSorted (f ∷ fs)

abbrev pub IsOrdered : List Entry → Type 0
IsOrdered [] = Unit {0}
IsOrdered (e ∷ []) = Unit {0}
IsOrdered (e ∷ f ∷ fs) = EntryLe e f × IsOrdered (f ∷ fs)

-- The entries of one group and one key in lower case.
abbrev pub has_key : ℕ → Text → Entry → Bool
has_key group key e = e.group == group && text_eq e.sort_key key

length-split_section : (lines : List Text) → length (split_section lines).1 ≤ length lines
unfolding split_section
length-split_section [] = omega arith
length-split_section (line ∷ lines) = ground (arith, length-split_section lines)

-- A round for each line is enough: more rounds change nothing.
pub sort_lines-rounds :
    (n m : ℕ) (lines : List Text)
    → length lines ≤ n
    → length lines ≤ m
    → sort_lines n lines ≡ sort_lines m lines
unfolding sort_lines
sort_lines-rounds zero zero lines h k = refl
sort_lines-rounds (suc n) (suc m) [] h k = refl
sort_lines-rounds zero (suc m) [] h k = refl
sort_lines-rounds (suc n) zero [] h k = refl
sort_lines-rounds zero (suc m) (line ∷ lines) h k = absurd (omega arith)
sort_lines-rounds (suc n) zero (line ∷ lines) h k = absurd (omega arith)
sort_lines-rounds (suc n) (suc m) (line ∷ lines) h k =
    let others = (split_section lines).1 in
    let le = length-split_section lines in
    elim (Bool-cases (is_section line)) [
      | inl header ↦
          rw (sort_lines, header)
            (ap (λ ls. render_section line (split_section lines).0 ++ ls)
              (sort_lines-rounds n m others (omega (arith, le)) (omega (arith, le))))
      | inr other ↦
          rw (sort_lines, other)
            (ap (λ ls. line ∷ ls) (sort_lines-rounds n m lines (omega arith) (omega arith)))
    ]
