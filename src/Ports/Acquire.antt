-- ===== src/Ports/Acquire.antt =====
-- env/ports.py: what `acquire` promises: no two claims of the registry share a port, and the port
-- it answers is the caller's.
use celestia_devtools.Prelude.{
  ℕ, ◌≤◌, ◌<◌, ◌+◌, suc, zero, String, Bool, true, false, not, Option, none, some, [], ◌∷◌, ◌≡◌,
  refl, arith, str_eq, ◌==◌, ◌||◌, Bool-cases, inl, inr, select,
}
use celestia_devtools.Dict.{lookup, insert}
use celestia_devtools.Ports.{
  Claim, Entries, Machine, gc, taken, first_free, released, drop_released,
}
use celestia_devtools.Ports.Registry.{gc_lem, drop_released_lem}

-- No two claims share a port.
abbrev pub IsExclusive : Entries → Type 0
IsExclusive [] = Unit
IsExclusive ((key, c) ∷ rest) = (taken c.port rest ≡ false) × IsExclusive rest

taken-select :
    (f : (String × Claim) → Bool) (p : ℕ) (entries : Entries)
    → taken p entries ≡ false
    → taken p (select f entries) ≡ false
unfolding taken
taken-select f p [] h = refl
taken-select f p ((j, d) ∷ rest) h = ground (arith, taken-select f p rest)

pub select-IsExclusive :
    (f : (String × Claim) → Bool) (entries : Entries)
    → IsExclusive entries
    → IsExclusive (select f entries)
select-IsExclusive f [] e = tt
select-IsExclusive f ((j, d) ∷ rest) e = elim (Bool-cases (f (j, d))) [
  | inl h ↦
      rw (IsExclusive, select, h) (taken-select f d.port rest e.0, select-IsExclusive f rest e.1)
  | inr h ↦ rw (IsExclusive, select, h) (select-IsExclusive f rest e.1)
]

pub gc-IsExclusive :
    (alive : ℕ → Bool) (entries : Entries) → IsExclusive entries → IsExclusive (gc alive entries)
gc-IsExclusive alive entries e =
    rw (gc_lem alive entries) (select-IsExclusive (λ e. alive (e.1).pid) entries e)

pub drop_released-IsExclusive :
    (app : String) (kind : Option String) (entries : Entries)
    → IsExclusive entries
    → IsExclusive (drop_released app kind entries)
drop_released-IsExclusive app kind entries e =
    rw (drop_released_lem app kind entries)
      (select-IsExclusive (λ e. not (released app kind e.0)) entries e)

taken-insert :
    (p : ℕ) (key : String) (c : Claim) (entries : Entries)
    → taken p entries ≡ false
    → not (c.port == p) ≡ true
    → taken p (insert key c entries) ≡ false
unfolding taken insert
taken-insert p key c [] h n = ground arith
taken-insert p key c ((j, d) ∷ rest) h n = ground (arith, taken-insert p key c rest)

-- A claim of a port that nobody has.
pub insert_fresh-IsExclusive :
    (key : String) (c : Claim) (entries : Entries)
    → taken c.port entries ≡ false
    → IsExclusive entries
    → IsExclusive (insert key c entries)
unfolding insert taken
insert_fresh-IsExclusive key c [] h e = (refl, tt)
insert_fresh-IsExclusive key c ((j, d) ∷ rest) h e = elim (Bool-cases (str_eq j key)) [
  | inl s ↦ rw (IsExclusive, s) (ground arith, e.1)
  | inr s ↦
      rw (IsExclusive, s)
        (
          taken-insert d.port key c rest e.0 (ground arith),
          insert_fresh-IsExclusive key c rest (ground arith) e.1,
        )
]

lookup-taken :
    (p : ℕ) (key : String) (d : Claim) (entries : Entries)
    → taken p entries ≡ false
    → lookup key entries ≡ some d
    → not (d.port == p) ≡ true
unfolding taken lookup
lookup-taken p key d [] n h = ground arith
lookup-taken p key d ((j, w) ∷ rest) n h = ground (arith, lookup-taken p key d rest)

-- A key's own port claimed again.
pub insert_held-IsExclusive :
    (key : String) (c d : Claim) (entries : Entries)
    → lookup key entries ≡ some d
    → c.port ≡ d.port
    → IsExclusive entries
    → IsExclusive (insert key c entries)
unfolding insert taken lookup
insert_held-IsExclusive key c d [] h p e = ground arith
insert_held-IsExclusive key c d ((j, w) ∷ rest) h p e = elim (Bool-cases (str_eq j key)) [
  | inl s ↦ rw (IsExclusive, s) (ground arith, e.1)
  | inr s ↦
      rw (IsExclusive, s)
        (
          taken-insert w.port key c rest e.0 (ground (arith, lookup-taken w.port key d rest)),
          insert_held-IsExclusive key c d rest (ground arith) p e.1,
        )
]

-- The first candidate that is neither claimed nor listened on.
pub first_free-some :
    (m : Machine) (entries : Entries) (left start p : ℕ)
    → first_free m entries left start ≡ some p
    → (start ≤ p) × (p < start + left) × (taken p entries ≡ false) × (m.listening p ≡ false)
unfolding first_free
first_free-some m entries zero start p h = ground arith
first_free-some m entries (suc left) start p h =
    elim (Bool-cases (taken start entries || m.listening start)) [
      | inl b ↦ (ground (arith, first_free-some m entries left (start + 1) p))
      | inr b ↦ (ground arith)
    ]

pub first_free-none :
    (m : Machine) (entries : Entries) (left start : ℕ)
    → (p : ℕ) → start ≤ p
    → p < start + left
    → first_free m entries left start ≡ none
    → (taken p entries || m.listening p) ≡ true
unfolding first_free
first_free-none m entries zero start p le lt h = ground arith
first_free-none m entries (suc left) start p le lt h =
    ground (arith, first_free-none m entries left (start + 1) p)
