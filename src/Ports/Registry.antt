-- ===== src/Ports/Registry.antt =====
-- env/ports.py: what the registry file keeps: the claims that `_load` lets through, `_save`'s
-- file read again, and what `_gc` leaves under each key.
use celestia_devtools.Prelude.{
  ℕ, ◌≤◌, String, Bool, true, Option, none, some, [], ◌∷◌, ◌≡◌, refl, arith, Option-cases, ◌↔◌, inl,
  inr, Elem, Elem-select, select, not,
}
use celestia_devtools.Prelude.Int.{pos}
use celestia_devtools.Dict.{insert}
use celestia_devtools.Ports.{
  RawValue, dict, Claim, Entries, File, clean_value, load, dump, gc, raw_of, released,
  drop_released,
}

-- A claim that `_load` lets through.
abbrev pub IsValid : Claim → Type 0
IsValid c = (1 ≤ c.port) × (c.port ≤ 65535) × (1 ≤ c.pid)

abbrev pub AllValid : Entries → Type 0
AllValid [] = Unit
AllValid ((key, c) ∷ rest) = IsValid c × AllValid rest

clean_value-IsValid : (value : RawValue) (c : Claim) → clean_value value ≡ some c → IsValid c
unfolding clean_value
clean_value-IsValid (dict (some (pos p)) (some (pos q)) (some t)) c h = ground arith
clean_value-IsValid value c h = ground arith

load-kept :
    (key : String) (value : RawValue) (rest : File) (c : Claim)
    → clean_value value ≡ some c
    → load ((key, value) ∷ rest) ≡ (key, c) ∷ load rest
unfolding load
load-kept key value rest c h = rw (load, h) refl

load-dropped :
    (key : String) (value : RawValue) (rest : File)
    → clean_value value ≡ none
    → load ((key, value) ∷ rest) ≡ load rest
unfolding load
load-dropped key value rest h = rw (load, h) refl

pub load-AllValid : (file : File) → AllValid (load file)
unfolding load
load-AllValid [] = tt
load-AllValid ((key, value) ∷ rest) = elim (Option-cases (clean_value value)) [
  | inl h ↦ rw (load-dropped key value rest h) (load-AllValid rest)
  | inr (c, h) ↦
      rw (load-kept key value rest c h) (clean_value-IsValid value c h, load-AllValid rest)
]

clean_value-raw_of : (c : Claim) → IsValid c → clean_value (raw_of c) ≡ some c
unfolding clean_value
clean_value-raw_of c v = ground arith

-- A registry whose claims have a port from 1 to 65535 and a positive pid is read back by `_load`
-- as it was written by `_save`.
pub load-dump : (entries : Entries) → AllValid entries → load (dump entries) ≡ entries
unfolding load dump
load-dump [] v = refl
load-dump ((key, c) ∷ rest) v =
    rw (load-kept key (raw_of c) (dump rest) c (clean_value-raw_of c v.0), load-dump rest v.1) refl

-- The claims of an operation's result, by membership.
abbrev pub Holds : String → Claim → Entries → Type 0
Holds key c entries = Elem (key, c) entries

pub gc_lem :
    (alive : ℕ → Bool) (entries : Entries)
    → gc alive entries ≡ select (λ e. alive (e.1).pid) entries
unfolding gc
gc_lem alive [] = refl
gc_lem alive ((j, d) ∷ rest) = rw (gc_lem alive rest) refl

pub drop_released_lem :
    (app : String) (kind : Option String) (entries : Entries)
    → drop_released app kind entries ≡ select (λ e. not (released app kind e.0)) entries
unfolding drop_released
drop_released_lem app kind [] = refl
drop_released_lem app kind ((j, d) ∷ rest) = rw (drop_released_lem app kind rest) (ground arith)

pub Holds-gc :
    (alive : ℕ → Bool) (key : String) (c : Claim) (entries : Entries)
    → Holds key c (gc alive entries) ↔ (Holds key c entries × (alive c.pid ≡ true))
Holds-gc alive key c entries =
    rw (gc_lem alive entries) (Elem-select (λ e. alive (e.1).pid) (key, c) entries)

pub Holds-drop_released :
    (app : String) (kind : Option String) (key : String) (c : Claim) (entries : Entries)
    → Holds key c (drop_released app kind entries)
      ↔ (Holds key c entries × (not (released app kind key) ≡ true))
Holds-drop_released app kind key c entries =
    rw (drop_released_lem app kind entries)
      (Elem-select (λ e. not (released app kind e.0)) (key, c) entries)

pub gc-AllValid :
    (alive : ℕ → Bool) (entries : Entries) → AllValid entries → AllValid (gc alive entries)
unfolding gc
gc-AllValid alive [] v = tt
gc-AllValid alive ((j, d) ∷ rest) v = ground (arith, gc-AllValid alive rest v.1)

pub drop_released-AllValid :
    (app : String) (kind : Option String) (entries : Entries)
    → AllValid entries
    → AllValid (drop_released app kind entries)
unfolding drop_released
drop_released-AllValid app kind [] v = tt
drop_released-AllValid app kind ((j, d) ∷ rest) v =
    ground (arith, drop_released-AllValid app kind rest v.1)

pub insert-AllValid :
    (key : String) (c : Claim) (entries : Entries)
    → IsValid c
    → AllValid entries
    → AllValid (insert key c entries)
unfolding insert
insert-AllValid key c [] i v = (i, tt)
insert-AllValid key c ((j, d) ∷ rest) i v = ground (arith, insert-AllValid key c rest i v.1)
