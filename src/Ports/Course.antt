-- ===== src/Ports/Course.antt =====
-- env/ports.py: the ways that `acquire` can go.
use celestia_devtools.Prelude.{
  ℕ, ◌≤◌, String, none, some, [], ◌∷◌, ◌≡◌, refl, ◌∙◌, arith, Option-cases, Bool-cases, inl, inr,
}
use celestia_devtools.Dict.{lookup, insert}
use celestia_devtools.Ports.{
  Claim, Entries, File, Machine, port, unknown_kind, no_free_port, load, dump, gc, first_free,
  claim_now, scan_window, save, allocate, acquire, preferred, kind_base,
}
use celestia_devtools.Ports.Keys.{key_of}
use celestia_devtools.Ports.Registry.{IsValid, AllValid, load-AllValid, gc-AllValid}

-- The claims that a command works on.
abbrev pub live : Machine → File → Entries
live m file = gc m.alive (load file)

pub live-AllValid : (m : Machine) (file : File) → AllValid (live m file)
live-AllValid m file = gc-AllValid m.alive (load file) (load-AllValid file)

pub lookup-IsValid :
    (key : String) (c : Claim) (entries : Entries)
    → AllValid entries
    → lookup key entries ≡ some c
    → IsValid c
unfolding lookup
lookup-IsValid key c [] v h = ground arith
lookup-IsValid key c ((j, w) ∷ rest) v h = ground (arith, lookup-IsValid key c rest v.1)

pub kind_base-le :
    (kind : String) (base : ℕ) → kind_base kind ≡ some base → (1 ≤ base) × (base ≤ 9222)
kind_base-le kind base h = ground arith

pub acquire-known :
    (m : Machine) (app kind : String) (file : File) (base : ℕ)
    → kind_base kind ≡ some base
    → acquire m app kind file ≡ elim (lookup (key_of app kind) (live m file)) [
      | some held ↦
          save m file
            (insert (key_of app kind) (claim_now m held.port) (live m file))
            (port held.port)
      | none ↦ allocate m file (live m file) (key_of app kind) (preferred m app base)
    ]
unfolding acquire
acquire-known m app kind file base h = rw (acquire, h) refl

-- The ways that `acquire` can go before its write.
pub data Course (m : Machine) (app kind : String) (file : File) : Type 0 where
  no_kind : acquire m app kind file ≡ (unknown_kind, file) → Course m app kind file
  keeps :
      (held : Claim)
      → lookup (key_of app kind) (live m file) ≡ some held
      → acquire m app kind file
        ≡ save m file
            (insert (key_of app kind) (claim_now m held.port) (live m file))
            (port held.port)
      → Course m app kind file
  takes :
      (base p : ℕ)
      → kind_base kind ≡ some base
      → lookup (key_of app kind) (live m file) ≡ none
      → first_free m (live m file) scan_window (preferred m app base) ≡ some p
      → acquire m app kind file
        ≡ save m file (insert (key_of app kind) (claim_now m p) (live m file)) (port p)
      → Course m app kind file
  full :
      (base : ℕ)
      → kind_base kind ≡ some base
      → lookup (key_of app kind) (live m file) ≡ none
      → first_free m (live m file) scan_window (preferred m app base) ≡ none
      → acquire m app kind file ≡ (no_free_port, file)
      → Course m app kind file

Course-unheld :
    (m : Machine) (app kind : String) (file : File) (base : ℕ)
    → kind_base kind ≡ some base
    → lookup (key_of app kind) (live m file) ≡ none
    → Course m app kind file
unfolding allocate
Course-unheld m app kind file base h l =
    elim (Option-cases (first_free m (live m file) scan_window (preferred m app base))) [
      | inl f ↦ full base h l f (acquire-known m app kind file base h ∙ rw (l, allocate, f) refl)
      | inr (p, f) ↦
          takes base p h l f (acquire-known m app kind file base h ∙ rw (l, allocate, f) refl)
    ]

pub course : (m : Machine) (app kind : String) (file : File) → Course m app kind file
unfolding acquire
course m app kind file = elim (Option-cases (kind_base kind)) [
  | inl h ↦ no_kind (rw (acquire, h) refl)
  | inr (base, h) ↦ elim (Option-cases (lookup (key_of app kind) (live m file))) [
    | inl l ↦ Course-unheld m app kind file base h l
    | inr (held, l) ↦ keeps held l (acquire-known m app kind file base h ∙ rw l refl)
  ]
]

pub save-port :
    (m : Machine) (before after : File) (entries : Entries) (q p : ℕ)
    → save m before entries (port q) ≡ (port p, after)
    → (q ≡ p) × (after ≡ dump entries)
save-port m before after entries q p h = elim (Bool-cases m.writable) [
  | inl w ↦ ground arith
  | inr w ↦ ground arith
]
