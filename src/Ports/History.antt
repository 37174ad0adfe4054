-- ===== src/Ports/History.antt =====
-- env/ports.py: a history of commands, each run under the registry lock, and what it keeps; the
-- claims that `release` drops; a port acquired again; a window that is used up.
use celestia_devtools.Prelude.{
  ℕ, ◌≤◌, ◌<◌, ◌+◌, String, Bool, true, false, not, Option, none, some, List, [], ◌∷◌, ◌≡◌, refl,
  sym, ap, ◌∙◌, arith, str_eq, ◌||◌, ◌&&◌, Option-cases, Bool-cases, ◌↔◌, inl, inr,
}
use celestia_devtools.Dict.{lookup, insert}
use celestia_devtools.Ports.{
  Claim, Entries, File, Machine, Answer, port, done, unknown_kind, no_free_port, Effect, load, gc,
  taken, released, drop_released, claim_now, scan_window, save, acquire, release, list_entries,
  preferred, kind_base,
}
use celestia_devtools.Ports.Keys.{key_of, has_colon, owner_of-key_of}
use celestia_devtools.Ports.Registry.{
  AllValid, Holds, Holds-gc, Holds-drop_released, load-dump, drop_released-AllValid,
  insert-AllValid,
}
use celestia_devtools.Ports.Acquire.{
  IsExclusive, gc-IsExclusive, drop_released-IsExclusive, insert_fresh-IsExclusive,
  insert_held-IsExclusive, first_free-some, first_free-none,
}
use celestia_devtools.Ports.Course.{
  live, live-AllValid, lookup-IsValid, acquire-known, Course, no_kind, keeps, takes, full, course,
}
use celestia_devtools.Ports.Commands.{window-IsValid, acquire-IsGranted, refused}

-- One command as a user starts it.
pub data Request : Type 0 where
  acquiring : (app kind : String) → Request
  releasing : (app : String) (kind : Option String) → Request
  listing : Request

unfoldable pub run_request : Machine → Request → File → Effect
unfolding acquire release list_entries
run_request m (acquiring app kind) file = acquire m app kind file
run_request m (releasing app kind) file = release m app kind file
run_request m listing file = list_entries m file

-- The registry file after a history of commands, each on its own machine state.
unfoldable pub run_history : List (Machine × Request) → File → File
unfolding run_request
run_history [] file = file
run_history ((m, r) ∷ rest) file = run_history rest (run_request m r file).1

abbrev pub HavePids : List (Machine × Request) → Type 0
HavePids [] = Unit
HavePids ((m, r) ∷ rest) = (1 ≤ m.own_pid) × HavePids rest

save-IsExclusive :
    (m : Machine) (before : File) (entries : Entries) (answer : Answer)
    → IsExclusive (load before)
    → AllValid entries
    → IsExclusive entries
    → IsExclusive (load (save m before entries answer).1)
save-IsExclusive m before entries answer b v e = elim (Bool-cases m.writable) [
  | inl w ↦ rw (w, load-dump entries v) e
  | inr w ↦ rw w b
]

acquire-IsExclusive :
    (m : Machine) (app kind : String) (file : File)
    → 1 ≤ m.own_pid
    → IsExclusive (load file)
    → Course m app kind file
    → IsExclusive (load (acquire m app kind file).1)
acquire-IsExclusive m app kind file o e (no_kind q) = rw q e
acquire-IsExclusive m app kind file o e (keeps held l q) = rw q (
    save-IsExclusive m file (insert (key_of app kind) (claim_now m held.port) (live m file))
      (port held.port) e
      (insert-AllValid (key_of app kind) (claim_now m held.port) (live m file)
        (ground (arith, lookup-IsValid (key_of app kind) held (live m file) (live-AllValid m file)))
        (live-AllValid m file))
      (insert_held-IsExclusive (key_of app kind) (claim_now m held.port) held (live m file) l refl
        (gc-IsExclusive m.alive (load file) e)))
acquire-IsExclusive m app kind file o e (takes base r b l f q) =
    let found = first_free-some m (live m file) scan_window (preferred m app base) r f in
    rw q (
      save-IsExclusive m file (insert (key_of app kind) (claim_now m r) (live m file)) (port r) e
        (insert-AllValid (key_of app kind) (claim_now m r) (live m file)
          (window-IsValid m app kind base r o b found.0 found.1) (live-AllValid m file))
        (insert_fresh-IsExclusive (key_of app kind) (claim_now m r) (live m file) found.2
          (gc-IsExclusive m.alive (load file) e)))
acquire-IsExclusive m app kind file o e (full base b l f q) = rw q e

run_request-IsExclusive :
    (m : Machine) (r : Request) (file : File)
    → 1 ≤ m.own_pid
    → IsExclusive (load file)
    → IsExclusive (load (run_request m r file).1)
unfolding run_request release list_entries
run_request-IsExclusive m (acquiring app kind) file o e =
    acquire-IsExclusive m app kind file o e (course m app kind file)
run_request-IsExclusive m (releasing app kind) file o e =
    save-IsExclusive m file (drop_released app kind (live m file)) done e
      (drop_released-AllValid app kind (live m file) (live-AllValid m file))
      (drop_released-IsExclusive app kind (live m file) (gc-IsExclusive m.alive (load file) e))
run_request-IsExclusive m listing file o e =
    save-IsExclusive m file (live m file) done e (live-AllValid m file)
      (gc-IsExclusive m.alive (load file) e)

-- If no two claims of a file share a port, no two claims share one after any history of
-- `acquire`, `release` and `list` commands by processes with a positive pid, whatever processes
-- live, ports listen and writes fail on the way.
pub run_history-IsExclusive :
    (history : List (Machine × Request)) (file : File)
    → HavePids history
    → IsExclusive (load file)
    → IsExclusive (load (run_history history file))
unfolding run_history
run_history-IsExclusive [] file o e = e
run_history-IsExclusive ((m, r) ∷ rest) file o e =
    run_history-IsExclusive rest (run_request m r file).1 o.1
      (run_request-IsExclusive m r file o.0 e)

lookup-gc :
    (alive : ℕ → Bool) (key : String) (c : Claim) (entries : Entries)
    → lookup key entries ≡ some c
    → alive c.pid ≡ true
    → lookup key (gc alive entries) ≡ some c
unfolding lookup gc
lookup-gc alive key c [] h a = h
lookup-gc alive key c ((j, w) ∷ rest) h a = ground (arith, lookup-gc alive key c rest)

-- On a file where no two claims share a port, a port that a process acquired is the answer to a
-- second `acquire` of the same app and kind, if that process still lives and the second write
-- succeeds.
pub acquire-again :
    (m m' : Machine) (app kind : String) (file after : File) (p : ℕ)
    → 1 ≤ m.own_pid
    → IsExclusive (load file)
    → acquire m app kind file ≡ (port p, after)
    → m'.alive m.own_pid ≡ true
    → m'.writable ≡ true
    → (acquire m' app kind after).0 ≡ port p
unfolding acquire
acquire-again m m' app kind file after p o e h a w = elim (Option-cases (kind_base kind)) [
  | inl b ↦
      elim (refused (acquire m app kind file) unknown_kind file after p refl (rw (acquire, b) refl)
        h) [ ]
  | inr (base, b) ↦
      let held =
        lookup-gc m'.alive (key_of app kind) (claim_now m p) (load after)
          ((acquire-IsGranted m app kind file p after o e h).0).0 a in
      rw (acquire-known m' app kind after base b, held, w) refl
]

released-key_of :
    (app owner own_kind : String) (kind : Option String)
    → has_colon own_kind ≡ false
    → released app kind (key_of owner own_kind)
      ≡ (str_eq owner app && elim kind [ none ↦ true | some k ↦ str_eq own_kind k ])
unfolding released
released-key_of app owner own_kind kind h = rw (released, owner_of-key_of owner own_kind h) refl

-- When the write succeeds, `release` leaves a claim under the key of an owner and a kind without
-- a colon exactly if it was on file, its process lives, and the owner is another app or the kind
-- is not the one that is named.
pub release-Holds :
    (m : Machine) (app owner own_kind : String) (kind : Option String) (c : Claim) (file : File)
    → has_colon own_kind ≡ false
    → m.writable ≡ true
    → Holds (key_of owner own_kind) c (load (release m app kind file).1) ↔ (
        Holds (key_of owner own_kind) c (load file)
        × (m.alive c.pid ≡ true)
        × (not (str_eq owner app && elim kind [ none ↦ true | some k ↦ str_eq own_kind k ]) ≡ true))
unfolding release released
release-Holds m app owner own_kind kind c file colon w =
    rw
      (
        w,
        load-dump (drop_released app kind (live m file))
            (drop_released-AllValid app kind (live m file) (live-AllValid m file)),
        sym (released-key_of app owner own_kind kind colon),
      )
      (grind (
        arith,
        Holds-drop_released app kind (key_of owner own_kind) c (live m file),
        Holds-gc m.alive (key_of owner own_kind) c (load file),
      ))

abbrev is_full : Answer → Bool
is_full no_free_port = true
is_full answer = false

full_window :
    (m : Machine) (app kind : String) (file after : File) (base p : ℕ)
    → Course m app kind file
    → kind_base kind ≡ some base
    → acquire m app kind file ≡ (no_free_port, after)
    → preferred m app base ≤ p
    → p < preferred m app base + scan_window
    → (after ≡ file) × ((taken p (live m file) || m.listening p) ≡ true)
full_window m app kind file after base p (no_kind q) b h le lt =
    ground (arith, ap (λ x. is_full x.0) (sym q ∙ h))
full_window m app kind file after base p (keeps held l q) b h le lt =
    ground (arith, ap (λ x. is_full x.0) (sym q ∙ h))
full_window m app kind file after base p (takes base' r b' l f q) b h le lt =
    ground (arith, ap (λ x. is_full x.0) (sym q ∙ h))
full_window m app kind file after base p (full base' b' l f q) b h le lt = (
  ap (λ x. x.1) (sym h ∙ q),
  ground (arith, first_free-none m (live m file) scan_window (preferred m app base') p),
)

-- For a known kind, `acquire` reports a used-up window only when each of its 64 ports is claimed
-- by a live claim or listened on, and then it writes nothing.
pub acquire-no_free_port :
    (m : Machine) (app kind : String) (file after : File) (base p : ℕ)
    → kind_base kind ≡ some base
    → acquire m app kind file ≡ (no_free_port, after)
    → preferred m app base ≤ p
    → p < preferred m app base + scan_window
    → (after ≡ file) × ((taken p (live m file) || m.listening p) ≡ true)
acquire-no_free_port m app kind file after base p b h le lt =
    full_window m app kind file after base p (course m app kind file) b h le lt
