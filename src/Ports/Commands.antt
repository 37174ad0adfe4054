-- ===== src/Ports/Commands.antt =====
-- env/ports.py: what the commands `acquire`, `claim`, `release` and `list_entries` do to the
-- registry file, and what a history of them keeps.
use celestia_devtools.Prelude.{
  eq_refl, subst, ℕ, ◌≤◌, ◌<◌, ◌+◌, String, Bool, true, false, not, some, ◌≡◌, refl, sym, ap, ◌∙◌,
  arith, str_eq, ◌⊎◌, inl, inr,
}
use celestia_devtools.Dict.{lookup, insert, lookup-insert}
use celestia_devtools.Ports.{
  Claim, File, Machine, Answer, port, unknown_kind, no_free_port, Effect, load, dump, taken,
  claim_now, scan_window, save, acquire, preferred, kind_base,
}
use celestia_devtools.Ports.Keys.{key_of}
use celestia_devtools.Ports.Registry.{IsValid, load-dump, insert-AllValid}
use celestia_devtools.Ports.Acquire.{
  IsExclusive, gc-IsExclusive, insert_fresh-IsExclusive, insert_held-IsExclusive, first_free-some,
}
use celestia_devtools.Ports.Course.{
  live, live-AllValid, lookup-IsValid, kind_base-le, Course, no_kind, keeps, takes, full, course,
  save-port,
}

-- After a successful `acquire` of `p`: the caller's own claim of `p` is on file, no two claims share
-- a port, and every other key has what it had among the live claims.
abbrev pub IsGranted : Machine → String → File → ℕ → File → Type 0
IsGranted m key file p after =
    (lookup key (load after) ≡ some (claim_now m p))
    × IsExclusive (load after)
    × ((j : String) → str_eq key j ≡ false → lookup j (load after) ≡ lookup j (live m file))

-- A port of the window that no live claim has and nobody listens on.
abbrev pub IsFree : Machine → String → File → ℕ → ℕ → Type 0
IsFree m app file base p =
    (preferred m app base ≤ p)
    × (p < preferred m app base + scan_window)
    × (taken p (live m file) ≡ false)
    × (m.listening p ≡ false)

-- Where the port comes from: the key's live claim, or the window, where nobody claims it or listens.
abbrev pub IsSource : Machine → String → String → File → ℕ → Type 0
IsSource m app kind file p =
    ((held : Claim) × (lookup (key_of app kind) (live m file) ≡ some held) × (p ≡ held.port))
    ⊎ ((base : ℕ) × (kind_base kind ≡ some base) × IsFree m app file base p)

written :
    (m : Machine) (key : String) (file : File) (p : ℕ)
    → IsValid (claim_now m p)
    → IsExclusive (insert key (claim_now m p) (live m file))
    → IsGranted m key file p (dump (insert key (claim_now m p) (live m file)))
written m key file p v e =
    rw
      (load-dump (insert key (claim_now m p) (live m file))
        (insert-AllValid key (claim_now m p) (live m file) v (live-AllValid m file)))
      (
        ground (arith, eq_refl key, lookup-insert key key (claim_now m p) (live m file)),
        e,
        λ j n. ground (arith, lookup-insert key j (claim_now m p) (live m file)),
      )

pub window-IsValid :
    (m : Machine) (app kind : String) (base p : ℕ)
    → 1 ≤ m.own_pid
    → kind_base kind ≡ some base
    → preferred m app base ≤ p
    → p < preferred m app base + scan_window
    → IsValid (claim_now m p)
window-IsValid m app kind base p o b le lt = ground (arith, kind_base-le kind base b)

abbrev pub is_port : Answer → Bool
is_port (port p) = true
is_port answer = false

save-IsGranted :
    (m : Machine) (key : String) (file after : File) (q p : ℕ)
    → save m file (insert key (claim_now m q) (live m file)) (port q) ≡ (port p, after)
    → IsValid (claim_now m q)
    → IsExclusive (insert key (claim_now m q) (live m file))
    → IsGranted m key file p after
save-IsGranted m key file after q p h v e =
    let same = save-port m file after (insert key (claim_now m q) (live m file)) q p h in
    subst (λ r. IsGranted m key file r after) same.0 (rw (same.1) (written m key file q v e))

pub refused :
    (effect : Effect) (answer : Answer) (file after : File) (p : ℕ)
    → not (is_port answer) ≡ true
    → effect ≡ (answer, file)
    → effect ≡ (port p, after)
    → ⊥
refused effect answer file after p n q h = ground (arith, ap (λ x. is_port x.0) (sym q ∙ h))

granted :
    (m : Machine) (app kind : String) (file : File) (p : ℕ) (after : File)
    → 1 ≤ m.own_pid
    → IsExclusive (load file)
    → Course m app kind file
    → acquire m app kind file ≡ (port p, after)
    → IsGranted m (key_of app kind) file p after × IsSource m app kind file p
granted m app kind file p after o e (no_kind q) h =
    elim (refused (acquire m app kind file) unknown_kind file after p refl q h) [ ]
granted m app kind file p after o e (keeps held l q) h = (
  save-IsGranted m (key_of app kind) file after held.port p (sym q ∙ h)
      (ground (arith, lookup-IsValid (key_of app kind) held (live m file) (live-AllValid m file)))
      (insert_held-IsExclusive (key_of app kind) (claim_now m held.port) held (live m file) l refl
        (gc-IsExclusive m.alive (load file) e)),
  inl (
    held,
    l,
    sym (
        (save-port m file after (insert (key_of app kind) (claim_now m held.port) (live m file))
          held.port p (sym q ∙ h)).0),
  ),
)
granted m app kind file p after o e (takes base r b l f q) h =
    let found = first_free-some m (live m file) scan_window (preferred m app base) r f in
    let same =
      (save-port m file after (insert (key_of app kind) (claim_now m r) (live m file)) r p
        (sym q ∙ h)).0 in
    (
      save-IsGranted m (key_of app kind) file after r p (sym q ∙ h)
          (window-IsValid m app kind base r o b found.0 found.1)
          (insert_fresh-IsExclusive (key_of app kind) (claim_now m r) (live m file) found.2
            (gc-IsExclusive m.alive (load file) e)),
      inr (base, b, subst (IsFree m app file base) same found),
    )
granted m app kind file p after o e (full base b l f q) h =
    elim (refused (acquire m app kind file) no_free_port file after p refl q h) [ ]

-- Whenever `acquire` answers a port to a process with a positive pid, on a file where no two
-- claims share a port: the caller's claim of it is on file, still no two claims share a port,
-- every other key has what it had among the live claims, and the port is that of the key's live
-- claim, or a port of the 64 from the preferred one that nobody claims or listens on.
pub acquire-IsGranted :
    (m : Machine) (app kind : String) (file : File) (p : ℕ) (after : File)
    → 1 ≤ m.own_pid
    → IsExclusive (load file)
    → acquire m app kind file ≡ (port p, after)
    → IsGranted m (key_of app kind) file p after × IsSource m app kind file p
acquire-IsGranted m app kind file p after o e h =
    granted m app kind file p after o e (course m app kind file) h
