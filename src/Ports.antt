-- ===== src/Ports.antt =====
-- env/ports.py: the port registry and its commands. What a command sees of the machine is `Machine`;
-- the commands run under the registry lock, so each is one function of the registry file.
pub mod Keys
pub mod Registry
pub mod Acquire
pub mod Course
pub mod Commands
pub mod History
mod Samples
use Prim.Native.String.{◌++◌ as str_append}
use celestia_devtools.Prelude.{
  ℕ, zero, suc, ◌+◌, ◌%◌, String, Bool, true, false, Option, none, some, List, [], ◌∷◌, str_eq, ltb,
  leb, ◌==◌, if◌then◌else◌, ◌||◌, ◌&&◌, not,
}
use celestia_devtools.Prelude.Int.{ℤ, pos, negsuc}
use celestia_devtools.Dict.{Dict, lookup, insert}
use Keys.{owner_of, key_of}

-- A value of the JSON object on disk: no object, or one with what `int()` makes of its fields
-- (`none`: a `TypeError` or a `ValueError`; a missing `ts` counts as 0).
pub data RawValue : Type 0 where
  not_dict : RawValue
  dict : (port pid ts : Option ℤ) → RawValue

-- A registry file; one that is missing, unreadable or no JSON object is `[]`.
abbrev pub File : Type 0
File = Dict RawValue

pub record Claim : Type 0 where
  pub port : ℕ
  pub pid : ℕ
  pub ts : ℤ

abbrev pub Entries : Type 0
Entries = Dict Claim

-- The machine at the time of one command; `offset app` is the number that the first two bytes of
-- the SHA-256 digest of the name stand for.
pub record Machine : Type 0 where
  pub alive : ℕ → Bool
  pub listening : ℕ → Bool
  pub own_pid : ℕ
  pub now : ℤ
  pub offset : String → ℕ
  pub writable : Bool

abbrev pub scan_window : ℕ
scan_window = 64

-- `KINDS`
abbrev pub kind_base : String → Option ℕ
kind_base kind =
    if str_eq kind "vite" then some 5173 else if str_eq kind "cdp" then some 9222 else none

-- The sanitizing of one value in `_load`.
unfoldable pub clean_value : RawValue → Option Claim
clean_value (dict (some (pos port)) (some (pos pid)) (some ts)) =
    if ltb port 1 || (ltb 65535 port || pid == 0)
    then none
    else some (record { port = port; pid = pid; ts = ts })
clean_value _ = none

unfoldable pub load : File → Entries
unfolding clean_value
load [] = []
load ((key, value) ∷ rest) =
    let others = load rest in
    elim (clean_value value) [ none ↦ others | some claim ↦ (key, claim) ∷ others ]

-- What `_save` writes.
abbrev pub raw_of : Claim → RawValue
raw_of c = dict (some (pos c.port)) (some (pos c.pid)) (some c.ts)

unfoldable pub dump : Entries → File
dump [] = []
dump ((key, claim) ∷ rest) = (key, raw_of claim) ∷ dump rest

-- `_gc`: the claims of processes that are gone are dropped.
unfoldable pub gc : (ℕ → Bool) → Entries → Entries
gc alive [] = []
gc alive ((key, claim) ∷ rest) =
    let others = gc alive rest in if alive claim.pid then (key, claim) ∷ others else others

-- `candidate in taken`
unfoldable pub taken : ℕ → Entries → Bool
taken port [] = false
taken port ((key, claim) ∷ rest) = claim.port == port || taken port rest

pub data Answer : Type 0 where
  port : ℕ → Answer
  done : Answer
  unknown_kind no_free_port cannot_write : Answer

-- A command's answer, and the registry file that it leaves.
abbrev pub Effect : Type 0
Effect = Answer × File

-- `_save`; a write that fails leaves the file as it was.
abbrev pub save : Machine → File → Entries → Answer → Effect
save m before entries answer = if m.writable then (answer, dump entries) else (cannot_write, before)

-- The loop over the candidates; `none` where the window is used up.
unfoldable pub first_free : Machine → Entries → ℕ → ℕ → Option ℕ
unfolding taken
first_free m entries zero candidate = none
first_free m entries (suc left) candidate =
    let later = first_free m entries left (candidate + 1) in
    if taken candidate entries || m.listening candidate then later else some candidate

abbrev pub claim_now : Machine → ℕ → Claim
claim_now m p = record { port = p; pid = m.own_pid; ts = m.now }

-- `_preferred`
abbrev pub preferred : Machine → String → ℕ → ℕ
preferred m app base = base + m.offset app % 32

pub allocate : Machine → File → Entries → String → ℕ → Effect
unfolding first_free
allocate m before entries key start = elim (first_free m entries scan_window start) [
  | none ↦ (no_free_port, before)
  | some p ↦ save m before (insert key (claim_now m p) entries) (port p)
]

unfoldable pub acquire : Machine → String → String → File → Effect
unfolding load gc allocate dump key_of
acquire m app kind file = elim (kind_base kind) [
  | none ↦ (unknown_kind, file)
  | some base ↦
      let entries = gc m.alive (load file) in
      let key = key_of app kind in
      elim (lookup key entries) [
        | some held ↦ save m file (insert key (claim_now m held.port) entries) (port held.port)
        | none ↦ allocate m file entries key (preferred m app base)
      ]
]

-- `claim`, for a port and a pid that the caller knows.
unfoldable pub claim : Machine → String → String → ℕ → ℕ → File → Effect
unfolding load gc dump key_of
claim m app kind p pid file = elim (kind_base kind) [
  | none ↦ (unknown_kind, file)
  | some base ↦
      save m file
        (insert (key_of app kind) (record { port = p; pid = pid; ts = m.now })
          (gc m.alive (load file)))
        done
]

-- The keys that `release` collects, taken out.
unfoldable pub released : String → Option String → String → Bool
unfolding owner_of
released app kind key = elim (owner_of key) [
  | none ↦ false
  | some (owner, key_kind) ↦
      str_eq owner app && elim kind [ none ↦ true | some k ↦ str_eq key_kind k ]
]

unfoldable pub drop_released : String → Option String → Entries → Entries
drop_released app kind [] = []
drop_released app kind ((key, c) ∷ rest) =
    let others = drop_released app kind rest in
    if released app kind key then others else (key, c) ∷ others

unfoldable pub release : Machine → String → Option String → File → Effect
unfolding load gc dump drop_released
release m app kind file = save m file (drop_released app kind (gc m.alive (load file))) done

unfoldable pub list_entries : Machine → File → Effect
unfolding load gc dump
list_entries m file = save m file (gc m.alive (load file)) done
