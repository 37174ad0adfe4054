-- ===== src/Gate/Checks.antt =====
-- build/gate_graph.py: the in-process checks of the gate, and what it reads of a checkout.
use Prim.Native.Char.{code}
use celestia_devtools.Prelude.{
  ℕ, ◌+◌, String, Bool, true, false, Option, none, some, List, [], ◌∷◌, ◌++◌, ltb, leb, ◌==◌,
  if◌then◌else◌, ◌||◌, ◌&&◌, not, is_nil, select,
}
use celestia_devtools.Scheduler.{Status, pass, fail, skip, skip_dep}

-- The answers of `classify_credential_line`.
pub data Verdict : Type 0 where
  clean report violation : Verdict

-- A path of `_changed_files`: `none` where it is no file or cannot be read, else its lines.
pub record Changed : Type 0 where
  pub rel : String
  pub lines : Option (List String)

-- What the gate sees of a checkout. `classify` and `lint` are `classify_credential_line` and
-- `lint_subject` for this repository; `subjects` is `none` without `origin/master`.
pub record Repo : Type 0 where
  pub cargo_toml : Bool
  pub package_json : Bool
  pub pnpm_workspace : Bool
  pub pyproject : Bool
  pub cargo_deny : Bool
  pub node_modules : Option ℕ
  pub lockfiles : List (Option ℕ)
  pub changed : List Changed
  pub subjects : Option (List String)
  pub classify : String → Verdict
  pub lint : String → List String

abbrev pub text_of : Status → String
text_of pass = "PASS"
text_of fail = "FAIL"
text_of skip = "SKIP"
text_of skip_dep = "SKIP_DEP"

-- `violations` (path, line number, line) and `reported`.
pub record Scan : Type 0 where
  pub violations : List (String × ℕ × String)
  pub reported : ℕ

pub scan_lines : (String → Verdict) → String → ℕ → List String → Scan → Scan
scan_lines classify rel lineno [] acc = acc
scan_lines classify rel lineno (line ∷ rest) acc =
    scan_lines classify rel (lineno + 1) rest (elim (classify line) [
      | clean ↦ acc
      | report ↦ record acc { reported = acc.reported + 1 }
      | violation ↦ record {
        violations = acc.violations ++ (rel, lineno, line) ∷ [];
        reported = acc.reported + 1;
      }
    ])

pub scan_files : (String → Verdict) → List Changed → Scan → Scan
unfolding scan_lines
scan_files classify [] acc = acc
scan_files classify (f ∷ fs) acc =
    scan_files classify fs
      (elim f.lines [ none ↦ acc | some lines ↦ scan_lines classify f.rel 1 lines acc ])

unfoldable pub credential_scan : Repo → Status
unfolding scan_files
credential_scan r =
    let found = scan_files r.classify r.changed (record { violations = []; reported = 0 }) in
    if is_nil r.changed then skip else if is_nil found.violations then pass else fail

-- `s.strip()` is empty: every character is white space.
abbrev pub is_space : ℕ → Bool
is_space c =
    (leb 9 c && leb c 13)
    || ((leb 28 c && leb c 32)
        || (c == 133
            || (c == 160
                || (c == 5760
                    || ((leb 8192 c && leb c 8202)
                        || (c == 8232
                            || (c == 8233 || (c == 8239 || (c == 8287 || c == 12288)))))))))

pub is_blank : String → Bool
is_blank String.[] = true
is_blank (String.◌∷◌ c s) = is_space (code c) && is_blank s

-- The loop over the subjects: the bad ones with their violations.
pub bad_subjects : (String → List String) → List String → List (String × List String)
bad_subjects lint [] = []
bad_subjects lint (s ∷ ss) =
    let rest = bad_subjects lint ss in if is_nil (lint s) then rest else (s, lint s) ∷ rest

unfoldable pub lint_commits : Repo → Status
unfolding bad_subjects is_blank
lint_commits r = elim r.subjects [
  | none ↦ skip
  | some lines ↦
      let subjects = select (λ s. not (is_blank s)) lines in
      if is_nil subjects then skip else if is_nil (bad_subjects r.lint subjects) then pass else fail
]

-- A lock file that is newer than `node_modules`.
pub newer_lock : ℕ → List (Option ℕ) → Bool
newer_lock installed [] = false
newer_lock installed (lock ∷ rest) =
    elim lock [ none ↦ false | some t ↦ ltb installed t ] || newer_lock installed rest

unfoldable pub needs_install : Repo → Bool
unfolding newer_lock
needs_install r = elim r.node_modules [
  | none ↦ true
  | some installed ↦ newer_lock installed r.lockfiles
]
