-- ===== src/Ports/Samples.antt =====
-- env/ports.py: a registry file with a dead and a live claim, and the theorems at it.
use celestia_devtools.Prelude.{
  true, none, some, [], ◌∷◌, ◌≡◌, refl, arith, str_eq, if◌then◌else◌, ◌==◌, not, ◌||◌, ◌&&◌, ◌↔◌,
}
use celestia_devtools.Prelude.Int.{pos}
use celestia_devtools.Dict.{lookup, insert}
use celestia_devtools.Ports.{
  not_dict, dict, File, Claim, Entries, Machine, port, no_free_port, load, dump, acquire, release,
  taken,
}
use celestia_devtools.Ports.Keys.{key_of, owner_of, owner_of-key_of}
use celestia_devtools.Ports.Registry.{load-dump, Holds}
use celestia_devtools.Ports.Acquire.{IsExclusive}
use celestia_devtools.Ports.Course.{live}
use celestia_devtools.Ports.Commands.{IsGranted, IsSource, acquire-IsGranted}
use celestia_devtools.Ports.History.{
  acquiring, releasing, listing, run_history, run_history-IsExclusive, release-Holds, acquire-again,
  acquire-no_free_port,
}

-- Process 7 is gone, another program listens on port 5177, and this process is 40.
abbrev machine : Machine
machine = record {
  alive = λ pid. not (pid == 7);
  listening = λ p. p == 5177;
  own_pid = 40;
  now = pos 1000;
  offset = λ app. if str_eq app "wowsp" then 36 else 1;
  writable = true;
}

abbrev busy_machine : Machine
busy_machine = record machine { listening = λ p. true }

-- A dead claim, a live one of the port that `wowsp` prefers next, and two that `_load` drops.
abbrev on_disk : File
on_disk =
    ("old:vite", dict (some (pos 5180)) (some (pos 7)) (some (pos 1)))
    ∷ ("arona:vite", dict (some (pos 5178)) (some (pos 8)) (some (pos 2)))
    ∷ ("broken", not_dict)
    ∷ ("far:cdp", dict (some (pos 70000)) (some (pos 8)) (some (pos 2)))
    ∷ []

abbrev arona : Claim
arona = record { port = 5178; pid = 8; ts = pos 2 }

abbrev kept : Entries
kept = ("old:vite", record { port = 5180; pid = 7; ts = pos 1 }) ∷ ("arona:vite", arona) ∷ []

loaded : load on_disk ≡ kept
unfolding load
loaded = refl

on_disk-IsExclusive : IsExclusive (load on_disk)
unfolding load taken
on_disk-IsExclusive = (refl, (refl, tt))

load-dump_example : load (dump kept) ≡ kept
load-dump_example =
    load-dump kept
      ((omega arith, omega arith, omega arith), ((omega arith, omega arith, omega arith), tt))

key_with_colons : owner_of (key_of "a:b" "vite") ≡ some ("a:b", "vite")
key_with_colons = owner_of-key_of "a:b" "vite" refl

abbrev after_wowsp : File
after_wowsp =
    ("arona:vite", dict (some (pos 5178)) (some (pos 8)) (some (pos 2)))
    ∷ ("wowsp:vite", dict (some (pos 5179)) (some (pos 40)) (some (pos 1000)))
    ∷ []

acquires : acquire machine "wowsp" "vite" on_disk ≡ (port 5179, after_wowsp)
unfolding acquire load lookup insert
acquires = refl

acquire-IsGranted_example :
    IsGranted machine (key_of "wowsp" "vite") on_disk 5179 after_wowsp
    × IsSource machine "wowsp" "vite" on_disk 5179
acquire-IsGranted_example =
    acquire-IsGranted machine "wowsp" "vite" on_disk 5179 after_wowsp (omega arith)
      on_disk-IsExclusive acquires

acquire-again_example : (acquire busy_machine "wowsp" "vite" after_wowsp).0 ≡ port 5179
acquire-again_example =
    acquire-again machine busy_machine "wowsp" "vite" on_disk after_wowsp 5179 (omega arith)
      on_disk-IsExclusive acquires refl refl

run_history-IsExclusive_example : IsExclusive (
    load (
      run_history
        ((machine, acquiring "wowsp" "vite")
          ∷ (busy_machine, listing)
          ∷ (machine, releasing "arona" none)
          ∷ [])
        on_disk))
run_history-IsExclusive_example =
    run_history-IsExclusive
      ((machine, acquiring "wowsp" "vite")
        ∷ (busy_machine, listing)
        ∷ (machine, releasing "arona" none)
        ∷ [])
      on_disk (omega arith, (omega arith, (omega arith, tt))) on_disk-IsExclusive

release-Holds_example :
    Holds (key_of "arona" "vite") arona (load (release machine "arona" (some "cdp") on_disk).1) ↔ (
      Holds (key_of "arona" "vite") arona (load on_disk)
      × (machine.alive 8 ≡ true)
      × (not
            (str_eq "arona" "arona" && elim (some "cdp") [ none ↦ true | some k ↦ str_eq "vite" k ])
          ≡ true))
release-Holds_example =
    release-Holds machine "arona" "arona" "vite" (some "cdp") arona on_disk refl refl

acquires_nothing : acquire busy_machine "wowsp" "vite" on_disk ≡ (no_free_port, on_disk)
unfolding acquire load lookup insert
acquires_nothing = refl

acquire-no_free_port_example :
    (on_disk ≡ on_disk)
    × ((taken 5190 (live busy_machine on_disk) || busy_machine.listening 5190) ≡ true)
acquire-no_free_port_example =
    acquire-no_free_port busy_machine "wowsp" "vite" on_disk on_disk 5173 5190 refl acquires_nothing
      (omega arith) (omega arith)
