-- ===== src/Lib.antt =====
-- celestia-devtools: a development about the core logic of the developer toolkit.
--
-- The program is a Python package of command-line tools. The parts modelled here are the ones that
-- decide something for the others.
--
-- * The scheduler, src/celestia_devtools/core/scheduler.py, in Scheduler.antt. A graph of steps is a
--   list of `Step`, and the dictionary `by_name` is the list of its values. `validate_steps` is the
--   function of that name; its search for a cycle, `_find_cycle`, is Scheduler/Cycle.antt, with the
--   nested `dfs` given fuel: one unit for each step is enough, since a nested call turns a white
--   step gray. `run_dag` is `Scheduler.run_dag`; the variables of its loop are the record `Run`, one
--   pass over the sorted names is `dispatch`, the loop over the futures that are done is `settle`,
--   and the branch without futures is `sweep`. The loop has a fuel of one more than the number of
--   steps, which is enough because each round takes a step out of `remaining` or `futures`. The
--   thread pool is the parameter `Pool`: it says which of the futures in flight are done when a
--   wait returns, and `IsWait` is its contract, that a wait for at least one future finds one done.
--   The set order in which done futures are popped is the order of submission.
-- * The gate, src/celestia_devtools/build/gate_graph.py and the end of `main` in gate_cli.py, in
--   Gate.antt: mode detection, the graphs of the three modes, the runner and the exit code, on top of
--   the scheduler. The record `Repo` is what the code reads of a checkout; the patterns of
--   `classify_credential_line` and `lint_subject` are fields of it. Gate/Checks.antt has the checks
--   that run in the process.
-- * The ports registry, src/celestia_devtools/env/ports.py, in Ports.antt: the sanitizing `_load`,
--   `_gc`, `_save`, `acquire`, `claim`, `release` and `list_entries` as functions of the registry
--   file. The record `Machine` is what a command sees outside the file (processes, sockets, the
--   clock, the digest of an app's name, whether the file can be written). A command runs under the
--   registry lock, so it is one step; Ports/History.antt runs them in sequence. The lock itself is
--   below. A JSON object is an association list, and `int()` of a field is an `Option`.
-- * The registry lock, `registry_lock` of the same file, in Lock.antt: a step relation whose steps are
--   the calls of the operating system, so that a sequence of steps is any interleaving of processes
--   that may be killed. That a file gets older is no step; a state may start with an old one. A wait
--   that times out is a process that takes no further step.
-- * The termination of a launched app, src/celestia_devtools/env/app_drive_proc.py, in AppDrive.antt:
--   the identity check, the wait for an exit, the signals and `terminate_verified`. The functions
--   return their answer and the log of their events, newest first; the outside world is the record
--   `World` of functions of that log, so that it may change between any two events. The loop of
--   `wait_pid_exit` has one round of fuel for each millisecond of the grace, which is enough when a
--   round takes at least one, as its sleep of 50 does. Answers of `_taskkill` are not read there.
-- * The environment of a launched app, `build_launch_env` of the same file, in AppLaunch.antt, over the
--   code points of the variables; the error "bad-env" is `none`.
-- * The websocket to the app, src/celestia_devtools/env/cdp.py, in Cdp.antt: `_read_exact`,
--   `read_server_frame`, `send_frame` and `recv_text` over the bytes that the reader has still to
--   give and what it meets behind them, an end, a time-out or an error. So a stream ends: a peer
--   that pings for ever keeps the real `recv_text` in its loop, and is not modelled. `recv_text` has
--   one round of fuel more than there are bytes, which is enough because each frame takes two
--   (Cdp/Ends.antt). Cdp/Utf8.antt decodes the message.
-- * The choice of a page and the requests of `cdp_client`, in the same file, in CdpClient.antt, over
--   the messages that `recv_text` gives, as JSON; the parts of an event are JSON texts.
-- * The deployment, src/celestia_devtools/deploy/lifecycle.py, in Lifecycle.antt: `upgrade` and
--   `rollback` as functions of the binaries and the ledger; a binary is its content as a text. What
--   they fetch, back up, migrate and restart, and whether a file operation returns, is the record
--   `World`, with exceptions as `none` or false. Writing the ledger is taken to return.
-- * The guard of the build cache, src/celestia_devtools/build/cache_guard.py, in CacheGuard.antt, with
--   sizes in bytes and times in seconds; the infinite size is `none`. Whether the target is still
--   there after `cargo clean` is a field of `Target`.
-- * The release notes, src/celestia_devtools/publish/release_notes.py: ReleaseTags.antt has the versions
--   of tags, `resolve_previous_tag`, `find_release` and `walk_head`, ReleaseSubjects.antt the parts of
--   a subject and its section (with the emoji of vcs/commit_msg.py, in Gitmoji.antt), ReleaseNotes.antt
--   `collect_entries`, and ReleaseBody.antt the body, `upsert_release` and the end of `main`. The
--   GitHub interface is the record `Api` and the listing of the commits of a head; Paging.antt has its
--   replies and its pages. The regular expressions are functions over code points, with the ASCII
--   digits and white space. A request that changes a release is a value.
-- * The sweep of merged branches, src/celestia_devtools/vcs/branch_sweep.py: BranchList.antt reads the
--   output of `git for-each-ref`, BranchSweep.antt has `sweep_repo` and the exit code. The record `Git`
--   is what git answers, which may depend on what is deleted already; the backup directory is a list
--   of file names with the contents that the sweep writes; a write that fails is not modelled.
-- * The sort of Cargo.toml, src/celestia_devtools/repo/toml_sort.py: TomlEntries.antt parses the lines
--   of a section, TomlSort.antt sorts and writes them. The loops over line numbers are recursions on
--   the lines; the loop over a file has a round of fuel for each line, and more change nothing.
--
-- Prelude.antt has the shared names, tests on numbers, lists and texts; Dict.antt and TextDict.antt
-- are Python's `dict` with text keys. Numbers are the native ones. The modules called Samples hold
-- concrete inputs.
--
-- Not modelled: the parts that only start tools, print, or parse arguments; the linters and the
-- document tools; the rest of the deployment, publishing and the rest of the desktop-app driver.
pub mod Prelude
pub mod Dict
pub mod Scheduler
pub mod Gate
pub mod Ports
pub mod AppDrive
pub mod Cdp
pub mod CdpClient
pub mod Lifecycle
pub mod Lock
pub mod CacheGuard
pub mod AppLaunch
pub mod BranchList
pub mod BranchSweep
pub mod Gitmoji
pub mod Paging
pub mod ReleaseBody
pub mod ReleaseNotes
pub mod ReleaseSubjects
pub mod ReleaseTags
pub mod TextDict
pub mod TomlEntries
pub mod TomlSort
