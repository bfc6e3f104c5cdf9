-- ===== src/Lib.antt =====
-- cswap: a model of the core of cswap, the command-line tool that keeps several Claude Code logins
-- in numbered slots and switches between them.
--
-- The program and its parts. cswap owns a backup directory with a roster (sequence.json), one
-- stored credential and one stored config per slot, and a stash of unclaimed credentials. Claude
-- Code owns the live login: .credentials.json and ~/.claude.json. A switch backs up the live login
-- into its slot and writes another slot's login over it. internal/switching decides and drives the
-- switch, internal/autoswitch does so by itself from the accounts' usage, which internal/usage polls
-- and keeps, internal/store and internal/credstore read and write cswap's own files, internal/ccfile
-- those of Claude Code.
--
-- Which file models which part:
--   Base, Base/*: the names, Boolean tests and list functions that all modules share.
--   Runtime: Go's standard library as the code uses it (JSON, hashes, strings), a parameter.
--   Roster: SequenceData and its lookups and reads (internal/store/sequence.go, identity.go).
--   Files: the world of a switch and the calls that read and write it (internal/store/credproxy.go,
--     internal/credstore/unclaimed.go, internal/switching/configio.go, internal/ccfile/ccfile.go).
--     Files/Active: ReadActive and WriteActive (internal/credstore/active.go, classify.go).
--     Files/Frame, Files/Store, Files/Active/Effects: what each call leaves of the world.
--     Files/Hoare: postconditions of calls, one rule for each way to put calls together.
--   Switching/Provenance: Provenance, CredentialFingerprint, prefetchLiveIdentity
--     (internal/switching/provenance.go, internal/oauth/fingerprint.go, credentials.go).
--   Switching/Classify: classifyOutgoing, the ownership oracle (internal/switching/classify.go).
--   Switching/Transaction: switchTransaction and its rollback (internal/switching/transaction.go).
--   Switching/Normal: the normal path of performSwitch and normalSwitchBody; Switching/Direct:
--     directActivate; Switching/Perform: the choice between them (internal/switching/perform.go).
--   Switching/Strategies: selectBestSwitchable (internal/switching/strategies.go) and the
--     eligibility rule of internal/store/identity.go; a slot's measured headroom is an argument.
--   Numbers: float64 and the clock's formats, a parameter; Numbers/Order: least and greatest.
--   Usage: the usage windows and what is read off them (internal/oauth/windows.go, and
--     limitingResetTS of internal/autoswitch/reset.go). Usage/PollPolicy: the polling cadence
--     (internal/usage/pollpolicy.go). Usage/Entry: the read model and the choice of the account to
--     poll (internal/usage/entry.go). Usage/Store, Usage/Store/Record: the usage table and every
--     operation of it (internal/usage/store.go).
--   Autoswitch: the engine that switches by itself (internal/autoswitch). Its parts: Decide (a
--     tick's trigger, and the memory between ticks), Select (the targets and their order), Freshen
--     (a target's token), Engine (the state file and the quarantine), Collect (the usage that a tick
--     polls), Perform (the switch and the loop over the targets), Tick (tickInner as a whole),
--     Recovery (when an exhausted account is usable again), Delay (how long the loop sleeps). The
--     engine calls the rest of cswap through the Switcher interface, which is
--     a parameter here as it is there.
--   Lifecycle: the roster that moving and swapping slots commit (internal/lifecycle/moveswap.go).
--   SlotKey: the canonical order of slot keys (internal/slotkey).
--   Examples: a concrete runtime, two stored logins, and runs of the program on them.
--
-- How state and errors correspond. A method that changes files is a function from the world to a
-- result and the world it leaves. `World` has the live files, the roster file, the stored copies,
-- the stash, and the ledger of the transaction (completedSteps). Two lists stand for the faults of
-- the environment: `refusals` answers, call by call, whether a read or write is refused before it
-- changes anything, and `chmod_failures` whether the chmod that ends a write fails with the new
-- contents in place (the live credential, ~/.claude.json, the slots' copies and the stash's entries;
-- the roster and the stash's manifest get their mode before the rename). The theorems hold for
-- every such list, so for a fault at every call, except where they ask that no chmod fails. Error
-- messages are constructors of `Error`.
--
-- The usage table and the auto-switch engine have state of their own: a pass over the table takes
-- the luck of its lock and write as an argument, and a step of the engine is a function from its
-- machine (world, state file, events, memory) to a result and a machine, `none` for an error.
--
-- Bounds and fuel. In the roster and in a switch, slot keys are the numbers that their decimal
-- strings print; in the usage table and the engine they are the strings. No definition needs fuel:
-- every loop runs over a list of the roster, the ledger, the windows, the slots or the targets.
--
-- What is not modelled, and why. The macOS Keychain (the model is of the file mode that every
-- other platform uses); locks (a switch starts where it holds them); log lines, printed output
-- and the live-session warning (emitOutput is false); the network request that names a token's
-- owner (a parameter); the retained previous copies of backups and the invalidation of session
-- profiles after a backup; keys of an account's record that the switch does not read; a write
-- that is torn in the middle; the manifest of the stash, whose rows repeat its entries; the
-- replan of the new slot after a switch; of a usage map, the spend and the fields that are only
-- shown; the JSON of the usage table and of the engine's state file, whose rows are records here;
-- of an engine's tick, the check of the model names, the times and texts of the events, and the
-- wake-ups of its loop; counters that would overflow an int, and NaN and infinities; of slot
-- moves and swaps, the rewriting of the stored copies and of session profiles. Adding and
-- removing accounts, transfer, sessions and the user interface, which call these parts, are not
-- modelled.
pub mod Autoswitch
pub mod Base
pub mod Examples
pub mod Files
pub mod Lifecycle
pub mod Numbers
pub mod Roster
pub mod Runtime
pub mod SlotKey
pub mod Switching
pub mod Usage
