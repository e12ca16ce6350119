-- ===== src/Lib.antt =====
-- Verification library of the deployment control plane: the Python programs that activate a release
-- on a host, probe a live runtime, compose the readiness verdict, and keep the evidence of the
-- database's backups and restores.
--
-- Parts, and the files that model them (paths are from the repository's root):
--   infrastructure/deployment/release_control.py, in ReleaseControl/: Documents (releases, evidence
--     documents, arguments), Host (the host's links, files, commands and history), Preflight, Plan
--     (what `main` demands before it acts), Services (links and services), Operation (activation,
--     rollback, recovery, evidence, exit codes), Evidence (the documents that it writes). The laws
--     stand in Links, Selection, Sequence, Ordered, Guards, Gate, Outcomes, Exits, Rollbacks,
--     Unrecorded, Cooperation and Undisturbed.
--   beam/scripts/platform_probe.py, in Probe/: Socket, Frames and Messages (the WebSocket),
--     Handshake, Phoenix (the channel), Recorder (the rows, counters and status), Token, Session
--     (the HTTPS client and the run's state), Steps and Live (`run_live_probe`, `emit_result` and
--     `main`). The laws stand in Reads, RoundTrip, Reassembly, Progress, Waiting, Credentials,
--     Switched, Untouched, UntouchedSteps, Proven, Exchanged, Shown, Observes and
--     Demonstrated.
--   operations/bin/compose_readiness_v1.py and readiness_v1_common.py, in Readiness/: Catalog,
--     Common, Composition, Evidence, Support (checkpoints, compatibility, mutations), Summary
--     (assignments, host, recovery target), Verdict (`main`) and Start (`main` from its arguments).
--     The laws stand in Passed, Reached, Conclusion, Ready and Assignments.
--   database/tools/recovery_contract.py, in Recovery/: Values (exceptions, and Python's operations on
--     values that may raise), Store (`write_json_with_checksum` and what reads a checked document),
--     Backups (`select_backup`, `manifest_entries`), Metadata (`metadata_from_backup`), Creation
--     (the commands that make, write and validate metadata and documents), Checks and Restore
--     (`verify-restore`), Admission and Status (`create-recovery-status`, `main`). The laws stand in
--     Paths, Triples, Stages, Durable, Accepts, Digests, ReadBack and Progress (the files), Selection,
--     Matching, Selected and Rebuilt (backups), and Steps, Agreement, Restored, Consistent and Ready (restore and
--     status).
--   Prelude/ holds what they share: Boolean tests, lists, Python's text operations, integers,
--     sorting, results, JSON documents.
-- The programs meet in their documents: the probe's evidence is one that the verdict reads, and the
-- verdict's passing is one that the activation asks for.
--
-- How state and effects are modelled. A program that acts on the world is a function that takes its
-- state and returns a result with the new state; an exception is a result of its own. Commands,
-- clocks, file contents, schema validation, JSON parsing, UTF-8, the random masks and identities are
-- arguments. A network peer is the list of what the next reads or requests will meet; past its end
-- it is unreachable or the deadline is past. In Recovery/Store the files are a function from paths to
-- texts; each operation on them is one step that may be refused, the states before it are kept, and
-- a refused write leaves any text in its file.
--
-- Fuel and bounds. `recv_loop` takes fuel, one unit a frame; Probe/Progress says how much is enough.
-- `poll` counts the polls that the deadline leaves. All other loops are recursion on lists. Python's
-- integers are the integers of Prelude/Int, and a float is a dyadic fraction.
--
-- Not modelled: argument parsing, `normalize_base_url`, `git_sha`, the request text and the key of
-- the handshake, transport errors of a connection that are no `ProbeFailure`, and the parts of the
-- repository in other languages. In Readiness/ a document whose rows are no dictionaries with text names ends
-- the model's run as malformed, whatever the Python code does there. In Recovery/ what the commands
-- print, texts that are not UTF-8, the normal form of paths and changes that other processes make
-- between two reads are left out, and seconds are rounded up from exact microseconds.
-- A clock shows one instant until the next effect: two readings with no effect between them are equal.
pub mod Prelude
pub mod ReleaseControl
pub mod Probe
pub mod Readiness
pub mod Recovery
