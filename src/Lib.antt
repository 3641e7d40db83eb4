-- ===== src/Lib.antt =====
-- dssp-bot submits one training session for many trainees to a portal that cannot undo a submission.
-- The Rust crate under rust/ is the part that decides: it drives a Python worker over a line protocol,
-- keeps a checkpoint file that says what may have reached the portal, and refuses to start over a file
-- whose answer a human still owes. This library models that crate's core and proves the rules that it
-- is built around.
--
-- The parts, each file with the code it is about:
--   Protocol, Protocol/Request      rust/src/protocol.rs: the messages, the request constructors
--   State                           rust/src/state.rs: AutomationState, the table, StateMachine
--   Queue                           rust/src/queue.rs: TaskQueue
--   Report                          rust/src/report.rs: Outcome, TrainingResult, BatchReport::build
--   Decision                        rust/src/decision.rs: decide_submit, settle_submit, RetryPolicy
--   Checkpoint                      rust/src/checkpoint.rs: BatchCheckpoint and its groups, blocks_start
--   Engine/Effects                  the engine's effects: the trace of events and the outside
--   Engine/Roster                   rust/src/engine.rs: queue_key, key_namespace, dedupe
--   Engine/Control                  save_checkpoint, control_boundary, stop_checkpoint
--   Engine/Attempt                  process_trainee
--   Engine/Loop, Engine/Run         run: the loop, drain_skipped; the handshake and the closing
--   Engine/Logic, Engine/Safety     what every trace of a run satisfies
--   Engine/Termination              how a run may end
--   Worker                          rust/src/worker.rs: WorkerClient from the handshake on
--   Worker/Settings                 Timeouts::environment, parse_timeout
--   Worker/Shutdown                 shutdown: the wait, the kill, the reaping
--   Store                           rust/src/store.rs: save, load_with_provenance, the paths, the disk
--   Store/Start, Store/Killed       starts and runs over that disk, with kills and failing calls
--   Store/Closed                    a batch that is closed out over that disk, whose saves may fail
--   Command/Batch/Killed            a killed batch, and the next batch over its checkpoint file
--   Daemon                          rust/src/daemon.rs: State, acquire, Sink::write, the leases' drops
--   Daemon/Control                  apply_control, control_captured
--   Daemon/System                   the threads' steps in any order, and what always holds
--   Daemon/System/Batch             a run of the engine whose flags those threads set
--   Daemon/TokenFile                token_file over the file system's answers
--   Daemon/Settings                 Config::environment, valid_origin
--   Daemon/Options                  form_options
--   Daemon/Token, Daemon/Bytes      equal_token; the standard library's tests on bytes
--   Daemon/Http                     read_request and read_piece
--   Daemon/Route                    route up to the endpoint
--   Daemon/Spawn                    start as a whole, up to the thread of a batch
--   Daemon/Connection               connection and the whole of route; the reply's head
--   Daemon/Start, Daemon/Permits    start's admission and what it asks the worker; ConnectionPermit
--   Command/Names, Command/Asked    whom an entry names, independently of the lookup
--   Command                         rust/src/main.rs: plan, resolve_against, the exit codes
--   Command/Single, Command/Batch   run_single; run_batch and resolve_trainees
--   Recovery, Recovery/Refusal      rust/src/recovery.rs: guard, and what the operator reads
--   Prelude                         shared helpers; the modules below a part hold its theorems
--   Tests                           concrete runs, and each theorem with hypotheses at one input
--
-- The engine calls Decision on each reply, State on each step, Queue for its roster, and writes a
-- Checkpoint through its sink; Recovery reads that checkpoint at the next start and hands the engine a
-- roster and the rows to carry. A run is an action on the engine's fields and a trace of events. The
-- worker, the sink, the clock, fresh identifiers and the flags that the daemon's threads set are the
-- fields of an environment, which answers each exchange by any function of the trace so far; nothing is
-- assumed of them but what a theorem names. Every read of a flag is an event of its own, so an operator
-- may stop or pause between any two of them; the mutex, which only removes interleavings, is not
-- modelled.
--
-- Fuel. run_single is given max_attempts rounds, process_trainee one round more than max_attempts,
-- run two rounds of its loop more than there are trainees; every round but one that reads a stop
-- right behind a boundary takes a trainee off the queue. The wait of a pause is given a number of
-- wakeups as a parameter, and a run that is still waiting behind them ends as blocked. The wait of
-- shutdown is given two rounds more than its timeout has tens of milliseconds.
--
-- Texts are strings, counts are natural numbers, Rust's Debug of an Option<String> is a parameter, and
-- durations are milliseconds with u64's saturation. The success rate is the pair of counts that the
-- source divides as f64.
--
-- The disk of Store has the two names that a save uses, with what was synced of each; a power loss may
-- bring back an entry that was replaced since the directory was synced, and anything under a name whose
-- file was not. In Daemon/Http a stream is the list of what its reads meet; read_head has a round for
-- each byte of HEADER_LIMIT and read_body one for each byte of the body, and each round reads one at
-- least. In Daemon/System the holders of `Busy` are a list, and any holder or any command may step next.
--
-- Not modelled: serde, the child process and the threads of rust/src/worker.rs, the printing of
-- rust/src/main.rs; of rust/src/daemon.rs camel, which is part of the text that Daemon/Connection is given
-- for a body, and the listening loop; lines that are only printed to stderr; the Python worker and the
-- browser extension.
pub mod Prelude
pub mod Protocol
pub mod State
pub mod Queue
pub mod Report
pub mod Decision
pub mod Checkpoint
pub mod Worker
pub mod Engine
pub mod Recovery
pub mod Store
pub mod Command
pub mod Daemon
mod Tests
