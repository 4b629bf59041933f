-- ===== src/Lib.antt =====
-- The broker of gha-mcp-host, a server that runs commands on GitHub Actions runners for MCP
-- clients.
--
-- A client's tool call becomes a row of the queue in the Durable Object of one environment
-- (enqueue). The runner enrolls once, claims rows (claimNext), and posts output in chunks
-- (ingestChunk), which go to an in-memory ring and, merged, to the command's row. A client reads
-- windows of that output (window, readWindow), which are cut for display by safeCut; the tools
-- execute, start_command, poll_job and stop_job do so in loops with a deadline and make of the
-- last window the result of a job. A second Durable Object guards the creation of environments,
-- which env_create asks before it dispatches a workflow on GitHub and tells when that fails.
--
-- Files, below verification/, and the code that each models:
-- - Prelude: shared names, Boolean tests and lists over native numbers.
-- - Text: JavaScript strings as lists of code units.
-- - Stream: the abstract view of a command's output, the whole byte sequence out.raw.
-- - Config: broker/src/config.ts, the platforms.
-- - Ring: broker/src/ring.ts: appendChunk is append_chunk (place, then trim), sliceRing, tailOf.
-- - KillReason: broker/src/kill-reason.ts: pickKilledReason and the priorities.
-- - Bytes: broker/src/bytes.ts: safeCut as line_cut, character_cut, escape_cut and force, in that
--   order.
-- - Guard: broker/src/guard-do.ts: the breaker and the hourly cap on env_create.
-- - Argv: broker/src/argv.ts: renderArgv, describeArgv and checkArgv.
-- - EnvSchema: broker/src/env-schema.ts: the tables and meta keys as records.
-- - EnvWindow: broker/src/env-window.ts: readWindow.
-- - EnvDo: broker/src/env-do.ts: the object as a value, with one child for each part of the
--   class: Lifecycle (enroll, leases), Queue (enqueue, claimNext), Warnings (mergeWarnings),
--   Ingest (ingestChunk), Control (controlPoll and the actions), Reading (window, liveness),
--   Snapshot (buildSnapshot of broker/src/env-snapshot.ts), History (the methods as steps between
--   states).
-- - Result: broker/src/result.ts: the verdict of a tool result and makePollClock.
-- - Job: broker/src/tools-shared.ts: ids and platforms, statusOf, and jobResult, the result of a
--   job; the texts of warnings and hints are constructors.
-- - Run: broker/src/tools-run.ts and the class Deadline of broker/src/result.ts: Submit
--   (ensureReady, enqueueCommand), Foreground (execute and its alias, start_command), Pulling and
--   Poll (poll_job), Stop (stop_job), Capture (runCapture).
-- - Github: broker/src/github.ts: classify, dispatchWorkflow, cancelRun, listLiveRuns and
--   findRunForEnv on the responses that they get.
-- - EnvTools: broker/src/tools-env.ts: env_create with the guard and the new object, env_status,
--   env_destroy and env_extend.
-- - FileOp: lib/fileop.mjs of the runner: its text operations, with one child for each part: Host
--   (the machine as parameters, readWindow, sha256File, decodeStrict), Replies, Read (opRead),
--   Write (commit, opWrite), Edit (opEdit), Dispatch (handleFileOp, runFileJob); Memory is the
--   machine of the tests.
-- - Diff: broker/src/diff.ts: splitLines, lcsOps and unifiedDiff down to the list of operations
--   that the hunks show; the table is a list of rows and the tail is counted on reversed lists.
--
-- Each method is a function from the state to the new state and the answer. Every reading of the
-- clock, every random token and every rendered message is an argument, so that a theorem holds
-- for all of them; SQL tables are lists of rows, and the awaits inside a method are not modelled,
-- since a Durable Object runs one method's storage steps without another in between. Offsets and
-- times are natural numbers, as the code only makes them so; numbers that arrive from the runner
-- may be negative or not finite. The loops of the source are structural recursion. read_on in
-- Bytes/Resume, a client's loop over windows, is on fuel, and as much fuel as there are bytes is
-- enough for it. The polling loops of the tools are on fuel too, one round for each unit, and
-- more rounds than there are milliseconds to the deadline are enough, as no round ends before it
-- begins and a sleep lasts a millisecond at least. The reads of runCapture need a round more for
-- each character that is allowed, as a read without bytes waits and one with bytes adds a
-- character. The loops of the tools run in a world that gives, for each millisecond, the state of
-- the object, whether a call succeeds, when it is answered and when a sleep ends, so that a
-- theorem holds whatever other callers, the runner and the network do. The calls whose failure a
-- tool leaves to its caller are taken to be answered: snapshot and enqueue before a command is
-- queued, and killCommand in stop_job; where one fails, the tool throws and answers nothing.
--
-- The file operations of the runner work on a machine that is a parameter: its files, Node's
-- paths, the digest, the codecs and the vendored atomic write. What the theorems assume of it are
-- two records: ServedBy of FileOp/Files, that a file of some content serves a part of what stands
-- at a position, at least a byte where one is left, and Commits of FileOp/Write/Guarded, that a
-- write that returns has left the bytes. The reads of a window are at most the bytes that are
-- wanted, the searches of a text at most its code units and one; the digest is given a number of
-- reads, and one more than the bytes of the file is enough. A file keeps its content while an
-- operation reads it. In OPS only its own three keys are looked up. A field of a job that is none
-- is one that is missing: a null, which the source makes the text null where it stands for
-- old_str or new_str, is not modelled.
--
-- Not modelled: HTTP, JSON and base64; env_list, the broker's side of the file tools, the schemas
-- and the MCP endpoint (broker/src/tools-fs.ts, schemas.ts, mcp.ts, index.ts); the requests to
-- GitHub; withCap of result.ts and the text of a diff's hunks; the redaction of output in
-- bytes.ts; the creation of the SQL tables; the runner's agent (lib/ but for fileop.mjs) and the
-- self-hosted server (broker/selfhost/).
pub mod Prelude
pub mod Text
pub mod Config
pub mod Stream
pub mod Ring
pub mod KillReason
pub mod Bytes
pub mod Guard
pub mod Argv
pub mod EnvSchema
pub mod EnvWindow
pub mod EnvDo
pub mod Diff
pub mod Result
pub mod Job
pub mod Run
pub mod Github
pub mod EnvTools
pub mod FileOp
