-- ===== src/Lib.antt =====
-- qi: a verification library for the core of qi (Go, module qi): the daemon with its approval
-- queue, the planner that talks to a language model, the merge of task files, the intake of tasks,
-- the draining of the remote queue, recurring tasks, the planning of a day and the failover of
-- language-model providers.
--
-- qi is a task and note tool over a vault of Markdown files. Its daemon, qid, offers the tools of
-- a catalog by JSON-RPC; calls by other callers than the command line that change something wait
-- in a queue until the user approves them, and every step of the queue stands in an audit log
-- from which the queue is rebuilt after a restart. The planner runs a conversation with a language
-- model, calls the tools through qid, and saves the conversation when a call waits for an approval,
-- to resume it later. Apart from that path, the library models the pass that drains the remote
-- queue into the vault, and five pure cores of the program:
--
-- Base: texts as lists of bytes, maps as association lists, results, UTF-8 as in unicode/utf8.
-- Tools: internal/tools/tool.go; Tools/Registry: internal/tools/registry.go (Batch: the loops of
--   RegisterDynamic); Tools/Execute: internal/tools/runtime.go, and NamespacedName of internal/mcp. A handler is a function on the
--   state of the world outside the process, a type `W` of which nothing is assumed.
-- Policy: internal/policy/policy.go.
-- Approval: the records and limits of internal/approval; Approval/Queue: queue.go (Outcome:
--   RecordResult, Listing: List, Calls: sequences of calls); Approval/Restore: restore.go;
--   Approval/Audit: Append of audit.go, with the file as its bytes; Approval/Audit/Reading:
--   ReadAuditLog, repairAuditTail and OpenAudit, byte by byte (Lines, Tail, Window, Reopened, Opened,
--   History: what they do; Appended, Sessions: with the Appends between; Torn, Glued: with a
--   write that was cut short). The record `EncodingLaws` says what is used of encoding/json.
-- Daemon: internal/daemon/wire.go and server.go (Methods: the JSON-RPC methods, Serve: the method
--   table and the handling of a line).
-- Domain: the task of internal/domain/task.go.
-- Sync: internal/sync/engine.go (Decide: the merge; Kept, Edits, Settled: its theorems) and
--   internal/sync/render.go (Render; Lines: its theorem). What the merge needs of the vault is
--   vault.FormatTaskLine, a parameter, since it only compares lines.
-- Intake: internal/service/validate.go, internal/domain/tag.go and projectFileName of
--   internal/service/task_service.go (Accepted: the theorems).
-- Planning: internal/service/plan_service.go, PlanBlocks (Slots: the search; Blocks: the
--   theorem).
-- Failover: internal/ai/fallback.go and errors.go (Walk: the theorem on Generate);
--   Failover/State: internal/ai/provider_state.go and ParseProvider of providers.go (Resume: the
--   round trip).
-- Planner: internal/ai/types.go, planner.go and planner_loop.go (Names: the names of the tools;
--   Loop: the calls of a turn; Run: the turns; Run/Parts, Waiting, Gate, Saved: the session that is
--   saved); Planner/Resume: planner_resume.go (Binding, Paired: its theorem); Planner/Session:
--   validateStoredSession of session.go (Fresh, Passing: when it passes); Planner/Ident:
--   session_id.go; Planner/Store: session_store.go (Saved: its theorems).
-- Drain: internal/service/drain_service.go (Accounted, Totals, Stopped: its theorems).
-- Recurrence: internal/vault/recurrence.go (Written: the rules as they are written; Spacing: its
--   theorem).
-- Tests: the theorems on concrete inputs.
--
-- The queue is generic in its log: Queue takes a record `Host` with the log's append and the hash
-- of the parameters, and Restore/Recovery states in `LogLaws` what a restart relies on;
-- Restore/Logged shows it of the log on bytes, for a disk that writes all of a line or nothing. What
-- encoding/json makes of raw JSON on its way into a file and back (it compacts or indents and escapes
-- it, and null stands for no value) is a function `raw` or `as_read` of the theorems. The server takes the queue's host, the JSON codec and the policy as parameters. The methods of the
-- catalog, the queue and the log hold a mutex, so each call is one step and an interleaving of
-- callers is a list of calls.
--
-- Instants are numbers. What the clock, crypto/rand and the operating system return is an argument
-- of the step. The identifiers that newID draws are a list: when all of them are taken the model
-- answers `still_drawing` where the code draws again. The search for a free slot runs on fuel, one
-- round more than there are occupied intervals: a round that does not end the search leaves an
-- interval behind for good, so no search needs more. The planner's turns run on `maxIterations`,
-- the bound of the source's own loop. sha256, encoding/json, the errors' texts and the numbers of
-- the JSON-RPC codes are not defined here: the first two are parameters, as are strings.TrimSpace
-- and strings.ToLower in Intake, Drain, Recurrence, Planning, Failover and Planner, errors are
-- constructors, and codes are constructors named after the constants.
--
-- Not modelled: sockets, goroutines and the files' modes, which are I/O, the clients of the language
-- models, and the parts that are not named above (the files of the vault, index, calendar, voice,
-- commands).
pub mod Base
pub mod Tools
pub mod Policy
pub mod Approval
pub mod Daemon
pub mod Domain
pub mod Drain
pub mod Recurrence
pub mod Sync
pub mod Intake
pub mod Planner
pub mod Planning
pub mod Failover
pub mod Tests
