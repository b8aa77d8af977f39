-- ===== src/Lib.antt =====
-- The control plane of lzu-mirror-tools: mirrors are synchronised by runs, a run is a sequence of
-- attempts, and Agents on the nodes execute the attempts that the Server hands to them.
--
-- The Server keeps its state in SQLite. Every operation of crates/lmt-store/src/lib.rs is one
-- transaction on it; apps/lmt-server/src/services.rs passes closures to these operations that
-- evaluate schedules and decide retries by crates/lmt-core. Agents poll for work, report events and
-- upload logs.
--
--   Prelude    numbers, texts as UTF-8 bytes, results, and tables as lists of rows: what SELECT,
--              JOIN, EXISTS, UPDATE and ORDER BY ... LIMIT 1 compute.
--   Core       crates/lmt-core/src/state.rs (State), crates/lmt-core/src/schedule.rs (Schedule),
--              crates/lmt-core/src/ids.rs (Ids) and crates/lmt-core/src/config.rs (Config).
--   Store      crates/lmt-store/src/lib.rs on the tables of crates/lmt-store/migrations: rows and
--              keys (Rows), shared queries (Queries), and one module per transaction:
--              create_manual_run (ManualRun), poll_action (Poll), request_cancellation
--              (Cancellation), apply_event (Events), evaluate_due_schedules (Ticks),
--              normalize_restored_database (Restore), observe_node and replace_agent_binding
--              (Nodes), plan and apply of a configuration (Revisions), the
--              credentials of the Agents (Credentials), the log metadata (Logs), and the texts of
--              states (Codecs).
--              Invariant says what is true of the rows between transactions, and how a transaction
--              may change a run or an attempt.
--   Server     apps/lmt-server/src/services.rs (Services) and, from apps/lmt-server/src/lib.rs,
--              append_log (LogFile) and plan_log_maintenance (LogRetention). Lifecycle is the state
--              machine of these transactions on runs, nodes, logs and the configuration, in any
--              order.
--   Agent      apps/lmt-agent/src/spool.rs (Spool), and from apps/lmt-agent/src/publication.rs commit,
--              recover and recover_before_control_plane (Publication): the paths, the record in memory
--              and on disk, and the system's operations (World), restore_then_terminal (Restoration),
--              and the rest (Commit).
--   Examples   concrete data, and every theorem with hypotheses applied to it.
--
-- A function of the source has its name here. A transaction is a function from the database to a
-- result with the new database; an error stands for a rollback. SQLite runs transactions one after
-- the other, so an interleaving of requests is a sequence of steps. Identifiers that the source draws
-- and times that it reads are arguments. The TOML parser, humantime, croner, chrono and the compiler
-- of specifications are parameters. Recursion is on lists, but for the loop of validate_placeholders,
-- which has the length of its text as fuel: every turn takes two bytes or more.
--
-- Numbers are the native naturals and integers over them; `i64` arithmetic is clamped or checked as
-- in the source, and counters that only grow by one are not bounded. Rows that a query with ORDER BY
-- leaves equal are taken in the order of the table.
--
-- A publication is a sequence of operations of the system, each of which takes the next of a list of
-- outcomes: it succeeds, fails without effect, or fails after its effect. Where the list ends all
-- that follows fails, as when the process stops; a restart reads the record from the disk. The list
-- is arbitrary, so that it has every failure and every stop. No other program changes the paths, and
-- what is renamed is not lost with a stop; a loss of power is not modelled.
--
-- Not modelled: the HTTP handlers and workers of the Server, backups, migrations, the loop of the
-- Agent, its processes and the actions of its operator, the command line client and the message
-- types; failures of the file system of the Server.
pub mod Prelude
pub mod Core
pub mod Store
pub mod Server
pub mod Agent
pub mod Examples
