-- ===== src/Store/Invariant.antt =====
-- What holds of the database of crates/lmt-store/src/lib.rs between two transactions, and how a
-- transaction may change a run or an attempt.
pub mod Statements
pub mod Inserts
use lzu_mirror_tools.Prelude.{
  ℕ, ◌≤◌, ◌≡◌, Bool, true, false, ◌&&◌, Option, none, some, ◌==◌, is_some, List, Memᴰ, ◌⊎◌,
}
use lzu_mirror_tools.Prelude.Text.{Text, text_eq}
use lzu_mirror_tools.Prelude.Tables.{All, Evolves, Distinct}
use lzu_mirror_tools.Core.State.{RunState, AttemptState, run_is_terminal}
use lzu_mirror_tools.Core.State.Order.{Advances}
use lzu_mirror_tools.Store.Rows.{RunRow, AttemptRow, Db, is_active, is_pending, is_request}

abbrev pub same_run : RunRow → RunRow → Bool
same_run x y = text_eq x.id y.id

abbrev pub both_occupy : RunRow → RunRow → Bool
both_occupy x y = is_active x.state && (text_eq x.mirror_name y.mirror_name && is_active y.state)

abbrev pub same_id : Option Text → Option Text → Bool
same_id none s = false
same_id (some q) s = is_request q s

abbrev pub same_request : RunRow → RunRow → Bool
same_request x y = same_id x.manual_request_id y.manual_request_id

abbrev pub same_attempt : AttemptRow → AttemptRow → Bool
same_attempt x y = text_eq x.run_id y.run_id && x.attempt_no == y.attempt_no

-- The attempt belongs to a run that has counted it.
abbrev pub Counted : List RunRow → AttemptRow → Type 0
Counted runs a = (r : RunRow) × Memᴰ r runs × (r.id ≡ a.run_id) × (a.attempt_no ≤ r.attempt_count)

-- The run has no attempt yet, or its latest is there.
abbrev pub Backed : List AttemptRow → RunRow → Type 0
Backed attempts r =
    (r.attempt_count ≡ 0)
    ⊎ ((a : AttemptRow) × Memᴰ a attempts × (a.run_id ≡ r.id) × (a.attempt_no ≡ r.attempt_count))

-- Runs and attempts have unique keys, a mirror has at most one active run, a request at most one
-- run, and runs count their attempts.
pub record IsValid (runs : List RunRow) (attempts : List AttemptRow) : Type 0 where
  pub runs_keyed : Distinct same_run runs
  pub mirrors_free : Distinct both_occupy runs
  pub requests_keyed : Distinct same_request runs
  pub attempts_keyed : Distinct same_attempt attempts
  pub attempts_counted : All (Counted runs) attempts
  pub counts_backed : All (Backed attempts) runs

-- How a transaction may change a run: what it was created with stays, a terminal run is frozen, no
-- run becomes pending again, a request to cancel is kept, and attempts are only added.
pub record RunStep (r r' : RunRow) : Type 0 where
  pub same_id : r'.id ≡ r.id
  pub same_mirror : r'.mirror_name ≡ r.mirror_name
  pub same_generation : r'.mirror_generation ≡ r.mirror_generation
  pub same_owner : r'.owner_node ≡ r.owner_node
  pub same_trigger : r'.trigger ≡ r.trigger
  pub same_created : r'.created_at_ms ≡ r.created_at_ms
  pub same_request : r'.manual_request_id ≡ r.manual_request_id
  pub frozen : run_is_terminal r.state ≡ true → r' ≡ r
  pub not_reset : is_pending r'.state ≡ true → is_pending r.state ≡ true
  pub cancel_kept :
      is_some r.cancel_requested_at_ms ≡ true → r'.cancel_requested_at_ms ≡ r.cancel_requested_at_ms
  pub counted : r.attempt_count ≤ r'.attempt_count

-- How a transaction may change an attempt: what was dispatched stays, the state moves forward only,
-- and so do the sequence of events and the count of deliveries.
pub record AttemptStep (a a' : AttemptRow) : Type 0 where
  pub same_run : a'.run_id ≡ a.run_id
  pub same_number : a'.attempt_no ≡ a.attempt_no
  pub same_spec : a'.spec ≡ a.spec
  pub same_hash : a'.spec_hash ≡ a.spec_hash
  pub advances : Advances a.state a'.state
  pub sequence : a.last_event_sequence ≤ a'.last_event_sequence
  pub deliveries : a.dispatch_count ≤ a'.dispatch_count

-- A transaction from a valid database: the result is valid, and its rows evolve.
pub record Sound (db db' : Db) : Type 0 where
  pub valid : IsValid db'.runs db'.attempts
  pub runs : Evolves RunStep db.runs db'.runs
  pub attempts : Evolves AttemptStep db.attempts db'.attempts
