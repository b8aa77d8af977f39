-- ===== src/Server/Services.antt =====
-- apps/lmt-server/src/services.rs: the closures that the control plane hands to the store, and the
-- store's transactions run with them. The TOML parser and the `{:?}` of a text are parameters.
use lzu_mirror_tools.Prelude.{
  ℕ, ◌/◌, ◌&&◌, Option, none, some, Result, ok, err, ◌>>=◌, ◌++◌, if◌then◌else◌, >>=-eq-ok,
  ok-injective, ap, ◌∙◌,
}
use lzu_mirror_tools.Prelude.Int.{ℤ}
use lzu_mirror_tools.Prelude.Text.{Text, codes}
use lzu_mirror_tools.Core.Config.{MirrorDocument}
use lzu_mirror_tools.Core.State.{AttemptEvent}
use lzu_mirror_tools.Core.Schedule.{
  Calendar, ScheduleConfig, ScheduleError, ScheduleRuntime, RetryContext, decide_retry,
  rearm_interval, evaluate_schedule_due, seconds_to_ms, library, fractional_seconds,
  interval_out_of_range, interval_timestamp_overflow, unknown_timezone, timestamp_outside_range,
  wrong_field_count, extended_syntax, unsupported_token,
}
use lzu_mirror_tools.Core.Schedule.Retry.{decide_retry_lem}
use lzu_mirror_tools.Store.Rows.{StoreError, Db, Tx, invalid_config}
use lzu_mirror_tools.Store.Queries.{RunRecord, RunPolicySnapshot}
use lzu_mirror_tools.Store.ManualRun
use lzu_mirror_tools.Store.Cancellation
use lzu_mirror_tools.Store.Cancellation.{CancellationApplyResult}
use lzu_mirror_tools.Store.Events.{
  TerminalDecisionSource, TerminalDecision, AttemptEventApplyResult, apply_event,
}
use lzu_mirror_tools.Store.Events.Soundness.{Finishes}
use lzu_mirror_tools.Store.Ticks.{ScheduleTickSource, evaluate_due_schedules}

module _ (calendar : Calendar) (parse_document : Text → Result Text MirrorDocument)
    (debug : Text → Text) where
  -- The message of a schedule error.
  message : ScheduleError → Text
  message (library text) = text
  message fractional_seconds = codes "interval must use whole seconds"
  message interval_out_of_range = codes "interval must be between 1m and 365d"
  message interval_timestamp_overflow = codes "interval timestamp overflow"
  message (unknown_timezone zone) = codes "unknown IANA timezone " ++ debug zone
  message timestamp_outside_range = codes "timestamp outside supported range"
  message wrong_field_count = codes "cron must contain exactly five fields"
  message extended_syntax = codes "extended cron syntax is not supported"
  message (unsupported_token word) = codes "unsupported cron token " ++ debug word

  -- `map_err(StoreError::InvalidConfig)`.
  as_config_error {ℓ} : {A : Type ℓ} → Result ScheduleError A → Result StoreError A
  unfolding message
  as_config_error (ok a) = ok a
  as_config_error (err e) = err (invalid_config (message e))

  document_of : Text → Result StoreError MirrorDocument
  document_of config_toml = elim (parse_document config_toml) [
    | ok d ↦ ok d
    | err e ↦ err (invalid_config e)
  ]

  -- `schedule.map(rearm_interval).transpose().flatten()`.
  rearm_document : ℤ → Option ScheduleConfig → Result StoreError (Option ℤ)
  unfolding as_config_error
  rearm_document now none = ok none
  rearm_document now (some schedule) = as_config_error (rearm_interval calendar schedule now)

  unfoldable pub rearm_config : ℤ → Text → Result StoreError (Option ℤ)
  unfolding document_of rearm_document
  rearm_config now config_toml = do
    document ← document_of config_toml
    rearm_document now document.schedule

  -- The closure of `apply_attempt_event`.
  unfoldable pub retry_context : TerminalDecisionSource → ℤ → RetryContext
  retry_context source server_now_ms = record {
    outcome = source.outcome;
    attempt_no = source.attempt_no;
    max_attempts = source.max_attempts;
    retry_delay_seconds = source.retry_delay_ms / 1000;
    cancel_requested = source.cancel_requested;
    mirror_eligible = source.mirror_eligible;
    owner_unchanged = source.owner_unchanged;
    server_now_ms = server_now_ms;
  }

  unfoldable pub decide_terminal : TerminalDecisionSource → ℤ → Result StoreError TerminalDecision
  unfolding rearm_config retry_context
  decide_terminal source server_now_ms = do
    next_due ←
        (if source.mirror_eligible && source.owner_unchanged
          then rearm_config server_now_ms source.current_config_toml
          else ok none)
    ok (record {
      retry = decide_retry (retry_context source server_now_ms);
      interval_next_due_at_ms = next_due;
    })

  unfoldable pub compile_policy : Text → Result StoreError RunPolicySnapshot
  unfolding document_of
  compile_policy config_toml = do
    document ← document_of config_toml
    ok (record {
      max_attempts = document.run.max_attempts;
      retry_delay_ms = seconds_to_ms document.run.retry_delay_seconds;
    })

  -- The closure of `evaluate_schedules`, without its counters.
  evaluate_document :
      ScheduleTickSource → ℤ → Option ScheduleConfig → Result StoreError ScheduleRuntime
  unfolding as_config_error
  evaluate_document source now none =
      err (invalid_config (codes "scheduled mirror has no schedule"))
  evaluate_document source now (some schedule) = do
    evaluation ←
        as_config_error
          (evaluate_schedule_due calendar schedule source.runtime now source.has_active_run)
    ok evaluation.runtime

  unfoldable pub evaluate_tick : ℤ → ScheduleTickSource → Result StoreError ScheduleRuntime
  unfolding document_of evaluate_document
  evaluate_tick now source = do
    document ← document_of source.config_toml
    evaluate_document source now document.schedule

  unfoldable pub apply_attempt_event : Text → ℕ → AttemptEvent → ℤ → Db → Tx AttemptEventApplyResult
  apply_attempt_event run_id attempt_no event now db =
      apply_event decide_terminal run_id attempt_no event now db

  unfoldable pub create_manual_run : Text → Text → Text → ℤ → Db → Tx RunRecord
  create_manual_run run_id mirror request_id now db =
      ManualRun.create_manual_run compile_policy run_id mirror request_id now db

  unfoldable pub request_cancellation : Text → ℤ → Db → Tx CancellationApplyResult
  request_cancellation run_id now db =
      Cancellation.request_cancellation (rearm_config now) run_id now db

  unfoldable pub evaluate_schedules : ℤ → Db → Tx ℕ
  evaluate_schedules now db = evaluate_due_schedules (evaluate_tick now) now db

  -- The decision of the control plane finishes runs by terminal states only.
  pub decide_terminal-Finishes : Finishes decide_terminal
  unfolding decide_terminal
  decide_terminal-Finishes source now d state decided final =
      let (due, _, same) =
        >>=-eq-ok
          (if source.mirror_eligible && source.owner_unchanged
            then rearm_config now source.current_config_toml
            else ok none)
          _ decided in
      ((decide_retry_lem (retry_context source now) now state).1
        (ap (λ (x : TerminalDecision). x.retry) (ok-injective same) ∙ final)).0
