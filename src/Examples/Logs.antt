-- ===== src/Examples/Logs.antt =====
-- The log of the attempt under way, and the retention of the log of the one at its end.
use lzu_mirror_tools.Core.State.{
  run_is_terminal, is_terminal, attempt_state_eq, allows, project_attempt_event,
  validate_attempt_transition,
}
use lzu_mirror_tools.Prelude.{arith, refl, Memᴰ, none, some, true, false, [], ◌∷◌}
use lzu_mirror_tools.Prelude.Int.{
  int_laws, ◌≤ℤ◌, pos, ◌+ℤ◌, ◌-ℤ◌, checked_add, saturating_add, saturating_sub,
}
use lzu_mirror_tools.Prelude.Text.{codes, text_eq, text_lt}
use lzu_mirror_tools.Prelude.Tables.{
  All, Distinct, update_where, exists_where, where_rows, find_where, min_by, select_first, join,
}
use lzu_mirror_tools.Store.Rows.{
  is_active, is_pending, is_running, is_queued, is_manual, is_scheduled, failure_kind_str,
  is_request, is_attempt, occupies, has_request, violates_keys,
}
use lzu_mirror_tools.Store.Logs.{
  is_log, log_metadata, grow_log, update_log_metadata, may_expire, mark_log_expired, to_entry,
  order_logs, log_retention_entries,
}
use lzu_mirror_tools.Server.LogFile.{
  LogState, overlap_of, record_size, append_bytes, expired_size, append_log,
}
use lzu_mirror_tools.Server.LogFile.Content.{HasWritten, append_log-HasWritten}
use lzu_mirror_tools.Server.LogRetention.{
  RunLogPolicy, live, may_go, names, push, age_cutoff, is_older, expire_by_age, expire_by_size,
  expire_over_cap, candidates_of, plan_log_maintenance,
}
use lzu_mirror_tools.Server.LogRetention.Plan.{Expires, IsPlanned, plan_log_maintenance-Expires}
use lzu_mirror_tools.Server.LogRetention.Age.{plan_log_maintenance-age, plan_log_maintenance-young}
use lzu_mirror_tools.Server.LogRetention.Need.{Needed, plan_log_maintenance-Needed}
use lzu_mirror_tools.Store.Logs.Entries.{Expirable}
use lzu_mirror_tools.Store.Logs.Keys.{same_log}
use lzu_mirror_tools.Store.Rows.{LogRow}
use lzu_mirror_tools.Examples.{busy, log_of, ended_attempt, busy-IsValid}

abbrev started : LogState
started = record { file = some (1 ∷ 2 ∷ 3 ∷ []); db = busy }

-- A chunk that begins with a byte of the file.
abbrev extended : LogState
extended = (append_log (codes "r1") 1 (codes "log") 2 (3 ∷ 4 ∷ []) false (pos 2000) started).1

append_log-HasWritten_example : HasWritten 2 (3 ∷ 4 ∷ []) 4 started extended
unfolding overlap_of record_size append_bytes expired_size append_log is_log log_metadata grow_log
    update_log_metadata may_expire mark_log_expired to_entry order_logs log_retention_entries
    is_active is_pending is_running is_queued is_manual is_scheduled failure_kind_str is_request
    is_attempt occupies has_request violates_keys update_where exists_where where_rows find_where
    min_by select_first join text_eq text_lt
append_log-HasWritten_example =
    append_log-HasWritten (codes "r1") 1 (codes "log") 2 (3 ∷ 4 ∷ []) false (pos 2000) started
      extended 4 refl refl

-- No more than two bytes are to be kept, and nothing that is older than a second.
abbrev keep_two : RunLogPolicy
keep_two = record { retention_ms = some 1000; max_total_bytes = some 2 }

abbrev old_log : LogRow
old_log = log_of (codes "r0") true none

old_log-Expirable : Expirable old_log busy
unfolding is_terminal
old_log-Expirable = record {
  log = Memᴰ.head refl;
  attempt = ended_attempt;
  attempt_there = Memᴰ.head refl;
  of_run = refl;
  of_attempt = refl;
  complete = refl;
  kept = refl;
  ended = refl;
}

logs-Distinct : Distinct same_log busy.logs
unfolding exists_where text_eq
logs-Distinct = (refl, tt)

plan_log_maintenance-Expires_example :
    All (Expires busy) (plan_log_maintenance (pos 9000) (some keep_two) busy).candidates
plan_log_maintenance-Expires_example = plan_log_maintenance-Expires (pos 9000) keep_two busy

plan_log_maintenance-age_example :
    IsPlanned (plan_log_maintenance (pos 9000) (some keep_two) busy).candidates old_log
plan_log_maintenance-age_example =
    plan_log_maintenance-age (pos 9000) keep_two 1000 busy old_log refl (omega arith)
      old_log-Expirable (omega (int_laws, arith))

-- No cap on the sizes.
abbrev keep_a_second : RunLogPolicy
keep_a_second = record { retention_ms = some 1000; max_total_bytes = none }

plan_log_maintenance-young_example : pos 1400 +ℤ pos 1000 ≤ℤ pos 9000
unfolding is_log log_metadata grow_log update_log_metadata may_expire mark_log_expired to_entry
    order_logs log_retention_entries is_active is_pending is_running is_queued is_manual
    is_scheduled failure_kind_str is_request is_attempt occupies has_request violates_keys
    update_where exists_where where_rows find_where min_by select_first join text_eq text_lt ◌+ℤ◌
    ◌-ℤ◌ checked_add saturating_add saturating_sub run_is_terminal is_terminal attempt_state_eq
    allows project_attempt_event validate_attempt_transition live may_go names push age_cutoff
    is_older expire_by_age expire_by_size expire_over_cap candidates_of plan_log_maintenance
plan_log_maintenance-young_example =
    plan_log_maintenance-young (pos 9000) keep_a_second 1000 busy old_log refl refl (omega arith)
      (omega (int_laws, arith)) logs-Distinct (Memᴰ.head refl)
      (record {
        view = record { run_id = codes "r0"; attempt = 1; stored_bytes = 3 };
        there = Memᴰ.head refl;
        run = refl;
        number = refl;
      })

-- No retention.
abbrev cap_of_two : RunLogPolicy
cap_of_two = record { retention_ms = none; max_total_bytes = some 2 }

plan_log_maintenance-Needed_example :
    Needed 2
      (log_retention_entries busy)
      []
      (plan_log_maintenance (pos 9000) (some cap_of_two) busy).candidates
plan_log_maintenance-Needed_example =
    plan_log_maintenance-Needed (pos 9000) cap_of_two 2 busy logs-Distinct
      busy-IsValid.attempts_keyed refl refl
