-- ===== src/Core/State/Projection.antt =====
-- What `project_attempt_event` (crates/lmt-core/src/state.rs) accepts and projects.
use lzu_mirror_tools.Prelude.{◌≤◌, ◌≡◌, ◌≢◌, ◌⊎◌, ◌↔◌, true, some, none, ok, err, arith, unwrap_or}
use lzu_mirror_tools.Core.State.{
  AttemptState, RunState, AttemptEvent, AttemptProjection, is_terminal, run_is_terminal,
  project_attempt_event,
}
use lzu_mirror_tools.Core.State.Order.{rank, Advances}

pub project_attempt_event-Advances :
    (s : AttemptState) (e : AttemptEvent) {p : AttemptProjection}
    → project_attempt_event s e ≡ ok p
    → Advances s e.state
unfolding project_attempt_event
project_attempt_event-Advances s e h = ground arith

-- The reports that are refused: a step back or sideways, `running` from an attempt that was never
-- accepted, and `rejected` from one that was.
abbrev pub IsRefused : AttemptState → AttemptState → Type 0
IsRefused s t =
    ((rank t ≤ rank s) × (s ≢ t))
    ⊎ ((s ≡ AttemptState.queued) × (t ≡ AttemptState.running))
    ⊎ ((s ≢ AttemptState.queued) × (s ≢ AttemptState.rejected) × (t ≡ AttemptState.rejected))

-- A report is refused, with the two states named, exactly if it is one of `IsRefused`: a step back
-- or sideways in rank, `running` on a queued attempt, or `rejected` on one past `queued`.
pub project_attempt_event-err :
    (s : AttemptState) (e : AttemptEvent)
    → (project_attempt_event s e ≡ err (record { from = s; to = e.state })) ↔ IsRefused s e.state
unfolding project_attempt_event
project_attempt_event-err s e = (λ h. ground arith, λ h. ground arith)

-- Of an accepted report the projected run is terminal exactly when the report is, and then ends when
-- the report says; it is `running` exactly while the attempt is accepted or running, and a report of
-- `queued` projects no run state.
pub project_attempt_event-ok :
    (s : AttemptState) (e : AttemptEvent) {p : AttemptProjection}
    → project_attempt_event s e ≡ ok p
    → (run_is_terminal (unwrap_or p.run_state RunState.pending) ≡ is_terminal e.state)
      × (is_terminal e.state ≡ true → p.run_finished_at_ms ≡ e.finished_at_ms)
      × ((p.run_state ≡ some RunState.running)
          ↔ ((e.state ≡ AttemptState.accepted) ⊎ (e.state ≡ AttemptState.running)))
      × ((p.run_state ≡ none) ↔ (e.state ≡ AttemptState.queued))
unfolding project_attempt_event run_is_terminal
project_attempt_event-ok s e h = (
  ground arith,
  λ t. ground arith,
  (λ k. ground arith, λ k. ground arith),
  (λ k. ground arith, λ k. ground arith),
)
