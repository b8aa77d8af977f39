-- ===== src/Store/Codecs.antt =====
-- The texts that crates/lmt-store/src/lib.rs stores for states and triggers, and how it reads them:
-- `attempt_state_str`, `run_state_str` and their parsers. A parser that fails gives none.
pub mod RoundTrip
use lzu_mirror_tools.Prelude.{Option, none, some, List, [], ◌∷◌, if◌then◌else◌}
use lzu_mirror_tools.Prelude.Text.{Text, codes, text_eq}
use lzu_mirror_tools.Core.State.{AttemptState, RunState}

-- A `match` of a text against literals.
unfoldable pub match_text {ℓ} : {A : Type ℓ} → Text → List (Text × A) → Option A
match_text value [] = none
match_text value (arm ∷ arms) =
    let rest = match_text value arms in if text_eq value arm.0 then some arm.1 else rest

unfoldable pub attempt_state_str : AttemptState → Text
attempt_state_str AttemptState.queued = codes "queued"
attempt_state_str AttemptState.accepted = codes "accepted"
attempt_state_str AttemptState.running = codes "running"
attempt_state_str AttemptState.succeeded = codes "succeeded"
attempt_state_str AttemptState.failed = codes "failed"
attempt_state_str AttemptState.timed_out = codes "timed_out"
attempt_state_str AttemptState.cancelled = codes "cancelled"
attempt_state_str AttemptState.interrupted = codes "interrupted"
attempt_state_str AttemptState.rejected = codes "rejected"

abbrev pub attempt_state_arms : List (Text × AttemptState)
attempt_state_arms =
    (codes "queued", AttemptState.queued)
    ∷ (codes "accepted", AttemptState.accepted)
    ∷ (codes "running", AttemptState.running)
    ∷ (codes "succeeded", AttemptState.succeeded)
    ∷ (codes "failed", AttemptState.failed)
    ∷ (codes "timed_out", AttemptState.timed_out)
    ∷ (codes "cancelled", AttemptState.cancelled)
    ∷ (codes "interrupted", AttemptState.interrupted)
    ∷ (codes "rejected", AttemptState.rejected)
    ∷ []

unfoldable pub parse_attempt_state : Text → Option AttemptState
unfolding match_text
parse_attempt_state value = match_text value attempt_state_arms

unfoldable pub run_state_str : RunState → Text
run_state_str RunState.pending = codes "pending"
run_state_str RunState.running = codes "running"
run_state_str RunState.succeeded = codes "succeeded"
run_state_str RunState.failed = codes "failed"
run_state_str RunState.cancelled = codes "cancelled"
run_state_str RunState.timed_out = codes "timed_out"

abbrev pub run_state_arms : List (Text × RunState)
run_state_arms =
    (codes "pending", RunState.pending)
    ∷ (codes "running", RunState.running)
    ∷ (codes "succeeded", RunState.succeeded)
    ∷ (codes "failed", RunState.failed)
    ∷ (codes "cancelled", RunState.cancelled)
    ∷ (codes "timed_out", RunState.timed_out)
    ∷ []

unfoldable pub parse_run_state : Text → Option RunState
unfolding match_text
parse_run_state value = match_text value run_state_arms
