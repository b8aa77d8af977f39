-- ===== src/Core/Schedule/Retry.antt =====
-- The retry decision (crates/lmt-core/src/schedule.rs): when another attempt follows, and when not.
use lzu_mirror_tools.Prelude.{ℕ, ◌*◌, ◌<◌, ◌≡◌, ◌⊎◌, ◌∙◌, true, false, arith, min}
use lzu_mirror_tools.Prelude.Int.{
  ℤ, pos, ◌≤ℤ◌, ◌+ℤ◌, IsI64, i64_max, clamp_i64, clamp_i64-bounds, clamp_i64-id, saturating_add,
  int_laws,
}
use lzu_mirror_tools.Core.State.{AttemptState, RunState, run_is_terminal}
use lzu_mirror_tools.Core.Schedule.{RetryContext, decide_retry, retry_delay_ms, schedule, final}

-- A retry is scheduled only after a failure that may pass, below the limit of attempts, with no
-- cancellation, on an eligible mirror with the owner it had.
abbrev pub MayRetry : RetryContext → Type 0
MayRetry c =
    ((c.outcome ≡ AttemptState.failed)
      ⊎ (c.outcome ≡ AttemptState.timed_out)
      ⊎ (c.outcome ≡ AttemptState.interrupted))
    × (c.attempt_no < c.max_attempts)
    × (c.cancel_requested ≡ false)
    × (c.mirror_eligible ≡ true)
    × (c.owner_unchanged ≡ true)

-- A scheduled retry meets all conditions, and a run that is finished instead ends in a terminal
-- state, `succeeded` only for an attempt that succeeded.
pub decide_retry_lem :
    (c : RetryContext) (due : ℤ) (r : RunState)
    → (decide_retry c ≡ schedule due → MayRetry c)
      × (decide_retry c ≡ final r
          → (run_is_terminal r ≡ true)
            × (r ≡ RunState.succeeded → c.outcome ≡ AttemptState.succeeded))
unfolding decide_retry run_is_terminal
decide_retry_lem c due r = (λ h. ground arith, λ h. (ground arith, λ k. ground arith))

-- The delay of a retry, saturated twice.
retry_delay_ms-eq-min : (n : ℕ) → retry_delay_ms n ≡ min (n * 1000) i64_max
unfolding retry_delay_ms
retry_delay_ms-eq-min n = ground arith

-- The time that a scheduled retry falls due.
decide_retry-due :
    (c : RetryContext) (due : ℤ)
    → decide_retry c ≡ schedule due
    → due ≡ clamp_i64 (c.server_now_ms +ℤ pos (retry_delay_ms c.retry_delay_seconds))
unfolding decide_retry saturating_add
decide_retry-due c due h = ground arith

-- If now is in range, a scheduled retry falls due at a time in range, not before now, and no later
-- than now plus the delay; at that very time if now is not negative and that time is in range.
pub decide_retry-bounds :
    (c : RetryContext) (due : ℤ)
    → IsI64 c.server_now_ms
    → decide_retry c ≡ schedule due
    → let exact = c.server_now_ms +ℤ pos (c.retry_delay_seconds * 1000) in
      IsI64 due
      × (c.server_now_ms ≤ℤ due)
      × (due ≤ℤ exact)
      × (pos 0 ≤ℤ c.server_now_ms → exact ≤ℤ pos i64_max → due ≡ exact)
decide_retry-bounds c due now h =
    let n = retry_delay_ms c.retry_delay_seconds in
    let e = decide_retry-due c due h in
    let delay = retry_delay_ms-eq-min c.retry_delay_seconds in
    let (ranged, above, below) =
      clamp_i64-bounds c.server_now_ms (c.server_now_ms +ℤ pos n) now (omega int_laws) in
    (
      rw e ranged,
      rw e above,
      rw e (omega (int_laws, below, delay)),
      λ p q.
          e
          ∙ clamp_i64-id (c.server_now_ms +ℤ pos n) (omega (int_laws, delay))
              (omega (int_laws, delay))
          ∙ omega (int_laws, delay),
    )
