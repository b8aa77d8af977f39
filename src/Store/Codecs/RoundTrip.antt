-- ===== src/Store/Codecs/RoundTrip.antt =====
-- The texts of states (crates/lmt-store/src/lib.rs) are read as the states that they were written for.
use lzu_mirror_tools.Prelude.{
  ◌≡◌, ◌↔◌, refl, ap, ◌∙◌, some, List, [], ◌∷◌, inl, inr, Bool-cases, arith,
}
use lzu_mirror_tools.Prelude.Text.{Text, text_eq, text_eq→eq}
use lzu_mirror_tools.Prelude.Tables.{All}
use lzu_mirror_tools.Core.State.{AttemptState, RunState}
use lzu_mirror_tools.Store.Codecs.{
  match_text, attempt_state_str, attempt_state_arms, parse_attempt_state, run_state_str,
  run_state_arms, parse_run_state,
}

-- A match gives what one of its arms has for the text.
match_text-All {ℓ} :
    {A : Type ℓ} (print : A → Text) (value : Text) (arms : List (Text × A)) {a : A}
    → All (λ (arm : Text × A). arm.0 ≡ print arm.1) arms
    → match_text value arms ≡ some a
    → value ≡ print a
unfolding match_text
match_text-All print value [] printed h = cc
match_text-All print value (arm ∷ arms) printed h = elim (Bool-cases (text_eq value arm.0)) [
  | inl t ↦ text_eq→eq value arm.0 t ∙ printed.0 ∙ ap print (ground (arith, t))
  | inr f ↦ match_text-All print value arms printed.1 (ground (arith, f))
]

attempt_state_str-parsed : (s : AttemptState) → parse_attempt_state (attempt_state_str s) ≡ some s
unfolding parse_attempt_state attempt_state_str text_eq
attempt_state_str-parsed AttemptState.queued = refl
attempt_state_str-parsed AttemptState.accepted = refl
attempt_state_str-parsed AttemptState.running = refl
attempt_state_str-parsed AttemptState.succeeded = refl
attempt_state_str-parsed AttemptState.failed = refl
attempt_state_str-parsed AttemptState.timed_out = refl
attempt_state_str-parsed AttemptState.cancelled = refl
attempt_state_str-parsed AttemptState.interrupted = refl
attempt_state_str-parsed AttemptState.rejected = refl

run_state_str-parsed : (s : RunState) → parse_run_state (run_state_str s) ≡ some s
unfolding parse_run_state run_state_str text_eq
run_state_str-parsed RunState.pending = refl
run_state_str-parsed RunState.running = refl
run_state_str-parsed RunState.succeeded = refl
run_state_str-parsed RunState.failed = refl
run_state_str-parsed RunState.cancelled = refl
run_state_str-parsed RunState.timed_out = refl

-- A text is read as the state of an attempt exactly if it is what is written for that state.
pub parse_attempt_state_iff :
    (value : Text) (s : AttemptState)
    → (parse_attempt_state value ≡ some s) ↔ (value ≡ attempt_state_str s)
unfolding parse_attempt_state attempt_state_str
parse_attempt_state_iff value s = (
  match_text-All attempt_state_str value attempt_state_arms
      (refl, (refl, (refl, (refl, (refl, (refl, (refl, (refl, (refl, tt))))))))),
  λ e. ap parse_attempt_state e ∙ attempt_state_str-parsed s,
)

-- A text is read as the state of a run exactly if it is what is written for that state.
pub parse_run_state_iff :
    (value : Text) (s : RunState) → (parse_run_state value ≡ some s) ↔ (value ≡ run_state_str s)
unfolding parse_run_state run_state_str
parse_run_state_iff value s = (
  match_text-All run_state_str value run_state_arms
      (refl, (refl, (refl, (refl, (refl, (refl, tt)))))),
  λ e. ap parse_run_state e ∙ run_state_str-parsed s,
)
