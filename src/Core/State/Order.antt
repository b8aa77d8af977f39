-- ===== src/Core/State/Order.antt =====
-- `AttemptState::allows` (crates/lmt-core/src/state.rs) is an order: an attempt moves forward only.
use lzu_mirror_tools.Prelude.{ℕ, ◌<◌, ◌≡◌, ◌⊎◌, inl, inr, true, arith}
use lzu_mirror_tools.Core.State.{AttemptState, is_terminal, allows, attempt_state_eq}

-- How far an attempt has come.
abbrev pub rank : AttemptState → ℕ
rank AttemptState.queued = 0
rank AttemptState.accepted = 1
rank AttemptState.running = 2
rank _ = 3

-- A state may stay or move up in rank.
abbrev pub Advances : AttemptState → AttemptState → Type 0
Advances s t = (s ≡ t) ⊎ (rank s < rank t)

pub attempt_state_eq→eq : (s t : AttemptState) → attempt_state_eq s t ≡ true → s ≡ t
unfolding attempt_state_eq
attempt_state_eq→eq s t h = ground arith

-- A permitted transition stays or moves up.
pub allows-Advances : (s t : AttemptState) → allows s t ≡ true → Advances s t
unfolding allows
allows-Advances s t h = ground arith

pub Advances-trans : (s t u : AttemptState) → Advances s t → Advances t u → Advances s u
Advances-trans s t u (inl p) (inl q) = inl (cc)
Advances-trans s t u (inl p) (inr q) = ground arith
Advances-trans s t u (inr p) (inl q) = ground arith
Advances-trans s t u (inr p) (inr q) = inr (omega arith)

-- Nothing lies above a terminal state.
pub Advances-terminal : (s t : AttemptState) → is_terminal s ≡ true → Advances s t → t ≡ s
unfolding is_terminal
Advances-terminal s t h a = ground arith

-- Two attempt states that permit a transition to one another are the same state.
pub allows-antisymmetric : (s t : AttemptState) → allows s t ≡ true → allows t s ≡ true → s ≡ t
unfolding allows
allows-antisymmetric s t h k = ground arith
