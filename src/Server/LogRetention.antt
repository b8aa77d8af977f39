-- ===== src/Server/LogRetention.antt =====
-- `plan_log_maintenance` (apps/lmt-server/src/lib.rs): which logs the retention policy lets expire.
-- `retention_ms` is `Duration::as_millis`; the sums are of sizes that are together below 2^64.
pub mod Loops
pub mod Books
pub mod Plan
pub mod Age
pub mod Need
use lzu_mirror_tools.Prelude.{
  ℕ, ◌+◌, ◌-◌, Bool, true, false, ◌&&◌, Option, none, some, List, [], ◌∷◌, ◌++◌, if◌then◌else◌,
  ◌==◌, is_none, leb,
}
use lzu_mirror_tools.Prelude.Int.{ℤ, pos, leb_ℤ, saturating_sub, i64_max}
use lzu_mirror_tools.Prelude.Text.{Text, text_eq}
use lzu_mirror_tools.Prelude.Tables.{exists_where, where_rows}
use lzu_mirror_tools.Store.Rows.{Db}
use lzu_mirror_tools.Store.Logs.{LogRetentionEntry, log_retention_entries}

pub record RunLogPolicy : Type 0 where
  pub retention_ms : Option ℕ
  pub max_total_bytes : Option ℕ

pub record LogExpirationView : Type 0 where
  pub run_id : Text
  pub attempt : ℕ
  pub stored_bytes : ℕ

pub record LogMaintenancePlan : Type 0 where
  pub stored_bytes : ℕ
  pub expire_bytes : ℕ
  pub candidates : List LogExpirationView

unfoldable pub live : LogRetentionEntry → Bool
live e = is_none e.expired_at_ms

unfoldable pub may_go : LogRetentionEntry → Bool
unfolding live
may_go e = live e && e.eligible

abbrev pub stored_sum : List LogRetentionEntry → ℕ
stored_sum [] = 0
stored_sum (e ∷ es) = e.stored_bytes + stored_sum es

abbrev pub expire_sum : List LogExpirationView → ℕ
expire_sum [] = 0
expire_sum (c ∷ cs) = c.stored_bytes + expire_sum cs

unfoldable pub names : LogRetentionEntry → LogExpirationView → Bool
names e c = text_eq c.run_id e.run_id && c.attempt == e.attempt_no

-- `projected` and `candidates`, the two variables of the loops.
abbrev pub Progress : Type 0
Progress = ℕ × List LogExpirationView

unfoldable pub push : LogRetentionEntry → Progress → Progress
push e (projected, candidates) = (
  projected - e.stored_bytes,
  candidates
      ++ record { run_id = e.run_id; attempt = e.attempt_no; stored_bytes = e.stored_bytes } ∷ [],
)

unfoldable pub age_cutoff : ℤ → RunLogPolicy → Option ℤ
age_cutoff now policy = elim policy.retention_ms [
  | none ↦ none
  | some ms ↦ some (saturating_sub now (if leb ms i64_max then pos ms else pos i64_max))
]

unfoldable pub is_older : Option ℤ → LogRetentionEntry → Bool
is_older none e = false
is_older (some cutoff) e = leb_ℤ e.updated_at_ms cutoff

-- The loop by age.
unfoldable pub expire_by_age : Option ℤ → List LogRetentionEntry → Progress → Progress
expire_by_age cutoff [] s = s
expire_by_age cutoff (e ∷ es) s =
    expire_by_age cutoff es (if is_older cutoff e then push e s else s)

-- The loop by size, which a small enough total ends.
unfoldable pub expire_by_size : ℕ → List LogRetentionEntry → Progress → Progress
expire_by_size cap [] s = s
expire_by_size cap (e ∷ es) s =
    let rest = expire_by_size cap es (if exists_where (names e) s.1 then s else push e s) in
    if leb s.0 cap then s else rest

unfoldable pub expire_over_cap : Option ℕ → List LogRetentionEntry → Progress → Progress
expire_over_cap none es s = s
expire_over_cap (some cap) es s = expire_by_size cap es s

unfoldable pub candidates_of : ℤ → RunLogPolicy → ℕ → List LogRetentionEntry → Progress
unfolding expire_over_cap expire_by_age
candidates_of now policy stored eligible =
    expire_over_cap policy.max_total_bytes eligible
      (expire_by_age (age_cutoff now policy) eligible (stored, []))

unfoldable pub plan_log_maintenance : ℤ → Option RunLogPolicy → Db → LogMaintenancePlan
unfolding candidates_of
plan_log_maintenance now none db = record {
  stored_bytes = stored_sum (where_rows live (log_retention_entries db));
  expire_bytes = 0;
  candidates = [];
}
plan_log_maintenance now (some policy) db =
    let entries = log_retention_entries db in
    let stored = stored_sum (where_rows live entries) in
    let (projected, candidates) = candidates_of now policy stored (where_rows may_go entries) in
    record { stored_bytes = stored; expire_bytes = expire_sum candidates; candidates = candidates }
