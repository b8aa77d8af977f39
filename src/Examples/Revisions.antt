-- ===== src/Examples/Revisions.antt =====
-- A bundle that changes one mirror, adds one and drops one is applied.
use lzu_mirror_tools.Prelude.Tables.{
  update_where, exists_where, where_rows, find_where, min_by, select_first, join,
}
use lzu_mirror_tools.Core.Ids.{
  is_between, is_ascii_alphanumeric, is_name_byte, all_bytes, valid_name, new_name,
}
use lzu_mirror_tools.Store.Queries.{
  map_run, has_id, find_run, find_run_by_request, attempts_with_runs, current_generations,
  generation_config, insert_run, insert_attempt, update_run, update_schedule, clear_intent,
  rearm_schedule, node_has_capacity, time_lt, time_then,
}
use lzu_mirror_tools.Store.Revisions.Effects.{
  is_undelivered, cancel_queued, is_unstarted, cancel_unstarted, cancel_attempts_of, cancel_runs_of,
  cancel_undispatched_pending, is_waiting, is_latest, finalize, finalize_all,
  finalize_ineligible_retries, created_before, enforce_quiescent_high_impact_changes,
  delete_schedule, upsert_schedule, wanted_schedule, has_hash, was_ineligible, activated,
  needs_reset, reset_schedule, reconcile_schedule,
}
use lzu_mirror_tools.Store.Revisions.Plan.{
  max_revision, mode_change, removal, differs, replacement, creation, creations, insert_change,
  sort_changes, publication_change, parse_name, change_of, current_changes, plan_with_connection,
}
use lzu_mirror_tools.Store.Revisions.Apply.{
  has_name, unmanage, unmanage_mirror, remove_mirror, managed_row, upsert_mirror, settle_runs,
  new_generation, is_generation, insert_generation, eligibility, insert_revision, install,
  put_mirror, apply_as, apply_change, apply_changes, apply_plan, apply,
}
use lzu_mirror_tools.Store.Revisions.View.{deployed, desired}
use lzu_mirror_tools.Prelude.{
  arith, ◌≢◌, ◌≡◌, refl, false, some, inl, Memᴰ, ok, err, Result, [], ◌∷◌,
}
use lzu_mirror_tools.Prelude.Int.{pos, ◌+ℤ◌, ◌-ℤ◌, checked_add, saturating_add, saturating_sub}
use lzu_mirror_tools.Prelude.Text.{Text, codes, text_eq, text_lt}
use lzu_mirror_tools.Core.Config.{
  CanonicalMirror, CanonicalBundle, PublicationMode, publication_mode,
}
use lzu_mirror_tools.Store.Rows.{
  StoreError, GenerationRow, Db, is_active, is_pending, is_running, is_queued, is_manual,
  is_scheduled, failure_kind_str, is_request, is_attempt, occupies, has_request, violates_keys,
}
use lzu_mirror_tools.Store.Revisions.{ConfigPlan, ConfigLibrary, get_mirror, is_move, is_create}
use lzu_mirror_tools.Store.Revisions.Convergence.{apply-deployed}
use lzu_mirror_tools.Examples.{document, debian, no_schedule, ended_run}
use lzu_mirror_tools.Core.Ids.Names.{IsSafe, new_name-IsSafe}
use lzu_mirror_tools.Core.Ids.{IdentifierKind}
use lzu_mirror_tools.Core.State.{RunState}
use lzu_mirror_tools.Store.Revisions.Quiescence.{apply-quiescent}

-- A stand-in for the schedules, the digest and the stored documents.
abbrev config_library : ConfigLibrary
config_library = record {
  activate = λ schedule now. ok no_schedule;
  semantic_hash = λ schedule. codes "s1";
  stored_mode = λ config_toml. ok PublicationMode.direct;
  identifier_message = λ e. e.value;
}

abbrev generation_of : Text → Text → GenerationRow
generation_of name hash = record {
  mirror_name = name;
  generation = 1;
  config_revision = 0;
  owner_node = codes "n1";
  config_hash = hash;
  config_toml = [];
  created_at_ms = pos 0;
}

abbrev before : Db
before = record {
  revisions = [];
  mirrors = debian ∷ record debian { name = codes "old" } ∷ [];
  generations =
      generation_of (codes "debian") (codes "h1") ∷ generation_of (codes "old") (codes "h9") ∷ [];
  schedules = [];
  nodes = [];
  runs = [];
  attempts = [];
  logs = [];
}

abbrev canonical : Text → CanonicalMirror
canonical hash = record {
  owner_node = codes "n1";
  document = document;
  canonical_toml = [];
  config_hash = hash;
}

abbrev bundle : CanonicalBundle
bundle = record {
  mirrors = (codes "arch", canonical (codes "h2")) ∷ (codes "debian", canonical (codes "h3")) ∷ [];
  bundle_hash = codes "b1";
}

abbrev plan_of : Result StoreError (ConfigPlan × Db) → ConfigPlan × Db
plan_of (ok r) = r
plan_of (err e) = (record { base_revision = 0; bundle_hash = []; changes = [] }, before)

abbrev after : ConfigPlan × Db
after = plan_of (apply config_library bundle 0 (codes "op") (pos 7) before)

apply-deployed_example : deployed (codes "debian") after.1 ≡ some (codes "n1", codes "h3")
unfolding update_where exists_where where_rows find_where min_by select_first join text_eq text_lt
    is_between is_ascii_alphanumeric is_name_byte all_bytes valid_name new_name publication_mode
    is_active is_pending is_running is_queued is_manual is_scheduled failure_kind_str is_request
    is_attempt occupies has_request violates_keys map_run has_id find_run find_run_by_request
    attempts_with_runs current_generations generation_config insert_run insert_attempt update_run
    update_schedule clear_intent rearm_schedule node_has_capacity time_lt time_then get_mirror
    is_move is_create is_undelivered cancel_queued is_unstarted cancel_unstarted cancel_attempts_of
    cancel_runs_of cancel_undispatched_pending is_waiting is_latest finalize finalize_all
    finalize_ineligible_retries created_before enforce_quiescent_high_impact_changes delete_schedule
    upsert_schedule wanted_schedule has_hash was_ineligible activated needs_reset reset_schedule
    reconcile_schedule max_revision mode_change removal differs replacement creation creations
    insert_change sort_changes publication_change parse_name change_of current_changes
    plan_with_connection has_name unmanage unmanage_mirror remove_mirror managed_row upsert_mirror
    settle_runs new_generation is_generation insert_generation eligibility insert_revision install
    put_mirror apply_as apply_change apply_changes apply_plan apply deployed desired ◌+ℤ◌ ◌-ℤ◌
    checked_add saturating_add saturating_sub
apply-deployed_example =
    apply-deployed config_library bundle 0 (codes "op") (pos 7) before {result = after}
      (codes "debian") refl

abbrev moving : CanonicalBundle
moving = record {
  mirrors = (codes "debian", record (canonical (codes "h3")) { owner_node = codes "n2" }) ∷ [];
  bundle_hash = codes "b2";
}

abbrev still : Db
still = record before {
  mirrors = debian ∷ [];
  generations = generation_of (codes "debian") (codes "h1") ∷ [];
  runs = ended_run ∷ [];
}

abbrev after_move : ConfigPlan × Db
after_move = plan_of (apply config_library moving 0 (codes "op") (pos 7) still)

other_node : codes "n2" ≢ codes "n1"
other_node e = ground arith

apply-quiescent_example :
    (ended_run.state ≢ RunState.pending) × (ended_run.state ≢ RunState.running)
unfolding update_where exists_where where_rows find_where min_by select_first join text_eq text_lt
    is_between is_ascii_alphanumeric is_name_byte all_bytes valid_name new_name publication_mode
    is_active is_pending is_running is_queued is_manual is_scheduled failure_kind_str is_request
    is_attempt occupies has_request violates_keys map_run has_id find_run find_run_by_request
    attempts_with_runs current_generations generation_config insert_run insert_attempt update_run
    update_schedule clear_intent rearm_schedule node_has_capacity time_lt time_then get_mirror
    is_move is_create is_undelivered cancel_queued is_unstarted cancel_unstarted cancel_attempts_of
    cancel_runs_of cancel_undispatched_pending is_waiting is_latest finalize finalize_all
    finalize_ineligible_retries created_before enforce_quiescent_high_impact_changes delete_schedule
    upsert_schedule wanted_schedule has_hash was_ineligible activated needs_reset reset_schedule
    reconcile_schedule max_revision mode_change removal differs replacement creation creations
    insert_change sort_changes publication_change parse_name change_of current_changes
    plan_with_connection has_name unmanage unmanage_mirror remove_mirror managed_row upsert_mirror
    settle_runs new_generation is_generation insert_generation eligibility insert_revision install
    put_mirror apply_as apply_change apply_changes apply_plan apply deployed desired ◌+ℤ◌ ◌-ℤ◌
    checked_add saturating_add saturating_sub
apply-quiescent_example =
    apply-quiescent config_library moving 0 (codes "op") (pos 7) still {result = after_move} debian
      (generation_of (codes "debian") (codes "h1")) (codes "debian")
      (record (canonical (codes "h3")) { owner_node = codes "n2" }) ended_run refl
      (record {
        mirror = Memᴰ.head refl;
        generation = Memᴰ.head refl;
        named = refl;
        of_mirror = refl;
        current = refl;
      })
      refl (inl (refl, other_node)) (Memᴰ.head refl) refl

-- A mirror that an earlier bundle removed, with a run that is still under way.
abbrev removed : Db
removed = record still {
  mirrors = record debian { managed = false } ∷ [];
  runs = record ended_run { state = RunState.running } ∷ [];
}

abbrev after_return : ConfigPlan × Db
after_return = plan_of (apply config_library moving 0 (codes "op") (pos 7) removed)

-- Its return under another owner is applied while that run goes on.
return-applied :
    (deployed (codes "debian") after_return.1 ≡ some (codes "n2", codes "h3"))
    × (after_return.1.runs ≡ removed.runs)
unfolding update_where exists_where where_rows find_where min_by select_first join text_eq text_lt
    is_between is_ascii_alphanumeric is_name_byte all_bytes valid_name new_name publication_mode
    is_active is_pending is_running is_queued is_manual is_scheduled failure_kind_str is_request
    is_attempt occupies has_request violates_keys map_run has_id find_run find_run_by_request
    attempts_with_runs current_generations generation_config insert_run insert_attempt update_run
    update_schedule clear_intent rearm_schedule node_has_capacity time_lt time_then get_mirror
    is_move is_create is_undelivered cancel_queued is_unstarted cancel_unstarted cancel_attempts_of
    cancel_runs_of cancel_undispatched_pending is_waiting is_latest finalize finalize_all
    finalize_ineligible_retries created_before enforce_quiescent_high_impact_changes delete_schedule
    upsert_schedule wanted_schedule has_hash was_ineligible activated needs_reset reset_schedule
    reconcile_schedule max_revision mode_change removal differs replacement creation creations
    insert_change sort_changes publication_change parse_name change_of current_changes
    plan_with_connection has_name unmanage unmanage_mirror remove_mirror managed_row upsert_mirror
    settle_runs new_generation is_generation insert_generation eligibility insert_revision install
    put_mirror apply_as apply_change apply_changes apply_plan apply deployed desired ◌+ℤ◌ ◌-ℤ◌
    checked_add saturating_add saturating_sub
return-applied = (refl, refl)

new_name-IsSafe_example : IsSafe (codes "debian") (codes "debian")
unfolding is_between is_ascii_alphanumeric is_name_byte all_bytes valid_name new_name
new_name-IsSafe_example =
    new_name-IsSafe IdentifierKind.mirror_name (codes "debian") (codes "debian") refl
