-- ===== src/Store/Revisions/Apply.antt =====
-- `Store::apply` (crates/lmt-store/src/lib.rs). An index that panics, and the `expect` of a missing
-- generation, are the error `database`; no change of a plan that was made of the same bundle and
-- database meets either.
use lzu_mirror_tools.Prelude.{
  ℕ, suc, Bool, true, false, ◌&&◌, not, Option, none, some, List, [], ◌∷◌, ◌++◌, Result, ok, err,
  ◌>>=◌, if◌then◌else◌, ◌==◌,
}
use lzu_mirror_tools.Prelude.Int.{ℤ}
use lzu_mirror_tools.Prelude.Text.{Text, text_eq}
use lzu_mirror_tools.Prelude.Tables.{exists_where, find_where, update_where}
use lzu_mirror_tools.Core.Config.{CanonicalMirror, CanonicalBundle}
use lzu_mirror_tools.Store.Rows.{
  StoreError, MirrorRow, GenerationRow, Db, Tx, database, revision_conflict,
}
use lzu_mirror_tools.Store.Revisions.{
  ChangeKind, ConfigChange, ConfigPlan, ConfigLibrary, get_mirror, is_move,
}
use lzu_mirror_tools.Store.Revisions.Effects.{
  cancel_undispatched_pending, finalize_ineligible_retries, delete_schedule, reconcile_schedule,
  enforce_quiescent_high_impact_changes,
}
use lzu_mirror_tools.Store.Revisions.Plan.{max_revision, parse_name, plan_with_connection}

unfoldable pub has_name : Text → MirrorRow → Bool
has_name name m = text_eq m.name name

-- UPDATE mirrors SET managed=0, removed_at_ms=now WHERE name=mirror.
unfoldable pub unmanage : ℤ → MirrorRow → MirrorRow
unmanage now m = record m { managed = false; removed_at_ms = some now }

unfoldable pub unmanage_mirror : Text → ℤ → Db → Db
unfolding has_name unmanage update_where
unmanage_mirror mirror now db = record db {
  mirrors = update_where (has_name mirror) (unmanage now) db.mirrors;
}

unfoldable pub remove_mirror : Text → ℤ → Db → Db
unfolding unmanage_mirror cancel_undispatched_pending finalize_ineligible_retries delete_schedule
remove_mirror mirror now db = delete_schedule mirror (
    finalize_ineligible_retries mirror now
      (cancel_undispatched_pending mirror now (unmanage_mirror mirror now db)))

-- The row that INSERT INTO mirrors ... ON CONFLICT(name) DO UPDATE leaves.
unfoldable pub managed_row : Text → CanonicalMirror → ℕ → MirrorRow
managed_row name mirror generation = record {
  name = name;
  managed = true;
  enabled = mirror.document.mirror.enabled;
  owner_node = mirror.owner_node;
  current_generation = generation;
  removed_at_ms = none;
}

unfoldable pub upsert_mirror : MirrorRow → Db → Db
unfolding has_name exists_where update_where
upsert_mirror row db =
    if exists_where (has_name row.name) db.mirrors
    then record db { mirrors = update_where (has_name row.name) (λ m. row) db.mirrors }
    else record db { mirrors = db.mirrors ++ row ∷ [] }

-- The runs of a mirror that is disabled or moves.
unfoldable pub settle_runs : ConfigChange → CanonicalMirror → ℤ → Db → Db
unfolding cancel_undispatched_pending finalize_ineligible_retries is_move
settle_runs change mirror now db =
    if not mirror.document.mirror.enabled
    then finalize_ineligible_retries change.mirror now
        (cancel_undispatched_pending change.mirror now db)
    else if is_move change.kind
    then finalize_ineligible_retries change.mirror now db
    else db

unfoldable pub new_generation : Text → CanonicalMirror → ℕ → ℕ → ℤ → GenerationRow
new_generation name mirror generation revision now = record {
  mirror_name = name;
  generation = generation;
  config_revision = revision;
  owner_node = mirror.owner_node;
  config_hash = mirror.config_hash;
  config_toml = mirror.canonical_toml;
  created_at_ms = now;
}

-- The primary key of `mirror_generations`.
unfoldable pub is_generation : Text → ℕ → GenerationRow → Bool
is_generation name generation g = text_eq g.mirror_name name && g.generation == generation

unfoldable pub insert_generation : GenerationRow → Db → Result StoreError Db
unfolding is_generation exists_where
insert_generation row db =
    if exists_where (is_generation row.mirror_name row.generation) db.generations
    then err database
    else ok (record db { generations = db.generations ++ row ∷ [] })

-- `SELECT managed,enabled,owner_node FROM mirrors WHERE name=?`.
unfoldable pub eligibility : Text → Db → Option (Bool × Bool × Text)
unfolding has_name find_where
eligibility name db = elim (find_where (has_name name) db.mirrors) [
  | none ↦ none
  | some m ↦ some (m.managed, m.enabled, m.owner_node)
]

-- INSERT INTO config_revisions; the row id is the one after the largest.
unfoldable pub insert_revision : CanonicalBundle → Text → ℤ → Db → Db
unfolding max_revision
insert_revision bundle actor now db = record db {
  revisions =
      db.revisions
      ++ record {
        revision = suc (max_revision db.revisions);
        bundle_hash = bundle.bundle_hash;
        applied_at_ms = now;
        actor = actor;
      }
        ∷ [];
}

module _ (library : ConfigLibrary) where
  unfoldable pub install : ConfigChange → CanonicalMirror → ℕ → ℕ → ℤ → Db → Result StoreError Db
  unfolding eligibility managed_row upsert_mirror settle_runs new_generation insert_generation
      reconcile_schedule
  install change mirror generation revision now db = do
    let previous = eligibility change.mirror db
    let upserted = upsert_mirror (managed_row change.mirror mirror generation) db
    let settled = settle_runs change mirror now upserted
    inserted ←
        insert_generation (new_generation change.mirror mirror generation revision now) settled
    reconcile_schedule library change mirror.document mirror.owner_node previous now inserted

  -- The create, update and move branch of a change.
  unfoldable pub put_mirror : CanonicalBundle → ℕ → ℤ → ConfigChange → Db → Result StoreError Db
  unfolding parse_name get_mirror install
  put_mirror bundle revision now change db = do
    name ← parse_name library change.mirror
    elim (get_mirror name bundle) [
      | none ↦ err database
      | some (_, mirror) ↦ elim change.to_generation [
        | none ↦ err database
        | some generation ↦ install change mirror generation revision now db
      ]
    ]

  unfoldable pub apply_as :
      ChangeKind → CanonicalBundle → ℕ → ℤ → ConfigChange → Db → Result StoreError Db
  unfolding remove_mirror put_mirror
  apply_as ChangeKind.remove bundle revision now change db = ok (remove_mirror change.mirror now db)
  apply_as _ bundle revision now change db = put_mirror bundle revision now change db

  unfoldable pub apply_change : CanonicalBundle → ℕ → ℤ → ConfigChange → Db → Result StoreError Db
  unfolding apply_as
  apply_change bundle revision now change db = apply_as change.kind bundle revision now change db

  unfoldable pub apply_changes :
      CanonicalBundle → ℕ → ℤ → List ConfigChange → Db → Result StoreError Db
  unfolding apply_change
  apply_changes bundle revision now [] db = ok db
  apply_changes bundle revision now (change ∷ changes) db = do
    changed ← apply_change bundle revision now change db
    apply_changes bundle revision now changes changed

  -- The writes of a plan under the next revision.
  unfoldable pub apply_plan : CanonicalBundle → Text → ℤ → ConfigPlan → Db → Tx ConfigPlan
  unfolding enforce_quiescent_high_impact_changes insert_revision max_revision apply_changes
  apply_plan bundle actor now plan db = do
    let revision = suc (max_revision db.revisions)
    checked ← enforce_quiescent_high_impact_changes plan.changes db
    changed ← apply_changes bundle revision now plan.changes (insert_revision bundle actor now db)
    ok (record plan { base_revision = revision }, changed)

  unfoldable pub apply : CanonicalBundle → ℕ → Text → ℤ → Db → Tx ConfigPlan
  unfolding plan_with_connection apply_plan
  apply bundle base_revision actor now db = do
    plan ← plan_with_connection library bundle db
    if not (plan.base_revision == base_revision)
        then err (revision_conflict plan.base_revision)
        else apply_plan bundle actor now plan db
