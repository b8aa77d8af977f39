-- ===== src/Store/Revisions/Soundness.antt =====
-- `Store::apply` (crates/lmt-store/src/lib.rs) keeps the database valid.
use lzu_mirror_tools.Prelude.{
  ◌≡◌, ◌∙◌, refl, subst, ap, ℕ, suc, Bool, Option, List, [], ◌∷◌, inl, inr, arith, ok, >>=-eq-ok,
  ok-injective, Bool-cases, Option-cases, ◌==◌,
}
use lzu_mirror_tools.Prelude.Int.{ℤ}
use lzu_mirror_tools.Prelude.Text.{Text, text_eq}
use lzu_mirror_tools.Prelude.Tables.{exists_where, find_where}
use lzu_mirror_tools.Core.Config.{CanonicalMirror, CanonicalBundle, MirrorDocument}
use lzu_mirror_tools.Core.Schedule.{ScheduleConfig}
use lzu_mirror_tools.Store.Invariant.{IsValid, Sound}
use lzu_mirror_tools.Store.Invariant.Statements.{Sound-refl, Sound-trans}
use lzu_mirror_tools.Store.Rows.{Db, MirrorRow, ScheduleRow, GenerationRow}
use lzu_mirror_tools.Store.Revisions.{
  ChangeKind, ConfigChange, ConfigPlan, ConfigLibrary, get_mirror, is_move,
}
use lzu_mirror_tools.Store.Revisions.Effects.{
  cancel_undispatched_pending, finalize_ineligible_retries, delete_schedule, upsert_schedule,
  wanted_schedule, reset_schedule, reconcile_schedule, enforce_quiescent_high_impact_changes,
  activated, needs_reset,
}
use lzu_mirror_tools.Store.Revisions.Plan.{max_revision, parse_name, plan_with_connection}
use lzu_mirror_tools.Store.Revisions.Apply.{
  unmanage_mirror, remove_mirror, managed_row, upsert_mirror, settle_runs, new_generation,
  insert_generation, eligibility, install, put_mirror, apply_as, apply_change, apply_changes,
  insert_revision, apply_plan, apply, has_name,
}
use lzu_mirror_tools.Store.Revisions.Settling.{
  cancel_undispatched_pending-Sound, finalize_ineligible_retries-Sound,
}

-- A statement that writes neither runs nor attempts.
abbrev SameRuns : Db → Db → Type 0
SameRuns db db' = (db'.runs ≡ db.runs) × (db'.attempts ≡ db.attempts)

then_same : (db db' db'' : Db) → SameRuns db' db'' → Sound db db' → Sound db db''
then_same db db' db'' (r, a) s = record {
  valid = rw (r, a) s.valid;
  runs = rw r s.runs;
  attempts = rw a s.attempts;
}

upsert_mirror-SameRuns : (row : MirrorRow) (db : Db) → SameRuns db (upsert_mirror row db)
unfolding upsert_mirror
upsert_mirror-SameRuns row db = elim (Bool-cases (exists_where (has_name row.name) db.mirrors)) [
  | inl t ↦ rw t (refl, refl)
  | inr f ↦ rw f (refl, refl)
]

insert_generation-SameRuns :
    (row : GenerationRow) (db db' : Db) → insert_generation row db ≡ ok db' → SameRuns db db'
unfolding insert_generation
insert_generation-SameRuns row db db' h = (ground arith, ground arith)

upsert_schedule-SameRuns : (row : ScheduleRow) (db : Db) → SameRuns db (upsert_schedule row db)
unfolding upsert_schedule
upsert_schedule-SameRuns row db =
    elim (Bool-cases (exists_where (λ s. text_eq s.mirror_name row.mirror_name) db.schedules)) [
      | inl t ↦ rw t (refl, refl)
      | inr f ↦ rw f (refl, refl)
    ]

settle-Sound :
    (mirror : Text) (now : ℤ) (db : Db)
    → IsValid db.runs db.attempts
    → Sound db (finalize_ineligible_retries mirror now (cancel_undispatched_pending mirror now db))
settle-Sound mirror now db v =
    let s = cancel_undispatched_pending-Sound mirror now db v in
    Sound-trans db _ _ s (finalize_ineligible_retries-Sound mirror now _ s.valid)

settle_runs-Sound :
    (change : ConfigChange) (mirror : CanonicalMirror) (now : ℤ) (db : Db)
    → IsValid db.runs db.attempts
    → Sound db (settle_runs change mirror now db)
unfolding settle_runs
settle_runs-Sound change mirror now db v = elim (Bool-cases mirror.document.mirror.enabled) [
  | inr f ↦ rw f (settle-Sound change.mirror now db v)
  | inl t ↦ rw t (elim (Bool-cases (is_move change.kind)) [
    | inl m ↦ rw m (finalize_ineligible_retries-Sound change.mirror now db v)
    | inr n ↦ rw n (Sound-refl db v)
  ])
]

remove_mirror-Sound :
    (mirror : Text) (now : ℤ) (db : Db)
    → IsValid db.runs db.attempts
    → Sound db (remove_mirror mirror now db)
unfolding remove_mirror unmanage_mirror delete_schedule
remove_mirror-Sound mirror now db v =
    let unmanaged = unmanage_mirror mirror now db in
    let start = then_same db db unmanaged (refl, refl) (Sound-refl db v) in
    then_same db _ _ (refl, refl)
      (Sound-trans db unmanaged _ start (settle-Sound mirror now unmanaged start.valid))

module _ (library : ConfigLibrary) where
  reset_schedule-SameRuns :
      (mirror : Text) (schedule : ScheduleConfig) (now : ℤ) (db db' : Db)
      → reset_schedule library mirror schedule now db ≡ ok db'
      → SameRuns db db'
  unfolding reset_schedule
  reset_schedule-SameRuns mirror schedule now db db' h =
      let (runtime, _, h') = >>=-eq-ok (library.activate schedule now) _ h in
      subst (SameRuns db) (ok-injective h')
        (upsert_schedule-SameRuns (activated mirror (library.semantic_hash schedule) runtime) db)

  reconcile_schedule-SameRuns :
      (change : ConfigChange) (document : MirrorDocument) (owner_node : Text)
      (previous : Option (Bool × Bool × Text)) (now : ℤ) (db db' : Db)
      → reconcile_schedule library change document owner_node previous now db ≡ ok db'
      → SameRuns db db'
  unfolding reconcile_schedule delete_schedule
  reconcile_schedule-SameRuns change document owner_node previous now db db' h =
      elim (Option-cases (wanted_schedule document)) [
        | inl e ↦
            subst (SameRuns db) {x = delete_schedule change.mirror db} {y = db'} (ground (arith, h))
              (refl, refl)
        | inr (schedule, e) ↦
            elim (Bool-cases (
              needs_reset library change owner_node previous (library.semantic_hash schedule)
                (find_where (λ s. text_eq s.mirror_name change.mirror) db.schedules))) [
                  | inl t ↦
                      reset_schedule-SameRuns change.mirror schedule now db db' (ground (arith, h))
                  | inr f ↦ subst (SameRuns db) {x = db} {y = db'} (ground (arith, h)) (refl, refl)
                ]
      ]

  install-Sound :
      (change : ConfigChange) (mirror : CanonicalMirror) (generation revision : ℕ) (now : ℤ)
      (db db' : Db)
      → IsValid db.runs db.attempts
      → install library change mirror generation revision now db ≡ ok db'
      → Sound db db'
  unfolding install
  install-Sound change mirror generation revision now db db' v h =
      let row = managed_row change.mirror mirror generation in
      let upserted =
        then_same db db (upsert_mirror row db) (upsert_mirror-SameRuns row db) (Sound-refl db v) in
      let settled =
        Sound-trans db _ _ upserted
          (settle_runs-Sound change mirror now (upsert_mirror row db) upserted.valid) in
      let (inserted, e, h') =
        >>=-eq-ok
          (insert_generation (new_generation change.mirror mirror generation revision now)
            (settle_runs change mirror now (upsert_mirror row db)))
          _ h in
      then_same db inserted db'
        (reconcile_schedule-SameRuns change mirror.document mirror.owner_node
          (eligibility change.mirror db) now inserted db' h')
        (then_same db _ inserted (insert_generation-SameRuns _ _ inserted e) settled)

  put_mirror-Sound :
      (bundle : CanonicalBundle) (revision : ℕ) (now : ℤ) (change : ConfigChange) (db db' : Db)
      → IsValid db.runs db.attempts
      → put_mirror library bundle revision now change db ≡ ok db'
      → Sound db db'
  unfolding put_mirror
  put_mirror-Sound bundle revision now change db db' v h =
      let (name, _, h') = >>=-eq-ok (parse_name library change.mirror) _ h in
      elim (Option-cases (get_mirror name bundle)) [
        | inl e ↦ absurd (ground (arith, h'))
        | inr ((_, mirror), e) ↦ elim (Option-cases change.to_generation) [
          | inl z ↦ absurd (ground (arith, h'))
          | inr (generation, g) ↦
              install-Sound change mirror generation revision now db db' v (ground (arith, h'))
        ]
      ]

  apply_as-Sound :
      (k : ChangeKind) (bundle : CanonicalBundle) (revision : ℕ) (now : ℤ) (change : ConfigChange)
      (db db' : Db)
      → IsValid db.runs db.attempts
      → apply_as library k bundle revision now change db ≡ ok db'
      → Sound db db'
  unfolding apply_as
  apply_as-Sound ChangeKind.remove bundle revision now change db db' v h =
      subst (Sound db) (ok-injective h) (remove_mirror-Sound change.mirror now db v)
  apply_as-Sound ChangeKind.create bundle revision now change db db' v h =
      put_mirror-Sound bundle revision now change db db' v h
  apply_as-Sound ChangeKind.update bundle revision now change db db' v h =
      put_mirror-Sound bundle revision now change db db' v h
  apply_as-Sound ChangeKind.move bundle revision now change db db' v h =
      put_mirror-Sound bundle revision now change db db' v h

  apply_changes-Sound :
      (bundle : CanonicalBundle) (revision : ℕ) (now : ℤ) (changes : List ConfigChange)
      (db db' : Db)
      → IsValid db.runs db.attempts
      → apply_changes library bundle revision now changes db ≡ ok db'
      → Sound db db'
  unfolding apply_changes apply_change
  apply_changes-Sound bundle revision now [] db db' v h =
      subst (Sound db) (ok-injective h) (Sound-refl db v)
  apply_changes-Sound bundle revision now (change ∷ changes) db db' v h =
      let (changed, e, h') =
        >>=-eq-ok (apply_as library change.kind bundle revision now change db) _ h in
      let s = apply_as-Sound change.kind bundle revision now change db changed v e in
      Sound-trans db changed db' s
        (apply_changes-Sound bundle revision now changes changed db' s.valid h')

  apply_plan-steps :
      (bundle : CanonicalBundle) (actor : Text) (now : ℤ) (plan : ConfigPlan) (db : Db)
      {result : ConfigPlan × Db}
      → apply_plan library bundle actor now plan db ≡ ok result
      → (enforce_quiescent_high_impact_changes plan.changes db ≡ ok tt)
        × (apply_changes library bundle
              (suc (max_revision db.revisions))
              now
              plan.changes
              (insert_revision bundle actor now db)
            ≡ ok result.1)
  unfolding apply_plan
  apply_plan-steps bundle actor now plan db h =
      let (_, quiet, k) = >>=-eq-ok (enforce_quiescent_high_impact_changes plan.changes db) _ h in
      let (changed, done, k') =
        >>=-eq-ok
          (apply_changes library bundle (suc (max_revision db.revisions)) now plan.changes
            (insert_revision bundle actor now db))
          _ k in
      (quiet, done ∙ ap ok (ap (λ (r : ConfigPlan × Db). r.1) (ok-injective k')))

  -- A bundle that was applied went through these steps.
  pub apply-steps :
      (bundle : CanonicalBundle) (base_revision : ℕ) (actor : Text) (now : ℤ) (db : Db)
      {result : ConfigPlan × Db}
      → apply library bundle base_revision actor now db ≡ ok result
      → (plan : ConfigPlan) × (plan_with_connection library bundle db ≡ ok plan)
        × (plan.base_revision ≡ base_revision)
        × (enforce_quiescent_high_impact_changes plan.changes db ≡ ok tt)
        × (apply_changes library bundle
              (suc (max_revision db.revisions))
              now
              plan.changes
              (insert_revision bundle actor now db)
            ≡ ok result.1)
  unfolding apply
  apply-steps bundle base_revision actor now db {result} h =
      let (plan, e, h') = >>=-eq-ok (plan_with_connection library bundle db) _ h in
      elim (Bool-cases (plan.base_revision == base_revision)) [
        | inr f ↦ absurd (ground (arith, h'))
        | inl t ↦
            let steps =
              apply_plan-steps bundle actor now plan db {result = result} (ground (arith, h')) in
            (plan, e, ground (arith, t), steps.0, steps.1)
      ]

  -- Applying a bundle keeps a valid database valid and evolves its rows.
  pub apply-Sound :
      (bundle : CanonicalBundle) (base_revision : ℕ) (actor : Text) (now : ℤ) (db : Db)
      {result : ConfigPlan × Db}
      → IsValid db.runs db.attempts
      → apply library bundle base_revision actor now db ≡ ok result
      → Sound db result.1
  unfolding insert_revision
  apply-Sound bundle base_revision actor now db {result} v h =
      let (plan, _, _, _, e) = apply-steps bundle base_revision actor now db h in
      let started = insert_revision bundle actor now db in
      let s = then_same db db started (refl, refl) (Sound-refl db v) in
      Sound-trans db started result.1 s (
        apply_changes-Sound bundle (suc (max_revision db.revisions)) now plan.changes started
          result.1 s.valid e)
