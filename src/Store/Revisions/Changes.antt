-- ===== src/Store/Revisions/Changes.antt =====
-- What one change of `Store::apply` (crates/lmt-store/src/lib.rs) does to what is deployed: its
-- mirror becomes what the bundle asks for, and every other mirror stays.
use lzu_mirror_tools.Prelude.{
  ◌≡◌, ◌∙◌, refl, sym, subst, ap, ℕ, Bool, false, ◌++◌, Option, none, some, List, [], ◌∷◌, inl, inr,
  arith, ok, >>=-eq-ok, ok-injective, Bool-cases, Option-cases,
}
use lzu_mirror_tools.Prelude.Int.{ℤ}
use lzu_mirror_tools.Prelude.Text.{Text, text_eq}
use lzu_mirror_tools.Prelude.Tables.{exists_where, find_where}
use lzu_mirror_tools.Core.Config.{CanonicalMirror, CanonicalBundle, MirrorDocument}
use lzu_mirror_tools.Core.Schedule.{ScheduleConfig}
use lzu_mirror_tools.Core.Ids.{valid_name, new_name}
use lzu_mirror_tools.Store.Rows.{Db, GenerationRow}
use lzu_mirror_tools.Store.Revisions.{ChangeKind, ConfigChange, ConfigLibrary, get_mirror}
use lzu_mirror_tools.Store.Revisions.Effects.{
  delete_schedule, wanted_schedule, reset_schedule, reconcile_schedule, activated, needs_reset,
}
use lzu_mirror_tools.Store.Revisions.Plan.{parse_name}
use lzu_mirror_tools.Store.Revisions.Apply.{
  remove_mirror, managed_row, upsert_mirror, settle_runs, new_generation, is_generation,
  insert_generation, eligibility, install, put_mirror, apply_as, apply_change,
}
use lzu_mirror_tools.Store.Revisions.Tables.{
  SameConfig, settle_runs-SameConfig, upsert_schedule-SameConfig, upsert_mirror-generations,
}
use lzu_mirror_tools.Store.Revisions.Installed.{
  Installed, insert_generation-ok, Unchanged, Installed-Synced, Installed-Unchanged,
  remove_mirror-Synced, remove_mirror-Unchanged,
}
use lzu_mirror_tools.Store.Revisions.View.{Synced, desired, demand}

module _ (library : ConfigLibrary) where
  reset_schedule-SameConfig :
      (mirror : Text) (schedule : ScheduleConfig) (now : ℤ) (db db' : Db)
      → reset_schedule library mirror schedule now db ≡ ok db'
      → SameConfig db db'
  unfolding reset_schedule
  reset_schedule-SameConfig mirror schedule now db db' h =
      let (runtime, _, h') = >>=-eq-ok (library.activate schedule now) _ h in
      subst (SameConfig db) (ok-injective h')
        (upsert_schedule-SameConfig (activated mirror (library.semantic_hash schedule) runtime) db)

  reconcile_schedule-SameConfig :
      (change : ConfigChange) (document : MirrorDocument) (owner_node : Text)
      (previous : Option (Bool × Bool × Text)) (now : ℤ) (db db' : Db)
      → reconcile_schedule library change document owner_node previous now db ≡ ok db'
      → SameConfig db db'
  unfolding reconcile_schedule delete_schedule
  reconcile_schedule-SameConfig change document owner_node previous now db db' h =
      elim (Option-cases (wanted_schedule document)) [
        | inl e ↦
            subst (SameConfig db) {x = delete_schedule change.mirror db} {y = db'}
              (ground (arith, h)) (refl, refl)
        | inr (schedule, e) ↦
            elim (Bool-cases (
              needs_reset library change owner_node previous (library.semantic_hash schedule)
                (find_where (λ s. text_eq s.mirror_name change.mirror) db.schedules))) [
                  | inl t ↦
                      reset_schedule-SameConfig change.mirror schedule now db db'
                        (ground (arith, h))
                  | inr f ↦
                      subst (SameConfig db) {x = db} {y = db'} (ground (arith, h)) (refl, refl)
                ]
      ]

  install-Installed :
      (change : ConfigChange) (mirror : CanonicalMirror) (generation revision : ℕ) (now : ℤ)
      (db db' : Db)
      → install library change mirror generation revision now db ≡ ok db'
      → Installed change.mirror
          (managed_row change.mirror mirror generation)
          (new_generation change.mirror mirror generation revision now)
          db
          db'
  unfolding install new_generation
  install-Installed change mirror generation revision now db db' h =
      let upserted = upsert_mirror (managed_row change.mirror mirror generation) db in
      let g = new_generation change.mirror mirror generation revision now in
      let settled = settle_runs-SameConfig change mirror now upserted in
      let same =
        settled.1 ∙ upsert_mirror-generations (managed_row change.mirror mirror generation) db in
      let (inserted, e, h') =
        >>=-eq-ok (insert_generation g (settle_runs change mirror now upserted)) _ h in
      let (new, ms, gs) = insert_generation-ok g _ inserted e in
      let rest =
        reconcile_schedule-SameConfig change mirror.document mirror.owner_node
          (eligibility change.mirror db) now inserted db' h' in
      record {
        mirrors = rest.0 ∙ ms ∙ settled.0;
        generations = rest.1 ∙ gs ∙ ap (λ (l : List GenerationRow). l ++ g ∷ []) same;
        new = subst (λ l. exists_where (is_generation change.mirror generation) l ≡ false) same new;
      }

  pub parse_name-same :
      (name : Text) {parsed : Text} → parse_name library name ≡ ok parsed → parsed ≡ name
  unfolding parse_name new_name
  parse_name-same name h = elim (Bool-cases (valid_name name)) [
    | inl t ↦ ground (arith, h)
    | inr f ↦ absurd (ground (arith, h))
  ]

  put_mirror-Installed :
      (bundle : CanonicalBundle) (revision : ℕ) (now : ℤ) (change : ConfigChange) (db db' : Db)
      → put_mirror library bundle revision now change db ≡ ok db'
      → (mirror : CanonicalMirror) × (generation : ℕ) × (desired change.mirror bundle
          ≡ some (mirror.owner_node, mirror.config_hash))
        × Installed change.mirror
            (managed_row change.mirror mirror generation)
            (new_generation change.mirror mirror generation revision now)
            db
            db'
  unfolding put_mirror desired
  put_mirror-Installed bundle revision now change db db' h =
      let (name, e, h') = >>=-eq-ok (parse_name library change.mirror) _ h in
      let same = parse_name-same change.mirror e in
      elim (Option-cases (get_mirror name bundle)) [
        | inl n ↦ absurd (ground (arith, h'))
        | inr ((_, mirror), found) ↦ elim (Option-cases change.to_generation) [
          | inl z ↦ absurd (ground (arith, h'))
          | inr (generation, g) ↦ (
            mirror,
            generation,
            ap demand (ap (λ n. get_mirror n bundle) (sym same) ∙ found),
            install-Installed change mirror generation revision now db db' (ground (arith, h')),
          )
        ]
      ]

  put_mirror-Synced :
      (bundle : CanonicalBundle) (revision : ℕ) (now : ℤ) (change : ConfigChange) (db db' : Db)
      → put_mirror library bundle revision now change db ≡ ok db'
      → Synced change.mirror (desired change.mirror bundle) db'
  unfolding managed_row new_generation
  put_mirror-Synced bundle revision now change db db' h =
      let (mirror, generation, want, i) =
        put_mirror-Installed bundle revision now change db db' h in
      subst (λ w. Synced change.mirror w db') (sym want)
        (Installed-Synced change.mirror (managed_row change.mirror mirror generation)
          (new_generation change.mirror mirror generation revision now) db db' i refl refl refl
          refl)

  put_mirror-Unchanged :
      (bundle : CanonicalBundle) (revision : ℕ) (now : ℤ) (change : ConfigChange) (db db' : Db)
      → put_mirror library bundle revision now change db ≡ ok db'
      → (other : Text) → text_eq other change.mirror ≡ false
      → Unchanged other db db'
  unfolding managed_row new_generation
  put_mirror-Unchanged bundle revision now change db db' h =
      let (mirror, generation, want, i) =
        put_mirror-Installed bundle revision now change db db' h in
      Installed-Unchanged change.mirror (managed_row change.mirror mirror generation)
        (new_generation change.mirror mirror generation revision now) db db' i refl refl

  -- A removal only names a mirror that the bundle lacks.
  abbrev pub Proper : CanonicalBundle → ConfigChange → Type 0
  Proper bundle change = change.kind ≡ ChangeKind.remove → get_mirror change.mirror bundle ≡ none

  -- A change makes its mirror what the bundle asks for.
  apply_as-Synced :
      (k : ChangeKind) (bundle : CanonicalBundle) (revision : ℕ) (now : ℤ) (change : ConfigChange)
      (db db' : Db)
      → (k ≡ ChangeKind.remove → get_mirror change.mirror bundle ≡ none)
      → apply_as library k bundle revision now change db ≡ ok db'
      → Synced change.mirror (desired change.mirror bundle) db'
  unfolding apply_as desired
  apply_as-Synced ChangeKind.remove bundle revision now change db db' proper h =
      subst (Synced change.mirror (desired change.mirror bundle)) (ok-injective h) (
        subst (λ w. Synced change.mirror w (remove_mirror change.mirror now db))
          (sym (ap demand (proper refl))) (remove_mirror-Synced change.mirror now db))
  apply_as-Synced ChangeKind.create bundle revision now change db db' proper h =
      put_mirror-Synced bundle revision now change db db' h
  apply_as-Synced ChangeKind.update bundle revision now change db db' proper h =
      put_mirror-Synced bundle revision now change db db' h
  apply_as-Synced ChangeKind.move bundle revision now change db db' proper h =
      put_mirror-Synced bundle revision now change db db' h

  apply_as-Unchanged :
      (k : ChangeKind) (bundle : CanonicalBundle) (revision : ℕ) (now : ℤ) (change : ConfigChange)
      (db db' : Db)
      → apply_as library k bundle revision now change db ≡ ok db'
      → (other : Text) → text_eq other change.mirror ≡ false
      → Unchanged other db db'
  unfolding apply_as
  apply_as-Unchanged ChangeKind.remove bundle revision now change db db' h other f =
      subst (Unchanged other db) (ok-injective h)
        (remove_mirror-Unchanged change.mirror now db other f)
  apply_as-Unchanged ChangeKind.create bundle revision now change db db' h other f =
      put_mirror-Unchanged bundle revision now change db db' h other f
  apply_as-Unchanged ChangeKind.update bundle revision now change db db' h other f =
      put_mirror-Unchanged bundle revision now change db db' h other f
  apply_as-Unchanged ChangeKind.move bundle revision now change db db' h other f =
      put_mirror-Unchanged bundle revision now change db db' h other f

  pub apply_change-Synced :
      (bundle : CanonicalBundle) (revision : ℕ) (now : ℤ) (change : ConfigChange) (db db' : Db)
      → Proper bundle change
      → apply_change library bundle revision now change db ≡ ok db'
      → Synced change.mirror (desired change.mirror bundle) db'
  unfolding apply_change
  apply_change-Synced bundle revision now change db db' proper h =
      apply_as-Synced change.kind bundle revision now change db db' proper h

  pub apply_change-Unchanged :
      (bundle : CanonicalBundle) (revision : ℕ) (now : ℤ) (change : ConfigChange) (db db' : Db)
      → apply_change library bundle revision now change db ≡ ok db'
      → (other : Text) → text_eq other change.mirror ≡ false
      → Unchanged other db db'
  unfolding apply_change
  apply_change-Unchanged bundle revision now change db db' h =
      apply_as-Unchanged change.kind bundle revision now change db db' h
