-- ===== src/Store/ManualRun/Soundness.antt =====
-- `create_manual_run` (crates/lmt-store/src/lib.rs) keeps the database valid.
use lzu_mirror_tools.Prelude.{
  ◌≡◌, refl, sym, subst, inl, inr, arith, ok, Result, >>=-eq-ok, ok-injective, Bool-cases,
  Option-cases, ◌||◌, not,
}
use lzu_mirror_tools.Prelude.Int.{ℤ}
use lzu_mirror_tools.Prelude.Text.{Text, text_eq}
use lzu_mirror_tools.Store.Rows.{Db, RunRow, StoreError, MirrorRow, GenerationRow, occupies}
use lzu_mirror_tools.Prelude.Tables.{find_where}
use lzu_mirror_tools.Store.Queries.{
  RunRecord, RunPolicySnapshot, insert_run, clear_intent, find_run_by_request, current_generations,
}
use lzu_mirror_tools.Store.ManualRun.{manual_row, insert_manual, create_new, create_manual_run}
use lzu_mirror_tools.Store.Invariant.{IsValid, Sound}
use lzu_mirror_tools.Store.Invariant.Statements.{Sound-refl, Sound-schedule}
use lzu_mirror_tools.Store.Invariant.Inserts.{insert_run-ok, insert_run-Sound}

module _ (policy : Text → Result StoreError RunPolicySnapshot) (run_id mirror request : Text)
    (now : ℤ) (db : Db) where
  insert_manual-Sound :
      (p : MirrorRow × GenerationRow) {record_db : RunRecord × Db}
      → IsValid db.runs db.attempts
      → insert_manual policy run_id mirror request now p db ≡ ok record_db
      → Sound db record_db.1
  unfolding insert_manual manual_row
  insert_manual-Sound (m, g) v h =
      let (snapshot, _, h') = >>=-eq-ok (policy g.config_toml) _ h in
      let row : RunRow = manual_row run_id mirror request now m snapshot in
      let (db', e, h'') = >>=-eq-ok (insert_run row db) _ h' in
      let (new, same) = insert_run-ok row db e in
      subst (λ (t : RunRecord × Db). Sound db t.1) (ok-injective h'')
        (Sound-schedule db db' mirror clear_intent
          (subst (Sound db) (sym same) (insert_run-Sound row db v new refl)))

  create_new-Sound :
      {result : RunRecord × Db}
      → IsValid db.runs db.attempts
      → create_new policy run_id mirror request now db ≡ ok result
      → Sound db result.1
  unfolding create_new
  create_new-Sound {result} v h =
      elim (Option-cases (find_where (λ p. text_eq p.0.name mirror) (current_generations db))) [
        | inl e ↦ absurd (ground arith)
        | inr (p, e) ↦ elim (Bool-cases (not p.0.managed || not p.0.enabled)) [
          | inl t ↦ absurd (ground arith)
          | inr f ↦ elim (Option-cases (find_where (occupies mirror) db.runs)) [
            | inr (r, e') ↦ absurd (ground arith)
            | inl e' ↦ insert_manual-Sound p {record_db = result} v (ground arith)
          ]
        ]
      ]

  -- A manual run leaves a valid database valid, freezes terminal runs and steps the others.
  pub create_manual_run-Sound :
      {result : RunRecord × Db}
      → IsValid db.runs db.attempts
      → create_manual_run policy run_id mirror request now db ≡ ok result
      → Sound db result.1
  unfolding create_manual_run
  create_manual_run-Sound {result} v h = elim (Option-cases (find_run_by_request request db)) [
    | inl e ↦ create_new-Sound {result = result} v (ground arith)
    | inr (r, e) ↦
        let same : db ≡ result.1 = ground arith in subst (Sound db) same (Sound-refl db v)
  ]
