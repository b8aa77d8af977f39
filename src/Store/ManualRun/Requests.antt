-- ===== src/Store/ManualRun/Requests.antt =====
-- What a manual request finds and leaves (`create_manual_run`, crates/lmt-store/src/lib.rs).
use lzu_mirror_tools.Prelude.{
  ◌≡◌, refl, sym, ap, ◌∙◌, true, false, none, some, inl, inr, arith, ok, Result, >>=-eq-ok,
  ok-injective, Bool-cases, Option-cases, ◌||◌, not, ◌++◌, ◌∷◌, [],
}
use lzu_mirror_tools.Prelude.Int.{ℤ}
use lzu_mirror_tools.Prelude.Text.{Text, text_eq, text_eq→eq, text_eq_refl}
use lzu_mirror_tools.Prelude.Tables.{find_where, exists_where}
use lzu_mirror_tools.Prelude.Tables.Select.{find_where-append, find_where-Mem, find_where-none}
use lzu_mirror_tools.Core.State.{RunState}
use lzu_mirror_tools.Store.Rows.{
  Db, RunRow, StoreError, MirrorRow, GenerationRow, occupies, is_request,
}
use lzu_mirror_tools.Store.Queries.{
  RunRecord, RunPolicySnapshot, map_run, insert_run, update_schedule, find_run_by_request,
  current_generations,
}
use lzu_mirror_tools.Store.ManualRun.{manual_row, insert_manual, create_new, create_manual_run}
use lzu_mirror_tools.Store.Invariant.Inserts.{insert_run-ok}

-- What a request that was not known has been given: the row that was inserted, and why it could be.
pub record IsCreated (run_id mirror request : Text) (now : ℤ) (db : Db) (r : RunRecord) (db' : Db)
    : Type 0 where
  pub m : MirrorRow
  pub row : RunRow
  pub answer : r ≡ map_run row
  pub inserted : db'.runs ≡ db.runs ++ row ∷ []
  pub same_attempts : db'.attempts ≡ db.attempts
  pub eligible : (m.managed ≡ true) × (m.enabled ≡ true) × (m.name ≡ mirror)
  pub free : exists_where (occupies mirror) db.runs ≡ false
  pub as_requested :
      (row.id ≡ run_id)
      × (row.mirror_name ≡ mirror)
      × (row.manual_request_id ≡ some request)
      × (row.state ≡ RunState.pending)
      × (row.owner_node ≡ m.owner_node)
      × (row.mirror_generation ≡ m.current_generation)
      × (row.created_at_ms ≡ now)

module _ (policy : Text → Result StoreError RunPolicySnapshot) (run_id mirror request : Text)
    (now : ℤ) (db : Db) where
  insert_manual-IsCreated :
      (p : MirrorRow × GenerationRow) (r : RunRecord) (db' : Db)
      → (p.0.managed ≡ true) × (p.0.enabled ≡ true) × (p.0.name ≡ mirror)
      → exists_where (occupies mirror) db.runs ≡ false
      → insert_manual policy run_id mirror request now p db ≡ ok (r, db')
      → IsCreated run_id mirror request now db r db'
  unfolding insert_manual manual_row update_schedule
  insert_manual-IsCreated (m, g) r db' eligible free h =
      let (snapshot, _, h') = >>=-eq-ok (policy g.config_toml) _ h in
      let row : RunRow = manual_row run_id mirror request now m snapshot in
      let (db1, e, h'') = >>=-eq-ok (insert_run row db) _ h' in
      let (new, same) = insert_run-ok row db e in
      let last = ok-injective h'' in
      record {
        m = m;
        row = row;
        answer = sym (ap (λ (t : RunRecord × Db). t.0) last);
        inserted = sym (ap (λ (t : RunRecord × Db). t.1.runs) last) ∙ ap (λ (d : Db). d.runs) same;
        same_attempts =
            sym (ap (λ (t : RunRecord × Db). t.1.attempts) last) ∙ ap (λ (d : Db). d.attempts) same;
        eligible = eligible;
        free = free;
        as_requested = (refl, refl, refl, refl, refl, refl, refl);
      }

  create_new-IsCreated :
      (r : RunRecord) (db' : Db)
      → create_new policy run_id mirror request now db ≡ ok (r, db')
      → IsCreated run_id mirror request now db r db'
  unfolding create_new
  create_new-IsCreated r db' h =
      elim (Option-cases (find_where (λ p. text_eq p.0.name mirror) (current_generations db))) [
        | inl e ↦ absurd (ground arith)
        | inr (p, e) ↦ elim (Bool-cases (not p.0.managed || not p.0.enabled)) [
          | inl t ↦ absurd (ground arith)
          | inr f ↦ elim (Option-cases (find_where (occupies mirror) db.runs)) [
            | inr (x, e') ↦ absurd (ground arith)
            | inl e' ↦
                insert_manual-IsCreated p r db'
                  (
                    ground arith,
                    ground arith,
                    text_eq→eq p.0.name mirror
                        (find_where-Mem (λ (q : MirrorRow × GenerationRow). text_eq q.0.name mirror)
                          (current_generations db) e).1,
                  )
                  (find_where-none _ db.runs e') (ground arith)
          ]
        ]
      ]

  pub create_manual_run-IsCreated :
      (r : RunRecord) (db' : Db)
      → find_run_by_request request db ≡ none
      → create_manual_run policy run_id mirror request now db ≡ ok (r, db')
      → IsCreated run_id mirror request now db r db'
  unfolding create_manual_run
  create_manual_run-IsCreated r db' unknown h = create_new-IsCreated r db' (ground arith)

  -- A request that was answered is answered the same when it is repeated, at any later time and
  -- whatever identifier and policy there would be, and the repetition changes nothing.
  pub create_manual_run-again :
      (policy' : Text → Result StoreError RunPolicySnapshot) (run_id' : Text) (now' : ℤ)
      (r : RunRecord) (db' : Db)
      → create_manual_run policy run_id mirror request now db ≡ ok (r, db')
      → create_manual_run policy' run_id' mirror request now' db' ≡ ok (r, db')
  unfolding create_manual_run find_run_by_request is_request
  create_manual_run-again policy' run_id' now' r db' h =
      elim (Option-cases (find_run_by_request request db)) [
        | inl e ↦
            let c = create_manual_run-IsCreated r db' e h in
            let found : find_run_by_request request db' ≡ some c.row =
              ap (find_where (λ (x : RunRow). is_request request x.manual_request_id)) c.inserted
              ∙ find_where-append _ db.runs c.row e
                  (ap (is_request request) c.as_requested.2 ∙ text_eq_refl request) in
            let mine : text_eq c.row.mirror_name mirror ≡ true =
              ap (λ n. text_eq n mirror) c.as_requested.1 ∙ text_eq_refl mirror in
            ground (arith, c.answer)
        | inr (x, e) ↦ ground arith
      ]
