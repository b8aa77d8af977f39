-- ===== src/Store/Invariant/Inserts.antt =====
-- The INSERTs of runs and attempts keep `IsValid`, since they fail where they would not.
use lzu_mirror_tools.Prelude.{
  ℕ, ◌≤◌, ◌≡◌, refl, sym, ap, ◌∙◌, Bool, true, false, Option, none, some, List, [], ◌∷◌, ◌++◌, Memᴰ,
  inl, inr, arith, ok, Bool-cases, ◌&&◌, subst, if◌then◌else◌,
}
use mathlib.Core.List.Memᴰ
use lzu_mirror_tools.Prelude.Text.{Text, text_eq, text_eq_comm, text_eq→eq, text_eq_refl}
use lzu_mirror_tools.Prelude.Tables.{All, exists_where, Distinct, update_where, Evolves}
use lzu_mirror_tools.Prelude.Tables.Select.{exists_where-All, All-of_Mem}
use lzu_mirror_tools.Prelude.Tables.Distinct.{Distinct-append}
use lzu_mirror_tools.Prelude.Tables.Evolution.{
  Evolves-append, Evolves-refl, Evolves-update_where, All-append, All-map, All-updated_rows,
  Mem-update_where,
}
use lzu_mirror_tools.Store.Rows.{
  RunRow, AttemptRow, Db, is_active, is_request, is_attempt, occupies, violates_keys, has_request,
}
use lzu_mirror_tools.Store.Queries.{insert_run, insert_attempt, has_id}
use lzu_mirror_tools.Store.Invariant.{
  same_run, both_occupy, same_request, same_id, same_attempt, Counted, Backed, IsValid, RunStep,
  AttemptStep, Sound,
}
use lzu_mirror_tools.Core.State.{run_is_terminal}
use lzu_mirror_tools.Store.Invariant.Statements.{
  RunStep-refl, AttemptStep-refl, Counted-step, update_runs-keys, has_id_unique, KeepsKeys,
}

-- A row that violates no key.
pub record IsNew (row : RunRow) (runs : List RunRow) : Type 0 where
  pub no_run : exists_where (λ r. text_eq r.id row.id) runs ≡ false
  pub no_request : has_request row.manual_request_id runs ≡ false
  pub no_active : (is_active row.state && exists_where (occupies row.mirror_name) runs) ≡ false

pub violates_keys-IsNew :
    (row : RunRow) (runs : List RunRow) → violates_keys row runs ≡ false → IsNew row runs
unfolding violates_keys
violates_keys-IsNew row runs h = ground arith

pub insert_run-ok :
    (row : RunRow) (db : Db) {db' : Db}
    → insert_run row db ≡ ok db'
    → IsNew row db.runs × (db' ≡ record db { runs = db.runs ++ row ∷ [] })
unfolding insert_run
insert_run-ok row db h = elim (Bool-cases (violates_keys row db.runs)) [
  | inl t ↦ absurd (ground arith)
  | inr f ↦ (violates_keys-IsNew row db.runs f, ground arith)
]

not_occupied :
    (row : RunRow) (runs : List RunRow)
    → (is_active row.state && exists_where (occupies row.mirror_name) runs) ≡ false
    → All (λ x. both_occupy x row ≡ false) runs
unfolding occupies
not_occupied row runs h = elim (Bool-cases (is_active row.state)) [
  | inl t ↦
      All-map _ runs (λ x e. ground arith)
        (exists_where-All (occupies row.mirror_name) runs (ground arith))
  | inr f ↦ All-of_Mem _ runs (λ x m. ground arith)
]

no_same_request :
    (q : Option Text) (runs : List RunRow)
    → has_request q runs ≡ false
    → All (λ x. same_id x.manual_request_id q ≡ false) runs
unfolding has_request is_request
no_same_request none runs h = All-of_Mem _ runs (λ x m. ground arith)
no_same_request (some q) runs h =
    All-map _ runs (λ x e. flip x.manual_request_id e) (exists_where-All _ runs h)
  where
    flip : (o : Option Text) → is_request q o ≡ false → same_id o (some q) ≡ false
    flip none e = refl
    flip (some r) e = text_eq_comm q r ∙ e

-- A new run that has no attempt yet.
pub insert_run-Sound :
    (row : RunRow) (db : Db)
    → IsValid db.runs db.attempts
    → IsNew row db.runs
    → row.attempt_count ≡ 0
    → Sound db (record db { runs = db.runs ++ row ∷ [] })
insert_run-Sound row db v new zero_count =
    let evolves = Evolves-append RunStep RunStep-refl db.runs (row ∷ []) in
    record {
      valid = record {
        runs_keyed =
            Distinct-append same_run db.runs row v.runs_keyed
              (exists_where-All _ db.runs new.no_run);
        mirrors_free =
            Distinct-append both_occupy db.runs row v.mirrors_free
              (not_occupied row db.runs new.no_active);
        requests_keyed =
            Distinct-append same_request db.runs row v.requests_keyed
              (no_same_request row.manual_request_id db.runs new.no_request);
        attempts_keyed = v.attempts_keyed;
        attempts_counted =
            All-map (Counted db.runs) db.attempts
              (Counted-step db.runs (db.runs ++ row ∷ []) evolves) v.attempts_counted;
        counts_backed =
            All-append (Backed db.attempts) db.runs row v.counts_backed (inl zero_count);
      };
      runs = evolves;
      attempts = Evolves-refl AttemptStep AttemptStep-refl db.attempts;
    }

pub insert_attempt-ok :
    (row : AttemptRow) (db : Db) {db' : Db}
    → insert_attempt row db ≡ ok db'
    → (exists_where (is_attempt row.run_id row.attempt_no) db.attempts ≡ false)
      × (db' ≡ record db { attempts = db.attempts ++ row ∷ [] })
unfolding insert_attempt
insert_attempt-ok row db h = (ground arith, ground arith)

abbrev counts : ℕ → RunRow → RunRow
counts number r = record r { attempt_count = number; retry_due_at_ms = none }

counts-KeepsKeys : (id : Text) (number : ℕ) → KeepsKeys (has_id id) (counts number)
counts-KeepsKeys id number = record {
  id = λ x. refl;
  mirror = λ x. refl;
  request = λ x. refl;
  active = λ x p h. h;
}

Backed-append :
    (attempts : List AttemptRow) (row : AttemptRow) (r : RunRow)
    → Backed attempts r
    → Backed (attempts ++ row ∷ []) r
Backed-append attempts row r (inl z) = inl z
Backed-append attempts row r (inr (a, m, e, n)) = inr (a, Memᴰ.append_left (row ∷ []) m, e, n)

-- A new attempt of a run that is not at an end, with the count set to its number: the two statements
-- that write a dispatch.
pub dispatch-Sound :
    (row : AttemptRow) (db : Db) (r : RunRow)
    → IsValid db.runs db.attempts
    → Memᴰ r db.runs
    → r.id ≡ row.run_id
    → r.attempt_count ≤ row.attempt_no
    → run_is_terminal r.state ≡ false
    → exists_where (is_attempt row.run_id row.attempt_no) db.attempts ≡ false
    → Sound db (record db {
      runs = update_where (has_id row.run_id) (counts row.attempt_no) db.runs;
      attempts = db.attempts ++ row ∷ [];
    })
unfolding is_attempt has_id
dispatch-Sound row db r v m e l active new = record {
  valid = record {
    runs_keyed = keys.0;
    mirrors_free = keys.1;
    requests_keyed = keys.2;
    attempts_keyed =
        Distinct-append same_attempt db.attempts row v.attempts_keyed
          (exists_where-All _ db.attempts new);
    attempts_counted =
        All-append (Counted runs') db.attempts row
          (All-map (Counted db.runs) db.attempts (Counted-step db.runs runs' evolves)
            v.attempts_counted)
          (
            counts row.attempt_no r,
            Mem-update_where (has_id row.run_id) _ db.runs m hit,
            e,
            omega arith,
          );
    counts_backed =
        All-updated_rows (Backed attempts') (has_id row.run_id) (counts row.attempt_no) db.runs (
          All-map (Backed db.attempts) db.runs (λ x b. backed x (has_id row.run_id x) refl b)
            v.counts_backed);
  };
  runs = evolves;
  attempts = Evolves-append AttemptStep AttemptStep-refl db.attempts (row ∷ []);
}
  where
    runs' : List RunRow
    runs' = update_where (has_id row.run_id) (counts row.attempt_no) db.runs

    attempts' : List AttemptRow
    attempts' = db.attempts ++ row ∷ []

    hit : has_id row.run_id r ≡ true
    hit = rw e (text_eq_refl row.run_id)

    keys : Distinct same_run runs' × Distinct both_occupy runs' × Distinct same_request runs'
    keys =
        update_runs-keys (has_id row.run_id) (counts row.attempt_no)
          (counts-KeepsKeys row.run_id row.attempt_no) db.runs db.attempts v

    step :
        (x : RunRow)
        → Memᴰ x db.runs
        → has_id row.run_id x ≡ true
        → RunStep x (counts row.attempt_no x)
    step x n h =
        let same = has_id_unique db.runs v.runs_keyed m n (ap (λ i. text_eq x.id i) e ∙ h) in
        subst (λ y. RunStep y (counts row.attempt_no y)) (sym same) (ground arith)

    evolves : Evolves RunStep db.runs runs'
    evolves =
        Evolves-update_where RunStep RunStep-refl (has_id row.run_id) (counts row.attempt_no)
          db.runs (All-of_Mem _ db.runs step)

    backed :
        (x : RunRow) (b : Bool)
        → has_id row.run_id x ≡ b
        → Backed db.attempts x
        → Backed attempts' (if b then counts row.attempt_no x else x)
    backed x true h k = inr (
      row,
      Memᴰ.append_right db.attempts (Memᴰ.head refl),
      sym (text_eq→eq x.id row.run_id h),
      refl,
    )
    backed x false h k = Backed-append db.attempts row x k
