-- ===== src/Store/Invariant/Statements.antt =====
-- The statements that update runs and attempts keep `IsValid` and step their rows.
use lzu_mirror_tools.Prelude.{
  ◌≡◌, refl, sym, ap, ◌∙◌, Bool, true, false, List, Memᴰ, inl, inr, arith, if◌then◌else◌,
  and_eq_true, is_some, ap₂, subst, ◌&&◌, ◌==◌,
}
use lzu_mirror_tools.Prelude.Text.{Text, text_eq, text_eq_comm}
use lzu_mirror_tools.Prelude.Tables.{All, Evolves, Distinct, update_where}
use lzu_mirror_tools.Prelude.Tables.Select.{All-of_Mem}
use lzu_mirror_tools.Prelude.Tables.Distinct.{updated, Distinct-unique, Distinct-update_where}
use lzu_mirror_tools.Prelude.Tables.Evolution.{
  Evolves-refl, Evolves-trans, Evolves-update_where, Evolves-Mem, All-update_where, All-map,
}
use lzu_mirror_tools.Core.State.Order.{Advances-trans}
use lzu_mirror_tools.Core.State.{run_is_terminal}
use lzu_mirror_tools.Store.Rows.{RunRow, AttemptRow, Db, is_active, is_attempt}
use lzu_mirror_tools.Core.Schedule.{ScheduleRuntime}
use lzu_mirror_tools.Store.Queries.{has_id, update_run, update_schedule}
use lzu_mirror_tools.Store.Invariant.{
  same_run, both_occupy, same_request, same_id, same_attempt, Counted, Backed, IsValid, RunStep,
  AttemptStep, Sound,
}

pub RunStep-refl : (r : RunRow) → RunStep r r
RunStep-refl r = ground arith

pub RunStep-trans : (r s t : RunRow) → RunStep r s → RunStep s t → RunStep r t
RunStep-trans r s t h k = record {
  same_id = cc;
  same_mirror = cc;
  same_generation = cc;
  same_owner = cc;
  same_trigger = cc;
  same_created = cc;
  same_request = cc;
  frozen = λ p. k.frozen (ap (λ x. run_is_terminal x.state) (h.frozen p) ∙ p) ∙ h.frozen p;
  not_reset = λ p. h.not_reset (k.not_reset p);
  cancel_kept = λ p. k.cancel_kept (ap is_some (h.cancel_kept p) ∙ p) ∙ h.cancel_kept p;
  counted = omega arith;
}

pub AttemptStep-refl : (a : AttemptRow) → AttemptStep a a
AttemptStep-refl a = ground arith

pub AttemptStep-trans : (a b c : AttemptRow) → AttemptStep a b → AttemptStep b c → AttemptStep a c
AttemptStep-trans a b c h k = record {
  same_run = cc;
  same_number = cc;
  same_spec = cc;
  same_hash = cc;
  advances = Advances-trans a.state b.state c.state h.advances k.advances;
  sequence = omega arith;
  deliveries = omega arith;
}

-- Two transactions in a row.
pub Sound-trans : (db db' db'' : Db) → Sound db db' → Sound db' db'' → Sound db db''
Sound-trans db db' db'' h k = record {
  valid = k.valid;
  runs = Evolves-trans RunStep RunStep-trans db.runs db'.runs db''.runs h.runs k.runs;
  attempts =
      Evolves-trans AttemptStep AttemptStep-trans db.attempts db'.attempts db''.attempts h.attempts
        k.attempts;
}

-- A transaction that writes neither runs nor attempts.
pub Sound-refl : (db : Db) → IsValid db.runs db.attempts → Sound db db
Sound-refl db v = record {
  valid = v;
  runs = Evolves-refl RunStep RunStep-refl db.runs;
  attempts = Evolves-refl AttemptStep AttemptStep-refl db.attempts;
}

-- An attempt stays counted.
pub Counted-step :
    (runs runs' : List RunRow)
    → Evolves RunStep runs runs'
    → (a : AttemptRow) → Counted runs a
    → Counted runs' a
Counted-step runs runs' steps a (r, m, e, l) =
    let (r', m', s) = Evolves-Mem RunStep runs runs' steps m in
    (r', m', s.same_id ∙ e, omega (arith, s.counted))

-- What every UPDATE of runs keeps: the keys, and no run that is at an end is made active.
pub record KeepsKeys (p : RunRow → Bool) (f : RunRow → RunRow) : Type 0 where
  pub id : (x : RunRow) → (f x).id ≡ x.id
  pub mirror : (x : RunRow) → (f x).mirror_name ≡ x.mirror_name
  pub request : (x : RunRow) → (f x).manual_request_id ≡ x.manual_request_id
  pub active : (x : RunRow) → p x ≡ true → is_active (f x).state ≡ true → is_active x.state ≡ true

module _ (p : RunRow → Bool) (f : RunRow → RunRow) (keys : KeepsKeys p f) where
  updated_keys :
      (b : Bool) (x : RunRow)
      → p x ≡ b
      → let x' = if b then f x else x in
        (x'.id ≡ x.id)
        × (x'.mirror_name ≡ x.mirror_name)
        × (x'.manual_request_id ≡ x.manual_request_id)
        × (is_active x'.state ≡ true → is_active x.state ≡ true)
  updated_keys true x e = (keys.id x, keys.mirror x, keys.request x, keys.active x e)
  updated_keys false x e = (refl, refl, refl, λ h. h)

  keep_both_occupy :
      (x y : RunRow) → both_occupy (updated p f x) (updated p f y) ≡ true → both_occupy x y ≡ true
  keep_both_occupy x y h =
      let (a, t) = and_eq_true (is_active (updated p f x).state) _ h in
      let (e, b) =
        and_eq_true (text_eq (updated p f x).mirror_name (updated p f y).mirror_name) _ t in
      let (_, m, _, k) = updated_keys (p x) x refl in
      let (_, n, _, l) = updated_keys (p y) y refl in rw (k a, l b, ap₂ text_eq (sym m) (sym n) ∙ e)

  -- An UPDATE of runs that keeps their keys keeps the indexes.
  pub update_runs-keys :
      (runs : List RunRow) (attempts : List AttemptRow)
      → IsValid runs attempts
      → Distinct same_run (update_where p f runs)
        × Distinct both_occupy (update_where p f runs)
        × Distinct same_request (update_where p f runs)
  update_runs-keys runs attempts v = (
    Distinct-update_where same_run p f runs
        (λ x y h.
          ap₂ text_eq (sym (updated_keys (p x) x refl).0) (sym (updated_keys (p y) y refl).0) ∙ h)
        v.runs_keyed,
    Distinct-update_where both_occupy p f runs keep_both_occupy v.mirrors_free,
    Distinct-update_where same_request p f runs
        (λ x y h.
          ap₂ same_id (sym (updated_keys (p x) x refl).2) (sym (updated_keys (p y) y refl).2) ∙ h)
        v.requests_keyed,
  )

  -- So is one that keeps the counts too.
  pub update_runs-Sound :
      (db : Db)
      → IsValid db.runs db.attempts
      → ((x : RunRow) → (f x).attempt_count ≡ x.attempt_count)
      → All (λ x. p x ≡ true → RunStep x (f x)) db.runs
      → Sound db (record db { runs = update_where p f db.runs })
  update_runs-Sound db v count steps =
      let evolves = Evolves-update_where RunStep RunStep-refl p f db.runs steps in
      record {
        valid = record {
          runs_keyed = (update_runs-keys db.runs db.attempts v).0;
          mirrors_free = (update_runs-keys db.runs db.attempts v).1;
          requests_keyed = (update_runs-keys db.runs db.attempts v).2;
          attempts_keyed = v.attempts_keyed;
          attempts_counted =
              All-map (Counted db.runs) db.attempts
                (Counted-step db.runs (update_where p f db.runs) evolves) v.attempts_counted;
          counts_backed =
              All-update_where (Backed db.attempts) p f db.runs (λ x b. rebacked x b)
                v.counts_backed;
        };
        runs = evolves;
        attempts = Evolves-refl AttemptStep AttemptStep-refl db.attempts;
      }
    where
      rebacked : (x : RunRow) → Backed db.attempts x → Backed db.attempts (f x)
      rebacked x (inl z) = inl (count x ∙ z)
      rebacked x (inr (a, m, e, n)) = inr (a, m, e ∙ sym (keys.id x), n ∙ sym (count x))

-- An identifier selects one run at most.
pub has_id_unique :
    (runs : List RunRow)
    → Distinct same_run runs
    → {r x : RunRow} → Memᴰ r runs
    → Memᴰ x runs
    → has_id r.id x ≡ true
    → x ≡ r
unfolding has_id
has_id_unique runs d {r} {x} m n h =
    Distinct-unique same_run runs (λ a b. text_eq_comm a.id b.id) d n m h

-- An UPDATE of one run by its identifier, of which only that run's step is to be shown.
pub update_run-Sound :
    (f : RunRow → RunRow) (db : Db) (r : RunRow)
    → IsValid db.runs db.attempts
    → Memᴰ r db.runs
    → ((x : RunRow)
        → ((f x).id ≡ x.id)
          × ((f x).mirror_name ≡ x.mirror_name)
          × ((f x).manual_request_id ≡ x.manual_request_id)
          × ((f x).attempt_count ≡ x.attempt_count)
          × (is_active (f x).state ≡ true → is_active x.state ≡ true))
    → RunStep r (f r)
    → Sound db (update_run r.id f db)
unfolding update_run
update_run-Sound f db r v m keys s =
    update_runs-Sound (has_id r.id) f
      (record {
        id = λ x. (keys x).0;
        mirror = λ x. (keys x).1;
        request = λ x. (keys x).2;
        active = λ x _. (keys x).4;
      })
      db v (λ x. (keys x).3)
      (All-of_Mem _ db.runs
        (λ x n h. subst (λ y. RunStep y (f y)) (sym (has_id_unique db.runs v.runs_keyed m n h)) s))

-- The key of an attempt selects one attempt at most.
pub is_attempt_unique :
    (attempts : List AttemptRow)
    → Distinct same_attempt attempts
    → {a x : AttemptRow} → Memᴰ a attempts
    → Memᴰ x attempts
    → is_attempt a.run_id a.attempt_no x ≡ true
    → x ≡ a
unfolding is_attempt
is_attempt_unique attempts d {a} {x} m n h =
    Distinct-unique same_attempt attempts (λ y z. ground (arith, text_eq_comm y.run_id z.run_id)) d
      n m h

-- An UPDATE of attempts that keeps their keys and steps the rows that it selects.
pub update_attempts-Sound :
    (p : AttemptRow → Bool) (f : AttemptRow → AttemptRow) (db : Db)
    → IsValid db.runs db.attempts
    → ((x : AttemptRow) → ((f x).run_id ≡ x.run_id) × ((f x).attempt_no ≡ x.attempt_no))
    → All (λ x. p x ≡ true → AttemptStep x (f x)) db.attempts
    → Sound db (record db { attempts = update_where p f db.attempts })
update_attempts-Sound p f db v keys steps =
    let evolves = Evolves-update_where AttemptStep AttemptStep-refl p f db.attempts steps in
    record {
      valid = record {
        runs_keyed = v.runs_keyed;
        mirrors_free = v.mirrors_free;
        requests_keyed = v.requests_keyed;
        attempts_keyed = Distinct-update_where same_attempt p f db.attempts same v.attempts_keyed;
        attempts_counted =
            All-update_where (Counted db.runs) p f db.attempts
              (λ x c. (c.0, c.1, c.2 ∙ sym (keys x).0, rw (keys x).1 c.3)) v.attempts_counted;
        counts_backed =
            All-map (Backed db.attempts) db.runs (λ r b. rebacked evolves r b) v.counts_backed;
      };
      runs = Evolves-refl RunStep RunStep-refl db.runs;
      attempts = evolves;
    }
  where
    kept :
        (b : Bool) (x : AttemptRow)
        → let x' = if b then f x else x in (x'.run_id ≡ x.run_id) × (x'.attempt_no ≡ x.attempt_no)
    kept true x = keys x
    kept false x = (refl, refl)

    same :
        (x y : AttemptRow)
        → same_attempt (updated p f x) (updated p f y) ≡ true
        → same_attempt x y ≡ true
    same x y h =
        let (e, n) = kept (p x) x in
        let (e', n') = kept (p y) y in
        ap₂ (λ (b : Bool) (c : Bool). b && c) (ap₂ text_eq (sym e) (sym e'))
          (ap₂ ◌==◌ (sym n) (sym n'))
        ∙ h

    rebacked :
        Evolves AttemptStep db.attempts (update_where p f db.attempts)
        → (r : RunRow) → Backed db.attempts r
        → Backed (update_where p f db.attempts) r
    rebacked evolves r (inl z) = inl z
    rebacked evolves r (inr (a, m, e, n)) =
        let (a', m', s) =
          Evolves-Mem AttemptStep db.attempts (update_where p f db.attempts) evolves m in
        inr (a', m', s.same_run ∙ e, s.same_number ∙ n)

-- A statement on schedules alone.
pub Sound-schedule :
    (db db' : Db) (mirror : Text) (f : ScheduleRuntime → ScheduleRuntime)
    → Sound db db'
    → Sound db (update_schedule mirror f db')
unfolding update_schedule
Sound-schedule db db' mirror f h = record { valid = h.valid; runs = h.runs; attempts = h.attempts }
