-- ===== src/Store/Revisions/Settling.antt =====
-- What `cancel_undispatched_pending` and `finalize_ineligible_retries` (crates/lmt-store/src/lib.rs) do
-- to the runs and the attempts keeps the database valid.
use lzu_mirror_tools.Prelude.{
  ◌≡◌, ◌⊎◌, refl, sym, subst, ap, ap₂, true, List, [], ◌∷◌, inl, inr, arith, Bool-cases, Memᴰ,
}
use lzu_mirror_tools.Prelude.Int.{ℤ}
use lzu_mirror_tools.Prelude.Text.{Text, text_eq, text_eq→eq}
use lzu_mirror_tools.Prelude.Tables.{All, update_where, where_rows, join}
use lzu_mirror_tools.Prelude.Tables.Select.{All-of_Mem, All-Mem, where_rows-Mem, join-Mem}
use lzu_mirror_tools.Prelude.Tables.Evolution.{Mem-update_where, Mem-update_where_kept}
use lzu_mirror_tools.Core.State.{is_terminal, run_is_terminal}
use lzu_mirror_tools.Store.Invariant.{IsValid, Sound}
use lzu_mirror_tools.Store.Invariant.Statements.{
  Sound-refl, Sound-trans, RunStep-refl, update_run-Sound, update_runs-Sound, update_attempts-Sound,
  has_id_unique, is_attempt_unique,
}
use lzu_mirror_tools.Store.Rows.{
  Db, RunRow, AttemptRow, is_active, is_pending, is_running, is_queued, is_attempt,
}
use lzu_mirror_tools.Store.Queries.{has_id, update_run}
use lzu_mirror_tools.Store.Revisions.Effects.{
  is_undelivered, cancel_queued, is_unstarted, cancel_unstarted, cancel_attempts_of, cancel_runs_of,
  cancel_undispatched_pending, is_waiting, is_latest, finalize, finalize_all,
  finalize_ineligible_retries,
}

cancel_attempts_of-Sound :
    (mirror : Text) (now : ℤ) (db : Db)
    → IsValid db.runs db.attempts
    → Sound db (cancel_attempts_of mirror now db)
unfolding cancel_attempts_of cancel_queued is_undelivered is_queued is_terminal
cancel_attempts_of-Sound mirror now db v =
    update_attempts-Sound (is_undelivered mirror db) (cancel_queued now) db v (λ x. (refl, refl))
      (All-of_Mem _ db.attempts (λ x m h. ground arith))

cancel_runs_of-Sound :
    (mirror : Text) (now : ℤ) (db : Db)
    → IsValid db.runs db.attempts
    → Sound db (cancel_runs_of mirror now db)
unfolding cancel_runs_of cancel_unstarted is_unstarted is_pending is_active run_is_terminal
cancel_runs_of-Sound mirror now db v =
    update_runs-Sound (is_unstarted mirror db) (cancel_unstarted now)
      (record {
        id = λ x. refl;
        mirror = λ x. refl;
        request = λ x. refl;
        active = λ x t h. ground arith;
      })
      db v (λ x. refl) (All-of_Mem _ db.runs (λ x m h. ground arith))

pub cancel_undispatched_pending-Sound :
    (mirror : Text) (now : ℤ) (db : Db)
    → IsValid db.runs db.attempts
    → Sound db (cancel_undispatched_pending mirror now db)
unfolding cancel_undispatched_pending
cancel_undispatched_pending-Sound mirror now db v =
    let s = cancel_attempts_of-Sound mirror now db v in
    Sound-trans db _ _ s
      (cancel_runs_of-Sound mirror now (cancel_attempts_of mirror now db) s.valid)

-- Pairs to finalize: each run is there, running or finalized by its pair already, and a run occurs
-- with one attempt only.
abbrev Ready : ℤ → List RunRow → RunRow × AttemptRow → Type 0
Ready now runs (r, a) = (is_running r.state ≡ true) × (Memᴰ r runs ⊎ Memᴰ (finalize a now r) runs)

abbrev Agree : List (RunRow × AttemptRow) → Type 0
Agree ps =
    (p q : RunRow × AttemptRow) → Memᴰ p ps → Memᴰ q ps → text_eq q.0.id p.0.id ≡ true → q ≡ p

finalize_run-Sound :
    (now : ℤ) (db : Db) (r : RunRow) (a : AttemptRow)
    → IsValid db.runs db.attempts
    → Ready now db.runs (r, a)
    → Sound db (update_run r.id (finalize a now) db)
unfolding finalize is_running is_active is_pending run_is_terminal
finalize_run-Sound now db r a v (running, inl m) =
    update_run-Sound (finalize a now) db r v m (λ x. (refl, refl, refl, refl, λ h. ground arith))
      (ground arith)
finalize_run-Sound now db r a v (running, inr m) =
    update_run-Sound (finalize a now) db (finalize a now r) v m
      (λ x. (refl, refl, refl, refl, λ h. ground arith)) (RunStep-refl (finalize a now r))

Ready-update :
    (now : ℤ) (runs : List RunRow) (r : RunRow) (a : AttemptRow) (q : RunRow × AttemptRow)
    → (text_eq q.0.id r.id ≡ true → q ≡ (r, a))
    → Ready now runs q
    → Ready now (update_where (has_id r.id) (finalize a now) runs) q
unfolding finalize has_id
Ready-update now runs r a (s, b) agree (running, there) = (
  running,
  elim (Bool-cases (text_eq s.id r.id)) [
    | inl t ↦ inr (moved t (agree t) there)
    | inr f ↦ elim there [
      | inl m ↦ inl (Mem-update_where_kept (has_id r.id) (finalize a now) runs m f)
      | inr m ↦ inr (Mem-update_where_kept (has_id r.id) (finalize a now) runs m f)
    ]
  ],
)
  where
    moved :
        text_eq s.id r.id ≡ true
        → ◌≡◌ {A = RunRow × AttemptRow} (s, b) (r, a)
        → (Memᴰ s runs ⊎ Memᴰ (finalize b now s) runs)
        → Memᴰ (finalize b now s) (update_where (has_id r.id) (finalize a now) runs)
    moved t e (inl m) =
        subst
          (λ (c : AttemptRow).
            Memᴰ (finalize c now s) (update_where (has_id r.id) (finalize a now) runs))
          (sym (ap (λ (p : RunRow × AttemptRow). p.1) e))
          (Mem-update_where (has_id r.id) (finalize a now) runs m t)
    moved t e (inr m) =
        subst
          (λ (c : AttemptRow).
            Memᴰ (finalize c now (finalize b now s))
              (update_where (has_id r.id) (finalize a now) runs))
          (sym (ap (λ (p : RunRow × AttemptRow). p.1) e))
          (Mem-update_where (has_id r.id) (finalize a now) runs m t)

finalize_all-Sound :
    (now : ℤ) (ps : List (RunRow × AttemptRow)) (db : Db)
    → IsValid db.runs db.attempts
    → All (Ready now db.runs) ps
    → Agree ps
    → Sound db (finalize_all now ps db)
unfolding finalize_all update_run
finalize_all-Sound now [] db v h agree = Sound-refl db v
finalize_all-Sound now ((r, a) ∷ ps) db v h agree =
    let s = finalize_run-Sound now db r a v h.0 in
    let there =
      All-of_Mem (Ready now (update_where (has_id r.id) (finalize a now) db.runs)) ps (λ q m.
        Ready-update now db.runs r a q (λ t. agree (r, a) q (Memᴰ.head refl) (Memᴰ.tail m) t)
          (All-Mem (Ready now db.runs) ps h.1 m)) in
    Sound-trans db _ _ s (
      finalize_all-Sound now ps (update_run r.id (finalize a now) db) s.valid there
        (λ p q m n. agree p q (Memᴰ.tail m) (Memᴰ.tail n)))

latest_key :
    (r : RunRow) (a b : AttemptRow)
    → is_latest r a ≡ true
    → is_latest r b ≡ true
    → is_attempt a.run_id a.attempt_no b ≡ true
unfolding is_latest is_attempt
latest_key r a b h k =
    let e : a.run_id ≡ r.id = text_eq→eq a.run_id r.id (ground arith) in rw e (ground arith)

latest-Agree :
    (mirror : Text) (db : Db)
    → IsValid db.runs db.attempts
    → Agree (where_rows (is_waiting mirror) (join is_latest db.runs db.attempts))
latest-Agree mirror db v (r, a) (s, b) m n t =
    let (m', _) = where_rows-Mem (is_waiting mirror) (join is_latest db.runs db.attempts) m in
    let (n', _) = where_rows-Mem (is_waiting mirror) (join is_latest db.runs db.attempts) n in
    let (rm, am, ra) = join-Mem is_latest db.runs db.attempts m' in
    let (sm, bm, sb) = join-Mem is_latest db.runs db.attempts n' in
    let same : s ≡ r = has_id_unique db.runs v.runs_keyed rm sm (unfold has_id in t) in
    let same' : b ≡ a =
      is_attempt_unique db.attempts v.attempts_keyed am bm
        (latest_key r a b ra (subst (λ (x : RunRow). is_latest x b ≡ true) same sb)) in
    ap₂ (λ (x : RunRow) (y : AttemptRow). (x, y)) same same'

pub finalize_ineligible_retries-Sound :
    (mirror : Text) (now : ℤ) (db : Db)
    → IsValid db.runs db.attempts
    → Sound db (finalize_ineligible_retries mirror now db)
unfolding finalize_ineligible_retries is_waiting
finalize_ineligible_retries-Sound mirror now db v =
    let ps = where_rows (is_waiting mirror) (join is_latest db.runs db.attempts) in
    finalize_all-Sound now ps db v
      (All-of_Mem (Ready now db.runs) ps (λ p m.
        let (n, w) = where_rows-Mem (is_waiting mirror) (join is_latest db.runs db.attempts) m in
        (waiting mirror p w, inl (join-Mem is_latest db.runs db.attempts n).0)))
      (latest-Agree mirror db v)
  where
    waiting :
        (mirror : Text) (p : RunRow × AttemptRow)
        → is_waiting mirror p ≡ true
        → is_running p.0.state ≡ true
    waiting mirror (r, a) w = ground arith
