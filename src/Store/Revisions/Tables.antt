-- ===== src/Store/Revisions/Tables.antt =====
-- What the statements of `Store::apply` (crates/lmt-store/src/lib.rs) write to `mirrors` and
-- `mirror_generations`.
use lzu_mirror_tools.Prelude.{
  ◌≡◌, ◌⊎◌, refl, subst, true, false, ◌++◌, List, [], ◌∷◌, inl, inr, Bool-cases, Memᴰ,
}
use mathlib.Core.List.Memᴰ
use lzu_mirror_tools.Prelude.Int.{ℤ}
use lzu_mirror_tools.Prelude.Text.{Text, text_eq}
use lzu_mirror_tools.Prelude.Tables.{exists_where, update_where, where_rows, join}
use lzu_mirror_tools.Prelude.Tables.Select.{exists_where-All, exists_where-cases, All-Mem}
use lzu_mirror_tools.Prelude.Tables.Evolution.{Mem-update_where, Mem-update_where_kept}
use lzu_mirror_tools.Prelude.Tables.Membership.{update_where-Mem, Mem-append_one}
use lzu_mirror_tools.Core.Config.{CanonicalMirror}
use lzu_mirror_tools.Store.Rows.{Db, RunRow, AttemptRow, MirrorRow, ScheduleRow}
use lzu_mirror_tools.Store.Queries.{update_run}
use lzu_mirror_tools.Store.Revisions.{ConfigChange, is_move}
use lzu_mirror_tools.Store.Revisions.Effects.{
  cancel_undispatched_pending, cancel_attempts_of, cancel_runs_of, finalize, finalize_all,
  finalize_ineligible_retries, is_waiting, is_latest, upsert_schedule,
}
use lzu_mirror_tools.Store.Revisions.Apply.{has_name, upsert_mirror, settle_runs}

-- A statement that writes neither mirrors nor generations.
abbrev pub SameConfig : Db → Db → Type 0
SameConfig db db' = (db'.mirrors ≡ db.mirrors) × (db'.generations ≡ db.generations)

finalize_all-SameConfig :
    (now : ℤ) (ps : List (RunRow × AttemptRow)) (db : Db) → SameConfig db (finalize_all now ps db)
unfolding finalize_all update_run
finalize_all-SameConfig now [] db = (refl, refl)
finalize_all-SameConfig now ((r, a) ∷ ps) db =
    finalize_all-SameConfig now ps (update_run r.id (finalize a now) db)

finalize_ineligible_retries-SameConfig :
    (mirror : Text) (now : ℤ) (db : Db) → SameConfig db (finalize_ineligible_retries mirror now db)
unfolding finalize_ineligible_retries
finalize_ineligible_retries-SameConfig mirror now db =
    finalize_all-SameConfig now
      (where_rows (is_waiting mirror) (join is_latest db.runs db.attempts)) db

pub settle-SameConfig :
    (mirror : Text) (now : ℤ) (db : Db)
    → SameConfig db
        (finalize_ineligible_retries mirror now (cancel_undispatched_pending mirror now db))
unfolding cancel_undispatched_pending cancel_runs_of cancel_attempts_of
settle-SameConfig mirror now db =
    finalize_ineligible_retries-SameConfig mirror now (cancel_undispatched_pending mirror now db)

pub settle_runs-SameConfig :
    (change : ConfigChange) (mirror : CanonicalMirror) (now : ℤ) (db : Db)
    → SameConfig db (settle_runs change mirror now db)
unfolding settle_runs
settle_runs-SameConfig change mirror now db =
    let finalized = finalize_ineligible_retries-SameConfig change.mirror now db in
    elim (Bool-cases mirror.document.mirror.enabled) [
      | inr f ↦ rw f (settle-SameConfig change.mirror now db)
      | inl t ↦ rw t (elim (Bool-cases (is_move change.kind)) [
        | inl m ↦ rw m finalized
        | inr n ↦ rw n (refl, refl)
      ])
    ]

pub upsert_schedule-SameConfig :
    (row : ScheduleRow) (db : Db) → SameConfig db (upsert_schedule row db)
unfolding upsert_schedule
upsert_schedule-SameConfig row db =
    elim (Bool-cases (exists_where (λ s. text_eq s.mirror_name row.mirror_name) db.schedules)) [
      | inl t ↦ rw t (refl, refl)
      | inr f ↦ rw f (refl, refl)
    ]

upsert_mirror_found :
    (row : MirrorRow) (db : Db)
    → exists_where (has_name row.name) db.mirrors ≡ true
    → (upsert_mirror row db).mirrors ≡ update_where (has_name row.name) (λ m. row) db.mirrors
unfolding upsert_mirror
upsert_mirror_found row db t = rw t refl

upsert_mirror_new :
    (row : MirrorRow) (db : Db)
    → exists_where (has_name row.name) db.mirrors ≡ false
    → (upsert_mirror row db).mirrors ≡ db.mirrors ++ row ∷ []
unfolding upsert_mirror
upsert_mirror_new row db f = rw f refl

-- The rows of `mirrors` after the upsert.
pub upsert_mirror-Mem :
    (row : MirrorRow) (db : Db) {m : MirrorRow}
    → Memᴰ m (upsert_mirror row db).mirrors
    → (m ≡ row) ⊎ (Memᴰ m db.mirrors × (has_name row.name m ≡ false))
upsert_mirror-Mem row db {m} k = elim (Bool-cases (exists_where (has_name row.name) db.mirrors)) [
  | inl t ↦
      elim (update_where-Mem (has_name row.name) (λ x. row) db.mirrors
        (subst (Memᴰ m) (upsert_mirror_found row db t) k)) [
          | inl (_, _, _, e) ↦ inl e
          | inr n ↦ inr n
        ]
  | inr f ↦ elim (Mem-append_one db.mirrors (subst (Memᴰ m) (upsert_mirror_new row db f) k)) [
    | inr e ↦ inl e
    | inl n ↦ inr (n, All-Mem _ db.mirrors (exists_where-All (has_name row.name) db.mirrors f) n)
  ]
]

pub Mem-upsert_mirror_row : (row : MirrorRow) (db : Db) → Memᴰ row (upsert_mirror row db).mirrors
unfolding upsert_mirror
Mem-upsert_mirror_row row db = elim (Bool-cases (exists_where (has_name row.name) db.mirrors)) [
  | inl t ↦
      let (x, m, e) = exists_where-cases (has_name row.name) db.mirrors t in
      rw t (Mem-update_where (has_name row.name) (λ x. row) db.mirrors m e)
  | inr f ↦ rw f (Memᴰ.append_right db.mirrors (Memᴰ.head refl))
]

pub Mem-upsert_mirror_kept :
    (row : MirrorRow) (db : Db) {m : MirrorRow}
    → Memᴰ m db.mirrors
    → has_name row.name m ≡ false
    → Memᴰ m (upsert_mirror row db).mirrors
unfolding upsert_mirror
Mem-upsert_mirror_kept row db k h =
    elim (Bool-cases (exists_where (has_name row.name) db.mirrors)) [
      | inl t ↦ rw t (Mem-update_where_kept (has_name row.name) (λ x. row) db.mirrors k h)
      | inr f ↦ rw f (Memᴰ.append_left (row ∷ []) k)
    ]

pub upsert_mirror-generations :
    (row : MirrorRow) (db : Db) → (upsert_mirror row db).generations ≡ db.generations
unfolding upsert_mirror
upsert_mirror-generations row db = elim (Bool-cases (exists_where (has_name row.name) db.mirrors)) [
  | inl t ↦ rw t refl
  | inr f ↦ rw f refl
]
