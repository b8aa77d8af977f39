-- ===== src/Server/LogRetention/Plan.antt =====
-- What `plan_log_maintenance` (apps/lmt-server/src/lib.rs) plans.
use lzu_mirror_tools.Prelude.{
  ℕ, ◌≡◌, refl, ◌∙◌, inl, inr, Bool, true, ◌&&◌, Option, none, some, List, [], arith, Memᴰ,
  Option-cases, is_none, ◌==◌,
}
use lzu_mirror_tools.Prelude.Int.{ℤ}
use lzu_mirror_tools.Prelude.Text.{text_eq, text_eq→eq}
use lzu_mirror_tools.Prelude.Tables.{exists_where, where_rows, All, Distinct}
use lzu_mirror_tools.Prelude.Tables.Select.{where_rows-Mem, All-Mem, All-of_Mem, exists_where-cases}
use lzu_mirror_tools.Store.Rows.{Db, LogRow}
use lzu_mirror_tools.Store.Logs.{LogRetentionEntry, log_retention_entries}
use lzu_mirror_tools.Store.Logs.Entries.{Expirable, Describes, entries-Expirable, Expirable-entries}
use lzu_mirror_tools.Server.LogRetention.{
  RunLogPolicy, LogExpirationView, live, may_go, stored_sum, names, age_cutoff, expire_by_age,
  expire_over_cap, candidates_of, plan_log_maintenance,
}
use lzu_mirror_tools.Server.LogRetention.Loops.{
  Comes, Grows, Grows-trans, expire_by_age-Grows, expire_by_size-Grows,
}
use lzu_mirror_tools.Server.LogRetention.Books.{Books}

-- The candidate is a complete log of an attempt at its end, which has not expired, with its size.
pub record Expires (db : Db) (c : LogExpirationView) : Type 0 where
  pub log : LogRow
  pub expirable : Expirable log db
  pub run : c.run_id ≡ log.run_id
  pub number : c.attempt ≡ log.attempt_no
  pub bytes : c.stored_bytes ≡ log.stored_bytes

-- The log is a candidate.
pub record IsPlanned (cs : List LogExpirationView) (l : LogRow) : Type 0 where
  pub view : LogExpirationView
  pub there : Memᴰ view cs
  pub run : view.run_id ≡ l.run_id
  pub number : view.attempt ≡ l.attempt_no

both : (x y : Bool) → (x && y) ≡ true → (x ≡ true) × (y ≡ true)
both x y h = (ground (arith, h), ground (arith, h))

is_none-none : {A : Type 0} (o : Option A) → is_none o ≡ true → o ≡ none
is_none-none none h = refl
is_none-none (some a) h = cc

pub names-keys :
    (e : LogRetentionEntry) (c : LogExpirationView)
    → names e c ≡ true
    → (c.run_id ≡ e.run_id) × (c.attempt ≡ e.attempt_no)
unfolding names
names-keys e c h =
    let (t, n) = both (text_eq c.run_id e.run_id) (c.attempt == e.attempt_no) h in
    (text_eq→eq c.run_id e.run_id t, ground (arith, n))

module _ (db : Db) where
  pub may_go-Expirable :
      (e : LogRetentionEntry)
      → Memᴰ e (where_rows may_go (log_retention_entries db))
      → (l : LogRow) × Expirable l db × Describes e l
  unfolding may_go live
  may_go-Expirable e m =
      let (k, t) = where_rows-Mem may_go (log_retention_entries db) m in
      let (alive, may) = both (is_none e.expired_at_ms) e.eligible t in
      entries-Expirable db e k may (is_none-none e.expired_at_ms alive)

  pub Expirable-may_go :
      (l : LogRow)
      → Expirable l db
      → (e : LogRetentionEntry) × Memᴰ e (log_retention_entries db)
        × (may_go e ≡ true)
        × Describes e l
  unfolding may_go live
  Expirable-may_go l x =
      let (e, m, may, kept, d) = Expirable-entries db l x in (e, m, rw (may, kept) refl, d)

  pub named-IsPlanned :
      (cs : List LogExpirationView) (e : LogRetentionEntry) (l : LogRow)
      → exists_where (names e) cs ≡ true
      → Describes e l
      → IsPlanned cs l
  named-IsPlanned cs e l h d =
      let (c, m, t) = exists_where-cases (names e) cs h in
      let (run, number) = names-keys e c t in
      record { view = c; there = m; run = run ∙ d.run; number = number ∙ d.number }

  Comes-Expires :
      (c : LogExpirationView)
      → Comes (where_rows may_go (log_retention_entries db)) c
      → Expires db c
  unfolding Comes
  Comes-Expires c (e, m, t, same) =
      let (l, x, d) = may_go-Expirable e m in
      let (run, number) = names-keys e c t in
      record {
        log = l;
        expirable = x;
        run = run ∙ d.run;
        number = number ∙ d.number;
        bytes = same ∙ d.bytes;
      }

-- What the two loops end with.
pub candidates_of-Grows :
    (now : ℤ) (policy : RunLogPolicy) (stored : ℕ) (es : List LogRetentionEntry)
    → Grows es (stored, []) (candidates_of now policy stored es)
unfolding candidates_of expire_over_cap age_cutoff
candidates_of-Grows now policy stored es = elim (Option-cases policy.max_total_bytes) [
  | inl n ↦ rw n by_age
  | inr (cap_bytes, e) ↦
      rw e (Grows-trans es _ _ _ by_age (expire_by_size-Grows es cap_bytes es _ (λ x m. m)))
]
  where
    by_age : Grows es (stored, []) (expire_by_age (age_cutoff now policy) es (stored, []))
    by_age = expire_by_age-Grows es (age_cutoff now policy) es (stored, []) (λ x m t. m)

-- Each candidate of a plan is a complete log of an attempt at its end, which has not expired yet, with
-- the size that is stored of it.
pub plan_log_maintenance-Expires :
    (now : ℤ) (policy : RunLogPolicy) (db : Db)
    → All (Expires db) (plan_log_maintenance now (some policy) db).candidates
unfolding plan_log_maintenance
plan_log_maintenance-Expires now policy db =
    let stored = stored_sum (where_rows live (log_retention_entries db)) in
    let es = where_rows may_go (log_retention_entries db) in
    let comes = (candidates_of-Grows now policy stored es).comes tt in
    All-of_Mem (Expires db) (candidates_of now policy stored es).1 (λ c m.
      Comes-Expires db c (All-Mem (Comes es) (candidates_of now policy stored es).1 comes m))
