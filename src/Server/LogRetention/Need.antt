-- ===== src/Server/LogRetention/Need.antt =====
-- The loop by size of `plan_log_maintenance` (apps/lmt-server/src/lib.rs), and what its candidates need.
use lzu_mirror_tools.Prelude.{
  ℕ, ◌<◌, ◌≡◌, refl, sym, ap, subst, ◌∙◌, inl, inr, Bool, true, false, ◌&&◌, Option, none, some,
  List, [], ◌∷◌, ◌++◌, arith, Memᴰ, Bool-cases, leb,
}
use lzu_mirror_tools.Prelude.Int.{ℤ}
use lzu_mirror_tools.Prelude.Tables.{exists_where, where_rows, Distinct}
use lzu_mirror_tools.Prelude.Tables.Select.{where_rows-Mem}
use lzu_mirror_tools.Store.Rows.{Db}
use lzu_mirror_tools.Store.Invariant.{same_attempt}
use lzu_mirror_tools.Store.Logs.{LogRetentionEntry, log_retention_entries}
use lzu_mirror_tools.Store.Logs.Keys.{same_log, same_entry, entries-Distinct}
use lzu_mirror_tools.Server.LogRetention.{
  RunLogPolicy, LogExpirationView, Progress, live, may_go, stored_sum, names, push, is_older,
  age_cutoff, expire_by_age, expire_by_size, expire_over_cap, candidates_of, plan_log_maintenance,
}
use lzu_mirror_tools.Server.LogRetention.Books.{Books, left_bytes, left_bytes-stored, push-Books}

-- Before each of the candidates to come, those before it leave more than the cap.
abbrev pub Needed :
    ℕ → List LogRetentionEntry → List LogExpirationView → List LogExpirationView → Type 0
Needed cap base cs [] = Unit
Needed cap base cs (c ∷ later) = (cap < left_bytes cs base) × Needed cap base (cs ++ c ∷ []) later

append_one :
    (cs : List LogExpirationView) (c : LogExpirationView) (later : List LogExpirationView)
    → (cs ++ c ∷ []) ++ later ≡ cs ++ c ∷ later
append_one [] c later = refl
append_one (x ∷ cs) c later = ap (λ (l : List LogExpirationView). x ∷ l) (append_one cs c later)

append_none : (cs : List LogExpirationView) → cs ≡ cs ++ []
append_none [] = refl
append_none (x ∷ cs) = ap (λ (l : List LogExpirationView). x ∷ l) (append_none cs)

-- What the loop adds to the candidates.
abbrev Added : ℕ → List LogRetentionEntry → Progress → Progress → Type 0
Added cap base s s' =
    (later : List LogExpirationView) × (s'.1 ≡ s.1 ++ later) × Needed cap base s.1 later

module _ (base : List LogRetentionEntry) (keyed : Distinct same_entry base) (cap : ℕ) where
  push-Added :
      (e : LogRetentionEntry) (s s' : Progress)
      → Books base s
      → leb s.0 cap ≡ false
      → Added cap base (push e s) s'
      → Added cap base s s'
  unfolding push
  push-Added e (projected, cs) s' b f (later, whole, needed) =
      let p = b.projected in
      (
        record { run_id = e.run_id; attempt = e.attempt_no; stored_bytes = e.stored_bytes } ∷ later,
        whole ∙ append_one cs _ later,
        (let g : cap < projected = ground (arith, f) in omega (arith, g, p), needed),
      )

  expire_by_size-Added :
      (es : List LogRetentionEntry) (s : Progress)
      → ((e : LogRetentionEntry) → Memᴰ e es → Memᴰ e base × (live e ≡ true))
      → Books base s
      → Added cap base s (expire_by_size cap es s)
  unfolding expire_by_size
  expire_by_size-Added [] s sub b = ([], append_none s.1, tt)
  expire_by_size-Added (e ∷ es) s sub b =
      let rest : (x : LogRetentionEntry) → Memᴰ x es → Memᴰ x base × (live x ≡ true) =
        λ x m. sub x (Memᴰ.tail m) in
      let (m, h) = sub e (Memᴰ.head refl) in
      elim (Bool-cases (leb s.0 cap)) [
        | inl t ↦ rw t ([], append_none s.1, tt)
        | inr f ↦ elim (Bool-cases (exists_where (names e) s.1)) [
          | inl t ↦ rw (f, t) (expire_by_size-Added es s rest b)
          | inr n ↦
              rw (f, n)
                (push-Added e s (expire_by_size cap es (push e s)) b f
                  (expire_by_size-Added es (push e s) rest (push-Books base keyed e s m h n b)))
        ]
      ]

no_age : (es : List LogRetentionEntry) (s : Progress) → expire_by_age none es s ≡ s
unfolding expire_by_age is_older
no_age [] s = refl
no_age (e ∷ es) s = no_age es s

-- A policy with a cap and no retention, where attempt_logs and attempts have their primary keys: no
-- candidate is planned without need. Before each of them, the logs that have not expired and are
-- not planned yet take more than the cap together.
pub plan_log_maintenance-Needed :
    (now : ℤ) (policy : RunLogPolicy) (limit : ℕ) (db : Db)
    → Distinct same_log db.logs
    → Distinct same_attempt db.attempts
    → policy.retention_ms ≡ none
    → policy.max_total_bytes ≡ some limit
    → Needed limit
        (log_retention_entries db)
        []
        (plan_log_maintenance now (some policy) db).candidates
unfolding plan_log_maintenance candidates_of expire_over_cap age_cutoff may_go
plan_log_maintenance-Needed now policy limit db logs attempts kept h =
    subst
      (λ (o : Option ℕ).
        Needed limit entries []
          (expire_over_cap o es (expire_by_age (age_cutoff now policy) es start)).1)
      (sym h)
      (subst (λ (t : Progress). Needed limit entries [] (expire_by_size limit es t).1) (sym unaged)
        (subst (Needed limit entries []) (sym added.1) added.2))
  where
    entries : List LogRetentionEntry
    entries = log_retention_entries db

    es : List LogRetentionEntry
    es = where_rows may_go entries

    start : Progress
    start = (stored_sum (where_rows live entries), [])

    unaged : expire_by_age (age_cutoff now policy) es start ≡ start
    unaged = rw kept (no_age es start)

    both : (x y : Bool) → (x && y) ≡ true → x ≡ true
    both x y h = ground (arith, h)

    sub : (e : LogRetentionEntry) → Memᴰ e es → Memᴰ e entries × (live e ≡ true)
    sub e m = let (k, t) = where_rows-Mem may_go entries m in (k, both (live e) e.eligible t)

    added : Added limit entries start (expire_by_size limit es start)
    added =
        expire_by_size-Added entries (entries-Distinct db logs attempts) limit es start sub
          (record {
            projected = sym (left_bytes-stored entries);
            total = omega (arith, left_bytes-stored entries);
          })
