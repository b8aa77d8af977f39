-- ===== src/Server/LogRetention/Age.antt =====
-- Which logs the retention of a policy lets expire (`plan_log_maintenance`, apps/lmt-server/src/lib.rs).
use lzu_mirror_tools.Prelude.{
  ℕ, ◌≤◌, ◌≡◌, sym, ap, subst, ◌∙◌, inl, inr, Bool, true, Option, none, some, List, [], arith, Memᴰ,
  Option-cases, leb, if◌then◌else◌, Bool-cases,
}
use lzu_mirror_tools.Prelude.Int.{
  ℤ, pos, negsuc, ◌≤ℤ◌, ◌+ℤ◌, ◌-ℤ◌, leb_ℤ, IsI64, i64_max, clamp_i64, clamp_i64-bounds,
  saturating_sub, int_laws,
}
use lzu_mirror_tools.Prelude.Text.{text_eq_refl, text_eq_comm}
use lzu_mirror_tools.Prelude.Tables.{exists_where, where_rows, Distinct}
use lzu_mirror_tools.Prelude.Tables.Select.{Mem-where_rows, where_rows-Mem, All-Mem}
use lzu_mirror_tools.Prelude.Tables.Distinct.{Distinct-unique}
use lzu_mirror_tools.Store.Rows.{Db, LogRow}
use lzu_mirror_tools.Store.Logs.{LogRetentionEntry, log_retention_entries}
use lzu_mirror_tools.Store.Logs.Entries.{Expirable, Describes}
use lzu_mirror_tools.Store.Logs.Keys.{same_log}
use lzu_mirror_tools.Server.LogRetention.{
  RunLogPolicy, Progress, live, may_go, stored_sum, names, is_older, age_cutoff, expire_by_age,
  expire_over_cap, candidates_of, plan_log_maintenance,
}
use lzu_mirror_tools.Server.LogRetention.Loops.{
  Comes, Grows, expire_by_age-Grows, expire_by_age-names, expire_by_size-Grows,
}
use lzu_mirror_tools.Server.LogRetention.Plan.{
  IsPlanned, names-keys, may_go-Expirable, Expirable-may_go, named-IsPlanned,
}

at_most : (s : ℤ) → s ≤ℤ pos i64_max → s ≤ℤ clamp_i64 s
at_most (pos n) h = ground arith
at_most (negsuc n) h = ground arith

below_max : (now : ℤ) → IsI64 now → now ≤ℤ pos i64_max
below_max (pos n) h = ground (arith, h)
below_max (negsuc n) h = ground arith

leb_ℤ-true : (a b : ℤ) → a ≤ℤ b → leb_ℤ a b ≡ true
unfolding leb_ℤ
leb_ℤ-true a b h = ground (arith, h)

true-leb_ℤ : (a b : ℤ) → leb_ℤ a b ≡ true → a ≤ℤ b
unfolding leb_ℤ
true-leb_ℤ a b h = ground (arith, h)

-- What was written a retention ago or earlier is as old as the cutoff.
old_enough :
    (now : ℤ) (ms : ℕ) (policy : RunLogPolicy) (e : LogRetentionEntry)
    → policy.retention_ms ≡ some ms
    → IsI64 now
    → e.updated_at_ms +ℤ pos ms ≤ℤ now
    → is_older (age_cutoff now policy) e ≡ true
unfolding age_cutoff is_older saturating_sub
old_enough now ms policy e h i old =
    let top = below_max now i in
    rw h (elim (Bool-cases (leb ms i64_max)) [
      | inl t ↦ rw t (
          leb_ℤ-true e.updated_at_ms (clamp_i64 (now -ℤ pos ms))
            (omega (int_laws, arith, old, at_most (now -ℤ pos ms) (omega (int_laws, top)))))
      | inr f ↦ rw f (
          leb_ℤ-true e.updated_at_ms (clamp_i64 (now -ℤ pos i64_max)) (
            let g : i64_max ≤ ms = ground (arith, f) in
            omega (int_laws, arith, old, g, at_most (now -ℤ pos i64_max) (omega (int_laws, top)))))
    ])

-- What is as old as the cutoff was written a retention ago or earlier, where nothing is clamped.
is_older-old :
    (now : ℤ) (ms : ℕ) (policy : RunLogPolicy) (e : LogRetentionEntry)
    → policy.retention_ms ≡ some ms
    → ms ≤ i64_max
    → pos 0 ≤ℤ now
    → is_older (age_cutoff now policy) e ≡ true
    → e.updated_at_ms +ℤ pos ms ≤ℤ now
unfolding age_cutoff is_older saturating_sub
is_older-old now ms policy e h small start older =
    let t : leb ms i64_max ≡ true = ground (arith, small) in
    let k : leb_ℤ e.updated_at_ms (clamp_i64 (now -ℤ pos ms)) ≡ true =
      subst
        (λ (b : Bool).
          leb_ℤ e.updated_at_ms (clamp_i64 (now -ℤ (if b then pos ms else pos i64_max))) ≡ true)
        t
        (subst
          (λ (o : Option ℕ).
            is_older
              (elim o [
                | none ↦ none
                | some ms ↦
                    some (saturating_sub now (if leb ms i64_max then pos ms else pos i64_max))
              ])
              e
            ≡ true)
          h older) in
    let (_, _, low) =
      clamp_i64-bounds (negsuc i64_max) (now -ℤ pos ms) (omega arith)
        (omega (int_laws, arith, small, start)) in
    omega (int_laws, true-leb_ℤ e.updated_at_ms (clamp_i64 (now -ℤ pos ms)) k, low)

-- A policy with a retention, at a time of 64 bits: a complete log of an attempt at its end that has not
-- expired is a candidate if it was last written a retention ago or earlier.
pub plan_log_maintenance-age :
    (now : ℤ) (policy : RunLogPolicy) (ms : ℕ) (db : Db) (l : LogRow)
    → policy.retention_ms ≡ some ms
    → IsI64 now
    → Expirable l db
    → l.updated_at_ms +ℤ pos ms ≤ℤ now
    → IsPlanned (plan_log_maintenance now (some policy) db).candidates l
unfolding plan_log_maintenance candidates_of expire_over_cap age_cutoff
plan_log_maintenance-age now policy ms db l h i x old = named-IsPlanned db _ e l all_named d
  where
    e : LogRetentionEntry
    e = (Expirable-may_go db l x).0

    es : List LogRetentionEntry
    es = where_rows may_go (log_retention_entries db)

    d : Describes e l
    d = (Expirable-may_go db l x).3

    stored : ℕ
    stored = stored_sum (where_rows live (log_retention_entries db))

    aged : Progress
    aged = expire_by_age (age_cutoff now policy) es (stored, [])

    named : exists_where (names e) aged.1 ≡ true
    named =
        expire_by_age-names es (age_cutoff now policy) es (stored, []) (λ x m. m)
          (Mem-where_rows may_go (log_retention_entries db) (Expirable-may_go db l x).1
            (Expirable-may_go db l x).2)
          (old_enough now ms policy e h i
            (subst (λ (u : ℤ). u +ℤ pos ms ≤ℤ now) (sym d.written) old))

    all_named : exists_where (names e) (candidates_of now policy stored es).1 ≡ true
    all_named = elim (Option-cases policy.max_total_bytes) [
      | inl n ↦ rw n named
      | inr (limit, c) ↦ rw c ((expire_by_size-Grows es limit es aged (λ x m. m)).keeps e named)
    ]

-- A policy with a retention of at most 2^63 - 1 milliseconds and no cap, at a time that is not negative,
-- where attempt_logs has its primary key: a log is a candidate only if it was last written a
-- retention ago or earlier.
pub plan_log_maintenance-young :
    (now : ℤ) (policy : RunLogPolicy) (ms : ℕ) (db : Db) (l : LogRow)
    → policy.retention_ms ≡ some ms
    → policy.max_total_bytes ≡ none
    → ms ≤ i64_max
    → pos 0 ≤ℤ now
    → Distinct same_log db.logs
    → Memᴰ l db.logs
    → IsPlanned (plan_log_maintenance now (some policy) db).candidates l
    → l.updated_at_ms +ℤ pos ms ≤ℤ now
unfolding plan_log_maintenance candidates_of expire_over_cap Comes
plan_log_maintenance-young now policy ms db l h free small start keyed m p =
    let (e, k, t, _) =
      All-Mem (Comes older) aged.1 (grows.comes tt)
        (subst (λ (o : Option ℕ). Memᴰ p.view (expire_over_cap o es aged).1) free p.there) in
    let (k', young) = where_rows-Mem (is_older (age_cutoff now policy)) es k in
    let (l', x, d) = may_go-Expirable db e k' in
    let (run, number) = names-keys e p.view t in
    let same : l' ≡ l =
      Distinct-unique same_log db.logs same_log_comm keyed x.log m
        (keys l' l (sym d.run ∙ sym run ∙ p.run) (sym d.number ∙ sym number ∙ p.number)) in
    subst (λ (u : ℤ). u +ℤ pos ms ≤ℤ now) (d.written ∙ ap (λ (y : LogRow). y.updated_at_ms) same)
      (is_older-old now ms policy e h small start young)
  where
    es : List LogRetentionEntry
    es = where_rows may_go (log_retention_entries db)

    older : List LogRetentionEntry
    older = where_rows (is_older (age_cutoff now policy)) es

    stored : ℕ
    stored = stored_sum (where_rows live (log_retention_entries db))

    aged : Progress
    aged = expire_by_age (age_cutoff now policy) es (stored, [])

    grows : Grows older (stored, []) aged
    grows =
        expire_by_age-Grows older (age_cutoff now policy) es (stored, [])
          (λ e m t. Mem-where_rows (is_older (age_cutoff now policy)) es m t)

    same_log_comm : (x y : LogRow) → same_log x y ≡ same_log y x
    same_log_comm x y = let e = text_eq_comm x.run_id y.run_id in ground (arith, e)

    keys : (x y : LogRow) → x.run_id ≡ y.run_id → x.attempt_no ≡ y.attempt_no → same_log x y ≡ true
    keys x y a b = rw (a, b) (ground (arith, text_eq_refl y.run_id))
