-- ===== src/Store/Logs/Keys.antt =====
-- The keys of the entries of `log_retention_entries` (crates/lmt-store/src/lib.rs).
use lzu_mirror_tools.Prelude.{
  ◌≡◌, refl, ap, ◌∙◌, Bool, true, false, ◌&&◌, ◌||◌, List, [], ◌∷◌, ◌++◌, ◌==◌, arith, map,
  if◌then◌else◌, Bool-cases, inl, inr,
}
use lzu_mirror_tools.Prelude.Text.{text_eq, text_eq→eq, text_eq_refl, text_eq_comm}
use lzu_mirror_tools.Prelude.Tables.{exists_where, Distinct, pair_rows, join}
use lzu_mirror_tools.Prelude.Tables.Select.{exists_where-append}
use lzu_mirror_tools.Store.Rows.{AttemptRow, LogRow, Db}
use lzu_mirror_tools.Store.Logs.{
  LogRetentionEntry, log_before, to_entry, insert_log, order_logs, log_retention_entries,
}
use lzu_mirror_tools.Store.Invariant.{same_attempt}
use lzu_mirror_tools.Store.Logs.Entries.{Pair, on_key}

-- The columns of the primary key of a log and of an entry.
abbrev pub same_log : LogRow → LogRow → Bool
same_log l m = text_eq l.run_id m.run_id && l.attempt_no == m.attempt_no

abbrev pub same_entry : LogRetentionEntry → LogRetentionEntry → Bool
same_entry e f = text_eq e.run_id f.run_id && e.attempt_no == f.attempt_no

abbrev same_pair : Pair → Pair → Bool
same_pair x y = same_log x.0 y.0

same_pair_comm : (x y : Pair) → same_pair x y ≡ same_pair y x
same_pair_comm x y = let e = text_eq_comm x.0.run_id y.0.run_id in ground (arith, e)

-- Two attempts of one log have one key.
on_key_same :
    (l : LogRow) (a b : AttemptRow)
    → on_key l a ≡ true
    → on_key l b ≡ true
    → same_attempt a b ≡ true
on_key_same l a b h k =
    let e = text_eq→eq a.run_id l.run_id (ground (arith, h)) in
    let f = text_eq→eq b.run_id l.run_id (ground (arith, k)) in
    rw (e, f) (ground (arith, h, k, text_eq_refl l.run_id))

no_more :
    (l : LogRow) (a : AttemptRow) (rest : List AttemptRow)
    → on_key l a ≡ true
    → exists_where (same_attempt a) rest ≡ false
    → pair_rows on_key l rest ≡ []
unfolding pair_rows exists_where
no_more l a [] h n = refl
no_more l a (b ∷ rest) h n = elim (Bool-cases (on_key l b)) [
  | inl t ↦ absurd (ground (arith, n, on_key_same l a b h t))
  | inr f ↦ rw f (no_more l a rest h (ground (arith, n)))
]

pair_rows-Distinct :
    (l : LogRow) (rows : List AttemptRow)
    → Distinct same_attempt rows
    → Distinct same_pair (pair_rows on_key l rows)
unfolding pair_rows exists_where
pair_rows-Distinct l [] d = tt
pair_rows-Distinct l (a ∷ rest) d = elim (Bool-cases (on_key l a)) [
  | inl t ↦ rw (t, no_more l a rest t d.0) (refl, tt)
  | inr f ↦ rw f (pair_rows-Distinct l rest d.1)
]

-- A log that is no other's has none of the pairs of the others.
pairs_apart :
    (l m : LogRow) (a : AttemptRow) (rows : List AttemptRow)
    → same_log l m ≡ false
    → exists_where (same_pair (l, a)) (pair_rows on_key m rows) ≡ false
unfolding pair_rows exists_where
pairs_apart l m a [] f = refl
pairs_apart l m a (b ∷ rest) f = elim (Bool-cases (on_key m b)) [
  | inl t ↦ rw (t, f) (pairs_apart l m a rest f)
  | inr g ↦ rw g (pairs_apart l m a rest f)
]

join_apart :
    (l : LogRow) (a : AttemptRow) (logs : List LogRow) (rows : List AttemptRow)
    → exists_where (same_log l) logs ≡ false
    → exists_where (same_pair (l, a)) (join on_key logs rows) ≡ false
unfolding join exists_where
join_apart l a [] rows h = refl
join_apart l a (m ∷ logs) rows h =
    exists_where-append (same_pair (l, a)) (pair_rows on_key m rows) (join on_key logs rows)
    ∙ ground (
      arith,
      pairs_apart l m a rows (ground (arith, h)),
      join_apart l a logs rows (ground (arith, h)),
    )

with_pairs :
    (l : LogRow) (rows all : List AttemptRow) (logs : List LogRow)
    → exists_where (same_log l) logs ≡ false
    → Distinct same_attempt rows
    → Distinct same_pair (join on_key logs all)
    → Distinct same_pair (pair_rows on_key l rows ++ join on_key logs all)
unfolding pair_rows
with_pairs l [] all logs h d e = e
with_pairs l (a ∷ rest) all logs h d e = elim (Bool-cases (on_key l a)) [
  | inl t ↦ rw (t, no_more l a rest t d.0) (join_apart l a logs all h, e)
  | inr f ↦ rw f (with_pairs l rest all logs h d.1 e)
]

join-Distinct :
    (logs : List LogRow) (rows : List AttemptRow)
    → Distinct same_log logs
    → Distinct same_attempt rows
    → Distinct same_pair (join on_key logs rows)
unfolding join
join-Distinct [] rows h d = tt
join-Distinct (l ∷ logs) rows h d =
    with_pairs l rows rows logs h.0 d (join-Distinct logs rows h.1 d)

placed-Distinct :
    (b : Bool) (x y : Pair) (ys rest : List Pair)
    → Distinct same_pair rest
    → exists_where (same_pair y) rest ≡ false
    → Distinct same_pair (x ∷ y ∷ ys)
    → Distinct same_pair (if b then y ∷ rest else x ∷ y ∷ ys)
placed-Distinct true x y ys rest d n e = (n, d)
placed-Distinct false x y ys rest d n e = e

exists_where-insert_log :
    (p : Pair → Bool) (x : Pair) (ys : List Pair)
    → exists_where p (insert_log x ys) ≡ (p x || exists_where p ys)
unfolding insert_log exists_where
exists_where-insert_log p x [] = refl
exists_where-insert_log p x (y ∷ ys) = elim (Bool-cases (log_before y.0 x.0)) [
  | inl t ↦ rw t (ground (arith, exists_where-insert_log p x ys))
  | inr f ↦ rw f refl
]

insert_log-Distinct :
    (x : Pair) (ys : List Pair)
    → exists_where (same_pair x) ys ≡ false
    → Distinct same_pair ys
    → Distinct same_pair (insert_log x ys)
unfolding insert_log exists_where
insert_log-Distinct x [] n d = (refl, tt)
insert_log-Distinct x (y ∷ ys) n d =
    placed-Distinct (log_before y.0 x.0) x y ys (insert_log x ys)
      (insert_log-Distinct x ys (ground (arith, n)) d.1)
      (exists_where-insert_log (same_pair y) x ys ∙ ground (arith, d.0, same_pair_comm y x, n))
      (n, d)

exists_where-order_logs :
    (p : Pair → Bool) (xs : List Pair) → exists_where p (order_logs xs) ≡ exists_where p xs
unfolding order_logs exists_where
exists_where-order_logs p [] = refl
exists_where-order_logs p (x ∷ xs) =
    exists_where-insert_log p x (order_logs xs) ∙ ap (λ b. p x || b) (exists_where-order_logs p xs)

order_logs-Distinct : (xs : List Pair) → Distinct same_pair xs → Distinct same_pair (order_logs xs)
unfolding order_logs
order_logs-Distinct [] d = tt
order_logs-Distinct (x ∷ xs) d =
    insert_log-Distinct x (order_logs xs) (exists_where-order_logs (same_pair x) xs ∙ d.0)
      (order_logs-Distinct xs d.1)

exists_where-entries :
    (x : Pair) (ys : List Pair)
    → exists_where (same_entry (to_entry x)) (map to_entry ys) ≡ exists_where (same_pair x) ys
unfolding exists_where to_entry
exists_where-entries x [] = refl
exists_where-entries x (y ∷ ys) = ap (λ b. same_pair x y || b) (exists_where-entries x ys)

map-Distinct : (xs : List Pair) → Distinct same_pair xs → Distinct same_entry (map to_entry xs)
map-Distinct [] d = tt
map-Distinct (x ∷ xs) d = (exists_where-entries x xs ∙ d.0, map-Distinct xs d.1)

pub entries-Distinct :
    (db : Db)
    → Distinct same_log db.logs
    → Distinct same_attempt db.attempts
    → Distinct same_entry (log_retention_entries db)
unfolding log_retention_entries
entries-Distinct db d e =
    map-Distinct (order_logs (join on_key db.logs db.attempts)) (
      order_logs-Distinct (join on_key db.logs db.attempts) (join-Distinct db.logs db.attempts d e))
