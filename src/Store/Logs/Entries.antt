-- ===== src/Store/Logs/Entries.antt =====
-- The rows that `log_retention_entries` (crates/lmt-store/src/lib.rs) selects.
use lzu_mirror_tools.Prelude.{
  ◌≡◌, refl, sym, ap, ◌∙◌, Bool, true, false, ◌&&◌, none, List, [], ◌∷◌, ◌==◌, arith, Memᴰ,
  if◌then◌else◌,
}
use mathlib.Core.List.Memᴰ
use lzu_mirror_tools.Prelude.Text.{text_eq, text_eq→eq, text_eq_refl}
use lzu_mirror_tools.Prelude.Tables.{join}
use lzu_mirror_tools.Prelude.Tables.Select.{join-Mem}
use lzu_mirror_tools.Prelude.Tables.Membership.{Mem-join}
use lzu_mirror_tools.Core.State.{is_terminal}
use lzu_mirror_tools.Store.Rows.{AttemptRow, LogRow, Db}
use lzu_mirror_tools.Store.Logs.{
  LogRetentionEntry, log_before, to_entry, insert_log, order_logs, log_retention_entries,
}

-- A complete log of an attempt at its end, which has not expired.
pub record Expirable (l : LogRow) (db : Db) : Type 0 where
  pub log : Memᴰ l db.logs
  pub attempt : AttemptRow
  pub attempt_there : Memᴰ attempt db.attempts
  pub of_run : attempt.run_id ≡ l.run_id
  pub of_attempt : attempt.attempt_no ≡ l.attempt_no
  pub complete : l.complete ≡ true
  pub kept : l.expired_at_ms ≡ none
  pub ended : is_terminal attempt.state ≡ true

abbrev pub Pair : Type 0
Pair = LogRow × AttemptRow

placed-Mem :
    (b : Bool) (c x y : Pair) (ys rest : List Pair)
    → (Memᴰ c rest → Memᴰ c (x ∷ ys))
    → Memᴰ c (if b then y ∷ rest else x ∷ y ∷ ys)
    → Memᴰ c (x ∷ y ∷ ys)
placed-Mem true c x y ys rest back (Memᴰ.head h) = Memᴰ.tail (Memᴰ.head h)
placed-Mem true c x y ys rest back (Memᴰ.tail n) = elim (back n) [
  | Memᴰ.head h ↦ Memᴰ.head h
  | Memᴰ.tail k ↦ Memᴰ.tail (Memᴰ.tail k)
]
placed-Mem false c x y ys rest back n = n

Mem-placed :
    (b : Bool) (c x y : Pair) (ys rest : List Pair)
    → (Memᴰ c (x ∷ ys) → Memᴰ c rest)
    → Memᴰ c (x ∷ y ∷ ys)
    → Memᴰ c (if b then y ∷ rest else x ∷ y ∷ ys)
Mem-placed true c x y ys rest forth (Memᴰ.head h) = Memᴰ.tail (forth (Memᴰ.head h))
Mem-placed true c x y ys rest forth (Memᴰ.tail (Memᴰ.head h)) = Memᴰ.head h
Mem-placed true c x y ys rest forth (Memᴰ.tail (Memᴰ.tail k)) = Memᴰ.tail (forth (Memᴰ.tail k))
Mem-placed false c x y ys rest forth n = n

insert_log-Mem : (c x : Pair) (ys : List Pair) → Memᴰ c (insert_log x ys) → Memᴰ c (x ∷ ys)
unfolding insert_log
insert_log-Mem c x [] m = m
insert_log-Mem c x (y ∷ ys) m =
    placed-Mem (log_before y.0 x.0) c x y ys (insert_log x ys) (insert_log-Mem c x ys) m

Mem-insert_log : (c x : Pair) (ys : List Pair) → Memᴰ c (x ∷ ys) → Memᴰ c (insert_log x ys)
unfolding insert_log
Mem-insert_log c x [] m = m
Mem-insert_log c x (y ∷ ys) m =
    Mem-placed (log_before y.0 x.0) c x y ys (insert_log x ys) (Mem-insert_log c x ys) m

order_logs-Mem : (c : Pair) (xs : List Pair) → Memᴰ c (order_logs xs) → Memᴰ c xs
unfolding order_logs
order_logs-Mem c [] m = m
order_logs-Mem c (x ∷ xs) m = elim (insert_log-Mem c x (order_logs xs) m) [
  | Memᴰ.head h ↦ Memᴰ.head h
  | Memᴰ.tail k ↦ Memᴰ.tail (order_logs-Mem c xs k)
]

Mem-order_logs : (c : Pair) (xs : List Pair) → Memᴰ c xs → Memᴰ c (order_logs xs)
unfolding order_logs
Mem-order_logs c [] m = m
Mem-order_logs c (x ∷ xs) (Memᴰ.head h) = Mem-insert_log c x (order_logs xs) (Memᴰ.head h)
Mem-order_logs c (x ∷ xs) (Memᴰ.tail k) =
    Mem-insert_log c x (order_logs xs) (Memᴰ.tail (Mem-order_logs c xs k))

abbrev pub on_key : LogRow → AttemptRow → Bool
on_key l a = text_eq a.run_id l.run_id && a.attempt_no == l.attempt_no

-- What an entry says of its log.
pub record Describes (e : LogRetentionEntry) (l : LogRow) : Type 0 where
  pub run : e.run_id ≡ l.run_id
  pub number : e.attempt_no ≡ l.attempt_no
  pub bytes : e.stored_bytes ≡ l.stored_bytes
  pub written : e.updated_at_ms ≡ l.updated_at_ms

both : (x y : Bool) → (x && y) ≡ true → (x ≡ true) × (y ≡ true)
both x y h = (ground (arith, h), ground (arith, h))

pub entries-Expirable :
    (db : Db) (e : LogRetentionEntry)
    → Memᴰ e (log_retention_entries db)
    → e.eligible ≡ true
    → e.expired_at_ms ≡ none
    → (l : LogRow) × Expirable l db × Describes e l
unfolding log_retention_entries to_entry
entries-Expirable db e m may live =
    let ((l, a), k, same) = Memᴰ.of_map to_entry (order_logs (join on_key db.logs db.attempts)) m in
    let (there, of, on) = join-Mem on_key db.logs db.attempts (order_logs-Mem (l, a) _ k) in
    let (complete, ended) =
      both l.complete (is_terminal a.state)
        (ap (λ (x : LogRetentionEntry). x.eligible) same ∙ may) in
    let (run, number) = both (text_eq a.run_id l.run_id) (a.attempt_no == l.attempt_no) on in
    (
      l,
      record {
        log = there;
        attempt = a;
        attempt_there = of;
        of_run = text_eq→eq a.run_id l.run_id run;
        of_attempt = ground (arith, number);
        complete = complete;
        kept = ap (λ (x : LogRetentionEntry). x.expired_at_ms) same ∙ live;
        ended = ended;
      },
      record {
        run = ap (λ (x : LogRetentionEntry). x.run_id) (sym same);
        number = ap (λ (x : LogRetentionEntry). x.attempt_no) (sym same);
        bytes = ap (λ (x : LogRetentionEntry). x.stored_bytes) (sym same);
        written = ap (λ (x : LogRetentionEntry). x.updated_at_ms) (sym same);
      },
    )

pub Expirable-entries :
    (db : Db) (l : LogRow)
    → Expirable l db
    → (e : LogRetentionEntry) × Memᴰ e (log_retention_entries db)
      × (e.eligible ≡ true)
      × (e.expired_at_ms ≡ none)
      × Describes e l
unfolding log_retention_entries to_entry
Expirable-entries db l x = (
  to_entry (l, x.attempt),
  Memᴰ.map to_entry (
      Mem-order_logs (l, x.attempt) _
        (Mem-join on_key db.logs db.attempts x.log x.attempt_there
          (rw (x.of_run, x.of_attempt) (ground (arith, text_eq_refl l.run_id))))),
  rw (x.complete, x.ended) refl,
  x.kept,
  record { run = refl; number = refl; bytes = refl; written = refl },
)
