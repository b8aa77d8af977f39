-- ===== src/Server/LogRetention/Books.antt =====
-- The sums of `plan_log_maintenance` (apps/lmt-server/src/lib.rs).
use lzu_mirror_tools.Prelude.{
  ℕ, ◌+◌, ◌≡◌, refl, sym, ap, ap₂, subst, ◌∙◌, Bool, true, false, not, ◌&&◌, ◌||◌, Option, List, [],
  ◌∷◌, ◌++◌, ◌==◌, arith, Bool-cases, leb, inl, inr, Memᴰ, if◌then◌else◌, is_none,
}
use lzu_mirror_tools.Prelude.Int.{ℤ}
use lzu_mirror_tools.Prelude.Text.{text_eq, text_eq_refl, text_eq_comm}
use lzu_mirror_tools.Prelude.Tables.{exists_where, where_rows, All, Distinct}
use lzu_mirror_tools.Prelude.Tables.Select.{exists_where-append, exists_where-All, All-Mem}
use lzu_mirror_tools.Store.Logs.{LogRetentionEntry}
use lzu_mirror_tools.Store.Logs.Keys.{same_entry}
use lzu_mirror_tools.Server.LogRetention.{
  LogExpirationView, Progress, live, stored_sum, expire_sum, names, push, is_older, expire_by_age,
  expire_by_size,
}

abbrev is_planned : List LogExpirationView → LogRetentionEntry → Bool
is_planned cs e = exists_where (λ c. text_eq c.run_id e.run_id && c.attempt == e.attempt_no) cs

-- The bytes of the logs that have not expired and are no candidates.
abbrev pub left_bytes : List LogExpirationView → List LogRetentionEntry → ℕ
left_bytes cs [] = 0
left_bytes cs (e ∷ es) =
    (if is_none e.expired_at_ms && not (is_planned cs e) then e.stored_bytes else 0)
    + left_bytes cs es

pub left_bytes-stored :
    (es : List LogRetentionEntry) → left_bytes [] es ≡ stored_sum (where_rows live es)
unfolding where_rows live exists_where
left_bytes-stored [] = refl
left_bytes-stored (e ∷ es) = elim (Bool-cases (is_none e.expired_at_ms)) [
  | inl t ↦ rw t (omega (arith, left_bytes-stored es))
  | inr f ↦ rw f (omega (arith, left_bytes-stored es))
]

abbrev view_of : LogRetentionEntry → LogExpirationView
view_of e = record { run_id = e.run_id; attempt = e.attempt_no; stored_bytes = e.stored_bytes }

-- One candidate more names its entry and no other.
is_planned-more :
    (cs : List LogExpirationView) (e x : LogRetentionEntry)
    → is_planned (cs ++ view_of e ∷ []) x ≡ (is_planned cs x || same_entry e x)
unfolding exists_where
is_planned-more cs e x =
    let h =
      exists_where-append (λ c. text_eq c.run_id x.run_id && c.attempt == x.attempt_no) cs
        (view_of e ∷ []) in
    h ∙ ap (λ b. is_planned cs x || b) (ground arith)

left_bytes-apart :
    (cs : List LogExpirationView) (e : LogRetentionEntry) (es : List LogRetentionEntry)
    → exists_where (same_entry e) es ≡ false
    → left_bytes (cs ++ view_of e ∷ []) es ≡ left_bytes cs es
unfolding exists_where
left_bytes-apart cs e [] h = refl
left_bytes-apart cs e (x ∷ es) h =
    let f : same_entry e x ≡ false = ground (arith, h) in
    let n : exists_where (same_entry e) es ≡ false = ground (arith, h) in
    let same : is_planned (cs ++ view_of e ∷ []) x ≡ is_planned cs x =
      is_planned-more cs e x ∙ ground (arith, f) in
    ap₂ (λ (b : Bool) (k : ℕ). (if is_none x.expired_at_ms && not b then x.stored_bytes else 0) + k)
      same (left_bytes-apart cs e es n)

same_entry_refl : (e : LogRetentionEntry) → same_entry e e ≡ true
same_entry_refl e = ground (arith, text_eq_refl e.run_id)

chosen :
    (a b c : Bool) (n : ℕ)
    → a ≡ true
    → b ≡ false
    → c ≡ true
    → (if a && not c then n else 0) + n ≡ (if a && not b then n else 0)
chosen a b c n h k l = rw (h, k, l) (omega arith)

left_bytes-more :
    (cs : List LogExpirationView) (e : LogRetentionEntry) (es : List LogRetentionEntry)
    → Distinct same_entry es
    → Memᴰ e es
    → is_none e.expired_at_ms ≡ true
    → is_planned cs e ≡ false
    → left_bytes (cs ++ view_of e ∷ []) es + e.stored_bytes ≡ left_bytes cs es
left_bytes-more cs e [] d m h k = elim m [ ]
left_bytes-more cs e (x ∷ es) d (Memᴰ.head q) h k =
    subst
      (λ y. left_bytes (cs ++ view_of e ∷ []) (y ∷ es) + e.stored_bytes ≡ left_bytes cs (y ∷ es)) q
      (omega (
        arith,
        left_bytes-apart cs e es (subst (λ y. exists_where (same_entry y) es ≡ false) (sym q) d.0),
        chosen (is_none e.expired_at_ms) (is_planned cs e) (is_planned (cs ++ view_of e ∷ []) e)
            e.stored_bytes h k (is_planned-more cs e e ∙ ground (arith, same_entry_refl e)),
      ))
left_bytes-more cs e (x ∷ es) d (Memᴰ.tail m) h k =
    let f : same_entry e x ≡ false = other x es d.0 m in
    let same : is_planned (cs ++ view_of e ∷ []) x ≡ is_planned cs x =
      is_planned-more cs e x ∙ ground (arith, f) in
    rw same (omega (arith, left_bytes-more cs e es d.1 m h k))
  where
    other :
        (x : LogRetentionEntry) (es : List LogRetentionEntry)
        → exists_where (same_entry x) es ≡ false
        → Memᴰ e es
        → same_entry e x ≡ false
    other x es n m =
        let f : same_entry x e ≡ false =
          All-Mem (λ y. same_entry x y ≡ false) es (exists_where-All (same_entry x) es n) m in
        let c = text_eq_comm e.run_id x.run_id in ground (arith, f, c)

expire_sum-append :
    (cs : List LogExpirationView) (c : LogExpirationView)
    → expire_sum (cs ++ c ∷ []) ≡ expire_sum cs + c.stored_bytes
expire_sum-append [] c = omega arith
expire_sum-append (x ∷ cs) c = omega (arith, expire_sum-append cs c)

-- What is projected, and what the candidates take, of all entries.
pub record Books (base : List LogRetentionEntry) (s : Progress) : Type 0 where
  pub projected : s.0 ≡ left_bytes s.1 base
  pub total : left_bytes s.1 base + expire_sum s.1 ≡ stored_sum (where_rows live base)

module _ (base : List LogRetentionEntry) (keyed : Distinct same_entry base) where
  pub push-Books :
      (e : LogRetentionEntry) (s : Progress)
      → Memᴰ e base
      → live e ≡ true
      → exists_where (names e) s.1 ≡ false
      → Books base s
      → Books base (push e s)
  unfolding push live names
  push-Books e (projected, cs) m h k b =
      let more = left_bytes-more cs e base keyed m h k in
      let p = b.projected in
      let t = b.total in
      record {
        projected = omega (arith, more, p);
        total = omega (arith, more, t, expire_sum-append cs (view_of e));
      }

  -- The entries to come, of which none is a candidate yet.
  abbrev pub Fresh : Progress → List LogRetentionEntry → Type 0
  Fresh s es = All (λ e. exists_where (names e) s.1 ≡ false) es

  push-Fresh :
      (e : LogRetentionEntry) (s : Progress) (es : List LogRetentionEntry)
      → exists_where (same_entry e) es ≡ false
      → Fresh s es
      → Fresh (push e s) es
  unfolding push names exists_where
  push-Fresh e s [] h k = tt
  push-Fresh e (projected, cs) (x ∷ es) h k =
      let f : same_entry e x ≡ false = ground (arith, h) in
      (
        is_planned-more cs e x ∙ ground (arith, f, k.0),
        push-Fresh e (projected, cs) es (ground (arith, h)) k.1,
      )

  pub expire_by_age-Books :
      (cutoff : Option ℤ) (es : List LogRetentionEntry) (s : Progress)
      → ((e : LogRetentionEntry) → Memᴰ e es → Memᴰ e base × (live e ≡ true))
      → Distinct same_entry es
      → Fresh s es
      → Books base s
      → Books base (expire_by_age cutoff es s)
  unfolding expire_by_age
  expire_by_age-Books cutoff [] s sub d f b = b
  expire_by_age-Books cutoff (e ∷ es) s sub d f b =
      let rest : (x : LogRetentionEntry) → Memᴰ x es → Memᴰ x base × (live x ≡ true) =
        λ x m. sub x (Memᴰ.tail m) in
      let (m, h) = sub e (Memᴰ.head refl) in
      elim (Bool-cases (is_older cutoff e)) [
        | inl t ↦ rw t (
            expire_by_age-Books cutoff es (push e s) rest d.1 (push-Fresh e s es d.0 f.1)
              (push-Books e s m h f.0 b))
        | inr n ↦ rw n (expire_by_age-Books cutoff es s rest d.1 f.1 b)
      ]

  pub expire_by_size-Books :
      (cap : ℕ) (es : List LogRetentionEntry) (s : Progress)
      → ((e : LogRetentionEntry) → Memᴰ e es → Memᴰ e base × (live e ≡ true))
      → Books base s
      → Books base (expire_by_size cap es s)
  unfolding expire_by_size
  expire_by_size-Books cap [] s sub b = b
  expire_by_size-Books cap (e ∷ es) s sub b =
      let rest : (x : LogRetentionEntry) → Memᴰ x es → Memᴰ x base × (live x ≡ true) =
        λ x m. sub x (Memᴰ.tail m) in
      let (m, h) = sub e (Memᴰ.head refl) in
      elim (Bool-cases (leb s.0 cap)) [
        | inl t ↦ rw t b
        | inr f ↦ elim (Bool-cases (exists_where (names e) s.1)) [
          | inl t ↦ rw (f, t) (expire_by_size-Books cap es s rest b)
          | inr n ↦ rw (f, n) (expire_by_size-Books cap es (push e s) rest (push-Books e s m h n b))
        ]
      ]
