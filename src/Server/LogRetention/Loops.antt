-- ===== src/Server/LogRetention/Loops.antt =====
-- The two loops of `plan_log_maintenance` (apps/lmt-server/src/lib.rs).
use lzu_mirror_tools.Prelude.{
  ℕ, ◌≤◌, ◌≡◌, refl, ap, sym, subst, ◌∙◌, ◌⊎◌, inl, inr, true, false, Option, List, [], ◌∷◌, ◌++◌,
  arith, Bool-cases, leb, Memᴰ, if◌then◌else◌,
}
use lzu_mirror_tools.Prelude.Int.{ℤ}
use lzu_mirror_tools.Prelude.Text.{text_eq_refl}
use lzu_mirror_tools.Prelude.Tables.{exists_where, All}
use lzu_mirror_tools.Prelude.Tables.Select.{exists_where-append}
use lzu_mirror_tools.Store.Logs.{LogRetentionEntry}
use lzu_mirror_tools.Server.LogRetention.{
  LogExpirationView, Progress, names, push, is_older, expire_by_age, expire_by_size,
}

-- The candidate is the log of an entry.
unfoldable pub Comes : List LogRetentionEntry → LogExpirationView → Type 0
Comes base c =
    (e : LogRetentionEntry) × Memᴰ e base × (names e c ≡ true) × (c.stored_bytes ≡ e.stored_bytes)

All-append :
    (base : List LogRetentionEntry) (cs : List LogExpirationView) (c : LogExpirationView)
    → All (Comes base) cs
    → Comes base c
    → All (Comes base) (cs ++ c ∷ [])
All-append base [] c h k = (k, tt)
All-append base (x ∷ cs) c h k = (h.0, All-append base cs c h.1 k)

-- An entry stays named, and the candidates are of entries.
pub record Grows (base : List LogRetentionEntry) (s s' : Progress) : Type 0 where
  pub keeps :
      (e : LogRetentionEntry)
      → exists_where (names e) s.1 ≡ true
      → exists_where (names e) s'.1 ≡ true
  pub comes : All (Comes base) s.1 → All (Comes base) s'.1

Grows-refl : (base : List LogRetentionEntry) (s : Progress) → Grows base s s
Grows-refl base s = record { keeps = λ e h. h; comes = λ h. h }

pub Grows-trans :
    (base : List LogRetentionEntry) (s t u : Progress)
    → Grows base s t
    → Grows base t u
    → Grows base s u
Grows-trans base s t u g h = record {
  keeps = λ e k. h.keeps e (g.keeps e k);
  comes = λ k. h.comes (g.comes k);
}

push-Grows :
    (base : List LogRetentionEntry) (e : LogRetentionEntry) (s : Progress)
    → Memᴰ e base
    → Grows base s (push e s)
unfolding push names Comes
push-Grows base e (projected, candidates) m = record {
  keeps =
      λ x h. (let e = exists_where-append (names x) candidates (view ∷ []) in ground (arith, e, h));
  comes =
      λ h. All-append base candidates view h (e, m, ground (arith, text_eq_refl e.run_id), refl);
}
  where
    view : LogExpirationView
    view = record { run_id = e.run_id; attempt = e.attempt_no; stored_bytes = e.stored_bytes }

push-names : (e : LogRetentionEntry) (s : Progress) → exists_where (names e) (push e s).1 ≡ true
unfolding push names exists_where
push-names e (projected, candidates) =
    (let view : LogExpirationView = record {
      run_id = e.run_id;
      attempt = e.attempt_no;
      stored_bytes = e.stored_bytes;
    } in
      exists_where-append (names e) candidates (view ∷ []) ∙ ground (arith, text_eq_refl e.run_id))

pub expire_by_age-Grows :
    (base : List LogRetentionEntry) (cutoff : Option ℤ) (es : List LogRetentionEntry) (s : Progress)
    → ((e : LogRetentionEntry) → Memᴰ e es → is_older cutoff e ≡ true → Memᴰ e base)
    → Grows base s (expire_by_age cutoff es s)
unfolding expire_by_age
expire_by_age-Grows base cutoff [] s sub = Grows-refl base s
expire_by_age-Grows base cutoff (e ∷ es) s sub = elim (Bool-cases (is_older cutoff e)) [
  | inl t ↦ rw t (
      Grows-trans base s (push e s) (expire_by_age cutoff es (push e s))
        (push-Grows base e s (sub e (Memᴰ.head refl) t))
        (expire_by_age-Grows base cutoff es (push e s) (λ x m. sub x (Memᴰ.tail m))))
  | inr f ↦ rw f (expire_by_age-Grows base cutoff es s (λ x m. sub x (Memᴰ.tail m)))
]

-- Every entry older than the cutoff is a candidate.
pub expire_by_age-names :
    (base : List LogRetentionEntry) (cutoff : Option ℤ) (es : List LogRetentionEntry) (s : Progress)
    {e : LogRetentionEntry}
    → ((e : LogRetentionEntry) → Memᴰ e es → Memᴰ e base)
    → Memᴰ e es
    → is_older cutoff e ≡ true
    → exists_where (names e) (expire_by_age cutoff es s).1 ≡ true
unfolding expire_by_age
expire_by_age-names base cutoff [] s sub m h = elim m [ ]
expire_by_age-names base cutoff (x ∷ es) s {e} sub (Memᴰ.head q) h =
    subst (λ (t : Progress). exists_where (names e) t.1 ≡ true)
      (ap (λ b. expire_by_age cutoff es (if b then push x s else s))
        (sym (ap (is_older cutoff) (sym q) ∙ h)))
      ((expire_by_age-Grows base cutoff es (push x s) (λ y m t. sub y (Memᴰ.tail m))).keeps e
        (subst (λ y. exists_where (names y) (push x s).1 ≡ true) (sym q) (push-names x s)))
expire_by_age-names base cutoff (x ∷ es) s sub (Memᴰ.tail m) h =
    expire_by_age-names base cutoff es (if is_older cutoff x then push x s else s)
      (λ y k. sub y (Memᴰ.tail k)) m h

pub expire_by_size-Grows :
    (base : List LogRetentionEntry) (cap : ℕ) (es : List LogRetentionEntry) (s : Progress)
    → ((e : LogRetentionEntry) → Memᴰ e es → Memᴰ e base)
    → Grows base s (expire_by_size cap es s)
unfolding expire_by_size
expire_by_size-Grows base cap [] s sub = Grows-refl base s
expire_by_size-Grows base cap (e ∷ es) s sub = elim (Bool-cases (leb s.0 cap)) [
  | inl t ↦ rw t (Grows-refl base s)
  | inr f ↦ elim (Bool-cases (exists_where (names e) s.1)) [
    | inl t ↦ rw (f, t) (expire_by_size-Grows base cap es s (λ x m. sub x (Memᴰ.tail m)))
    | inr n ↦
        rw (f, n)
          (Grows-trans base s (push e s) (expire_by_size cap es (push e s))
            (push-Grows base e s (sub e (Memᴰ.head refl)))
            (expire_by_size-Grows base cap es (push e s) (λ x m. sub x (Memᴰ.tail m))))
  ]
]

with_first :
    (base : List LogRetentionEntry) (cap : ℕ) (e : LogRetentionEntry) (es : List LogRetentionEntry)
    (t t' : Progress)
    → Grows base t t'
    → exists_where (names e) t.1 ≡ true
    → (t'.0 ≤ cap) ⊎ All (λ x. exists_where (names x) t'.1 ≡ true) es
    → (t'.0 ≤ cap) ⊎ All (λ x. exists_where (names x) t'.1 ≡ true) (e ∷ es)
with_first base cap e es t t' g h (inl k) = inl k
with_first base cap e es t t' g h (inr k) = inr (g.keeps e h, k)

-- The loop ended under the cap, or with every entry a candidate.
unfoldable pub Ends : ℕ → List LogRetentionEntry → Progress → Type 0
Ends cap es s = (s.0 ≤ cap) ⊎ All (λ e. exists_where (names e) s.1 ≡ true) es

pub expire_by_size-Ends :
    (base : List LogRetentionEntry) (cap : ℕ) (es : List LogRetentionEntry) (s : Progress)
    → ((e : LogRetentionEntry) → Memᴰ e es → Memᴰ e base)
    → Ends cap es (expire_by_size cap es s)
unfolding expire_by_size Ends
expire_by_size-Ends base cap [] s sub = inr tt
expire_by_size-Ends base cap (e ∷ es) s sub =
    let sub' : (x : LogRetentionEntry) → Memᴰ x es → Memᴰ x base = λ x m. sub x (Memᴰ.tail m) in
    let step : (t : Progress)
        → exists_where (names e) t.1 ≡ true
        → Ends cap (e ∷ es) (expire_by_size cap es t) =
      λ t h.
        with_first base cap e es t (expire_by_size cap es t)
          (expire_by_size-Grows base cap es t sub') h (expire_by_size-Ends base cap es t sub') in
    elim (Bool-cases (leb s.0 cap)) [
      | inl t ↦ subst (Ends cap (e ∷ es)) (stops t) (inl (ground (arith, t)))
      | inr f ↦ elim (Bool-cases (exists_where (names e) s.1)) [
        | inl t ↦ subst (Ends cap (e ∷ es)) (goes f t) (step s t)
        | inr n ↦ subst (Ends cap (e ∷ es)) (pushes f n) (step (push e s) (push-names e s))
      ]
    ]
  where
    stops : leb s.0 cap ≡ true → s ≡ expire_by_size cap (e ∷ es) s
    stops t = ground (arith, t)

    goes :
        leb s.0 cap ≡ false
        → exists_where (names e) s.1 ≡ true
        → expire_by_size cap es s ≡ expire_by_size cap (e ∷ es) s
    goes f t = ground (arith, f, t)

    pushes :
        leb s.0 cap ≡ false
        → exists_where (names e) s.1 ≡ false
        → expire_by_size cap es (push e s) ≡ expire_by_size cap (e ∷ es) s
    pushes f n = ground (arith, f, n)
