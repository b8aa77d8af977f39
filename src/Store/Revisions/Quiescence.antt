-- ===== src/Store/Revisions/Quiescence.antt =====
-- What `enforce_quiescent_high_impact_changes` (crates/lmt-store/src/lib.rs) promises of `Store::apply`.
use lzu_mirror_tools.Prelude.{
  ◌≡◌, ◌≢◌, true, some, Option, ◌⊎◌, ◌∷◌, >>=-eq-ok, refl, subst, ap, ℕ, false, not, none, List, [],
  inl, inr, arith, ok, ok-injective, ◌∙◌, Bool-cases, Option-cases, Memᴰ, is_none, ◌&&◌,
}
use lzu_mirror_tools.Prelude.Int.{ℤ}
use mathlib.Core.List.Memᴰ
use lzu_mirror_tools.Prelude.Text.{Text, text_eq, text_eq_refl, text_eq→eq}
use lzu_mirror_tools.Core.State.{RunState}
use lzu_mirror_tools.Store.Revisions.View.{IsCurrent, IsCurrent-Mem}
use lzu_mirror_tools.Store.Revisions.Sorting.{Mem-sort_changes}
use lzu_mirror_tools.Store.Revisions.Coverage.{plan-changes, current_changes-changes}
use lzu_mirror_tools.Store.Queries.{current_generations}
use lzu_mirror_tools.Prelude.Tables.{select_first}
use lzu_mirror_tools.Prelude.Tables.Select.{select_first-none}
use lzu_mirror_tools.Core.Config.{
  CanonicalBundle, CanonicalMirror, PublicationMode, publication_mode,
}
use lzu_mirror_tools.Store.Rows.{
  Db, RunRow, MirrorRow, GenerationRow, StoreError, occupies, is_active,
}
use lzu_mirror_tools.Store.Revisions.{
  ChangeKind, ConfigChange, ConfigPlan, ConfigLibrary, is_move, PublicationChange, get_mirror,
}
use lzu_mirror_tools.Store.Revisions.Effects.{created_before, enforce_quiescent_high_impact_changes}
use lzu_mirror_tools.Store.Revisions.Plan.{
  plan_with_connection, differs, replacement, mode_change, publication_change, change_of, creations,
}
use lzu_mirror_tools.Store.Revisions.Apply.{apply}
use lzu_mirror_tools.Store.Revisions.Soundness.{apply-steps}

-- A change that is checked to find the mirror standing still.
abbrev IsChecked : ConfigChange → Type 0
IsChecked c = (c.kind ≡ ChangeKind.move) ⊎ (is_none c.publication_change ≡ false)

skipped :
    (c : ConfigChange)
    → IsChecked c
    → (not (is_move c.kind) && is_none c.publication_change) ≡ false
unfolding is_move
skipped c (inl e) = rw e refl
skipped c (inr f) = ground (arith, f)

no_run :
    (c : ConfigChange) (db : Db) (r : RunRow)
    → select_first (occupies c.mirror) created_before db.runs ≡ none
    → Memᴰ r db.runs
    → r.mirror_name ≡ c.mirror
    → is_active r.state ≡ false
unfolding occupies
no_run c db r e m same =
    let f = select_first-none (occupies c.mirror) created_before db.runs e m in
    let t = text_eq_refl c.mirror in
    ground (arith, subst (λ n. (text_eq n c.mirror && is_active r.state) ≡ false) same f)

later :
    (d : ConfigChange) (ds : List ConfigChange) (db : Db)
    → enforce_quiescent_high_impact_changes (d ∷ ds) db ≡ ok tt
    → enforce_quiescent_high_impact_changes ds db ≡ ok tt
unfolding enforce_quiescent_high_impact_changes
later d ds db h = elim (Bool-cases (not (is_move d.kind) && is_none d.publication_change)) [
  | inl t ↦ ground (arith, h, t)
  | inr f ↦ elim (Option-cases (select_first (occupies d.mirror) created_before db.runs)) [
    | inl z ↦ ground (arith, h, f, z)
    | inr (x, z) ↦ absurd (ground (arith, h, f, z))
  ]
]

enforce-quiet :
    (changes : List ConfigChange) (db : Db) (c : ConfigChange) (r : RunRow)
    → enforce_quiescent_high_impact_changes changes db ≡ ok tt
    → Memᴰ c changes
    → IsChecked c
    → Memᴰ r db.runs
    → r.mirror_name ≡ c.mirror
    → is_active r.state ≡ false
unfolding enforce_quiescent_high_impact_changes
enforce-quiet [] db c r h m high k same = elim m [ ]
enforce-quiet (d ∷ ds) db c r h (Memᴰ.head e) high k same =
    elim (Option-cases (select_first (occupies d.mirror) created_before db.runs)) [
      | inl z ↦ no_run d db r z k (same ∙ ap (λ (x : ConfigChange). x.mirror) e)
      | inr (x, z) ↦ absurd (ground (arith, h, skipped d (subst IsChecked e high)))
    ]
enforce-quiet (d ∷ ds) db c r h (Memᴰ.tail m) high k same =
    enforce-quiet ds db c r (later d ds db h) m high k same

-- A managed mirror gets another owner, or a mirror gets another configuration whose mode of
-- publication is not the one that is stored for it.
abbrev pub IsHighImpact : ConfigLibrary → MirrorRow → GenerationRow → CanonicalMirror → Type 0
IsHighImpact library m g next =
    ((m.managed ≡ true) × (next.owner_node ≢ m.owner_node))
    ⊎ ((next.config_hash ≢ g.config_hash)
        × ((mode : PublicationMode) × (library.stored_mode g.config_toml ≡ ok mode)
            × (mode ≢ publication_mode next.document)))

unequal : (s t : Text) → s ≢ t → text_eq s t ≡ false
unequal s t other = elim (Bool-cases (text_eq s t)) [
  | inl e ↦ absurd (other (text_eq→eq s t e))
  | inr f ↦ f
]

other_mode : (a b : PublicationMode) → a ≢ b → is_none (mode_change a b) ≡ false
unfolding mode_change
other_mode PublicationMode.direct PublicationMode.direct h = absurd (h refl)
other_mode PublicationMode.direct PublicationMode.atomic h = refl
other_mode PublicationMode.atomic PublicationMode.direct h = refl
other_mode PublicationMode.atomic PublicationMode.atomic h = absurd (h refl)

idle : (s : RunState) → is_active s ≡ false → (s ≢ RunState.pending) × (s ≢ RunState.running)
unfolding is_active
idle RunState.pending f = absurd (ground (arith, f))
idle RunState.running f = absurd (ground (arith, f))
idle RunState.succeeded f = (λ e. cc, λ e. cc)
idle RunState.failed f = (λ e. cc, λ e. cc)
idle RunState.cancelled f = (λ e. cc, λ e. cc)
idle RunState.timed_out f = (λ e. cc, λ e. cc)

module _ (library : ConfigLibrary) where
  high-differs :
      (m : MirrorRow) (g : GenerationRow) (next : CanonicalMirror)
      → IsHighImpact library m g next
      → differs m g next ≡ true
  unfolding differs
  high-differs m g next (inl (managed, other)) =
      let f = unequal next.owner_node m.owner_node other in ground (arith, f)
  high-differs m g next (inr (other, _)) =
      let f = unequal next.config_hash g.config_hash other in ground (arith, f)

  -- A mirror that differs from the bundle has its replacement in the plan.
  plan-replacement :
      (bundle : CanonicalBundle) (db : Db) (plan : ConfigPlan) (m : MirrorRow) (g : GenerationRow)
      (name : Text) (next : CanonicalMirror)
      → plan_with_connection library bundle db ≡ ok plan
      → IsCurrent m.name m g db
      → get_mirror m.name bundle ≡ some (name, next)
      → differs m g next ≡ true
      → (p : Option PublicationChange) × (publication_change library g.config_toml next.document
          ≡ ok p)
        × Memᴰ (replacement m next p) plan.changes
  unfolding change_of
  plan-replacement bundle db plan m g name next h c there d =
      let (cs, e, whole) = plan-changes library bundle db plan h in
      let (changes, made, kept) =
        current_changes-changes library bundle (current_generations db) cs (m, g) e
          (IsCurrent-Mem m.name db m g c) in
      let made' : change_of library (m, g) (some (name, next)) ≡ ok changes =
        subst (λ o. change_of library (m, g) o ≡ ok changes) there made in
      let (p, f, h') =
        >>=-eq-ok (publication_change library g.config_toml next.document)
          (λ p. ok (replacement m next p ∷ [])) {w = changes} (ground (arith, made', d)) in
      (
        p,
        f,
        subst (Memᴰ (replacement m next p)) whole (
            Mem-sort_changes (replacement m next p) _ (
              Memᴰ.append_left (creations (current_generations db) bundle.mirrors) (
                kept (replacement m next p)
                  (subst (Memᴰ (replacement m next p)) (ok-injective h') (Memᴰ.head refl))))),
      )

  replacement-IsChecked :
      (m : MirrorRow) (g : GenerationRow) (next : CanonicalMirror) (p : Option PublicationChange)
      → IsHighImpact library m g next
      → publication_change library g.config_toml next.document ≡ ok p
      → IsChecked (replacement m next p)
  unfolding replacement publication_change
  replacement-IsChecked m g next p (inl (managed, other)) e =
      let f = unequal next.owner_node m.owner_node other in inl (rw (managed, f) refl)
  replacement-IsChecked m g next p (inr (_, (mode, stored, other))) e =
      let same : mode_change mode (publication_mode next.document) ≡ p =
        ok-injective {E = StoreError} (ground (arith, e, stored)) in
      inr (
        subst (λ o. is_none o ≡ false) same
          (other_mode mode (publication_mode next.document) other))

  -- Where a bundle is applied, no mirror of the bundle had a pending or running run before, if it is
  -- managed and gets another owner, or gets another configuration whose mode of publication is not
  -- the one that is stored for it.
  pub apply-quiescent :
      (bundle : CanonicalBundle) (base_revision : ℕ) (actor : Text) (now : ℤ) (db : Db)
      {result : ConfigPlan × Db} (m : MirrorRow) (g : GenerationRow) (name : Text)
      (next : CanonicalMirror) (r : RunRow)
      → apply library bundle base_revision actor now db ≡ ok result
      → IsCurrent m.name m g db
      → get_mirror m.name bundle ≡ some (name, next)
      → IsHighImpact library m g next
      → Memᴰ r db.runs
      → r.mirror_name ≡ m.name
      → (r.state ≢ RunState.pending) × (r.state ≢ RunState.running)
  unfolding replacement
  apply-quiescent bundle base_revision actor now db m g name next r h c there high k same =
      let (plan, planned, _, quiet, _) = apply-steps library bundle base_revision actor now db h in
      let (p, e, among) =
        plan-replacement bundle db plan m g name next planned c there
          (high-differs m g next high) in
      idle r.state (
        enforce-quiet plan.changes db (replacement m next p) r quiet among
          (replacement-IsChecked m g next p high e) k same)
