-- ===== src/Store/Revisions/Coverage.antt =====
-- What the plan of a bundle (`plan_with_connection`, crates/lmt-store/src/lib.rs) has a change for.
use lzu_mirror_tools.Prelude.{
  ◌≡◌, ◌∙◌, refl, sym, subst, ap, ap₂, Bool, true, false, ◌&&◌, not, ◌++◌, Option, none, some, List,
  [], ◌∷◌, inl, inr, arith, ok, >>=-eq-ok, ok-injective, Bool-cases, Option-cases, if◌then◌else◌,
  Memᴰ,
}
use mathlib.Core.List.Memᴰ
use lzu_mirror_tools.Prelude.Text.{Text, text_eq, text_eq→eq}
use lzu_mirror_tools.Prelude.Tables.{exists_where}
use lzu_mirror_tools.Prelude.Tables.Select.{exists_where-cases, find_where-Mem}
use lzu_mirror_tools.Core.Config.{CanonicalMirror, CanonicalBundle}
use lzu_mirror_tools.Store.Rows.{Db, StoreError, MirrorRow, GenerationRow}
use lzu_mirror_tools.Store.Queries.{current_generations}
use lzu_mirror_tools.Store.Revisions.{
  ChangeKind, ConfigChange, ConfigPlan, ConfigLibrary, get_mirror,
}
use lzu_mirror_tools.Store.Revisions.Plan.{
  parse_name, removal, differs, replacement, creation, creations, sort_changes, publication_change,
  change_of, current_changes, plan_with_connection,
}
use lzu_mirror_tools.Store.Revisions.Sorting.{
  sort_changes-Mem, Mem-sort_changes, creations-create, Mem-creations,
}
use lzu_mirror_tools.Store.Revisions.Changes.{Proper, parse_name-same}
use lzu_mirror_tools.Store.Revisions.View.{
  IsCurrent, IsCurrent-Mem, current_generations-IsCurrent, Synced, desired, demand,
}

only_change :
    (c d : ConfigChange) (changes : List ConfigChange) → d ∷ [] ≡ changes → Memᴰ c changes → c ≡ d
only_change c d changes e m = elim (subst (Memᴰ c) (sym e) m) [
  | Memᴰ.head h ↦ h
  | Memᴰ.tail n ↦ elim n [ ]
]

agrees :
    (m : MirrorRow) (g : GenerationRow) (next : CanonicalMirror)
    → differs m g next ≡ false
    → (m.managed ≡ true)
      × ◌≡◌ {A = Option (Text × Text)}
          (some (next.owner_node, next.config_hash))
          (some (m.owner_node, g.config_hash))
unfolding differs
agrees m g next f =
    let hash = text_eq→eq next.config_hash g.config_hash (ground arith) in
    let owner = text_eq→eq next.owner_node m.owner_node (ground arith) in
    (ground arith, ap₂ (λ (o h : Text). some (o, h)) owner hash)

not_nothing : {c : ConfigChange} → c ∷ [] ≡ [] → ⊥
not_nothing e = cc

not_removal :
    (b : Bool) → (if b then ChangeKind.move else ChangeKind.update) ≡ ChangeKind.remove → ⊥
not_removal true e = cc
not_removal false e = cc

module _ (library : ConfigLibrary) where
  -- A change of a current mirror names it, and removes it only where the bundle lacks it.
  change_of-names :
      (p : MirrorRow × GenerationRow) (next : Option (Text × CanonicalMirror))
      (changes : List ConfigChange) (c : ConfigChange)
      → change_of library p next ≡ ok changes
      → Memᴰ c changes
      → (c.mirror ≡ p.0.name) × (c.kind ≡ ChangeKind.remove → next ≡ none)
  unfolding change_of removal replacement
  change_of-names (m, g) none changes c h k = elim (Bool-cases m.managed) [
    | inl t ↦
        let e =
          only_change c (removal m) changes (ok-injective {E = StoreError} (ground (arith, h))) k in
        (ap (λ (d : ConfigChange). d.mirror) e, λ r. refl)
    | inr f ↦
        elim (subst (Memᴰ c) {y = []}
          (sym (ok-injective {E = StoreError} {v = []} {w = changes} (ground (arith, h)))) k) [ ]
  ]
  change_of-names (m, g) (some (name, next)) changes c h k = elim (Bool-cases (differs m g next)) [
    | inl t ↦
        let (p, _, h') =
          >>=-eq-ok (publication_change library g.config_toml next.document)
            (λ p. ok (replacement m next p ∷ [])) {w = changes} (ground (arith, h)) in
        let e = only_change c (replacement m next p) changes (ok-injective h') k in
        (
          ap (λ (d : ConfigChange). d.mirror) e,
          λ r. absurd (
              not_removal (m.managed && not (text_eq next.owner_node m.owner_node))
                (sym (ap (λ (d : ConfigChange). d.kind) e) ∙ r)),
        )
    | inr f ↦
        elim (subst (Memᴰ c) {y = []}
          (sym (ok-injective {E = StoreError} {v = []} {w = changes} (ground (arith, h)))) k) [ ]
  ]

  -- A current mirror that has no change is as the bundle has it.
  change_of-none :
      (m : MirrorRow) (g : GenerationRow) (next : Option (Text × CanonicalMirror))
      → change_of library (m, g) next ≡ ok []
      → (m.managed ≡ true → demand next ≡ some (m.owner_node, g.config_hash))
        × ((v : Text × CanonicalMirror) → next ≡ some v → m.managed ≡ true)
  unfolding change_of differs
  change_of-none m g none h = (λ t. absurd (ground (arith, h)), λ v e. cc)
  change_of-none m g (some (name, next)) h = elim (Bool-cases (differs m g next)) [
    | inl t ↦
        let (p, _, h') =
          >>=-eq-ok (publication_change library g.config_toml next.document)
            (λ p. ok (replacement m next p ∷ [])) {w = []} (ground (arith, h)) in
        absurd (not_nothing (ok-injective h'))
    | inr f ↦ let (managed, same) = agrees m g next f in (λ t. same, λ v e. managed)
  ]

  -- The loop over the current mirrors has the changes of each.
  pub current_changes-changes :
      (bundle : CanonicalBundle) (ps : List (MirrorRow × GenerationRow)) (cs : List ConfigChange)
      (p : MirrorRow × GenerationRow)
      → current_changes library bundle ps ≡ ok cs
      → Memᴰ p ps
      → (changes : List ConfigChange) × (change_of library p (get_mirror p.0.name bundle)
          ≡ ok changes)
        × ((c : ConfigChange) → Memᴰ c changes → Memᴰ c cs)
  unfolding current_changes
  current_changes-changes bundle [] cs p h m = elim m [ ]
  current_changes-changes bundle (q ∷ qs) cs p h m =
      let (parsed, e, h1) = >>=-eq-ok (parse_name library q.0.name) _ h in
      let (changes, made, h2) = >>=-eq-ok (change_of library q (get_mirror parsed bundle)) _ h1 in
      let (others, rest, h3) = >>=-eq-ok (current_changes library bundle qs) _ h2 in
      let whole = ok-injective h3 in
      elim m [
        | Memᴰ.head s ↦ (
          changes,
          subst
              (λ (x : MirrorRow × GenerationRow).
                change_of library x (get_mirror x.0.name bundle) ≡ ok changes)
              (sym s)
              (subst (λ n. change_of library q (get_mirror n bundle) ≡ ok changes)
                (parse_name-same library q.0.name e) made),
          λ c k. subst (Memᴰ c) whole (Memᴰ.append_left others k),
        )
        | Memᴰ.tail n ↦
            let (mine, of_p, there) = current_changes-changes bundle qs others p rest n in
            (mine, of_p, λ c k. subst (Memᴰ c) whole (Memᴰ.append_right changes (there c k)))
      ]

  -- Each change of that loop is one of a current mirror.
  current_changes-Proper :
      (bundle : CanonicalBundle) (ps : List (MirrorRow × GenerationRow)) (cs : List ConfigChange)
      (c : ConfigChange)
      → current_changes library bundle ps ≡ ok cs
      → Memᴰ c cs
      → Proper library bundle c
  unfolding current_changes
  current_changes-Proper bundle [] cs c h m r =
      elim (subst (Memᴰ c) {y = []} (sym (ok-injective h)) m) [ ]
  current_changes-Proper bundle (q ∷ qs) cs c h m r =
      let (parsed, e, h1) = >>=-eq-ok (parse_name library q.0.name) _ h in
      let (changes, made, h2) = >>=-eq-ok (change_of library q (get_mirror parsed bundle)) _ h1 in
      let (others, rest, h3) = >>=-eq-ok (current_changes library bundle qs) _ h2 in
      elim (Memᴰ.append_cases changes (subst (Memᴰ c) (sym (ok-injective h3)) m)) [
        | inl k ↦
            let (named, gone) = change_of-names q (get_mirror parsed bundle) changes c made k in
            subst (λ n. get_mirror n bundle ≡ none) (parse_name-same library q.0.name e ∙ sym named)
              (gone r)
        | inr n ↦ current_changes-Proper bundle qs others c rest n r
      ]

  pub plan-changes :
      (bundle : CanonicalBundle) (db : Db) (plan : ConfigPlan)
      → plan_with_connection library bundle db ≡ ok plan
      → (cs : List ConfigChange) × (current_changes library bundle (current_generations db) ≡ ok cs)
        × (sort_changes (cs ++ creations (current_generations db) bundle.mirrors) ≡ plan.changes)
  unfolding plan_with_connection
  plan-changes bundle db plan h =
      let (cs, e, h') = >>=-eq-ok (current_changes library bundle (current_generations db)) _ h in
      (cs, e, ap (λ (p : ConfigPlan). p.changes) (ok-injective h'))

  -- A plan removes only what the bundle lacks.
  pub plan-Proper :
      (bundle : CanonicalBundle) (db : Db) (plan : ConfigPlan)
      → plan_with_connection library bundle db ≡ ok plan
      → (c : ConfigChange) → Memᴰ c plan.changes
      → Proper library bundle c
  plan-Proper bundle db plan h c m r =
      let (cs, e, whole) = plan-changes bundle db plan h in
      elim (Memᴰ.append_cases cs (sort_changes-Mem c _ (subst (Memᴰ c) (sym whole) m))) [
        | inl k ↦ current_changes-Proper bundle (current_generations db) cs c e k r
        | inr k ↦
            absurd
              (not_create (sym (creations-create (current_generations db) bundle.mirrors c k) ∙ r))
      ]
    where
      not_create : ChangeKind.create ≡ ChangeKind.remove → ⊥
      not_create x = cc

  -- A mirror that the plan has no change of is deployed as the bundle has it.
  pub plan-Synced :
      (bundle : CanonicalBundle) (db : Db) (plan : ConfigPlan) (name : Text)
      → plan_with_connection library bundle db ≡ ok plan
      → ((c : ConfigChange) → Memᴰ c plan.changes → c.mirror ≡ name → ⊥)
      → Synced name (desired name bundle) db
  unfolding desired get_mirror
  plan-Synced bundle db plan name h free = record {
    sound = λ m g c managed. (settled m g c).0 managed;
    complete = λ v want. elim (Option-cases (get_mirror name bundle)) [
      | inl z ↦ absurd (ground (arith, want, ap demand z))
      | inr ((n, mirror), z) ↦
          let (there, t) =
            find_where-Mem (λ (p : Text × CanonicalMirror). text_eq p.0 name) bundle.mirrors z in
          let same : n ≡ name = text_eq→eq n name t in
          elim (Bool-cases
            (exists_where (λ (p : MirrorRow × GenerationRow). text_eq p.0.name n) current)) [
              | inr f ↦ absurd (
                  free (creation n mirror)
                    (among (creation n mirror) (
                      Memᴰ.append_right cs (Mem-creations current bundle.mirrors n mirror there f)))
                    (unfold creation in same))
              | inl y ↦
                  let ((m, g), k, e) =
                    exists_where-cases (λ (p : MirrorRow × GenerationRow). text_eq p.0.name n)
                      current y in
                  let c =
                    current_generations-IsCurrent name db m g k
                      (subst (λ x. text_eq m.name x ≡ true) same e) in
                  (m, g, c, (settled m g c).1 (n, mirror) z)
            ]
    ];
  }
    where
      current : List (MirrorRow × GenerationRow)
      current = current_generations db

      cs : List ConfigChange
      cs = (plan-changes bundle db plan h).0

      among :
          (c : ConfigChange) → Memᴰ c (cs ++ creations current bundle.mirrors) → Memᴰ c plan.changes
      among c m = subst (Memᴰ c) (plan-changes bundle db plan h).2 (Mem-sort_changes c _ m)

      settled :
          (m : MirrorRow) (g : GenerationRow)
          → IsCurrent name m g db
          → (m.managed ≡ true
              → demand (get_mirror name bundle) ≡ some (m.owner_node, g.config_hash))
            × ((v : Text × CanonicalMirror) → get_mirror name bundle ≡ some v → m.managed ≡ true)
      settled m g c =
          let (changes, made, kept) =
            current_changes-changes bundle current cs (m, g) (plan-changes bundle db plan h).1
              (IsCurrent-Mem name db m g c) in
          subst
            (λ n.
              (m.managed ≡ true → demand (get_mirror n bundle) ≡ some (m.owner_node, g.config_hash))
              × ((v : Text × CanonicalMirror) → get_mirror n bundle ≡ some v → m.managed ≡ true))
            c.named
            (change_of-none m g (get_mirror m.name bundle) (
              nothing changes made (λ x k.
                free x (among x (Memᴰ.append_left (creations current bundle.mirrors) (kept x k))) (
                  (change_of-names (m, g) (get_mirror m.name bundle) changes x made k).0
                  ∙ c.named))))
        where
          nothing :
              (changes : List ConfigChange)
              → change_of library (m, g) (get_mirror m.name bundle) ≡ ok changes
              → ((x : ConfigChange) → Memᴰ x changes → ⊥)
              → change_of library (m, g) (get_mirror m.name bundle) ≡ ok []
          nothing [] e empty = e
          nothing (x ∷ xs) e empty = absurd (empty x (Memᴰ.head refl))
