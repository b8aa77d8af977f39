-- ===== src/Store/Revisions/Convergence.antt =====
-- `Store::apply` (crates/lmt-store/src/lib.rs) makes the database deploy the bundle.
use lzu_mirror_tools.Prelude.{
  ◌≡◌, ◌⊎◌, refl, sym, subst, ℕ, suc, Bool, true, false, List, [], ◌∷◌, inl, inr, arith, ok,
  >>=-eq-ok, ok-injective, Bool-cases, Memᴰ,
}
use lzu_mirror_tools.Prelude.Int.{ℤ}
use lzu_mirror_tools.Prelude.Text.{Text, text_eq, text_eq→eq, text_eq_refl}
use lzu_mirror_tools.Prelude.Tables.{exists_where}
use lzu_mirror_tools.Prelude.Tables.Select.{exists_where-Mem}
use lzu_mirror_tools.Core.Config.{CanonicalBundle}
use lzu_mirror_tools.Store.Rows.{Db}
use lzu_mirror_tools.Store.Revisions.{ConfigChange, ConfigPlan, ConfigLibrary}
use lzu_mirror_tools.Store.Revisions.Plan.{max_revision}
use lzu_mirror_tools.Store.Revisions.Apply.{apply_change, apply_changes, insert_revision, apply}
use lzu_mirror_tools.Store.Revisions.Soundness.{apply-steps}
use lzu_mirror_tools.Store.Revisions.Installed.{Unchanged, Synced-Unchanged}
use lzu_mirror_tools.Store.Revisions.Changes.{Proper, apply_change-Synced, apply_change-Unchanged}
use lzu_mirror_tools.Store.Revisions.Coverage.{plan-Proper, plan-Synced}
use lzu_mirror_tools.Store.Revisions.View.{Synced, Synced-deployed, deployed, desired}

abbrev mentions : Text → ConfigChange → Bool
mentions name c = text_eq name c.mirror

insert_revision-Unchanged :
    (bundle : CanonicalBundle) (actor : Text) (now : ℤ) (db : Db) (name : Text)
    → Unchanged name db (insert_revision bundle actor now db)
unfolding insert_revision
insert_revision-Unchanged bundle actor now db name m g = (
  λ c. record {
    mirror = c.mirror;
    generation = c.generation;
    named = c.named;
    of_mirror = c.of_mirror;
    current = c.current;
  },
  λ c. record {
    mirror = c.mirror;
    generation = c.generation;
    named = c.named;
    of_mirror = c.of_mirror;
    current = c.current;
  },
)

module _ (library : ConfigLibrary) where
  -- The changes of a plan sync what they name, and keep synced what was.
  apply_changes-Synced :
      (bundle : CanonicalBundle) (revision : ℕ) (now : ℤ) (changes : List ConfigChange)
      (db db' : Db) (name : Text)
      → ((c : ConfigChange) → Memᴰ c changes → Proper library bundle c)
      → apply_changes library bundle revision now changes db ≡ ok db'
      → (exists_where (mentions name) changes ≡ true) ⊎ Synced name (desired name bundle) db
      → Synced name (desired name bundle) db'
  unfolding apply_changes exists_where
  apply_changes-Synced bundle revision now [] db db' name proper h (inl t) = cc
  apply_changes-Synced bundle revision now [] db db' name proper h (inr s) =
      subst (Synced name (desired name bundle)) (ok-injective h) s
  apply_changes-Synced bundle revision now (c ∷ cs) db db' name proper h start =
      let (changed, e, h') = >>=-eq-ok (apply_change library bundle revision now c db) _ h in
      apply_changes-Synced bundle revision now cs changed db' name (λ d m. proper d (Memᴰ.tail m))
        h'
        (elim (Bool-cases (text_eq name c.mirror)) [
          | inl t ↦ inr (
              subst (λ n. Synced n (desired n bundle) changed) (sym (text_eq→eq name c.mirror t))
                (apply_change-Synced library bundle revision now c db changed
                  (proper c (Memᴰ.head refl)) e))
          | inr f ↦ elim start [
            | inl t ↦ inl (ground (arith, t))
            | inr s ↦ inr (
                Synced-Unchanged name (desired name bundle) db changed
                  (apply_change-Unchanged library bundle revision now c db changed e name f) s)
          ]
        ])

  -- Where a bundle is applied, the database then deploys what the bundle asks for, for every name of a
  -- mirror: the managed mirror's owner and the hash of its current configuration are the bundle's,
  -- and a mirror that the bundle lacks is not deployed.
  pub apply-deployed :
      (bundle : CanonicalBundle) (base_revision : ℕ) (actor : Text) (now : ℤ) (db : Db)
      {result : ConfigPlan × Db} (name : Text)
      → apply library bundle base_revision actor now db ≡ ok result
      → deployed name result.1 ≡ desired name bundle
  apply-deployed bundle base_revision actor now db {result} name h =
      let (plan, planned, _, _, done) = apply-steps library bundle base_revision actor now db h in
      let started = insert_revision bundle actor now db in
      let revision = suc (max_revision db.revisions) in
      Synced-deployed name (desired name bundle) result.1 (
        apply_changes-Synced bundle revision now plan.changes started result.1 name
          (plan-Proper library bundle db plan planned) done
          (elim (Bool-cases (exists_where (mentions name) plan.changes)) [
            | inl t ↦ inl t
            | inr f ↦ inr (
                Synced-Unchanged name (desired name bundle) db started
                  (insert_revision-Unchanged bundle actor now db name)
                  (plan-Synced library bundle db plan name planned (unnamed plan f)))
          ]))
    where
      unnamed :
          (plan : ConfigPlan)
          → exists_where (mentions name) plan.changes ≡ false
          → (c : ConfigChange) → Memᴰ c plan.changes
          → c.mirror ≡ name
          → ⊥
      unnamed plan f c m e =
          let t : mentions name c ≡ true = rw e (text_eq_refl name) in
          ground (arith, f, exists_where-Mem (mentions name) plan.changes m t)
