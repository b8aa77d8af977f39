-- ===== src/Store/Revisions/Installed.antt =====
-- The tables of `Store::apply` (crates/lmt-store/src/lib.rs) after a mirror was put or removed, as what
-- is current of each mirror.
use lzu_mirror_tools.Prelude.{
  ◌≡◌, ◌↔◌, ◌∙◌, refl, sym, subst, ap, ap₂, true, false, ◌++◌, Option, none, some, [], ◌∷◌, inl,
  inr, arith, ok, Memᴰ,
}
use mathlib.Core.List.Memᴰ
use lzu_mirror_tools.Prelude.Int.{ℤ}
use lzu_mirror_tools.Prelude.Text.{Text, text_eq, text_eq→eq, text_eq_refl}
use lzu_mirror_tools.Prelude.Tables.{exists_where, update_where}
use lzu_mirror_tools.Prelude.Tables.Select.{exists_where-Mem}
use lzu_mirror_tools.Prelude.Tables.Evolution.{Mem-update_where_kept}
use lzu_mirror_tools.Prelude.Tables.Membership.{update_where-Mem, Mem-append_one}
use lzu_mirror_tools.Store.Rows.{Db, MirrorRow, GenerationRow}
use lzu_mirror_tools.Store.Revisions.Effects.{delete_schedule}
use lzu_mirror_tools.Store.Revisions.Apply.{
  has_name, unmanage, unmanage_mirror, remove_mirror, upsert_mirror, is_generation,
  insert_generation,
}
use lzu_mirror_tools.Store.Revisions.Tables.{
  settle-SameConfig, upsert_mirror-Mem, Mem-upsert_mirror_row, Mem-upsert_mirror_kept,
}
use lzu_mirror_tools.Store.Revisions.View.{IsCurrent, Synced}

-- The tables after a mirror was put: its row, and its generation, which is new.
pub record Installed (name : Text) (row : MirrorRow) (g : GenerationRow) (db db' : Db)
    : Type 0 where
  pub mirrors : db'.mirrors ≡ (upsert_mirror row db).mirrors
  pub generations : db'.generations ≡ db.generations ++ g ∷ []
  pub new : exists_where (is_generation name g.generation) db.generations ≡ false

pub insert_generation-ok :
    (row : GenerationRow) (db db' : Db)
    → insert_generation row db ≡ ok db'
    → (exists_where (is_generation row.mirror_name row.generation) db.generations ≡ false)
      × (db'.mirrors ≡ db.mirrors)
      × (db'.generations ≡ db.generations ++ row ∷ [])
unfolding insert_generation
insert_generation-ok row db db' h = (ground arith, ground arith, ground arith)

-- The current rows of a mirror, which a change of another one leaves.
abbrev pub Unchanged : Text → Db → Db → Type 0
Unchanged name db db' =
    (m : MirrorRow) (g : GenerationRow) → IsCurrent name m g db ↔ IsCurrent name m g db'

pub Synced-Unchanged :
    (name : Text) (want : Option (Text × Text)) (db db' : Db)
    → Unchanged name db db'
    → Synced name want db
    → Synced name want db'
Synced-Unchanged name want db db' same s = record {
  sound = λ m g c managed. s.sound m g ((same m g).1 c) managed;
  complete = λ v e. let (m, g, c, managed) = s.complete v e in (m, g, (same m g).0 c, managed);
}

names_differ : (a b : Text) → text_eq a b ≡ false → a ≡ b → ⊥
names_differ a b f e = ground (arith, f, subst (λ n. text_eq a n ≡ true) e (text_eq_refl a))

module _ (name : Text) (row : MirrorRow) (g : GenerationRow) (db db' : Db)
    (i : Installed name row g db db') (row_named : row.name ≡ name)
    (g_named : g.mirror_name ≡ name) where
  -- The mirror that was put runs under its new generation.
  pub Installed-Synced :
      g.generation ≡ row.current_generation
      → row.managed ≡ true
      → Synced name (some (row.owner_node, g.config_hash)) db'
  unfolding has_name is_generation
  Installed-Synced current managed = record {
    sound = λ m k c t.
        let e = only_row m c in
        ap (λ (p : MirrorRow × GenerationRow). some (p.0.owner_node, p.1.config_hash))
          (ap₂ (λ (x : MirrorRow) (y : GenerationRow). (x, y)) (sym e)
            (sym (
              only_generation k
                (c.current ∙ ap (λ (x : MirrorRow). x.current_generation) e ∙ sym current)
                c.of_mirror c.generation)));
    complete = λ v e. (
      row,
      g,
      record {
        mirror = subst (Memᴰ row) (sym i.mirrors) (Mem-upsert_mirror_row row db);
        generation =
            subst (Memᴰ g) (sym i.generations) (Memᴰ.append_right db.generations (Memᴰ.head refl));
        named = row_named;
        of_mirror = g_named;
        current = current;
      },
      managed,
    );
  }
    where
      only_row : (m : MirrorRow) {k : GenerationRow} → IsCurrent name m k db' → m ≡ row
      only_row m c = elim (upsert_mirror-Mem row db (subst (Memᴰ m) i.mirrors c.mirror)) [
        | inl e ↦ e
        | inr (_, f) ↦ absurd (names_differ m.name row.name f (c.named ∙ sym row_named))
      ]

      only_generation :
          (k : GenerationRow)
          → k.generation ≡ g.generation
          → k.mirror_name ≡ name
          → Memᴰ k db'.generations
          → k ≡ g
      only_generation k e n m =
          elim (Mem-append_one db.generations (subst (Memᴰ k) i.generations m)) [
            | inr same ↦ same
            | inl old ↦
                let found : is_generation name g.generation k ≡ true =
                  rw (n, e) (ground (arith, text_eq_refl name)) in
                absurd (
                  ground (
                    arith,
                    i.new,
                    exists_where-Mem (is_generation name g.generation) db.generations old found,
                  ))
          ]

  -- What is current of another mirror.
  pub Installed-Unchanged : (other : Text) → text_eq other name ≡ false → Unchanged other db db'
  unfolding has_name
  Installed-Unchanged other f m k = (forth, back)
    where
      forth : IsCurrent other m k db → IsCurrent other m k db'
      forth c = record {
        mirror =
            subst (Memᴰ m) (sym i.mirrors)
              (Mem-upsert_mirror_kept row db c.mirror (rw (c.named, row_named) f));
        generation = subst (Memᴰ k) (sym i.generations) (Memᴰ.append_left (g ∷ []) c.generation);
        named = c.named;
        of_mirror = c.of_mirror;
        current = c.current;
      }

      back : IsCurrent other m k db' → IsCurrent other m k db
      back c = record {
        mirror = elim (upsert_mirror-Mem row db (subst (Memᴰ m) i.mirrors c.mirror)) [
          | inl e ↦ absurd (
              names_differ other name f
                (sym c.named ∙ ap (λ (x : MirrorRow). x.name) e ∙ row_named))
          | inr (n, _) ↦ n
        ];
        generation =
            elim (Mem-append_one db.generations (subst (Memᴰ k) i.generations c.generation)) [
              | inr e ↦ absurd (
                  names_differ other name f
                    (sym c.of_mirror ∙ ap (λ (x : GenerationRow). x.mirror_name) e ∙ g_named))
              | inl n ↦ n
            ];
        named = c.named;
        of_mirror = c.of_mirror;
        current = c.current;
      }

-- The tables after a removal.
remove_mirror-mirrors :
    (mirror : Text) (now : ℤ) (db : Db)
    → ((remove_mirror mirror now db).mirrors
        ≡ update_where (has_name mirror) (unmanage now) db.mirrors)
      × ((remove_mirror mirror now db).generations ≡ db.generations)
unfolding remove_mirror delete_schedule unmanage_mirror
remove_mirror-mirrors mirror now db = settle-SameConfig mirror now (unmanage_mirror mirror now db)

pub remove_mirror-Synced :
    (mirror : Text) (now : ℤ) (db : Db) → Synced mirror none (remove_mirror mirror now db)
unfolding unmanage has_name
remove_mirror-Synced mirror now db = record {
  sound = λ m g c managed.
      absurd
        (elim (update_where-Mem (has_name mirror) (unmanage now) db.mirrors
          (subst (Memᴰ m) (remove_mirror-mirrors mirror now db).0 c.mirror)) [
            | inl (x, _, _, e) ↦ ground (arith, managed, ap (λ (r : MirrorRow). r.managed) e)
            | inr (_, f) ↦ names_differ m.name mirror f c.named
          ]);
  complete = λ v e. cc;
}

pub remove_mirror-Unchanged :
    (mirror : Text) (now : ℤ) (db : Db) (other : Text)
    → text_eq other mirror ≡ false
    → Unchanged other db (remove_mirror mirror now db)
unfolding unmanage has_name
remove_mirror-Unchanged mirror now db other f m k =
    let (ms, gs) = remove_mirror-mirrors mirror now db in
    (
      λ c. record {
        mirror = subst (Memᴰ m) (sym ms) (
            Mem-update_where_kept (has_name mirror) (unmanage now) db.mirrors c.mirror
              (rw c.named f));
        generation = subst (Memᴰ k) (sym gs) c.generation;
        named = c.named;
        of_mirror = c.of_mirror;
        current = c.current;
      },
      λ c. record {
        mirror =
            elim (update_where-Mem (has_name mirror) (unmanage now) db.mirrors
              (subst (Memᴰ m) ms c.mirror)) [
                | inr (n, _) ↦ n
                | inl (x, _, t, e) ↦ absurd (
                    names_differ other mirror f
                      (sym c.named ∙ ap (λ (r : MirrorRow). r.name) e ∙ text_eq→eq x.name mirror t))
              ];
        generation = subst (Memᴰ k) gs c.generation;
        named = c.named;
        of_mirror = c.of_mirror;
        current = c.current;
      },
    )
