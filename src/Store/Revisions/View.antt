-- ===== src/Store/Revisions/View.antt =====
-- What the database deploys, as far as it says who owns a mirror under which configuration, and what
-- a bundle asks for (crates/lmt-store/src/lib.rs and crates/lmt-core/src/config.rs).
use lzu_mirror_tools.Prelude.{
  ◌≡◌, sym, ◌∙◌, Bool, true, ◌&&◌, ◌==◌, Option, none, some, inl, inr, arith, Option-cases, Memᴰ,
}
use lzu_mirror_tools.Prelude.Text.{Text, text_eq, text_eq→eq, text_eq_refl}
use lzu_mirror_tools.Prelude.Tables.{find_where}
use lzu_mirror_tools.Prelude.Tables.Select.{
  find_where-Mem, find_where-none, exists_where-Mem, join-Mem,
}
use lzu_mirror_tools.Prelude.Tables.Membership.{Mem-join}
use lzu_mirror_tools.Core.Config.{CanonicalMirror, CanonicalBundle}
use lzu_mirror_tools.Store.Rows.{Db, MirrorRow, GenerationRow}
use lzu_mirror_tools.Store.Queries.{current_generations}
use lzu_mirror_tools.Store.Revisions.{get_mirror}

-- The owner and the hash of the configuration that a managed mirror runs under.
abbrev pub is_deployed : Text → MirrorRow × GenerationRow → Bool
is_deployed name (m, g) = text_eq m.name name && m.managed

abbrev pub deployment : Option (MirrorRow × GenerationRow) → Option (Text × Text)
deployment none = none
deployment (some (m, g)) = some (m.owner_node, g.config_hash)

unfoldable pub deployed : Text → Db → Option (Text × Text)
deployed name db = deployment (find_where (is_deployed name) (current_generations db))

abbrev pub demand : Option (Text × CanonicalMirror) → Option (Text × Text)
demand none = none
demand (some (_, mirror)) = some (mirror.owner_node, mirror.config_hash)

unfoldable pub desired : Text → CanonicalBundle → Option (Text × Text)
unfolding get_mirror
desired name bundle = demand (get_mirror name bundle)

-- A row of the mirror with the row of its current generation.
pub record IsCurrent (name : Text) (m : MirrorRow) (g : GenerationRow) (db : Db) : Type 0 where
  pub mirror : Memᴰ m db.mirrors
  pub generation : Memᴰ g db.generations
  pub named : m.name ≡ name
  pub of_mirror : g.mirror_name ≡ name
  pub current : g.generation ≡ m.current_generation

-- The managed rows of a mirror are as wanted.
pub record Synced (name : Text) (want : Option (Text × Text)) (db : Db) : Type 0 where
  pub sound :
      (m : MirrorRow) (g : GenerationRow)
      → IsCurrent name m g db
      → m.managed ≡ true
      → want ≡ some (m.owner_node, g.config_hash)
  pub complete :
      (v : Text × Text)
      → want ≡ some v
      → (m : MirrorRow) × (g : GenerationRow) × IsCurrent name m g db × (m.managed ≡ true)

pub current_generations-IsCurrent :
    (name : Text) (db : Db) (m : MirrorRow) (g : GenerationRow)
    → Memᴰ (m, g) (current_generations db)
    → text_eq m.name name ≡ true
    → IsCurrent name m g db
unfolding current_generations
current_generations-IsCurrent name db m g k t =
    let (a, b, on) =
      join-Mem (λ m g. text_eq g.mirror_name m.name && g.generation == m.current_generation)
        db.mirrors db.generations k in
    let e = text_eq→eq m.name name t in
    record {
      mirror = a;
      generation = b;
      named = e;
      of_mirror = text_eq→eq g.mirror_name m.name (ground (arith, on)) ∙ e;
      current = ground (arith, on);
    }

pub IsCurrent-Mem :
    (name : Text) (db : Db) (m : MirrorRow) (g : GenerationRow)
    → IsCurrent name m g db
    → Memᴰ (m, g) (current_generations db)
unfolding current_generations
IsCurrent-Mem name db m g c =
    Mem-join (λ m g. text_eq g.mirror_name m.name && g.generation == m.current_generation)
      db.mirrors db.generations c.mirror c.generation
      (rw (c.of_mirror, c.named, c.current) (ground (arith, text_eq_refl name)))

-- What is synced is what the database deploys.
pub Synced-deployed :
    (name : Text) (want : Option (Text × Text)) (db : Db)
    → Synced name want db
    → deployed name db ≡ want
unfolding deployed
Synced-deployed name want db s =
    elim (Option-cases (find_where (is_deployed name) (current_generations db))) [
      | inr ((m, g), e) ↦
          let (k, t) = find_where-Mem (is_deployed name) (current_generations db) e in
          let c = current_generations-IsCurrent name db m g k (ground arith) in
          rw e (sym (s.sound m g c (ground arith)))
      | inl e ↦ elim (Option-cases want) [
        | inl z ↦ rw (e, z)
        | inr (v, z) ↦
            let (m, g, c, managed) = s.complete v z in
            let none_there = find_where-none (is_deployed name) (current_generations db) e in
            absurd (
              ground (
                arith,
                none_there,
                exists_where-Mem (is_deployed name) (current_generations db)
                    (IsCurrent-Mem name db m g c)
                    (rw (c.named, managed) (ground (arith, text_eq_refl name))),
              ))
      ]
    ]
