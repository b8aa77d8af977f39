-- ===== src/Store/Revisions/Plan.antt =====
-- `plan_with_connection` and `publication_change` (crates/lmt-store/src/lib.rs).
use lzu_mirror_tools.Prelude.{
  ℕ, ◌+◌, Bool, ◌&&◌, ◌||◌, not, Option, none, some, List, [], ◌∷◌, ◌++◌, Result, ok, err, ◌>>=◌,
  if◌then◌else◌, max,
}
use lzu_mirror_tools.Prelude.Text.{Text, text_eq, text_lt}
use lzu_mirror_tools.Prelude.Tables.{exists_where}
use lzu_mirror_tools.Core.Ids.{IdentifierKind, new_name}
use lzu_mirror_tools.Core.Config.{
  PublicationMode, CanonicalMirror, CanonicalBundle, MirrorDocument, publication_mode,
}
use lzu_mirror_tools.Store.Rows.{
  StoreError, RevisionRow, MirrorRow, GenerationRow, Db, invalid_config,
}
use lzu_mirror_tools.Store.Queries.{current_generations}
use lzu_mirror_tools.Store.Revisions.{
  ChangeKind, PublicationChange, ConfigChange, ConfigPlan, ConfigLibrary, get_mirror,
}

-- COALESCE(MAX(revision),0).
unfoldable pub max_revision : List RevisionRow → ℕ
max_revision [] = 0
max_revision (r ∷ rs) = max r.revision (max_revision rs)

unfoldable pub mode_change : PublicationMode → PublicationMode → Option PublicationChange
mode_change PublicationMode.direct PublicationMode.atomic = some PublicationChange.direct_to_atomic
mode_change PublicationMode.atomic PublicationMode.direct = some PublicationChange.atomic_to_direct
mode_change _ _ = none

-- The change of a mirror that the bundle lacks, and whether one is needed where it has the mirror.
unfoldable pub removal : MirrorRow → ConfigChange
removal m = record {
  kind = ChangeKind.remove;
  mirror = m.name;
  from_generation = some m.current_generation;
  to_generation = none;
  from_node = some m.owner_node;
  to_node = none;
  publication_change = none;
}

unfoldable pub differs : MirrorRow → GenerationRow → CanonicalMirror → Bool
differs m g next =
    not m.managed
    || not (text_eq next.config_hash g.config_hash)
    || not (text_eq next.owner_node m.owner_node)

unfoldable pub replacement : MirrorRow → CanonicalMirror → Option PublicationChange → ConfigChange
replacement m next publication = record {
  kind =
      if m.managed && not (text_eq next.owner_node m.owner_node)
      then ChangeKind.move
      else ChangeKind.update;
  mirror = m.name;
  from_generation = some m.current_generation;
  to_generation = some (m.current_generation + 1);
  from_node = some m.owner_node;
  to_node = some next.owner_node;
  publication_change = publication;
}

unfoldable pub creation : Text → CanonicalMirror → ConfigChange
creation name mirror = record {
  kind = ChangeKind.create;
  mirror = name;
  from_generation = none;
  to_generation = some 1;
  from_node = none;
  to_node = some mirror.owner_node;
  publication_change = none;
}

-- The loop over the bundle: what no current mirror is named as is created.
unfoldable pub creations :
    List (MirrorRow × GenerationRow) → List (Text × CanonicalMirror) → List ConfigChange
unfolding exists_where creation
creations current [] = []
creations current ((name, mirror) ∷ rest) =
    let others = creations current rest in
    if exists_where (λ (p : MirrorRow × GenerationRow). text_eq p.0.name name) current
    then others
    else creation name mirror ∷ others

-- `changes.sort_by`, which is stable: an insertion behind what is smaller or equal.
unfoldable pub insert_change : ConfigChange → List ConfigChange → List ConfigChange
insert_change c [] = c ∷ []
insert_change c (d ∷ ds) =
    let rest = insert_change c ds in if text_lt d.mirror c.mirror then d ∷ rest else c ∷ d ∷ ds

unfoldable pub sort_changes : List ConfigChange → List ConfigChange
unfolding insert_change
sort_changes [] = []
sort_changes (c ∷ cs) = insert_change c (sort_changes cs)

module _ (library : ConfigLibrary) where
  open library use {stored_mode, identifier_message}

  unfoldable pub publication_change :
      Text → MirrorDocument → Result StoreError (Option PublicationChange)
  unfolding mode_change publication_mode
  publication_change current_toml next = elim (stored_mode current_toml) [
    | err message ↦ err (invalid_config message)
    | ok current ↦ ok (mode_change current (publication_mode next))
  ]

  unfoldable pub parse_name : Text → Result StoreError Text
  unfolding new_name
  parse_name name = elim (new_name IdentifierKind.mirror_name name) [
    | err e ↦ err (invalid_config (identifier_message e))
    | ok n ↦ ok n
  ]

  -- The changes of one current mirror: none or one.
  unfoldable pub change_of :
      MirrorRow × GenerationRow
      → Option (Text × CanonicalMirror)
      → Result StoreError (List ConfigChange)
  unfolding removal differs replacement publication_change
  change_of (m, g) none = ok (if m.managed then removal m ∷ [] else [])
  change_of (m, g) (some (name, next)) =
      if differs m g next
      then (publication_change g.config_toml next.document >>= λ publication.
          ok (replacement m next publication ∷ []))
      else ok []

  -- The loop over the current mirrors.
  unfoldable pub current_changes :
      CanonicalBundle → List (MirrorRow × GenerationRow) → Result StoreError (List ConfigChange)
  unfolding parse_name change_of get_mirror
  current_changes bundle [] = ok []
  current_changes bundle (p ∷ rest) = do
    parsed ← parse_name p.0.name
    changes ← change_of p (get_mirror parsed bundle)
    others ← current_changes bundle rest
    ok (changes ++ others)

  unfoldable pub plan_with_connection : CanonicalBundle → Db → Result StoreError ConfigPlan
  unfolding max_revision current_changes creations sort_changes
  plan_with_connection bundle db = do
    let current = current_generations db
    changes ← current_changes bundle current
    ok (record {
      base_revision = max_revision db.revisions;
      bundle_hash = bundle.bundle_hash;
      changes = sort_changes (changes ++ creations current bundle.mirrors);
    })
