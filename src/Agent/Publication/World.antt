-- ===== src/Agent/Publication/World.antt =====
-- What a publication acts on (apps/lmt-agent/src/publication_fs.rs and spool.rs): the paths of the file
-- system with the directories they name, the record in memory and on disk, and how each of the
-- system's operations to come ends. An operation may fail without effect, or report a failure after
-- it took effect; where no outcome is left the process has stopped, and all that follows fails.
use lzu_mirror_tools.Prelude.{
  Bool, true, false, ◌&&◌, Option, none, some, List, [], ◌∷◌, ◌==◌, Result, ok, err, if◌then◌else◌,
}
use lzu_mirror_tools.Prelude.Text.{Text, codes, text_eq}
use lzu_mirror_tools.Agent.Spool.{FileIdentity, SpoolRecord}

pub data Outcome : Type 0 where
  done failed lost : Outcome

pub record World : Type 0 where
  pub namespace : Text → Option FileIdentity
  pub current : SpoolRecord
  pub durable : SpoolRecord
  pub outcomes : List Outcome

-- A step of an operation: it ends with a value or with the message of an error.
abbrev pub Step : Type 0 → Type 0
Step A = World → Result Text A × World

module _ {A B : Type 0} where
  unfoldable pub continue : Result Text A × World → (A → Step B) → Result Text B × World
  continue (err e, w) next = (err e, w)
  continue (ok a, w) next = next a w

  infixl 5 ◌>>=◌ ◌>>◌
  abbrev pub ◌>>=◌ : Step A → (A → Step B) → Step B
  first >>= next = λ w. continue (first w) next

  abbrev pub ◌>>◌ : Step A → Step B → Step B
  first >> second = first >>= λ _. second

abbrev pub pure : {A : Type 0} → A → Step A
pure a w = (ok a, w)

abbrev pub bail : {A : Type 0} → Text → Step A
bail message w = (err message, w)

-- The result of a step as a value, for what the code catches.
abbrev pub caught : {A : Type 0} → Step A → Step (Result Text A)
caught step w = let (r, w') = step w in (ok r, w')

-- `context(..)?` on an option.
unfoldable pub expect : {A : Type 0} → Option A → Text → Step A
expect none message = bail message
expect (some a) message = pure a

unfoldable pub ensure : Bool → Text → Step (Unit {0})
ensure true message = pure tt
ensure false message = bail message

unfoldable pub identity_eq : FileIdentity → FileIdentity → Bool
identity_eq a b = a.device == b.device && a.inode == b.inode

-- `==` of two optional identities.
unfoldable pub same_identity : Option FileIdentity → Option FileIdentity → Bool
unfolding identity_eq
same_identity none none = true
same_identity (some a) (some b) = identity_eq a b
same_identity _ _ = false

-- How the next operation ends.
unfoldable pub first_outcome : List Outcome → Outcome × List Outcome
first_outcome [] = (failed, [])
first_outcome (o ∷ os) = (o, os)

unfoldable pub next_outcome : World → Outcome × World
unfolding first_outcome
next_outcome w = let (o, os) = first_outcome w.outcomes in (o, record w { outcomes = os })

unfoldable pub ended : Outcome → Result Text (Unit {0})
ended done = ok tt
ended failed = err (codes "operation failed")
ended lost = err (codes "operation failed")

-- An operation that changes no path that is followed: `create_dir_all`, `fsync`.
unfoldable pub sync_namespace : Step (Unit {0})
unfolding next_outcome ended
sync_namespace w = let (o, w') = next_outcome w in (ended o, w')

unfoldable pub looked : Outcome → Option FileIdentity → Result Text (Option FileIdentity)
looked done found = ok found
looked failed found = err (codes "stat")
looked lost found = err (codes "stat")

unfoldable pub identity_if_exists : Text → Step (Option FileIdentity)
unfolding next_outcome looked
identity_if_exists path w = let (o, w') = next_outcome w in (looked o (w.namespace path), w')

unfoldable pub put :
    Text → Option FileIdentity → (Text → Option FileIdentity) → Text → Option FileIdentity
put path entry namespace p = if text_eq p path then entry else namespace p

unfoldable pub renamed : Outcome → World → World → Result Text (Unit {0}) × World
unfolding ended
renamed done before after = (ok tt, after)
renamed failed before after = (ended failed, before)
renamed lost before after = (ended lost, after)

-- RENAME_NOREPLACE: the source has to be there, the destination not.
unfoldable pub rename_noreplace : Text → Text → Step (Unit {0})
unfolding next_outcome put renamed
rename_noreplace source destination w =
    let (o, w') = next_outcome w in
    elim (w.namespace source) [
      | none ↦ (err (codes "RENAME_NOREPLACE"), w')
      | some moved ↦ elim (w.namespace destination) [
        | some other ↦ (err (codes "RENAME_NOREPLACE"), w')
        | none ↦
            renamed o w'
              (record w' { namespace = put destination (some moved) (put source none w.namespace) })
      ]
    ]

-- RENAME_EXCHANGE: both have to be there.
unfoldable pub exchange_paths : Text → Text → Step (Unit {0})
unfolding next_outcome put renamed
exchange_paths left right w =
    let (o, w') = next_outcome w in
    elim (w.namespace left) [
      | none ↦ (err (codes "RENAME_EXCHANGE"), w')
      | some a ↦ elim (w.namespace right) [
        | none ↦ (err (codes "RENAME_EXCHANGE"), w')
        | some b ↦
            renamed o w'
              (record w' { namespace = put right (some a) (put left (some b) w.namespace) })
      ]
    ]

-- `spool::write`, and with its success the assignment to the record in memory.
unfoldable pub persisted : Outcome → SpoolRecord → World → Result Text (Unit {0}) × World
unfolding ended
persisted done next w = (ok tt, record w { durable = next; current = next })
persisted failed next w = (ended failed, w)
persisted lost next w = (ended lost, record w { durable = next })

unfoldable pub persist : SpoolRecord → Step (Unit {0})
unfolding next_outcome persisted
persist next w = let (o, w') = next_outcome w in persisted o next w'

-- The process starts again and reads the record from the disk.
unfoldable pub restart : List Outcome → World → World
restart outcomes w = record w { current = w.durable; outcomes = outcomes }
