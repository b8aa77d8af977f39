-- ===== src/Agent/Publication/Hoare.antt =====
-- Statements on steps: what holds of the paths and the records before a step, after its value, and
-- after its error. The outcomes to come are not spoken of, so that they are arbitrary.
use lzu_mirror_tools.Prelude.{
  ◌≡◌, refl, Bool, true, false, Option, none, some, List, Result, ok, err,
}
use lzu_mirror_tools.Prelude.Text.{Text, codes}
use lzu_mirror_tools.Agent.Spool.{FileIdentity, SpoolRecord, PublicationState}
use lzu_mirror_tools.Agent.Publication.Restoration.{get_record, publication_state}
use lzu_mirror_tools.Agent.Publication.World.{
  Outcome, done, failed, lost, World, Step, continue, ◌>>=◌, bail, caught, expect, ensure,
  first_outcome, next_outcome, ended, looked, sync_namespace, identity_if_exists, put, renamed,
  rename_noreplace, exchange_paths, persisted, persist,
}

abbrev pub Namespace : Type 0
Namespace = Text → Option FileIdentity

-- A statement on the paths, the record in memory and the record on disk.
abbrev pub Pred : Type 1
Pred = Namespace → SpoolRecord → SpoolRecord → Type 0

abbrev pub At : Pred → World → Type 0
At P w = P w.namespace w.current w.durable

module _ {A : Type 0} where
  abbrev pub After : (A → Pred) → Pred → Result Text A × World → Type 0
  After Q E (ok a, w) = At (Q a) w
  After Q E (err e, w) = At E w

  abbrev pub Triple : Pred → Step A → (A → Pred) → Pred → Type 0
  Triple P f Q E = (w : World) → At P w → After Q E (f w)

pub bind :
    {A B : Type 0} (P : Pred) (f : Step A) (Q : A → Pred) (g : A → Step B) (R : B → Pred) (E : Pred)
    → Triple P f Q E
    → ((a : A) → Triple (Q a) (g a) R E)
    → Triple P (f >>= g) R E
unfolding continue
bind {A = A} P f Q g R E t u w h = on (f w) (t w h)
  where
    on : (r : Result Text A × World) → After Q E r → After R E (continue r g)
    on (ok a, w') k = u a w' k
    on (err e, w') k = k

pub bail-Triple :
    {A : Type 0} (P : Pred) (message : Text) (Q : A → Pred) → Triple P (bail message) Q P
bail-Triple P message Q w h = h

pub expect-Triple :
    {A : Type 0} (P : Pred) (o : Option A) (message : Text)
    → Triple P (expect o message) (λ a n c d. P n c d × (o ≡ some a)) P
unfolding expect
expect-Triple P none message w h = h
expect-Triple P (some a) message w h = (h, refl)

pub ensure-Triple :
    (P : Pred) (b : Bool) (message : Text)
    → Triple P (ensure b message) (λ _ n c d. P n c d × (b ≡ true)) P
unfolding ensure
ensure-Triple P true message w h = (h, refl)
ensure-Triple P false message w h = h

pub sync_namespace-Triple : (P : Pred) → Triple P sync_namespace (λ _. P) P
unfolding sync_namespace next_outcome
sync_namespace-Triple P w h = by_outcome (first_outcome w.outcomes)
  where
    by_outcome :
        (o : Outcome × List Outcome)
        → After (λ (_ : Unit {0}). P) P (ended o.0, record w { outcomes = o.1 })
    by_outcome (done, os) = h
    by_outcome (failed, os) = h
    by_outcome (lost, os) = h

pub identity_if_exists-Triple :
    (P : Pred) (path : Text)
    → Triple P (identity_if_exists path) (λ found n c d. P n c d × (found ≡ n path)) P
unfolding identity_if_exists next_outcome
identity_if_exists-Triple P path w h = by_outcome (first_outcome w.outcomes)
  where
    by_outcome :
        (o : Outcome × List Outcome)
        → After
            (λ (found : Option FileIdentity) n c d. P n c d × (found ≡ n path))
            P
            (looked o.0 (w.namespace path), record w { outcomes = o.1 })
    by_outcome (done, os) = (h, refl)
    by_outcome (failed, os) = h
    by_outcome (lost, os) = h

pub weaken :
    {A : Type 0} (P : Pred) (f : Step A) (Q : A → Pred) (E : Pred) (Q' : A → Pred) (E' : Pred)
    → Triple P f Q E
    → ((a : A) (n : Namespace) (c d : SpoolRecord) → Q a n c d → Q' a n c d)
    → ((n : Namespace) (c d : SpoolRecord) → E n c d → E' n c d)
    → Triple P f Q' E'
weaken {A = A} P f Q E Q' E' t q e w h = on (f w) (t w h)
  where
    on : (r : Result Text A × World) → After Q E r → After Q' E' r
    on (ok a, w') k = q a w'.namespace w'.current w'.durable k
    on (err x, w') k = e w'.namespace w'.current w'.durable k

-- A step whose error is a value.
pub caught-Triple :
    {A : Type 0} (P : Pred) (f : Step A) (Q : A → Pred) (E : Pred)
    → Triple P f Q E
    → (E' : Pred) → Triple P (caught f) (λ r. elim r [ ok a ↦ Q a | err e ↦ E ]) E'
caught-Triple {A = A} P f Q E t E' w h = on (f w) (t w h)
  where
    on : (r : Result Text A × World) → After Q E r → At (elim r.0 [ ok a ↦ Q a | err e ↦ E ]) r.1
    on (ok a, w') k = k
    on (err e, w') k = k

-- A record that is written is the one on disk and in memory, or the write failed, with or without
-- effect.
pub persist-Triple :
    (P : Pred) (next : SpoolRecord) (Q E : Pred)
    → ((n : Namespace) (c d : SpoolRecord) → P n c d → Q n next next)
    → ((n : Namespace) (c d : SpoolRecord) → P n c d → E n c d)
    → ((n : Namespace) (c d : SpoolRecord) → P n c d → E n c next)
    → Triple P (persist next) (λ _. Q) E
unfolding persist next_outcome persisted ended
persist-Triple P next Q E good kept late w h = by_outcome (first_outcome w.outcomes)
  where
    by_outcome :
        (o : Outcome × List Outcome)
        → After (λ (_ : Unit {0}). Q) E (persisted o.0 next (record w { outcomes = o.1 }))
    by_outcome (done, os) = good w.namespace w.current w.durable h
    by_outcome (failed, os) = kept w.namespace w.current w.durable h
    by_outcome (lost, os) = late w.namespace w.current w.durable h

-- A rename between paths, of which it is to be shown what the moved entry leaves true.
pub rename_noreplace-Triple :
    (P : Pred) (source destination : Text) (Q E : Pred)
    → ((n : Namespace) (c d : SpoolRecord) → P n c d → E n c d)
    → ((n : Namespace) (c d : SpoolRecord) (moved : FileIdentity)
        → P n c d
        → n source ≡ some moved
        → Q (put destination (some moved) (put source none n)) c d
          × E (put destination (some moved) (put source none n)) c d)
    → Triple P (rename_noreplace source destination) (λ _. Q) E
unfolding rename_noreplace next_outcome renamed ended
rename_noreplace-Triple P source destination Q E kept moves w h =
    by_outcome (first_outcome w.outcomes) (w.namespace source) refl (w.namespace destination)
  where
    by_outcome :
        (o : Outcome × List Outcome) (s : Option FileIdentity)
        → w.namespace source ≡ s
        → (t : Option FileIdentity)
        → After
            (λ (_ : Unit {0}). Q)
            E
            (elim s [
              | none ↦ (err (codes "RENAME_NOREPLACE"), record w { outcomes = o.1 })
              | some moved ↦ elim t [
                | some other ↦ (err (codes "RENAME_NOREPLACE"), record w { outcomes = o.1 })
                | none ↦
                    renamed o.0
                      (record w { outcomes = o.1 })
                      (record w {
                        outcomes = o.1;
                        namespace = put destination (some moved) (put source none w.namespace);
                      })
              ]
            ])
    by_outcome o none e t = kept w.namespace w.current w.durable h
    by_outcome o (some moved) e (some other) = kept w.namespace w.current w.durable h
    by_outcome (done, os) (some moved) e none = (moves w.namespace w.current w.durable moved h e).0
    by_outcome (failed, os) (some moved) e none = kept w.namespace w.current w.durable h
    by_outcome (lost, os) (some moved) e none = (moves w.namespace w.current w.durable moved h e).1

pub exchange_paths-Triple :
    (P : Pred) (left right : Text) (Q E : Pred)
    → ((n : Namespace) (c d : SpoolRecord) → P n c d → E n c d)
    → ((n : Namespace) (c d : SpoolRecord) (a b : FileIdentity)
        → P n c d
        → n left ≡ some a
        → Q (put right (some a) (put left (some b) n)) c d
          × E (put right (some a) (put left (some b) n)) c d)
    → Triple P (exchange_paths left right) (λ _. Q) E
unfolding exchange_paths next_outcome renamed ended
exchange_paths-Triple P left right Q E kept moves w h =
    by_outcome (first_outcome w.outcomes) (w.namespace left) refl (w.namespace right)
  where
    by_outcome :
        (o : Outcome × List Outcome) (s : Option FileIdentity)
        → w.namespace left ≡ s
        → (t : Option FileIdentity)
        → After
            (λ (_ : Unit {0}). Q)
            E
            (elim s [
              | none ↦ (err (codes "RENAME_EXCHANGE"), record w { outcomes = o.1 })
              | some a ↦ elim t [
                | none ↦ (err (codes "RENAME_EXCHANGE"), record w { outcomes = o.1 })
                | some b ↦
                    renamed o.0
                      (record w { outcomes = o.1 })
                      (record w {
                        outcomes = o.1;
                        namespace = put right (some a) (put left (some b) w.namespace);
                      })
              ]
            ])
    by_outcome o none e t = kept w.namespace w.current w.durable h
    by_outcome o (some a) e none = kept w.namespace w.current w.durable h
    by_outcome (done, os) (some a) e (some b) = (moves w.namespace w.current w.durable a b h e).0
    by_outcome (failed, os) (some a) e (some b) = kept w.namespace w.current w.durable h
    by_outcome (lost, os) (some a) e (some b) = (moves w.namespace w.current w.durable a b h e).1

publication_state-Triple :
    (P : Pred) → Triple P publication_state (λ p n c d. P n c d × (c.publication ≡ some p)) P
unfolding publication_state expect
publication_state-Triple P w h = read w.current.publication refl
  where
    read :
        (o : Option PublicationState)
        → w.current.publication ≡ o
        → After
            (λ (p : PublicationState) n c d. P n c d × (c.publication ≡ some p))
            P
            (expect o (codes "publication state missing") w)
    read none e = h
    read (some p) e = (h, e)

-- The chains that the code is made of: a first step that leaves what holds, and the rest.
module _ {B : Type 0} (P : Pred) (R : B → Pred) (E : Pred)
    (kept : (n : Namespace) (c d : SpoolRecord) → P n c d → E n c d) where
  chain :
      {A : Type 0} (f : Step A) (Q : A → Pred) (g : A → Step B)
      → Triple P f Q P
      → ((a : A) → Triple (Q a) (g a) R E)
      → Triple P (f >>= g) R E
  chain {A = A} f Q g t u = bind P f Q g R E (λ w h. on (f w) (t w h)) u
    where
      on : (r : Result Text A × World) → After Q P r → After Q E r
      on (ok a, w') k = k
      on (err e, w') k = kept w'.namespace w'.current w'.durable k

  pub look_then :
      (path : Text) (g : Option FileIdentity → Step B)
      → ((found : Option FileIdentity) → Triple (λ n c d. P n c d × (found ≡ n path)) (g found) R E)
      → Triple P (identity_if_exists path >>= g) R E
  look_then path g u = chain (identity_if_exists path) _ g (identity_if_exists-Triple P path) u

  pub sync_then :
      (g : Unit {0} → Step B) → Triple P (g tt) R E → Triple P (sync_namespace >>= g) R E
  sync_then g u = chain sync_namespace (λ _. P) g (sync_namespace-Triple P) (λ _. u)

  pub ensure_then :
      (b : Bool) (message : Text) (g : Unit {0} → Step B)
      → (b ≡ true → Triple P (g tt) R E)
      → Triple P (ensure b message >>= g) R E
  ensure_then b message g u =
      chain (ensure b message) (λ _ n c d. P n c d × (b ≡ true)) g (ensure-Triple P b message)
        (λ _ w h. u h.1 w h.0)

  pub expect_then :
      {A : Type 0} (o : Option A) (message : Text) (g : A → Step B)
      → ((a : A) → o ≡ some a → Triple P (g a) R E)
      → Triple P (expect o message >>= g) R E
  expect_then o message g u =
      chain (expect o message) (λ a n c d. P n c d × (o ≡ some a)) g (expect-Triple P o message)
        (λ a w h. u a h.1 w h.0)

  pub record_then :
      (g : SpoolRecord → Step B)
      → ((r : SpoolRecord) → Triple (λ n c d. P n c d × (r ≡ c)) (g r) R E)
      → Triple P (get_record >>= g) R E
  record_then g u = chain get_record (λ r n c d. P n c d × (r ≡ c)) g (λ w h. (h, refl)) u

  pub state_then :
      (g : PublicationState → Step B)
      → ((p : PublicationState) → Triple (λ n c d. P n c d × (c.publication ≡ some p)) (g p) R E)
      → Triple P (publication_state >>= g) R E
  state_then g u = chain publication_state _ g (publication_state-Triple P) u
