-- ===== src/Store/Credentials.antt =====
-- The credentials of the Agents (crates/lmt-store/src/lib.rs): `issue_credential`,
-- `revoke_credential`, `authenticate_credential` and `mark_credential_used`. The hexadecimal SHA-256
-- digest of a token is a parameter.
pub mod Access
use lzu_mirror_tools.Prelude.{
  ℕ, Bool, true, false, ◌&&◌, ◌||◌, Option, none, some, List, [], ◌∷◌, ◌++◌, ok, err, Result, ◌>>=◌,
  if◌then◌else◌, coalesce, is_none, unwrap_or,
}
use lzu_mirror_tools.Prelude.Int.{ℤ, pos, ◌-ℤ◌, leb_ℤ}
use lzu_mirror_tools.Prelude.Text.{Text, codes, text_eq}
use lzu_mirror_tools.Prelude.Tables.{find_where, update_where, exists_where}
use lzu_mirror_tools.Store.Rows.{StoreError, NodeRow, database, credential_not_found}
use lzu_mirror_tools.Store.Nodes.{is_node}

pub record CredentialRow : Type 0 where
  pub node_name : Text
  pub credential_id : Text
  pub token_hash : Text
  pub created_at_ms : ℤ
  pub revoked_at_ms : Option ℤ
  pub label : Option Text
  pub last_used_at_ms : Option ℤ

pub record CredentialRecord : Type 0 where
  pub node : Text
  pub id : Text
  pub label : Option Text
  pub created_at_ms : ℤ
  pub last_used_at_ms : Option ℤ
  pub revoked_at_ms : Option ℤ

pub record AuthenticatedCredential : Type 0 where
  pub node : Text
  pub credential_id : Text

-- The two tables that these transactions use.
pub record AccessDb : Type 0 where
  pub nodes : List NodeRow
  pub credentials : List CredentialRow

-- INSERT INTO nodes ... ON CONFLICT(name) DO NOTHING, with the defaults of the columns.
unfoldable pub new_node : Text → ℤ → NodeRow
new_node node now = record {
  name = node;
  registered_at_ms = now;
  agent_version = none;
  agent_instance_id = none;
  agent_boot_id = none;
  bound_agent_id = none;
  last_seen_at_ms = none;
  mirror_root_free_bytes = none;
  active_runs = 0;
  max_concurrent_runs = 1;
}

unfoldable pub ensure_node : Text → ℤ → AccessDb → AccessDb
unfolding new_node is_node exists_where
ensure_node node now db =
    if exists_where (is_node node) db.nodes
    then db
    else record db { nodes = db.nodes ++ new_node node now ∷ [] }

-- The primary key of the table.
unfoldable pub is_credential : Text → Text → CredentialRow → Bool
is_credential node id c = text_eq c.node_name node && text_eq c.credential_id id

-- `token_hash=? AND revoked_at_ms IS NULL`, which the unique index is about too.
unfoldable pub opens : Text → CredentialRow → Bool
opens hash c = text_eq c.token_hash hash && is_none c.revoked_at_ms

-- INSERT INTO node_credentials of a credential that is not revoked.
unfoldable pub insert_credential : CredentialRow → AccessDb → Result StoreError AccessDb
unfolding is_credential opens exists_where
insert_credential c db =
    if exists_where (is_credential c.node_name c.credential_id) db.credentials
      || exists_where (opens c.token_hash) db.credentials
    then err database
    else ok (record db { credentials = db.credentials ++ c ∷ [] })

unfoldable pub to_record : CredentialRow → CredentialRecord
to_record c = record {
  node = c.node_name;
  id = c.credential_id;
  label = c.label;
  created_at_ms = c.created_at_ms;
  last_used_at_ms = c.last_used_at_ms;
  revoked_at_ms = c.revoked_at_ms;
}

unfoldable pub revoke : ℤ → CredentialRow → CredentialRow
revoke now c = record c { revoked_at_ms = coalesce c.revoked_at_ms (some now) }

unfoldable pub revoke_credential :
    Text → Text → ℤ → AccessDb → Result StoreError (CredentialRecord × AccessDb)
unfolding is_credential to_record revoke find_where update_where
revoke_credential node id now db = elim (find_where (is_credential node id) db.credentials) [
  | none ↦ err credential_not_found
  | some existing ↦ ok (
    record (to_record existing) { revoked_at_ms = some (unwrap_or existing.revoked_at_ms now) },
    record db { credentials = update_where (is_credential node id) (revoke now) db.credentials },
  )
]

-- A minute must have passed since the last use that was recorded.
unfoldable pub is_stale : ℤ → Option ℤ → Bool
is_stale now none = true
is_stale now (some last) = leb_ℤ last (now -ℤ pos 60000)

unfoldable pub may_mark : Text → Text → ℤ → CredentialRow → Bool
unfolding is_credential is_stale
may_mark node id now c =
    is_credential node id c && is_none c.revoked_at_ms && is_stale now c.last_used_at_ms

unfoldable pub mark_credential_used : Text → Text → ℤ → AccessDb → Bool × AccessDb
unfolding may_mark update_where exists_where
mark_credential_used node id now db = (
  exists_where (may_mark node id now) db.credentials,
  record db {
    credentials =
        update_where (may_mark node id now) (λ c. record c { last_used_at_ms = some now })
          db.credentials;
  },
)

module _ (digest : Text → Text) where
  unfoldable pub token_hash : Text → Text
  token_hash token = codes "sha256:" ++ digest token

  unfoldable pub credential_row : Text → Text → Option Text → Text → ℤ → CredentialRow
  credential_row node id label token now = record {
    node_name = node;
    credential_id = id;
    token_hash = token_hash token;
    created_at_ms = now;
    revoked_at_ms = none;
    label = label;
    last_used_at_ms = none;
  }

  unfoldable pub issue_credential :
      Text
      → Text
      → Option Text
      → Text
      → ℤ
      → AccessDb
      → Result StoreError (CredentialRecord × AccessDb)
  unfolding credential_row to_record insert_credential ensure_node
  issue_credential node id label token now db = do
    db' ← insert_credential (credential_row node id label token now) (ensure_node node now db)
    ok (to_record (credential_row node id label token now), db')

  unfoldable pub to_authenticated : Option CredentialRow → Option AuthenticatedCredential
  to_authenticated none = none
  to_authenticated (some c) = some (record { node = c.node_name; credential_id = c.credential_id })

  unfoldable pub authenticate_credential : Text → AccessDb → Option AuthenticatedCredential
  unfolding token_hash opens find_where to_authenticated
  authenticate_credential token db =
      to_authenticated (find_where (opens (token_hash token)) db.credentials)
