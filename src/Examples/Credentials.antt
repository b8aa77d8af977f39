-- ===== src/Examples/Credentials.antt =====
-- The credential of an Agent is issued, used and revoked.
use lzu_mirror_tools.Store.Nodes.{
  is_node, find_node, update_node, conflicts, observed, conflict, observe_node, may_execute,
  rebound, replace_agent_binding,
}
use lzu_mirror_tools.Prelude.Tables.{
  update_where, exists_where, where_rows, find_where, min_by, select_first, join,
}
use lzu_mirror_tools.Prelude.{◌≡◌, ◌≢◌, refl, none, some, ok, err, Result, [], ◌∷◌}
use lzu_mirror_tools.Prelude.Int.{pos, ◌+ℤ◌, ◌-ℤ◌, checked_add, saturating_add, saturating_sub}
use lzu_mirror_tools.Prelude.Text.{Text, codes, text_eq, text_lt}
use lzu_mirror_tools.Store.Rows.{StoreError}
use lzu_mirror_tools.Store.Credentials.{
  AccessDb, CredentialRecord, new_node, ensure_node, is_credential, opens, insert_credential,
  to_record, revoke, revoke_credential, is_stale, may_mark, mark_credential_used, token_hash,
  credential_row, issue_credential, to_authenticated, authenticate_credential,
}
use lzu_mirror_tools.Store.Credentials.Access.{issue_credential-opens, revoke_credential-shuts}
use lzu_mirror_tools.Examples.{n1}

-- A stand-in for the digest.
abbrev digest : Text → Text
digest token = token

abbrev registered : AccessDb
registered = record { nodes = n1 ∷ []; credentials = [] }

abbrev answer_of : Result StoreError (CredentialRecord × AccessDb) → AccessDb
answer_of (ok (r, db)) = db
answer_of (err e) = registered

abbrev issued : AccessDb
issued =
    answer_of (
      issue_credential digest (codes "n1") (codes "c1") none (codes "secret") (pos 1000) registered)

abbrev revoked : AccessDb
revoked = answer_of (revoke_credential (codes "n1") (codes "c1") (pos 2000) issued)

abbrev record_of : Result StoreError (CredentialRecord × AccessDb) → CredentialRecord
record_of (ok (r, db)) = r
record_of (err e) = record {
  node = [];
  id = [];
  label = none;
  created_at_ms = pos 0;
  last_used_at_ms = none;
  revoked_at_ms = none;
}

issue_credential-opens_example :
    authenticate_credential digest (codes "secret") issued
    ≡ some (record { node = codes "n1"; credential_id = codes "c1" })
unfolding new_node ensure_node is_credential opens insert_credential to_record revoke
    revoke_credential is_stale may_mark mark_credential_used token_hash credential_row
    issue_credential to_authenticated authenticate_credential is_node find_node update_node
    conflicts observed conflict observe_node may_execute rebound replace_agent_binding update_where
    exists_where where_rows find_where min_by select_first join ◌+ℤ◌ ◌-ℤ◌ checked_add saturating_add
    saturating_sub text_eq text_lt
issue_credential-opens_example =
    issue_credential-opens digest (codes "n1") (codes "c1") none (codes "secret") (pos 1000)
      registered
      {r = record_of (
        issue_credential digest (codes "n1") (codes "c1") none (codes "secret") (pos 1000)
          registered)}
      {db' = issued} refl

revoke_credential-shuts_example :
    authenticate_credential digest (codes "secret") revoked
    ≢ some (record { node = codes "n1"; credential_id = codes "c1" })
unfolding new_node ensure_node is_credential opens insert_credential to_record revoke
    revoke_credential is_stale may_mark mark_credential_used token_hash credential_row
    issue_credential to_authenticated authenticate_credential is_node find_node update_node
    conflicts observed conflict observe_node may_execute rebound replace_agent_binding update_where
    exists_where where_rows find_where min_by select_first join ◌+ℤ◌ ◌-ℤ◌ checked_add saturating_add
    saturating_sub text_eq text_lt
revoke_credential-shuts_example =
    revoke_credential-shuts digest (codes "n1") (codes "c1") (codes "secret") (pos 2000) issued
      {r = record_of (revoke_credential (codes "n1") (codes "c1") (pos 2000) issued)}
      {db' = revoked} refl
