-- ===== src/Store/Credentials/Access.antt =====
-- Which tokens open the Server to an Agent (crates/lmt-store/src/lib.rs).
use lzu_mirror_tools.Prelude.{
  ◌≡◌, ◌≢◌, refl, sym, ap, subst, ◌∙◌, Bool, true, false, ◌&&◌, ◌||◌, Option, none, some, ok, inl,
  inr, List, [], ◌∷◌, ◌++◌, >>=-eq-ok, ok-injective, Bool-cases, Option-cases, arith, if◌then◌else◌,
}
use lzu_mirror_tools.Prelude.Int.{ℤ}
use lzu_mirror_tools.Prelude.Text.{Text, text_eq, text_eq_refl}
use lzu_mirror_tools.Prelude.Tables.{find_where, update_where, exists_where, All}
use lzu_mirror_tools.Prelude.Tables.Select.{find_where-append, find_where-Mem, All-Mem}
use lzu_mirror_tools.Store.Credentials.{
  CredentialRow, CredentialRecord, AccessDb, ensure_node, is_credential, opens, insert_credential,
  revoke, revoke_credential, may_mark, mark_credential_used, token_hash, credential_row,
  issue_credential, to_authenticated, authenticate_credential,
}

-- No row satisfies a test that a query finds no row for.
exists_where-find_where :
    (p : CredentialRow → Bool) (rows : List CredentialRow)
    → exists_where p rows ≡ false
    → find_where p rows ≡ none
unfolding exists_where find_where
exists_where-find_where p [] h = refl
exists_where-find_where p (c ∷ rows) h = ground (arith, exists_where-find_where p rows)

-- A row after a revocation.
revoked_row :
    (node id hash : Text) (now : ℤ) (c : CredentialRow)
    → let c' = if is_credential node id c then revoke now c else c in
      (opens hash c' && is_credential node id c') ≡ false
unfolding opens revoke is_credential
revoked_row node id hash now c = elim (Bool-cases (is_credential node id c)) [
  | inl t ↦ elim (Option-cases c.revoked_at_ms) [
    | inl e ↦ ground (arith, t, e)
    | inr (at, e) ↦ ground (arith, t, e)
  ]
  | inr f ↦ ground (arith, f)
]

-- The UPDATE of a revocation leaves no row of its key that opens anything.
revoked-All :
    (node id hash : Text) (now : ℤ) (rows : List CredentialRow)
    → All
        (λ c. (opens hash c && is_credential node id c) ≡ false)
        (update_where (is_credential node id) (revoke now) rows)
unfolding update_where
revoked-All node id hash now [] = tt
revoked-All node id hash now (c ∷ rows) =
    (revoked_row node id hash now c, revoked-All node id hash now rows)

-- A row of that key which opens something is no row that a revocation leaves.
not_both :
    (c : CredentialRow) (hash node id : Text)
    → opens hash c ≡ true
    → (opens hash c && is_credential node id c) ≡ false
    → c.node_name ≡ node
    → c.credential_id ≡ id
    → ⊥
unfolding is_credential
not_both c hash node id open_by shut n i = ground (
  arith,
  ap (λ x. text_eq x node) n ∙ text_eq_refl node,
  ap (λ x. text_eq x id) i ∙ text_eq_refl id,
)

-- What an INSERT that succeeds found and left.
insert_credential-ok :
    (c : CredentialRow) (db db' : AccessDb)
    → insert_credential c db ≡ ok db'
    → (exists_where (opens c.token_hash) db.credentials ≡ false)
      × (db'.credentials ≡ db.credentials ++ c ∷ [])
unfolding insert_credential
insert_credential-ok c db db' h =
    elim (Bool-cases (
      exists_where (is_credential c.node_name c.credential_id) db.credentials
      || exists_where (opens c.token_hash) db.credentials)) [
        | inl t ↦ absurd (ground (arith, t))
        | inr f ↦ (ground (arith, f), ground (arith, f))
      ]

-- A recorded use keeps what a row opens and whose it is.
marked-authenticates :
    (p : CredentialRow → Bool) (hash : Text) (now : ℤ) (digest : Text → Text)
    (rows : List CredentialRow)
    → to_authenticated digest (
        find_where
          (opens hash)
          (update_where p (λ c. record c { last_used_at_ms = some now }) rows))
      ≡ to_authenticated digest (find_where (opens hash) rows)
unfolding find_where update_where opens to_authenticated
marked-authenticates p hash now digest [] = refl
marked-authenticates p hash now digest (c ∷ rows) = elim (Bool-cases (p c)) [
  | inl t ↦ ground (arith, t, marked-authenticates p hash now digest rows)
  | inr f ↦ ground (arith, f, marked-authenticates p hash now digest rows)
]

module _ (digest : Text → Text) where
  -- A token that was issued opens the Server at once, as the credential that it was issued for.
  pub issue_credential-opens :
      (node id : Text) (label : Option Text) (token : Text) (now : ℤ) (db : AccessDb)
      {r : CredentialRecord} {db' : AccessDb}
      → issue_credential digest node id label token now db ≡ ok (r, db')
      → authenticate_credential digest token db' ≡ some (record { node = node; credential_id = id })
  unfolding issue_credential authenticate_credential to_authenticated credential_row opens
  issue_credential-opens node id label token now db {r} {db'} h =
      let row : CredentialRow = credential_row digest node id label token now in
      let (db1, inserted, h') =
        >>=-eq-ok (insert_credential row (ensure_node node now db)) _ {w = (r, db')} h in
      let (free, last) = insert_credential-ok row (ensure_node node now db) db1 inserted in
      let same : db1 ≡ db' = ap (λ (x : CredentialRecord × AccessDb). x.1) (ok-injective h') in
      ap (λ rows. to_authenticated digest (find_where (opens (token_hash digest token)) rows))
        (sym (ap (λ (d : AccessDb). d.credentials) same) ∙ last)
      ∙ ap (to_authenticated digest) (
          find_where-append (opens (token_hash digest token)) (ensure_node node now db).credentials
            row
            (exists_where-find_where (opens (token_hash digest token))
              (ensure_node node now db).credentials free)
            (ground (arith, text_eq_refl (token_hash digest token))))

  -- A credential that was revoked opens the Server by no token.
  pub revoke_credential-shuts :
      (node id token : Text) (now : ℤ) (db : AccessDb) {r : CredentialRecord} {db' : AccessDb}
      → revoke_credential node id now db ≡ ok (r, db')
      → authenticate_credential digest token db' ≢ some (record { node = node; credential_id = id })
  unfolding revoke_credential authenticate_credential to_authenticated
  revoke_credential-shuts node id token now db {r} {db'} h e =
      elim (Option-cases (find_where (is_credential node id) db.credentials)) [
        | inl n ↦ ground (arith, n)
        | inr (old, found) ↦
            let left : update_where (is_credential node id) (revoke now) db.credentials
                ≡ db'.credentials =
              ground (arith, found) in
            elim (Option-cases (find_where (opens (token_hash digest token)) db'.credentials)) [
              | inl n ↦ ground (arith, n)
              | inr (c, hit) ↦
                  let (m, open_by) =
                    find_where-Mem (opens (token_hash digest token)) db'.credentials hit in
                  let shut =
                    All-Mem
                      (λ x. (opens (token_hash digest token) x && is_credential node id x) ≡ false)
                      db'.credentials
                      (subst
                        (All (λ x.
                          (opens (token_hash digest token) x && is_credential node id x) ≡ false))
                        left (revoked-All node id (token_hash digest token) now db.credentials))
                      m in
                  not_both c (token_hash digest token) node id open_by shut (ground (arith, hit))
                    (ground (arith, hit))
            ]
      ]

  -- What a token opens does not change when a use of a credential is recorded.
  pub mark_credential_used-keeps :
      (node id token : Text) (now : ℤ) (db : AccessDb)
      → authenticate_credential digest token (mark_credential_used node id now db).1
        ≡ authenticate_credential digest token db
  unfolding authenticate_credential mark_credential_used
  mark_credential_used-keeps node id token now db =
      marked-authenticates (may_mark node id now) (token_hash digest token) now digest
        db.credentials
