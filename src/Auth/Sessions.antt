-- ===== src/Auth/Sessions.antt =====
-- The helpers of auth/service.py that issue a session, record an audit event, and revoke a chain of
-- sessions.
use multi_agent_ai_analyst.Auth.Transactions.{◌>>=◌}
use multi_agent_ai_analyst.Prelude.{
  ℕ, zero, suc, ◌+◌, ◌*◌, ◌/◌, ◌&&◌, List, [], ◌∷◌, Option, none, some, first, filter, any, length,
  Outcome, ok, ◌==◌, if◌then◌else◌,
}
use multi_agent_ai_analyst.Prelude.Text.{Text, codes, text_eq}
use multi_agent_ai_analyst.Auth.Rows.{
  RefreshSession, Membership, User, Db, Principal, IssuedSession, AuthError, second, minutes,
}
use multi_agent_ai_analyst.Auth.Credentials.{Site, Draws, Claims, is_set, jwt_secret}

-- `session.get(Row, id)` among the rows of sessions
unfoldable pub session_by_id : ℕ → List RefreshSession → Option RefreshSession
session_by_id id rows = first (filter (λ r. r.id == id) rows)

unfoldable pub session_by_hash : Text → List RefreshSession → Option RefreshSession
session_by_hash hash rows = first (filter (λ r. text_eq r.token_hash hash) rows)

abbrev pub revoked : ℕ → RefreshSession → RefreshSession
revoked now r = record r { revoked_at = some now }

abbrev pub replace_by : Option RefreshSession → RefreshSession → RefreshSession
replace_by none r = r
replace_by (some replacement) r = record r { replaced_by_session_id = some replacement.id }

module _ (site : Site) where
  open site use {tables, platform, settings}

  -- An update of the row with an id.
  unfoldable pub set_session : ℕ → (RefreshSession → RefreshSession) → Db tables → Db tables
  set_session id f db = record db {
    sessions = tables.sessions.update (λ r. r.id == id) f db.sessions;
  }

  unfoldable pub user_by_id : ℕ → Db tables → Option User
  user_by_id id db = first (filter (λ u. u.id == id) (tables.users.rows db.users))

  unfoldable pub user_by_email : Text → Db tables → Option User
  user_by_email email db = first (filter (λ u. text_eq u.email email) (tables.users.rows db.users))

  unfoldable pub membership_of : (organization_id user_id : ℕ) → Db tables → Option Membership
  membership_of organization_id user_id db = first (
      filter (λ m. m.organization_id == organization_id && m.user_id == user_id)
        (tables.memberships.rows db.memberships))

  -- `_audit`
  unfoldable pub record_audit :
      Draws
      → (event_type : Text) (organization_id actor_user_id target_id : Option ℕ)
        (details : List (Text × Text))
      → Db tables
      → Db tables
  record_audit draws event_type organization_id actor_user_id target_id details db = record db {
    audit =
        tables.audit.insert
          (record {
            id = draws.audit_id;
            organization_id = organization_id;
            actor_user_id = actor_user_id;
            event_type = event_type;
            target_id = target_id;
            details = details;
            created_at = draws.stored_at;
          })
          db.audit;
  }

  unfoldable pub claims_of : Draws → Principal → Claims
  claims_of draws principal = record {
    texts =
        (codes "sub", platform.ids.print principal.user_id)
        ∷ (codes "org", platform.ids.print principal.organization_id)
        ∷ (codes "typ", codes "access")
        ∷ (codes "iss", settings.jwt_issuer)
        ∷ (codes "aud", settings.jwt_audience)
        ∷ (codes "jti", draws.jti)
        ∷ [];
    iat = draws.issued_at;
    exp = draws.issued_at + minutes settings.access_token_expire_minutes;
  }

  unfoldable pub session_row : Draws → Principal → RefreshSession
  session_row draws principal = record {
    id = draws.row_id;
    user_id = principal.user_id;
    organization_id = principal.organization_id;
    token_hash = platform.sha256 draws.token;
    expires_at = draws.issued_at + minutes (settings.refresh_token_expire_days * 24 * 60);
    revoked_at = none;
    replaced_by_session_id = none;
    created_at = draws.stored_at;
  }

  unfoldable pub issue_session :
      Draws → Principal → Db tables → Outcome AuthError (IssuedSession × Db tables)
  unfolding jwt_secret claims_of session_row
  issue_session draws principal db = jwt_secret settings.jwt_secret_key >>= λ secret. ok (
    (record {
      access_token = platform.encode (claims_of draws principal) secret settings.jwt_algorithm;
      refresh_token = draws.token;
      expires_in = minutes settings.access_token_expire_minutes / second;
      principal = principal;
    }),
    record db { sessions = tables.sessions.insert (session_row draws principal) db.sessions },
  )

  -- The session that `replaced_by_session_id` names.
  unfoldable pub successor : RefreshSession → Db tables → Option RefreshSession
  unfolding session_by_id
  successor current db = elim current.replaced_by_session_id [
    | none ↦ none
    | some id ↦ session_by_id id (tables.sessions.rows db.sessions)
  ]

  -- One round of the loop: the session is revoked unless it was.
  unfoldable pub revoke : (now : ℕ) → RefreshSession → Db tables → Db tables
  unfolding set_session
  revoke now current db =
      if is_set current.revoked_at then db else set_session current.id (revoked now) db

  -- The loop of `_revoke_session_lineage`; `none` when it is out of fuel.
  unfoldable pub revoke_from :
      (fuel now : ℕ) (seen : List ℕ) (count : ℕ)
      → Option RefreshSession
      → Db tables
      → Option (ℕ × Db tables)
  unfolding revoke successor
  revoke_from fuel now seen count none db = some (count, db)
  revoke_from zero now seen count (some current) db = none
  revoke_from (suc fuel) now seen count (some current) db =
      let db' = revoke now current db in
      let count' = if is_set current.revoked_at then count else count + 1 in
      let rest = revoke_from fuel now (current.id ∷ seen) count' (successor current db') db' in
      if any (λ id. id == current.id) seen then some (count, db) else rest

  unfoldable pub revoke_session_lineage :
      (now : ℕ) → RefreshSession → Db tables → Option (ℕ × Db tables)
  unfolding revoke_from
  revoke_session_lineage now session_record db =
      revoke_from (length (tables.sessions.rows db.sessions) + 1) now [] 0 (some session_record) db
