-- ===== src/Auth/Login.antt =====
-- auth/service.py: signing in and out, and the exchange of refresh tokens.
use multi_agent_ai_analyst.Prelude.{
  ℕ, Bool, false, not, ◌&&◌, ◌||◌, [], ◌∷◌, Option, none, some, first, filter, Outcome, ok, raise,
  ◌==◌, if◌then◌else◌,
}
use multi_agent_ai_analyst.Prelude.Text.{lookup, Text, codes, text_eq}
use multi_agent_ai_analyst.Database.Queries.{order_by}
use multi_agent_ai_analyst.Auth.Rows.{
  User, Membership, RefreshSession, Db, Principal, IssuedSession, AuthError, authentication, stuck,
}
use multi_agent_ai_analyst.Auth.Credentials.{
  Site, Draws, is_set, normalize_email, verify_password, jwt_secret, is_expired,
}
use multi_agent_ai_analyst.Auth.Sessions.{
  replace_by, session_by_hash, revoked, set_session, user_by_id, user_by_email, membership_of,
  record_audit, issue_session, revoke_session_lineage,
}
use multi_agent_ai_analyst.Auth.Transactions.{◌>>=◌, guard, require, transact}

abbrev pub principal_of : User → Membership → Principal
principal_of user membership = record {
  user_id = user.id;
  organization_id = membership.organization_id;
  role = membership.role;
  email = user.email;
}

-- `normalize_email`, whose `ValueError` becomes an `AuthenticationError`
abbrev pub login_email : Outcome AuthError Text → Outcome AuthError Text
login_email (raise e) = raise authentication
login_email (ok email) = ok email

module _ (site : Site) where
  open site use {tables, platform, settings}

  unfoldable pub membership_for_login : (user_id : ℕ) → Option ℕ → Db tables → Option Membership
  unfolding membership_of
  membership_for_login user_id none db = first (
      order_by (λ m. m.created_at)
        (filter (λ m. m.user_id == user_id) (tables.memberships.rows db.memberships)))
  membership_for_login user_id (some organization_id) db = first (
      filter (λ m. m.user_id == user_id && m.organization_id == organization_id)
        (tables.memberships.rows db.memberships))

  unfoldable pub login :
      Draws
      → (email password : Text) (organization_id : Option ℕ) → Db tables
      → Outcome AuthError IssuedSession × Db tables
  unfolding normalize_email user_by_email verify_password membership_for_login issue_session
      record_audit
  login draws email password organization_id db = transact db (
      login_email (normalize_email platform email) >>= λ normalized.
      require (user_by_email site normalized db) authentication >>= λ user.
      guard (not user.is_active || not (verify_password platform password user.password_hash))
        authentication
      >>= λ _.
          require (membership_for_login user.id organization_id db) authentication >>= λ membership.
          issue_session site draws (principal_of user membership) db >>= λ (issued, db'). ok (
            issued,
            record_audit site draws (codes "auth.login") (some membership.organization_id)
                (some user.id) none [] db',
          ))

  -- The replay of a token that was rotated away: its chain is revoked, and the call raises.
  unfoldable pub replayed :
      Draws
      → RefreshSession
      → Option (ℕ × Db tables)
      → Db tables
      → Outcome AuthError IssuedSession × Db tables
  unfolding record_audit
  replayed draws session_record none db = (raise stuck, db)
  replayed draws session_record (some (count, db')) db = (
    raise authentication,
    record_audit site draws (codes "auth.refresh_reuse_detected")
        (some session_record.organization_id) (some session_record.user_id) (some session_record.id)
        [] db',
  )

  -- The exchange of an open session for a new one.
  unfoldable pub rotate :
      Draws → RefreshSession → Db tables → Outcome AuthError (IssuedSession × Db tables)
  unfolding user_by_id membership_of set_session issue_session session_by_hash record_audit
  rotate draws session_record db =
      guard
        (is_set session_record.revoked_at || is_expired draws.checked_at session_record.expires_at)
        authentication
      >>= λ _. require (user_by_id site session_record.user_id db) authentication >>= λ user.
          guard (not user.is_active) authentication >>= λ _.
          require (membership_of site session_record.organization_id session_record.user_id db)
            authentication
          >>= λ membership.
              issue_session site draws (principal_of user membership)
                (set_session site session_record.id (revoked draws.changed_at) db)
              >>= λ (issued, db').
                  let replacement =
                    session_by_hash (platform.sha256 issued.refresh_token)
                      (tables.sessions.rows db'.sessions) in
                  ok (
                    issued,
                    record_audit site draws (codes "auth.refresh") (some membership.organization_id)
                        (some user.id) none []
                        (set_session site session_record.id (replace_by replacement) db'),
                  )

  unfoldable pub refreshed :
      Draws → Option RefreshSession → Db tables → Outcome AuthError IssuedSession × Db tables
  unfolding revoke_session_lineage replayed rotate
  refreshed draws none db = (raise authentication, db)
  refreshed draws (some session_record) db =
      if is_set session_record.revoked_at && is_set session_record.replaced_by_session_id
      then replayed draws session_record
          (revoke_session_lineage site draws.changed_at session_record db) db
      else transact db (rotate draws session_record db)

  unfoldable pub refresh :
      Draws → (refresh_token : Text) → Db tables → Outcome AuthError IssuedSession × Db tables
  unfolding refreshed session_by_hash
  refresh draws refresh_token db =
      refreshed draws
        (session_by_hash (platform.sha256 refresh_token) (tables.sessions.rows db.sessions)) db

  unfoldable pub logged_out : Draws → Option RefreshSession → Db tables → Db tables
  unfolding set_session record_audit
  logged_out draws none db = db
  logged_out draws (some session_record) db =
      if is_set session_record.revoked_at
      then db
      else record_audit site draws (codes "auth.logout") (some session_record.organization_id)
          (some session_record.user_id) none []
          (set_session site session_record.id (revoked draws.changed_at) db)

  unfoldable pub logout : Draws → (refresh_token : Option Text) → Db tables → Db tables
  unfolding logged_out session_by_hash
  logout draws none db = db
  logout draws (some []) db = db
  logout draws (some (c ∷ token)) db =
      logged_out draws
        (session_by_hash (platform.sha256 (c ∷ token)) (tables.sessions.rows db.sessions)) db

  unfoldable pub uuid_of : Option Text → Option ℕ
  uuid_of none = none
  uuid_of (some text) = platform.ids.parse text

  unfoldable pub is_access : Option Text → Bool
  is_access none = false
  is_access (some typ) = text_eq typ (codes "access")

  unfoldable pub principal_from_access_token :
      (now : ℕ) (token : Text) → Db tables → Outcome AuthError Principal
  unfolding jwt_secret uuid_of is_access user_by_id membership_of
  principal_from_access_token now token db = jwt_secret settings.jwt_secret_key >>= λ secret.
      require
        (platform.decode now token secret settings.jwt_algorithm settings.jwt_audience
          settings.jwt_issuer)
        authentication
      >>= λ payload. guard (not (is_access (lookup (codes "typ") payload))) authentication >>= λ _.
          require (uuid_of (lookup (codes "sub") payload)) authentication >>= λ user_id.
          require (uuid_of (lookup (codes "org") payload)) authentication >>= λ organization_id.
          require (user_by_id site user_id db) authentication >>= λ user.
          guard (not user.is_active) authentication >>= λ _.
          require (membership_of site organization_id user_id db) authentication >>= λ membership.
          ok (principal_of user membership)
