-- ===== src/Auth/Accounts.antt =====
-- auth/service.py: the first administrator, and registration.
use multi_agent_ai_analyst.Prelude.{true, [], ◌∷◌, ◌++◌, Option, none, some, Outcome, ok}
use multi_agent_ai_analyst.Prelude.Text.{Text, codes}
use multi_agent_ai_analyst.Auth.Rows.{
  Db, Principal, IssuedSession, AuthError, bootstrap, email_taken,
}
use multi_agent_ai_analyst.Auth.Credentials.{
  Site, Draws, normalize_email, required_text, hash_password,
}
use multi_agent_ai_analyst.Auth.Sessions.{user_by_email, record_audit, issue_session}
use multi_agent_ai_analyst.Auth.Transactions.{◌>>=◌, guard, is_found, transact}

-- `organization_name or f"{name}'s workspace"`
abbrev pub workspace_name : (name : Text) → Option Text → Text
workspace_name name none = name ++ codes "'s workspace"
workspace_name name (some []) = name ++ codes "'s workspace"
workspace_name name (some (c ∷ t)) = c ∷ t

abbrev pub founder : Draws → (email : Text) → Principal
founder draws email = record {
  user_id = draws.user_id;
  organization_id = draws.organization_id;
  role = codes "admin";
  email = email;
}

module _ (site : Site) where
  open site use {tables, platform, settings}

  -- The account, its organization, and the membership that administers it.
  unfoldable pub add_account :
      Draws → (email display_name password_hash organization_name : Text) → Db tables → Db tables
  add_account draws email display_name password_hash organization_name db = record db {
    organizations =
        tables.organizations.insert
          (record {
            id = draws.organization_id;
            name = organization_name;
            created_at = draws.stored_at;
            updated_at = draws.stored_at;
          })
          db.organizations;
    users =
        tables.users.insert
          (record {
            id = draws.user_id;
            email = email;
            display_name = display_name;
            password_hash = password_hash;
            is_active = true;
            created_at = draws.stored_at;
            updated_at = draws.stored_at;
          })
          db.users;
    memberships =
        tables.memberships.insert
          (record {
            id = draws.membership_id;
            organization_id = draws.organization_id;
            user_id = draws.user_id;
            role = codes "admin";
            created_at = draws.stored_at;
          })
          db.memberships;
  }

  unfoldable pub bootstrap_admin :
      Draws
      → (email password display_name organization_name : Text) → Db tables
      → Outcome AuthError Principal × Db tables
  unfolding normalize_email required_text hash_password user_by_email add_account record_audit
  bootstrap_admin draws email password display_name organization_name db = transact db (
      normalize_email platform email >>= λ normalized.
      guard (is_found (user_by_email site normalized db)) bootstrap >>= λ _.
      required_text 120 organization_name >>= λ organization.
      required_text 120 display_name >>= λ name.
      hash_password platform draws.salt password >>= λ hash. ok (
        founder draws normalized,
        record_audit site draws (codes "auth.admin_bootstrapped") (some draws.organization_id)
            (some draws.user_id) (some draws.user_id) []
            (add_account draws normalized name hash organization db),
      ))

  unfoldable pub register :
      Draws
      → (email password display_name : Text) (organization_name : Option Text) → Db tables
      → Outcome AuthError IssuedSession × Db tables
  unfolding normalize_email required_text hash_password user_by_email add_account issue_session
      record_audit
  register draws email password display_name organization_name db = transact db (
      normalize_email platform email >>= λ normalized. required_text 120 display_name >>= λ name.
      guard (is_found (user_by_email site normalized db)) email_taken >>= λ _.
      required_text 120 (workspace_name name organization_name) >>= λ organization.
      hash_password platform draws.salt password >>= λ hash.
      issue_session site draws (founder draws normalized)
        (add_account draws normalized name hash organization db)
      >>= λ (issued, db'). ok (
        issued,
        record_audit site draws (codes "auth.registered") (some draws.organization_id)
            (some draws.user_id) (some draws.user_id) [] db',
      ))
