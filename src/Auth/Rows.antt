-- ===== src/Auth/Rows.antt =====
-- The rows of db/models.py that accounts are stored in, the tables of them, and the values that
-- auth/service.py passes out. Ids are UUIDs, which are only compared, and times are numbers of
-- microseconds.
use multi_agent_ai_analyst.Prelude.{ℕ, ◌*◌, Bool, List, Option}
use multi_agent_ai_analyst.Prelude.Text.{Text}
use multi_agent_ai_analyst.Database.{Table}

pub record Organization : Type 0 where
  pub id : ℕ
  pub name : Text
  pub created_at : ℕ
  pub updated_at : ℕ

pub record User : Type 0 where
  pub id : ℕ
  pub email : Text
  pub display_name : Text
  pub password_hash : Text
  pub is_active : Bool
  pub created_at : ℕ
  pub updated_at : ℕ

pub record Membership : Type 0 where
  pub id : ℕ
  pub organization_id : ℕ
  pub user_id : ℕ
  pub role : Text
  pub created_at : ℕ

pub record Invite : Type 0 where
  pub id : ℕ
  pub organization_id : ℕ
  pub email : Text
  pub role : Text
  pub token_hash : Text
  pub expires_at : ℕ
  pub accepted_at : Option ℕ
  pub created_by_user_id : Option ℕ
  pub created_at : ℕ

pub record RefreshSession : Type 0 where
  pub id : ℕ
  pub user_id : ℕ
  pub organization_id : ℕ
  pub token_hash : Text
  pub expires_at : ℕ
  pub revoked_at : Option ℕ
  pub replaced_by_session_id : Option ℕ
  pub created_at : ℕ

pub record AuditEvent : Type 0 where
  pub id : ℕ
  pub organization_id : Option ℕ
  pub actor_user_id : Option ℕ
  pub event_type : Text
  pub target_id : Option ℕ
  pub details : List (Text × Text)
  pub created_at : ℕ

pub record PasswordResetToken : Type 0 where
  pub id : ℕ
  pub user_id : ℕ
  pub token_hash : Text
  pub expires_at : ℕ
  pub consumed_at : Option ℕ
  pub created_at : ℕ

pub record Tables : Type 1 where
  pub organizations : Table Organization
  pub users : Table User
  pub memberships : Table Membership
  pub invites : Table Invite
  pub sessions : Table RefreshSession
  pub audit : Table AuditEvent
  pub resets : Table PasswordResetToken

pub record Db (t : Tables) : Type 0 where
  pub organizations : t.organizations.State
  pub users : t.users.State
  pub memberships : t.memberships.State
  pub invites : t.invites.State
  pub sessions : t.sessions.State
  pub audit : t.audit.State
  pub resets : t.resets.State

pub record Principal : Type 0 where
  pub user_id : ℕ
  pub organization_id : ℕ
  pub role : Text
  pub email : Text

pub record IssuedSession : Type 0 where
  pub access_token : Text
  pub refresh_token : Text
  pub expires_in : ℕ
  pub principal : Principal

pub record CreatedInvite : Type 0 where
  pub id : ℕ
  pub email : Text
  pub expires_at : ℕ
  pub token : Text

-- The exceptions of the service. `stuck` is none of them: a loop was out of fuel.
pub data AuthError : Type 0 where
  authentication invitation bootstrap email_taken value_error stuck : AuthError

abbrev pub second : ℕ
second = 1000000

-- `timedelta(minutes=n)`
abbrev pub minutes : ℕ → ℕ
minutes n = n * 60 * second
